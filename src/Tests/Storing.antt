-- ===== src/Tests/Storing.antt =====
-- Runs of the storage.
use rust_bitvmx_bitcoin.Common.{
  List, [], arith, contains, derived_eqb, none, not, refl, true, ◌↔◌, ◌∷◌, ◌≡◌, nat_eq, string_eq,
}
use rust_bitvmx_bitcoin.Common.Maps.{lookup}
use rust_bitvmx_bitcoin.Types.{
  ℕ_discrete, CoordinatorNews-discrete, confirmed, finalized, in_mempool, insufficient_funds,
  to_dispatch, state_eq, outpoint_eq, news_eq,
}
use rust_bitvmx_bitcoin.Tests.Data.{child_tx, parent_tx, seen, store}
use rust_bitvmx_bitcoin.Storage.News.{
  ack_news, add_news, cleanup_news, get_news, has_news, push_news,
}
use rust_bitvmx_bitcoin.Storage.News.Inbox.{
  HasUniqueNews, get_news-ack_news, get_news-add_news, get_news-cleanup_news, news_unique,
  readd_after_ack,
}
use rust_bitvmx_bitcoin.Storage.Records.Transitions.{
  Evolves, IsKeyed, Move, moves_follow_lifecycle, requeue, retry, run, run_all, settle, update,
}
use rust_bitvmx_bitcoin.Storage.Evict.{evict_stale_txs}
use rust_bitvmx_bitcoin.Storage.Evict.Exact.{IsStored, ScansAll, evict_stale_txs_exact}
use rust_bitvmx_bitcoin.Storage.Pending.{
  add_pending_speedup_parent, get_pending_speedup_parents, prepend_pending_speedup_parents,
  remove_pending_speedup_parent, requeue_protocol_parents,
}
use rust_bitvmx_bitcoin.Storage.Pending.Queue.{
  HasUniquePending, get_pending_speedup_parents_exact, pending_unique,
}
use rust_bitvmx_bitcoin.Helper.{can_transition_to}
use rust_bitvmx_bitcoin.Helper.Lifecycle.{Step, can_transition_iff, final_state, terminal_forever}
use rust_bitvmx_bitcoin.Storage.Speedups.{get_speedups_ordered}

can_transition_iff_example :
    (can_transition_to confirmed to_dispatch ≡ true) ↔ Step confirmed to_dispatch
can_transition_iff_example = can_transition_iff confirmed to_dispatch

terminal_forever_example : final_state finalized (finalized ∷ finalized ∷ []) ≡ finalized
unfolding can_transition_to
terminal_forever_example =
    terminal_forever finalized (finalized ∷ finalized ∷ []) tt (refl, (refl, tt))

store-IsKeyed : IsKeyed store.txs
unfolding lookup
store-IsKeyed k t h = ground arith

abbrev some_moves : List Move
some_moves = update 7 confirmed ∷ settle 8 finalized 100 ∷ requeue 7 106 ∷ retry 9 ∷ []

moves_follow_lifecycle_example :
    let now = run_all some_moves store in
    Evolves
      (update 7 in_mempool)
      7
      (lookup 7 now.txs)
      (lookup 7 (run (update 7 in_mempool) now).txs)
moves_follow_lifecycle_example =
    moves_follow_lifecycle some_moves (update 7 in_mempool) store store-IsKeyed 7

pub store_news : HasUniqueNews store
unfolding derived_eqb CoordinatorNews-discrete
store_news = (refl, (refl, tt))

seen_shown : contains (get_news store) seen ≡ true
unfolding get_news derived_eqb CoordinatorNews-discrete ℕ_discrete
seen_shown = refl

news_unique_example :
    HasUniqueNews (push_news seen store)
    × HasUniqueNews (ack_news seen 110 store)
    × HasUniqueNews (cleanup_news 110 store)
    × ((add_news seen store).0 ≡ not (has_news seen store.news))
news_unique_example = news_unique seen 110 store store_news

get_news-add_news_example :
    get_news (push_news (insufficient_funds 1 2) store) ≡ seen ∷ insufficient_funds 1 2 ∷ []
unfolding get_news derived_eqb CoordinatorNews-discrete ℕ_discrete
get_news-add_news_example = get_news-add_news (insufficient_funds 1 2) store

get_news-cleanup_news_example : get_news (cleanup_news 110 store) ≡ seen ∷ []
unfolding get_news derived_eqb CoordinatorNews-discrete ℕ_discrete
get_news-cleanup_news_example = get_news-cleanup_news 110 store

get_news-ack_news_example : get_news (ack_news seen 110 store) ≡ []
unfolding get_news derived_eqb CoordinatorNews-discrete ℕ_discrete
get_news-ack_news_example = get_news-ack_news seen 110 store store_news

readd_after_ack_example :
    get_news (push_news seen (cleanup_news 111 (ack_news seen 110 store))) ≡ seen ∷ []
unfolding get_news derived_eqb CoordinatorNews-discrete ℕ_discrete
readd_after_ack_example = readd_after_ack seen 110 111 store store_news seen_shown

store_IsStored : IsStored store.txs
store_IsStored = (refl, refl, (refl, refl, (refl, refl, tt)))

pub scans_all : ScansAll (λ l. l)
scans_all p l = refl

evict_stale_txs_exact_example :
    lookup 8 (evict_stale_txs (λ l. l) (record { max_tracking_confirmations = 6 }) 106 store).txs
    ≡ none
unfolding lookup get_speedups_ordered
evict_stale_txs_exact_example =
    evict_stale_txs_exact (λ l. l) (record { max_tracking_confirmations = 6 }) 106 store scans_all
      store_IsStored 8

get_pending_speedup_parents_exact_example :
    get_pending_speedup_parents store
    ≡ (parent_tx ∷ [], record store { pending_speedup_parents = 7 ∷ [] })
unfolding lookup
get_pending_speedup_parents_exact_example = get_pending_speedup_parents_exact store

pending_unique_example :
    HasUniquePending (add_pending_speedup_parent 12 store)
    × HasUniquePending (prepend_pending_speedup_parents (11 ∷ 13 ∷ []) store)
    × HasUniquePending (remove_pending_speedup_parent 12 store)
    × HasUniquePending (requeue_protocol_parents child_tx store)
    × HasUniquePending (get_pending_speedup_parents store).1
pending_unique_example =
    pending_unique 12 (11 ∷ 13 ∷ []) child_tx store (refl, (refl, (refl, tt))) (refl, (refl, tt))
      (refl, tt)
