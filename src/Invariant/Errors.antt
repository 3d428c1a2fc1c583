-- ===== src/Invariant/Errors.antt =====
-- What a public method of src/coordinator.rs has left of the state where it raises.
use rust_bitvmx_bitcoin.Common.{
  Bool, List, Option, Option-cases, String, [], arith, contains, contains-remove_all, false, inl,
  inr, none, refl, some, true, ℕ, ◌∷◌, ◌≡◌, nat_eq, string_eq,
}
use rust_bitvmx_bitcoin.Types.{
  BlockHeight, CoordinatedTx, CoordinatorNews, Error, SpeedupData, Transaction, TxKind, Txid, Utxo,
  err, needs_speedup, normal, state_eq, outpoint_eq, news_eq,
}
use rust_bitvmx_bitcoin.Storage.Db.{Db}
use rust_bitvmx_bitcoin.Storage.News.{add_news, push_news}
use rust_bitvmx_bitcoin.Storage.Pending.{remove_pending_speedup_parent}
use rust_bitvmx_bitcoin.Outside.{TypesToMonitor, other, transactions}
use rust_bitvmx_bitcoin.World.{World, modify, pure, updates, ◌>>=◌}
use rust_bitvmx_bitcoin.World.Keeps.{Keeps, Keeps-updates, keeps_rules}
use rust_bitvmx_bitcoin.World.Fails.{
  Fails, Fails-IsSure, Fails-Keeps, Fails-bind, IsSure, IsSure-bind, IsSure-modify, IsSure-pure,
  IsSure-updates, fails_rules, sure_rules,
}
use rust_bitvmx_bitcoin.Funding.{set_funding}
use rust_bitvmx_bitcoin.Engine.Common.{EngineContext, network_fee_rate}
use rust_bitvmx_bitcoin.Coordinator.{
  AckNews, add_funding, cancel_eligible, cancel_transactions, classify_cancel_request,
  coordinator_ack, coordinator_ack_news, coordinator_cancel, coordinator_dispatch, coordinator_news,
  dispatch_with_speedup, dispatch_without_speedup, monitor_ack, register_new, register_tx,
  split_cancel, store_registered,
}
use rust_bitvmx_bitcoin.Invariant.Session.{
  ApiCall, acked_news, asked_news, asked_transaction, cancelled_all, dispatched, dispatched_plain,
  dispatched_speedup, funded, restarted, serve, ticked, watched,
}

-- The calls that may have written something before they raise.
abbrev pub is_tick : ApiCall → Bool
is_tick (ticked fuel) = true
is_tick (dispatched_plain tx context target trigger stuck) = false
is_tick (dispatched_speedup tx d context target trigger) = false
is_tick (dispatched tx d context target trigger) = false
is_tick (cancelled_all what) = false
is_tick (funded utxo) = false
is_tick (asked_transaction txid) = false
is_tick asked_news = false
is_tick (acked_news a) = false
is_tick (watched what) = false
is_tick restarted = false

abbrev pub is_cancel : ApiCall → Bool
is_cancel (ticked fuel) = false
is_cancel (dispatched_plain tx context target trigger stuck) = false
is_cancel (dispatched_speedup tx d context target trigger) = false
is_cancel (dispatched tx d context target trigger) = false
is_cancel (cancelled_all what) = true
is_cancel (funded utxo) = false
is_cancel (asked_transaction txid) = false
is_cancel asked_news = false
is_cancel (acked_news a) = false
is_cancel (watched what) = false
is_cancel restarted = false

true-false : true ≡ false → ⊥
true-false e = ground arith

-- The records, the list of speedups and the funding are those of the first state, and no txid has
-- joined the pending parents.
abbrev pub HasBooksOf : Db → Db → Type 0
HasBooksOf d db =
    (db.txs ≡ d.txs)
    × (db.speedup_list ≡ d.speedup_list)
    × (db.funding_list ≡ d.funding_list)
    × (db.funding ≡ d.funding)
    × ((k : Txid)
        → contains db.pending_speedup_parents k ≡ true
        → contains d.pending_speedup_parents k ≡ true)

module _ (ctx : EngineContext) (R : Db → Type 0) where
  open ctx use {outside as o, settings}

  network_fee_rate-Keeps : Keeps R (network_fee_rate ctx)
  unfolding network_fee_rate
  network_fee_rate-Keeps = search keeps_rules

  store_registered-IsSure : (tx : CoordinatedTx) → IsSure (store_registered ctx tx)
  store_registered-IsSure tx = search sure_rules

  register_new-Fails :
      (tx : Transaction) (kind : TxKind) (context : String) (target : Option BlockHeight)
      (trigger stuck : Option ℕ)
      → Fails R (register_new ctx tx kind context target trigger stuck)
  unfolding register_new
  register_new-Fails tx kind context target trigger stuck =
      search (fails_rules, network_fee_rate-Keeps, store_registered-IsSure, Fails-IsSure) depth 14

  register_tx-Fails :
      (tx : Transaction) (kind : TxKind) (context : String) (target : Option BlockHeight)
      (trigger stuck : Option ℕ)
      → Fails R (register_tx ctx tx kind context target trigger stuck)
  unfolding register_tx
  register_tx-Fails tx kind context target trigger stuck =
      search (fails_rules, register_new-Fails) depth 12

  dispatch-Fails :
      (tx : Transaction) (sd : Option SpeedupData) (context : String) (target : Option BlockHeight)
      (trigger : Option ℕ)
      → Fails R (coordinator_dispatch ctx tx sd context target trigger)
  unfolding coordinator_dispatch dispatch_with_speedup dispatch_without_speedup
  dispatch-Fails tx (some sd) context target trigger =
      register_tx-Fails tx (needs_speedup sd) context target trigger none
  dispatch-Fails tx none context target trigger =
      register_tx-Fails tx normal context target trigger none

  add_funding-IsSure : (utxo : Utxo) → IsSure (add_funding ctx utxo)
  unfolding add_funding
  add_funding-IsSure utxo =
      IsSure-bind (updates (set_funding settings.funding utxo)) _ (IsSure-updates _) by_news
    where
      by_news :
          (n : Option CoordinatorNews)
          → IsSure (elim n [ none ↦ pure tt | some m ↦ modify (push_news m) ])
      by_news none = IsSure-pure tt
      by_news (some n) = IsSure-modify (push_news n)

  ack-Fails : (a : AckNews) → Fails R (coordinator_ack_news ctx a)
  unfolding coordinator_ack_news
  ack-Fails (monitor_ack n) = Fails-Keeps _ (search keeps_rules)
  ack-Fails (coordinator_ack n) = search (fails_rules, Fails-IsSure)

  read_news-Keeps : Keeps R (coordinator_news ctx >>= λ news. pure tt)
  unfolding coordinator_news
  read_news-Keeps = search keeps_rules depth 12

  -- A call that is not a tick, nor a cancel.
  plain-Fails : (c : ApiCall) → is_tick c ≡ false → is_cancel c ≡ false → Fails R (serve ctx c)
  unfolding serve dispatch_with_speedup dispatch_without_speedup
  plain-Fails (ticked fuel) t k = absurd (true-false t)
  plain-Fails (dispatched_plain tx context target trigger stuck) t k =
      register_tx-Fails tx normal context target trigger stuck
  plain-Fails (dispatched_speedup tx sd context target trigger) t k =
      register_tx-Fails tx (needs_speedup sd) context target trigger none
  plain-Fails (dispatched tx sd context target trigger) t k =
      dispatch-Fails tx sd context target trigger
  plain-Fails (cancelled_all what) t k = absurd (true-false k)
  plain-Fails (funded utxo) t k = Fails-IsSure (add_funding ctx utxo) (add_funding-IsSure utxo)
  plain-Fails (asked_transaction txid) t k = Fails-Keeps _ (search keeps_rules)
  plain-Fails asked_news t k = Fails-Keeps _ read_news-Keeps
  plain-Fails (acked_news a) t k = ack-Fails a
  plain-Fails (watched what) t k = Fails-Keeps _ (search keeps_rules)
  plain-Fails restarted t k = record { at = λ w e kept h. kept }

module _ (ctx : EngineContext) (d : Db) where
  unlisted-Books : (id : Txid) → Keeps (HasBooksOf d) (modify (remove_pending_speedup_parent id))
  unfolding remove_pending_speedup_parent
  unlisted-Books id = record {
    at = λ w (txs, listed, queue, funds, pending). (
      txs,
      listed,
      queue,
      funds,
      λ k c. pending k (ground (arith, contains-remove_all id k w.db.pending_speedup_parents)),
    );
  }

  split-Books : (ids : List Txid) (db : Db) → HasBooksOf d db → HasBooksOf d (split_cancel ids db).1
  unfolding split_cancel add_news
  split-Books [] db h = h
  split-Books (id ∷ ids) db h = elim (Option-cases (classify_cancel_request id db)) [
    | inl e ↦ rw (e, split_cancel) (split-Books ids db h)
    | inr (reason, e) ↦ rw (e, split_cancel) (split-Books ids _ (ground (arith, h)))
  ]

  cancel_eligible-Fails :
      (ids : List Txid) (context : String) (trigger : Option ℕ)
      → Fails (HasBooksOf d) (cancel_eligible ctx ids context trigger)
  cancel_eligible-Fails ids context trigger =
      search (fails_rules, unlisted-Books, Fails-IsSure) depth 14

  cancel-Fails : (what : TypesToMonitor) → Fails (HasBooksOf d) (coordinator_cancel ctx what)
  unfolding coordinator_cancel cancel_transactions
  cancel-Fails (transactions ids context trigger) =
      Fails-bind (updates (split_cancel ids)) _ (Keeps-updates (split_cancel ids) (split-Books ids))
        (λ el. cancel_eligible-Fails el context trigger)
  cancel-Fails (other n) = Fails-Keeps _ (search keeps_rules)

  books-Fails : (c : ApiCall) → is_tick c ≡ false → Fails (HasBooksOf d) (serve ctx c)
  unfolding serve
  books-Fails (ticked fuel) t = absurd (true-false t)
  books-Fails (dispatched_plain tx context target trigger stuck) t =
      plain-Fails ctx (HasBooksOf d) (dispatched_plain tx context target trigger stuck) refl refl
  books-Fails (dispatched_speedup tx sd context target trigger) t =
      plain-Fails ctx (HasBooksOf d) (dispatched_speedup tx sd context target trigger) refl refl
  books-Fails (dispatched tx sd context target trigger) t =
      plain-Fails ctx (HasBooksOf d) (dispatched tx sd context target trigger) refl refl
  books-Fails (cancelled_all what) t = cancel-Fails what
  books-Fails (funded utxo) t = plain-Fails ctx (HasBooksOf d) (funded utxo) refl refl
  books-Fails (asked_transaction txid) t =
      plain-Fails ctx (HasBooksOf d) (asked_transaction txid) refl refl
  books-Fails asked_news t = plain-Fails ctx (HasBooksOf d) asked_news refl refl
  books-Fails (acked_news a) t = plain-Fails ctx (HasBooksOf d) (acked_news a) refl refl
  books-Fails (watched what) t = plain-Fails ctx (HasBooksOf d) (watched what) refl refl
  books-Fails restarted t = plain-Fails ctx (HasBooksOf d) restarted refl refl

-- A public method other than the tick that returns an error has left all records, the list of
-- speedups and the funding as they were, and has made no parent wait for a speedup; unless it is a
-- cancel, it has left the whole store as it was.
pub failed_calls_leave :
    (ctx : EngineContext) (c : ApiCall) (w : World) (e : Error)
    → is_tick c ≡ false
    → (serve ctx c w).0 ≡ err e
    → let db' = (serve ctx c w).1.db in HasBooksOf w.db db' × (is_cancel c ≡ false → db' ≡ w.db)
failed_calls_leave ctx c w e t h = (
  (books-Fails ctx w.db c t).at w e (refl, refl, refl, refl, λ k listed. listed) h,
  λ k. (plain-Fails ctx (λ db. db ≡ w.db) c t k).at w e refl h,
)
