-- ===== src/Invariant/Review.antt =====
-- The review steps of both engines (src/engines) keep the state well formed.
use rust_bitvmx_bitcoin.Common.{
  Bool, List, Option-cases, [], false, filter, if◌then◌else◌, inl, inr, length, not, suc, true, ℕ,
  ◌&&◌, ◌∷◌, nat_eq, string_eq,
}
use rust_bitvmx_bitcoin.Types.{
  BlockHeight, CoordinatedTx, CoordinatorNews, Txid, failed, transaction_evicted, state_eq,
  outpoint_eq, news_eq,
}
use rust_bitvmx_bitcoin.Config.{CoordinatorStorageSettings}
use rust_bitvmx_bitcoin.Storage.Db.{Db, Scan, get_active_txs, get_settled_txs}
use rust_bitvmx_bitcoin.Storage.Speedups.{get_speedups_ordered}
use rust_bitvmx_bitcoin.Storage.Records.{remove_tx, requeue_not_found}
use rust_bitvmx_bitcoin.Storage.Evict.{
  evict_loop, evict_one, evict_stale_txs, is_protected, is_stale, live_covered,
}
use rust_bitvmx_bitcoin.Storage.Evict.Exact.{ScansAll}
use rust_bitvmx_bitcoin.Storage.WellFormed.Operations.{
  Frame, IsSafe, Within, push_news-Within, remove_tx-Within, requeue_not_found-Within,
  settle_tx-Within,
}
use rust_bitvmx_bitcoin.Storage.WellFormed.Funds.{replace-Within}
use rust_bitvmx_bitcoin.World.{M, for_each, modify, reads, ◌>>=◌}
use rust_bitvmx_bitcoin.World.Keeps.{
  Keeps, Keeps-for_each-All, Keeps-modify, Keeps-tries, keeps_rules,
}
use rust_bitvmx_bitcoin.Engine.Common.{EngineContext}
use rust_bitvmx_bitcoin.Engine.Failure.{rbf_of}
use rust_bitvmx_bitcoin.Engine.Review.{
  act_on_speedup_status, act_on_status, finalize_speedup, remove_replaced_rbf, review_in_mempool,
  review_speedup, review_transaction,
}
use rust_bitvmx_bitcoin.Engine.Transactions.{is_reviewed, review_active}
use rust_bitvmx_bitcoin.Engine.Speedup.{review_speedups}
use rust_bitvmx_bitcoin.Invariant.Snapshot.{
  All-sub, Anything, Keeps-anyhow, Keeps-step, Kept, Listed, active-IsSafe, resolve-IsSafe,
}
use rust_bitvmx_bitcoin.Invariant.Outcome.{
  mark_confirmed-Keeps, mark_finalized-Keeps, mark_orphan-Keeps, mark_reorg-Keeps,
}
use rust_bitvmx_bitcoin.Engine.Review.Chain.{remove_chain-Keeps}

module _ (L : Frame) where
  Keeps-if :
      (b : Bool) (m n : M (Unit {0}))
      → Keeps (Within L) m
      → Keeps (Within L) n
      → Keeps (Within L) (if b then m else n)
  Keeps-if true m n km kn = km
  Keeps-if false m n km kn = kn

  evict_if-Within :
      (b : Bool) (tx : CoordinatedTx) (db : Db)
      → Within L db
      → Within L (if b then evict_one tx db else db)
  evict_if-Within true tx db kept =
      push_news-Within L (transaction_evicted tx.txid tx.context) (remove_tx tx.txid db)
        (remove_tx-Within L tx.txid db kept)
  evict_if-Within false tx db kept = kept

  evict_loop-Within :
      (n : ℕ) (h : BlockHeight) (psp covered : List Txid) (txs : List CoordinatedTx) (db : Db)
      → Within L db
      → Within L (evict_loop n h psp covered txs db)
  unfolding evict_loop
  evict_loop-Within n h psp covered [] db kept = kept
  evict_loop-Within n h psp covered (tx ∷ txs) db kept =
      evict_loop-Within n h psp covered txs _
        (evict_if-Within (is_stale n h tx && not (is_protected psp covered tx)) tx db kept)

  pub evict_stale_txs-Within :
      (scan : Scan) (s : CoordinatorStorageSettings) (h : BlockHeight) (db : Db)
      → Within L db
      → Within L (evict_stale_txs scan s h db)
  unfolding evict_stale_txs
  evict_stale_txs-Within scan s h db =
      evict_loop-Within s.max_tracking_confirmations h db.pending_speedup_parents
        (live_covered (get_speedups_ordered db)) (get_settled_txs scan db) db

module _ (ctx : EngineContext) (L : Frame) where
  open ctx use {outside as o}

  requeued-Keeps :
      (id : Txid) (h : BlockHeight) → Keeps (Within L) (modify (requeue_not_found id h))
  requeued-Keeps id h = Keeps-modify (requeue_not_found id h) (requeue_not_found-Within L id h)

  ruleset review_rules = (
    keeps_rules, Keeps-if, requeued-Keeps, mark_finalized-Keeps, mark_confirmed-Keeps,
    mark_orphan-Keeps, mark_reorg-Keeps,
  )

  review_in_mempool-Keeps :
      (tx : CoordinatedTx) (h : BlockHeight)
      → IsSafe L tx
      → Keeps (Within L) (review_in_mempool ctx tx h)
  unfolding review_in_mempool
  review_in_mempool-Keeps tx h safe = search (review_rules, Keeps-modify, push_news-Within L, safe)

  review_transaction-Keeps :
      (h : BlockHeight) (tx : CoordinatedTx)
      → IsSafe L tx
      → Keeps (Within L) (review_transaction ctx h tx)
  unfolding review_transaction act_on_status
  review_transaction-Keeps h tx safe = search (review_rules, review_in_mempool-Keeps, safe) depth 12

  remove_replaced_rbf-Keeps :
      (tx : CoordinatedTx) (h : BlockHeight) → Keeps (Within L) (remove_replaced_rbf ctx tx h)
  unfolding remove_replaced_rbf
  remove_replaced_rbf-Keeps tx h = elim (Option-cases (rbf_of tx.kind)) [
    | inl e ↦ record { at = λ w kept. rw (e, remove_replaced_rbf) kept }
    | inr (r, e) ↦ record {
      at = λ w kept.
          rw (e, remove_replaced_rbf)
            ((remove_chain-Keeps ctx (suc (length w.db.txs)) tx r.0 h
                (λ k. settle_tx-Within L k failed h)).at
              w kept);
    }
  ]

  finalize_speedup-Keeps :
      (tx : CoordinatedTx) (h : BlockHeight) → Keeps (Within L) (finalize_speedup ctx tx h)
  finalize_speedup-Keeps tx h =
      search (review_rules, remove_replaced_rbf-Keeps, Keeps-tries, replace-Within L)

  review_speedup-Keeps :
      (all : List CoordinatedTx) (h : BlockHeight) (tx : CoordinatedTx)
      → IsSafe L tx
      → Keeps (Within L) (review_speedup ctx all h tx)
  unfolding review_speedup act_on_speedup_status
  review_speedup-Keeps all h tx safe = search (review_rules, finalize_speedup-Keeps, safe) depth 14

module _ (ctx : EngineContext) (N : CoordinatorNews → Type 0) where
  open ctx use {outside as o, settings}

  reviewed-Keeps :
      (h : BlockHeight)
      → ScansAll o.scan
      → Keeps (Kept N) (
          reads (get_active_txs o.scan) >>= λ active.
          for_each (filter (is_reviewed ctx) active) (review_transaction ctx h))
  reviewed-Keeps h scans =
      Keeps-step (get_active_txs o.scan)
        (λ active. for_each (filter (is_reviewed ctx) active) (review_transaction ctx h))
        (λ db wf.
          Keeps-for_each-All (IsSafe (Listed N db))
            (filter (is_reviewed ctx) (get_active_txs o.scan db)) (review_transaction ctx h)
            (All-sub (IsSafe (Listed N db)) (is_reviewed ctx) _
              (active-IsSafe N o.scan db scans wf))
            (review_transaction-Keeps ctx (Listed N db) h))

  evicted-Keeps :
      (h : BlockHeight) → Keeps (Kept N) (modify (evict_stale_txs o.scan settings.storage h))
  evicted-Keeps h = Keeps-anyhow (modify (evict_stale_txs o.scan settings.storage h)) (
      Keeps-modify (evict_stale_txs o.scan settings.storage h)
        (evict_stale_txs-Within (Anything N) o.scan settings.storage h))

  pub review_active-Keeps : ScansAll o.scan → Keeps (Kept N) (review_active ctx)
  unfolding review_active
  review_active-Keeps scans = search (keeps_rules, evicted-Keeps, reviewed-Keeps, scans) depth 12

  all_reviewed-Keeps :
      (h : BlockHeight)
      → Keeps
          (Kept N)
          (reads get_speedups_ordered >>= λ all. for_each all (review_speedup ctx all h))
  unfolding get_speedups_ordered
  all_reviewed-Keeps h =
      Keeps-step get_speedups_ordered (λ all. for_each all (review_speedup ctx all h))
        (λ db wf.
          let all = get_speedups_ordered db in
          Keeps-for_each-All (IsSafe (Listed N db)) all (review_speedup ctx all h)
            (resolve-IsSafe N db db.speedup_list wf) (review_speedup-Keeps ctx (Listed N db) all h))

  pub review_speedups-Keeps : Keeps (Kept N) (review_speedups ctx)
  unfolding review_speedups
  review_speedups-Keeps = search (keeps_rules, all_reviewed-Keeps)
