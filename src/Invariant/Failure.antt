-- ===== src/Invariant/Failure.antt =====
-- Failing a transaction and what depends on it (src/engines/common.rs) keeps the state well formed.
use rust_bitvmx_bitcoin.Common.{
  All, Bool, Bool-cases, IsUnique, List, Option-cases, [], false, filter, inl, inr, push_new,
  push_new-IsUnique, suc, true, zero, ℕ, ◌∷◌, nat_eq, string_eq,
}
use rust_bitvmx_bitcoin.Common.Maps.{lookup}
use rust_bitvmx_bitcoin.Types.{BlockHeight, CoordinatedTx, Txid, state_eq, outpoint_eq, news_eq}
use rust_bitvmx_bitcoin.Storage.Db.{Db}
use rust_bitvmx_bitcoin.Storage.Pending.{
  cpfp_parents, needing_speedup, prepend_pending_speedup_parents,
}
use rust_bitvmx_bitcoin.Storage.Speedups.{get_speedups_ordered, resolve}
use rust_bitvmx_bitcoin.Storage.WellFormed.{IsWellFormed}
use rust_bitvmx_bitcoin.Storage.WellFormed.Operations.{
  Frame, Within, push_news-Within, settle_tx-Within,
}
use rust_bitvmx_bitcoin.Storage.WellFormed.Funds.{
  mark_parents_unspent-Within, prepend-Within, release_rbf-Within, requeue-Within,
}
use rust_bitvmx_bitcoin.World.{M, modify, reads, when, ◌>>=◌}
use rust_bitvmx_bitcoin.World.Keeps.{
  Keeps, Keeps-bind, Keeps-for_each-All, Keeps-modify, Keeps-read, Keeps-tries, Keeps-when,
  keeps_rules,
}
use rust_bitvmx_bitcoin.Invariant.Snapshot.{All-sub}
use rust_bitvmx_bitcoin.Engine.Failure.{
  cascade, cascade_fuel, cascade_over, depends_on, distinct, fail_and_cascade, is_first_cpfp,
  is_to_dispatch, rebuild_survivors, settle_failed_child, settle_failed_dispatch,
}

-- What is asked of a transaction that is failed: its parents are distinct.
abbrev pub HasDistinctParents : CoordinatedTx → Type 0
HasDistinctParents tx = IsUnique (cpfp_parents tx)

pub resolve-distinct :
    (db : Db) (ids : List Txid) → IsWellFormed db → All HasDistinctParents (resolve db ids)
resolve-distinct db [] wf = tt
resolve-distinct db (id ∷ ids) wf = elim (Option-cases (lookup id db.txs)) [
  | inl e ↦ rw (e, resolve) (resolve-distinct db ids wf)
  | inr (t, e) ↦ rw (e, resolve) (wf.parents_once id t e, resolve-distinct db ids wf)
]

distinct-IsUnique : (acc ids : List Txid) → IsUnique acc → IsUnique (distinct acc ids)
distinct-IsUnique acc [] once = once
distinct-IsUnique acc (id ∷ ids) once =
    distinct-IsUnique (push_new acc id) ids (push_new-IsUnique acc id once)

module _ (L : Frame) where
  settle_failed_dispatch-Keeps :
      (tx : CoordinatedTx) (h : BlockHeight) (fm : Bool)
      → HasDistinctParents tx
      → Keeps (Within L) (settle_failed_dispatch tx h fm)
  unfolding settle_failed_dispatch
  settle_failed_dispatch-Keeps tx h fm once =
      search
        (
          keeps_rules,
          Keeps-modify,
          Keeps-tries,
          settle_tx-Within L,
          push_news-Within L,
          mark_parents_unspent-Within L,
          release_rbf-Within L,
          requeue-Within L,
        )
        depth 12

  -- The loop over the speedups that the store lists.
  cascade_over-Keeps :
      (fail : CoordinatedTx → M (Unit {0})) (tx : CoordinatedTx)
      → ((d : CoordinatedTx) → HasDistinctParents d → Keeps (Within L) (fail d))
      → Keeps (Within L) (reads get_speedups_ordered >>= cascade_over fail tx)
  unfolding get_speedups_ordered
  cascade_over-Keeps fail tx kept =
      Keeps-read get_speedups_ordered (cascade_over fail tx) (λ db in_db.
        Keeps-for_each-All HasDistinctParents (filter is_to_dispatch (resolve db db.speedup_list))
          (λ d. when (depends_on tx d) (fail d))
          (All-sub HasDistinctParents is_to_dispatch _
            (resolve-distinct db db.speedup_list in_db.0))
          (λ d fine. Keeps-when (depends_on tx d) (fail d) (kept d fine)))

  fail_and_cascade-Keeps :
      (fuel : ℕ) (tx : CoordinatedTx) (h : BlockHeight) (fm : Bool)
      → HasDistinctParents tx
      → Keeps (Within L) (fail_and_cascade fuel tx h fm)
  unfolding fail_and_cascade
  fail_and_cascade-Keeps zero tx h fm once = search keeps_rules
  fail_and_cascade-Keeps (suc fuel) tx h fm once =
      Keeps-bind (settle_failed_dispatch tx h fm)
        (λ _. reads get_speedups_ordered >>= cascade_over (λ d. fail_and_cascade fuel d h true) tx)
        (settle_failed_dispatch-Keeps tx h fm once)
        (λ _.
          cascade_over-Keeps (λ d. fail_and_cascade fuel d h true) tx
            (λ d. fail_and_cascade-Keeps fuel d h true))

  pub cascade-Keeps :
      (tx : CoordinatedTx) (h : BlockHeight) (fm : Bool)
      → HasDistinctParents tx
      → Keeps (Within L) (cascade tx h fm)
  unfolding cascade
  cascade-Keeps tx h fm once = record {
    at = λ w in_db. (fail_and_cascade-Keeps (cascade_fuel w.db) tx h fm once).at w in_db;
  }

  requeue_distinct-Keeps :
      (alive : List Txid)
      → Keeps (Within L) (
          reads (λ db. distinct [] (needing_speedup db alive)) >>= λ ids.
          modify (prepend_pending_speedup_parents ids))
  requeue_distinct-Keeps alive =
      Keeps-read (λ db. distinct [] (needing_speedup db alive))
        (λ ids. modify (prepend_pending_speedup_parents ids))
        (λ db in_db.
          Keeps-modify (prepend_pending_speedup_parents (distinct [] (needing_speedup db alive)))
            (λ db'. prepend-Within L _ db' (distinct-IsUnique [] (needing_speedup db alive) tt)))

  rebuild_survivors-Keeps :
      (tx : CoordinatedTx) (h : BlockHeight)
      → HasDistinctParents tx
      → Keeps (Within L) (rebuild_survivors tx h)
  unfolding rebuild_survivors
  rebuild_survivors-Keeps tx h once =
      search (keeps_rules, Keeps-modify, cascade-Keeps, requeue_distinct-Keeps) depth 12

  pub settle_failed_child-Keeps :
      (tx : CoordinatedTx) (h : BlockHeight)
      → HasDistinctParents tx
      → Keeps (Within L) (settle_failed_child tx h)
  unfolding settle_failed_child
  settle_failed_child-Keeps tx h once = elim (Bool-cases (is_first_cpfp tx)) [
    | inl e ↦ rw e (rebuild_survivors-Keeps tx h once)
    | inr e ↦ rw e (cascade-Keeps tx h false once)
  ]
