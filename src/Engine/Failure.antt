-- ===== src/Engine/Failure.antt =====
-- Failure in src/engines/common.rs: settling a transaction Failed, and with it the speedups that
-- wait on it. `fail_and_cascade` recurs through the store, so it takes fuel.
pub mod Shrink
pub mod Settle
pub mod Waiting
pub mod Cascade
use rust_bitvmx_bitcoin.Common.{
  Bool, List, Option, [], contains, false, filter, first, if◌then◌else◌, length, map, none, not,
  push_new, some, suc, true, zero, ℕ, ◌==◌, ◌||◌, ◌∷◌, nat_eq, string_eq,
}
use rust_bitvmx_bitcoin.Types.{
  BlockHeight, CoordinatedTx, CoordinatorNews, OutPoint, Result, SpeedupKind, TxKind, Txid, Utxo,
  cpfp, dispatch_error, err, failed, needs_speedup, normal, ok, out_of_fuel, rbf, speedup,
  speedup_dispatch_error, to_dispatch, state_eq, outpoint_eq, news_eq,
}
use rust_bitvmx_bitcoin.Storage.Db.{Db, get_tx_by_id, update_tx}
use rust_bitvmx_bitcoin.Storage.News.{push_news}
use rust_bitvmx_bitcoin.Storage.Records.{settle_tx}
use rust_bitvmx_bitcoin.Storage.Speedups.{get_speedups_ordered}
use rust_bitvmx_bitcoin.Storage.Pending.{
  needing_speedup, prepend_pending_speedup_parents, requeue_protocol_parents,
}
use rust_bitvmx_bitcoin.Storage.Funding.{is_speedup, is_tx_failed}
use rust_bitvmx_bitcoin.Helper.{
  context, context_mut, is_boost, non_funding_inputs, parents, speedup_kind,
}
use rust_bitvmx_bitcoin.World.{M, for_each, modify, raise, reads, tries, when, ◌>>=◌, ◌>>◌}
use rust_bitvmx_bitcoin.Funding.{mark_parents_unspent, release_marks}

abbrev pub dispatch_error_news : CoordinatedTx → Txid → CoordinatorNews
dispatch_error_news tx txid =
    if is_speedup tx then speedup_dispatch_error txid tx.context else dispatch_error txid tx.context

abbrev pub cpfp_of : TxKind → Bool
cpfp_of (speedup (cpfp ps c)) = true
cpfp_of (speedup (rbf r i c)) = false
cpfp_of normal = false
cpfp_of (needs_speedup d) = false

-- `replaces` and `new_funding_inputs` of an RBF.
abbrev pub rbf_of : TxKind → Option (Txid × List Utxo)
rbf_of (speedup (rbf r i c)) = some (r, i)
rbf_of (speedup (cpfp ps c)) = none
rbf_of normal = none
rbf_of (needs_speedup d) = none

-- A write of `replaced_by` through `speedup_kind_mut` and `context_mut`.
abbrev pub set_replaced_by : Option Txid → SpeedupKind → TxKind
set_replaced_by v k = speedup (context_mut (record (context k) { replaced_by = v }) k)

abbrev pub is_to_dispatch : CoordinatedTx → Bool
is_to_dispatch tx = tx.state == to_dispatch

-- Whether a speedup's primary funding input or one of its parents is `tx`.
abbrev pub depends_on : CoordinatedTx → CoordinatedTx → Bool
depends_on tx d = elim (speedup_kind d) [
  | err e ↦ false
  | ok k ↦
      (elim (first (context k).funding_inputs) [ none ↦ false | some fi ↦ fi.txid == tx.txid ])
      || contains (parents k) tx.txid
]

-- `replaced.speedup_kind_mut()?.context_mut().replaced_by = Some(txid)` on the predecessor's record.
unfoldable pub mark_replaced : Txid → CoordinatedTx → Db → Result (Unit {0}) × Db
mark_replaced txid tx db = elim (rbf_of tx.kind) [
  | none ↦ (ok tt, db)
  | some (replaces, inputs) ↦ elim (get_tx_by_id replaces db) [
    | none ↦ (ok tt, db)
    | some replaced ↦ elim (speedup_kind replaced) [
      | err e ↦ (err e, db)
      | ok k ↦ (ok tt, update_tx (record replaced { kind = set_replaced_by (some txid) k }) db)
    ]
  ]
]

-- `ctx.context_mut().replaced_by = None` on the predecessor's record.
unfoldable pub restore_replaced : Txid → Db → Db
restore_replaced replaces db = elim (get_tx_by_id replaces db) [
  | none ↦ db
  | some replaced ↦ elim (speedup_kind replaced) [
    | err e ↦ db
    | ok k ↦ update_tx (record replaced { kind = set_replaced_by none k }) db
  ]
]

-- The second half of `settle_failed_dispatch` for an RBF.
unfoldable pub release_rbf : CoordinatedTx → Db → Db
unfolding restore_replaced
release_rbf tx db = elim (rbf_of tx.kind) [
  | none ↦ db
  | some (replaces, inputs) ↦ restore_replaced replaces (release_marks inputs db)
]

unfoldable pub settle_failed_dispatch : CoordinatedTx → BlockHeight → Bool → M (Unit {0})
settle_failed_dispatch tx current_height funding_missing = do
  tries (settle_tx tx.txid failed current_height)
  modify (push_news (dispatch_error_news tx tx.txid))
  when (cpfp_of tx.kind) (tries (mark_parents_unspent tx))
  modify (release_rbf tx)
  when funding_missing (modify (requeue_protocol_parents tx))

-- The loop over the speedups, with the recursive call as an argument.
abbrev pub cascade_over :
    (CoordinatedTx → M (Unit {0})) → CoordinatedTx → List CoordinatedTx → M (Unit {0})
cascade_over fail tx speedups =
    for_each (filter is_to_dispatch speedups) λ d. when (depends_on tx d) (fail d)

unfoldable pub fail_and_cascade : ℕ → CoordinatedTx → BlockHeight → Bool → M (Unit {0})
fail_and_cascade zero tx current_height funding_missing = raise out_of_fuel
fail_and_cascade (suc fuel) tx current_height funding_missing = do
  settle_failed_dispatch tx current_height funding_missing
  speedups ← reads get_speedups_ordered
  cascade_over (λ d. fail_and_cascade fuel d current_height true) tx speedups

-- One level for each speedup that waits for dispatch, and one for the transaction itself.
abbrev pub cascade_fuel : Db → ℕ
cascade_fuel db = suc (length (filter is_to_dispatch (get_speedups_ordered db)))

unfoldable pub cascade : CoordinatedTx → BlockHeight → Bool → M (Unit {0})
cascade tx current_height funding_missing w =
    fail_and_cascade (cascade_fuel w.db) tx current_height funding_missing w

-- The covered parents that have not settled Failed.
abbrev pub survivors : CoordinatedTx → Db → List Txid
survivors tx db =
    map (λ (op : OutPoint). op.txid)
      (filter (λ (op : OutPoint). not (is_tx_failed op.txid db)) (non_funding_inputs tx))

-- Each txid once, in the order of its first occurrence.
abbrev pub distinct : List Txid → List Txid → List Txid
distinct acc [] = acc
distinct acc (p ∷ ps) = distinct (push_new acc p) ps

unfoldable pub rebuild_survivors : CoordinatedTx → BlockHeight → M (Unit {0})
rebuild_survivors tx current_height = do
  alive ← reads (survivors tx)
  cascade tx current_height false
  to_requeue ← reads (λ db. distinct [] (needing_speedup db alive))
  modify (prepend_pending_speedup_parents to_requeue)

unfoldable pub is_first_cpfp : CoordinatedTx → Bool
is_first_cpfp tx = elim (speedup_kind tx) [ err e ↦ false | ok k ↦ not (is_boost k) ]

unfoldable pub settle_failed_child : CoordinatedTx → BlockHeight → M (Unit {0})
settle_failed_child tx current_height =
    if is_first_cpfp tx
    then rebuild_survivors tx current_height
    else cascade tx current_height false
