-- ===== src/Engine/Review.antt =====
-- One round of the two review loops of src/engines: what a status of the monitor does to a record.
pub mod Chain
pub mod Failing
pub mod Settles
use rust_bitvmx_bitcoin.Common.{
  Bool, List, [], add32, if◌then◌else◌, is_some, length, none, not, some, suc, true, zero, ℕ, ◌==◌,
  ◌||◌, ◌∷◌, nat_eq, string_eq,
}
use rust_bitvmx_bitcoin.Types.{
  BlockHeight, CoordinatedTx, Txid, confirmed, failed, in_mempool, out_of_fuel,
  transaction_stuck_in_mempool, state_eq, outpoint_eq, news_eq,
}
use rust_bitvmx_bitcoin.Storage.Db.{get_tx_by_id}
use rust_bitvmx_bitcoin.Storage.News.{push_news}
use rust_bitvmx_bitcoin.Storage.Records.{requeue_not_found, settle_tx}
use rust_bitvmx_bitcoin.Helper.{has_live_replacement, is_stuck_in_mempool}
use rust_bitvmx_bitcoin.Outside.{TransactionStatus, transactions}
use rust_bitvmx_bitcoin.World.{M, ask, modify, pure, raise, reads, tries, when, ◌>>=◌, ◌>>◌}
use rust_bitvmx_bitcoin.Funding.{replace_on_finalize}
use rust_bitvmx_bitcoin.Engine.Failure.{rbf_of}
use rust_bitvmx_bitcoin.Engine.Common.{
  EngineContext, cancel_call, mark_confirmed, mark_finalized, mark_orphan, mark_reorg,
}

module _ (ctx : EngineContext) where
  open ctx use {outside as o}

  -- `is_in_mempool` in `review_transactions`.
  unfoldable pub review_in_mempool : CoordinatedTx → BlockHeight → M (Unit {0})
  review_in_mempool tx current_height =
      if tx.state == confirmed
      then mark_reorg ctx tx current_height
      else when (is_stuck_in_mempool tx current_height)
          (modify (push_news (transaction_stuck_in_mempool tx.txid tx.context)))

  -- The branches of the loop of `review_transactions`. An unexpected status is only logged.
  unfoldable pub act_on_status : BlockHeight → CoordinatedTx → TransactionStatus → M (Unit {0})
  unfolding review_in_mempool
  act_on_status current_height tx status =
      let max_confs = o.max_monitoring_confirmations in
      if status.is_in_mempool
      then review_in_mempool tx current_height
      else if status.is_not_found
      then modify (requeue_not_found tx.txid (add32 current_height max_confs))
      else if status.is_finalized max_confs
      then mark_finalized ctx tx.txid current_height
      else if status.is_confirmed
      then mark_confirmed ctx tx.txid
      else if status.is_orphan
      then mark_orphan ctx tx.txid
      else pure tt

  unfoldable pub review_transaction : BlockHeight → CoordinatedTx → M (Unit {0})
  unfolding act_on_status
  review_transaction current_height tx = do
    status ← ask (λ log. o.get_tx_status log tx.txid (is_some tx.broadcast_block_height))
    act_on_status current_height tx status

  -- The loop of `remove_replaced_rbf` down the chain of `replaces`.
  unfoldable pub remove_chain : ℕ → CoordinatedTx → Txid → BlockHeight → M (Unit {0})
  remove_chain zero tx current_id current_height = raise out_of_fuel
  remove_chain (suc fuel) tx current_id current_height = do
    prev ← reads (get_tx_by_id current_id)
    cancel_call ctx (transactions (current_id ∷ []) tx.context none)
    tries (settle_tx current_id failed current_height)
    elim prev [
      | none ↦ pure tt
      | some p ↦ elim (rbf_of p.kind) [
        | none ↦ pure tt
        | some (older, inputs) ↦ remove_chain fuel tx older current_height
      ]
    ]

  -- One round for each record, and one for a txid that has none.
  unfoldable pub remove_replaced_rbf : CoordinatedTx → BlockHeight → M (Unit {0})
  unfolding remove_chain
  remove_replaced_rbf tx current_height w = elim (rbf_of tx.kind) [
    | none ↦ pure tt w
    | some (replaces, inputs) ↦ remove_chain (suc (length w.db.txs)) tx replaces current_height w
  ]

  abbrev pub is_in_flight : CoordinatedTx → Bool
  is_in_flight tx = tx.state == in_mempool || tx.state == confirmed

  abbrev pub finalize_speedup : CoordinatedTx → BlockHeight → M (Unit {0})
  finalize_speedup tx current_height = do
    mark_finalized ctx tx.txid current_height
    remove_replaced_rbf tx current_height
    tries (replace_on_finalize tx.txid)

  -- The branches of the loop of `review_speedups`.
  unfoldable pub act_on_speedup_status :
      List CoordinatedTx → BlockHeight → CoordinatedTx → TransactionStatus → M (Unit {0})
  act_on_speedup_status all_speedups current_height tx status =
      let max_confs = o.max_monitoring_confirmations in
      if status.is_in_mempool
      then when (tx.state == confirmed) (mark_reorg ctx tx current_height)
      else if status.is_not_found
      then when (not (has_live_replacement tx all_speedups))
          (modify (requeue_not_found tx.txid (add32 current_height max_confs)))
      else if status.is_finalized max_confs
      then finalize_speedup tx current_height
      else if status.is_confirmed
      then mark_confirmed ctx tx.txid
      else if status.is_orphan
      then mark_orphan ctx tx.txid
      else pure tt

  unfoldable pub review_speedup : List CoordinatedTx → BlockHeight → CoordinatedTx → M (Unit {0})
  unfolding act_on_speedup_status
  review_speedup all_speedups current_height tx = when (is_in_flight tx) (do
    status ← ask (λ log. o.get_tx_status log tx.txid true)
    act_on_speedup_status all_speedups current_height tx status)
