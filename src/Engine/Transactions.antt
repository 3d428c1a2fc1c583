-- ===== src/Engine/Transactions.antt =====
-- src/engines/transaction_engine.rs: steps 1 and 3 of a tick.
use rust_bitvmx_bitcoin.Common.{
  Bool, List, filter, is_empty, not, ℕ, ◌&&◌, ◌==◌, ◌||◌, nat_eq, string_eq,
}
use rust_bitvmx_bitcoin.Types.{
  BlockHeight, CoordinatedTx, Txid, confirmed, in_mempool, to_dispatch, state_eq, outpoint_eq,
  news_eq,
}
use rust_bitvmx_bitcoin.Storage.Db.{get_active_txs}
use rust_bitvmx_bitcoin.Storage.Evict.{evict_stale_txs}
use rust_bitvmx_bitcoin.Storage.Funding.{is_speedup}
use rust_bitvmx_bitcoin.Helper.{find_tx_in_batch, is_ready_to_dispatch}
use rust_bitvmx_bitcoin.World.{M, for_each, lift, modify, reads, when, ◌>>=◌, ◌>>◌}
use rust_bitvmx_bitcoin.Dispatcher.{DispatchOutcome, dispatch}
use rust_bitvmx_bitcoin.Fee.{compute_fee_for_tx}
use rust_bitvmx_bitcoin.Engine.Common.{
  EngineContext, apply_retry_rate_limit, fee_rate_with_news, get_height, handle_dispatch_result,
}
use rust_bitvmx_bitcoin.Engine.Review.{review_transaction}

module _ (ctx : EngineContext) where
  open ctx use {outside as o, settings}

  abbrev pub is_reviewed : CoordinatedTx → Bool
  is_reviewed tx = not (is_speedup tx) && (tx.state == in_mempool || tx.state == confirmed)

  unfoldable pub review_active : M (Unit {0})
  review_active = do
    current_height ← get_height ctx
    modify (evict_stale_txs o.scan settings.storage current_height)
    active ← reads (get_active_txs o.scan)
    for_each (filter is_reviewed active) (review_transaction ctx current_height)

  abbrev pub is_due : BlockHeight → CoordinatedTx → Bool
  is_due current_height tx =
      not (is_speedup tx) && (tx.state == to_dispatch && is_ready_to_dispatch tx current_height)

  -- One round of the loop over the results of `dispatch`.
  unfoldable pub handle_result :
      List CoordinatedTx → ℕ → BlockHeight → Txid × DispatchOutcome → M (Unit {0})
  handle_result txs fee_rate current_height (txid, outcome) = do
    tx ← lift (find_tx_in_batch txs txid)
    handle_dispatch_result ctx tx txid outcome current_height
        (compute_fee_for_tx o.bitcoin tx.tx fee_rate)

  unfoldable pub dispatch_batch : List CoordinatedTx → BlockHeight → M (Unit {0})
  unfolding handle_result
  dispatch_batch txs current_height = do
    fee_rate ← fee_rate_with_news ctx
    limited ← apply_retry_rate_limit ctx txs
    results ← dispatch o settings.dispatcher limited
    for_each results (handle_result limited fee_rate current_height)

  abbrev pub send_due : BlockHeight → List CoordinatedTx → M (Unit {0})
  send_due current_height active =
      let due = filter (is_due current_height) active in
      when (not (is_empty due)) (dispatch_batch due current_height)

  unfoldable pub dispatch_pending : M (Unit {0})
  unfolding dispatch_batch
  dispatch_pending = do
    current_height ← get_height ctx
    active ← reads (get_active_txs o.scan)
    send_due current_height active
