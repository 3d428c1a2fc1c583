-- ===== src/Engine/Common.antt =====
-- `EngineContext` of src/engines/common.rs: retry pacing, and what becomes of a dispatched
-- transaction. Log lines are left out.
pub mod Pacing
use rust_bitvmx_bitcoin.Common.{
  Bool, List, Option, [], add32, any, false, filter, if◌then◌else◌, leb, ltb, none, saturating_sub,
  some, suc, true, zero, ℕ, ◌&&◌, ◌∷◌, nat_eq, string_eq,
}
use rust_bitvmx_bitcoin.Types.{
  BlockHeight, CoordinatedTx, CoordinatorNews, FeeInfo, OutPoint, Txid, confirmed, finalized,
  in_mempool, ok, state_eq, outpoint_eq, news_eq,
}
use rust_bitvmx_bitcoin.Config.{BitcoinSettings}
use rust_bitvmx_bitcoin.Storage.Db.{update_tx}
use rust_bitvmx_bitcoin.Storage.News.{push_news}
use rust_bitvmx_bitcoin.Storage.Records.{get_or_insert, mark_as_retry, settle_tx, update_tx_state}
use rust_bitvmx_bitcoin.Helper.{funding_outpoints, non_funding_inputs, verify_tx_id}
use rust_bitvmx_bitcoin.Outside.{
  Outside, TypesToMonitor, cancelled, clock_read, monitored, transactions,
}
use rust_bitvmx_bitcoin.World.{M, ask, attempt, call, lift, modify, pure, tries, when, ◌>>=◌, ◌>>◌}
use rust_bitvmx_bitcoin.Dispatcher.{DispatchOutcome, broadcast_error, fatal, parent_failed, success}
use rust_bitvmx_bitcoin.Fee.{get_network_fee_rate}
use rust_bitvmx_bitcoin.Engine.Failure.{cascade, mark_replaced, settle_failed_child}

pub record EngineContext : Type 0 where
  pub outside : Outside
  pub settings : BitcoinSettings

module _ (ctx : EngineContext) where
  open ctx use {outside as o, settings}

  abbrev pub get_height : M BlockHeight
  get_height = ask o.get_monitor_height

  abbrev pub monitor_call : TypesToMonitor → Bool → M (Unit {0})
  monitor_call what search = call (monitored what search) (λ log. o.monitor log what search)

  abbrev pub cancel_call : TypesToMonitor → M (Unit {0})
  cancel_call what = call (cancelled what) (λ log. o.cancel log what)

  abbrev pub read_clock : M ℕ
  read_clock = call clock_read (λ log. ok (o.now_secs log))

  -- The estimate is asked for and clamped; a failed question is the fallback, not an error.
  unfoldable pub network_fee_rate : M (ℕ × Option CoordinatorNews)
  network_fee_rate = do
    estimate ← attempt (ask o.get_estimated_fee_rate)
    pure (get_network_fee_rate settings.fee estimate)

  -- `if let Some(news) = fee_news { add_news(news)? }`
  unfoldable pub fee_rate_with_news : M ℕ
  fee_rate_with_news = do
    (rate, news) ← network_fee_rate
    elim news [ none ↦ pure tt | some n ↦ modify (push_news n) ]
    pure rate

  unfoldable pub mark_reorg : CoordinatedTx → BlockHeight → M (Unit {0})
  mark_reorg tx current_height =
      modify
        (update_tx (record tx { state = in_mempool; broadcast_block_height = some current_height }))

  unfoldable pub mark_finalized : Txid → BlockHeight → M (Unit {0})
  mark_finalized txid current_height = tries (settle_tx txid finalized current_height)

  unfoldable pub mark_confirmed : Txid → M (Unit {0})
  mark_confirmed txid = tries (update_tx_state txid confirmed)

  unfoldable pub mark_orphan : Txid → M (Unit {0})
  mark_orphan txid = tries (update_tx_state txid in_mempool)

  abbrev pub is_retry : CoordinatedTx → Bool
  is_retry tx = ltb 0 tx.retry_count

  unfoldable pub retry_ready : M Bool
  retry_ready w = elim w.last_retry_at [
    | none ↦ pure true w
    | some last_retry ↦
        (do
          now ← read_clock
          pure (leb settings.coordinator.retry_interval_seconds (saturating_sub now last_retry)))
          w
  ]

  abbrev pub set_last_retry : ℕ → M (Unit {0})
  set_last_retry now w = (ok tt, record w { last_retry_at = some now })

  -- `apply_retry_rate_limit` behind its look at the clock.
  abbrev pub pace : List CoordinatedTx → Bool → M (List CoordinatedTx)
  pace txs ready = do
    when (any is_retry txs && ready) (do now ← read_clock; set_last_retry now)
    pure (filter (λ tx. if is_retry tx then ready else true) txs)

  unfoldable pub apply_retry_rate_limit : List CoordinatedTx → M (List CoordinatedTx)
  unfolding retry_ready
  apply_retry_rate_limit txs = retry_ready >>= pace txs

  unfoldable pub mark_accepted : CoordinatedTx → Txid → BlockHeight → FeeInfo → M (Unit {0})
  mark_accepted tx txid current_height fee_info = do
    tries (mark_replaced txid tx)
    modify (
        update_tx (record tx {
          state = in_mempool;
          broadcast_block_height = some current_height;
          fee_info = fee_info;
          fail_guard_until = none;
        }))
    monitor_call (transactions (txid ∷ []) tx.context tx.confirmation_trigger) true

  unfoldable pub mark_already_confirmed : CoordinatedTx → Txid → BlockHeight → M (Unit {0})
  mark_already_confirmed tx txid current_height = do
    tries (mark_replaced txid tx)
    modify (
        update_tx (record tx {
          state = confirmed;
          broadcast_block_height = get_or_insert tx.broadcast_block_height current_height;
          fail_guard_until = none;
        }))
    monitor_call (transactions (txid ∷ []) tx.context tx.confirmation_trigger) true

  -- Whether an output is gone, for the first of the listed ones that is.
  unfoldable pub any_spent : List OutPoint → M Bool
  any_spent [] = pure false
  any_spent (op ∷ ops) = do
    unspent ← ask (λ log. o.is_utxo_unspent_rpc log op.txid op.vout true)
    elim unspent [ true ↦ any_spent ops | false ↦ pure true ]

  unfoldable pub missing_input_kind : CoordinatedTx → M (Option Bool)
  unfolding any_spent
  missing_input_kind tx = do
    funding_gone ← any_spent (funding_outpoints tx)
    elim funding_gone [
      | true ↦ pure (some true)
      | false ↦ do
        other_gone ← any_spent (non_funding_inputs tx)
        pure (if other_gone then some false else none)
    ]

  -- `current_height < deadline`, with no guard as a window that is over.
  abbrev pub is_guarded : CoordinatedTx → BlockHeight → Bool
  is_guarded tx current_height = elim tx.fail_guard_until [
    | none ↦ false
    | some deadline ↦ ltb current_height deadline
  ]

  -- Step 2 of `classify_dispatch_error`, where an input is gone.
  unfoldable pub settle_missing_input : CoordinatedTx → Txid → BlockHeight → Bool → M (Unit {0})
  settle_missing_input tx txid current_height funding_missing =
      if is_guarded tx current_height
      then modify (mark_as_retry txid)
      else if funding_missing
      then cascade tx current_height true
      else settle_failed_child tx current_height

  -- Step 3, where the inputs are intact.
  unfoldable pub retry_or_fail : CoordinatedTx → Txid → BlockHeight → M (Unit {0})
  retry_or_fail tx txid current_height =
      if leb settings.coordinator.retry_attempts_sending_tx (add32 tx.retry_count 1)
      then cascade tx current_height false
      else modify (mark_as_retry txid)

  unfoldable pub classify_dispatch_error :
      CoordinatedTx → Txid → BlockHeight → FeeInfo → M (Unit {0})
  unfolding mark_accepted mark_already_confirmed missing_input_kind settle_missing_input
      retry_or_fail
  classify_dispatch_error tx txid current_height fee_info = do
    confirmations ← ask (λ log. o.get_tx_confirmations log txid)
    elim confirmations [
      | some zero ↦ mark_accepted tx txid current_height fee_info
      | some (suc n) ↦ mark_already_confirmed tx txid current_height
      | none ↦ do
        missing ← missing_input_kind tx
        elim missing [
          | some funding_missing ↦ settle_missing_input tx txid current_height funding_missing
          | none ↦ retry_or_fail tx txid current_height
        ]
    ]

  unfoldable pub handle_dispatch_result :
      CoordinatedTx → Txid → DispatchOutcome → BlockHeight → FeeInfo → M (Unit {0})
  unfolding classify_dispatch_error
  handle_dispatch_result tx txid outcome current_height fee_info = do
    lift (verify_tx_id tx txid)
    elim outcome [
      | success ↦ mark_accepted tx txid current_height fee_info
      | fatal msg ↦ cascade tx current_height false
      | parent_failed parent ↦ settle_failed_child tx current_height
      | broadcast_error raw ↦ classify_dispatch_error tx txid current_height fee_info
    ]
