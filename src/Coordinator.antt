-- ===== src/Coordinator.antt =====
-- src/coordinator.rs: the public API and the tick.
pub mod Cancel
pub mod Register
use rust_bitvmx_bitcoin.Common.{
  Bool, List, Option, String, [], false, filter, if◌then◌else◌, is_empty, none, not, some, true,
  unwrap_or, ℕ, ◌&&◌, ◌==◌, ◌||◌, ◌∷◌, nat_eq, string_eq,
}
use rust_bitvmx_bitcoin.Types.{
  BlockHeight, CancelReason, CoordinatedTx, CoordinatorNews, FeeInfo, SpeedupData, Transaction,
  TxKind, Txid, Utxo, already_dispatched, invalid_cancel, kind_not_cancellable, needs_speedup,
  normal, not_in_storage, to_dispatch, state_eq, outpoint_eq, news_eq,
}
use rust_bitvmx_bitcoin.Storage.Db.{Db, exists, get_tx_by_id, insert_tx}
use rust_bitvmx_bitcoin.Storage.News.{ack_news, cleanup_news, get_news, push_news}
use rust_bitvmx_bitcoin.Storage.Records.{remove_tx}
use rust_bitvmx_bitcoin.Storage.Pending.{
  add_pending_speedup_parent, is_needs_speedup, remove_pending_speedup_parent,
}
use rust_bitvmx_bitcoin.Storage.Funding.{is_speedup}
use rust_bitvmx_bitcoin.Helper.{context}
use rust_bitvmx_bitcoin.Outside.{
  MonitorNews, TransactionStatus, TypesToMonitor, acked, monitor_ticked, other, other_news,
  transaction, transactions,
}
use rust_bitvmx_bitcoin.World.{
  M, ask, call, for_each, modify, pure, reads, updates, when, ◌>>=◌, ◌>>◌,
}
use rust_bitvmx_bitcoin.Funding.{set_funding}
use rust_bitvmx_bitcoin.Fee.{compute_fee_for_tx}
use rust_bitvmx_bitcoin.Engine.Common.{
  EngineContext, cancel_call, get_height, monitor_call, network_fee_rate,
}
use rust_bitvmx_bitcoin.Engine.Transactions.{dispatch_pending, review_active}
use rust_bitvmx_bitcoin.Engine.Speedup.{
  boost_if_stale, create_cpfp_batch, dispatch_pending_speedups, review_speedups,
}

pub record News : Type 0 where
  pub monitor_news : List MonitorNews
  pub coordinator_news : List CoordinatorNews

-- `News::is_empty`
abbrev pub is_empty_news : News → Bool
is_empty_news n = is_empty n.monitor_news && is_empty n.coordinator_news

pub data AckNews : Type 0 where
  monitor_ack : ℕ → AckNews
  coordinator_ack : CoordinatorNews → AckNews

-- `Ok(Err(reason))` is the reason, and `Ok(Ok(()))` is none.
unfoldable pub classify_cancel_request : Txid → Db → Option CancelReason
classify_cancel_request txid db = elim (get_tx_by_id txid db) [
  | none ↦ some not_in_storage
  | some tx ↦
      if is_speedup tx
      then some (kind_not_cancellable tx.kind)
      else if tx.state == to_dispatch
      then none
      else some (already_dispatched tx.state)
]

-- The first loop of `cancel_transactions`: the eligible txids, and news for the others.
unfoldable pub split_cancel : List Txid → Db → List Txid × Db
split_cancel [] db = ([], db)
split_cancel (txid ∷ txids) db = elim (classify_cancel_request txid db) [
  | none ↦ (let (eligible, db') = split_cancel txids db in (txid ∷ eligible, db'))
  | some reason ↦ split_cancel txids (push_news (invalid_cancel txid reason) db)
]

abbrev pub is_internal_context : (String → String → Bool) → String → Bool
is_internal_context contains_text context =
    contains_text context "CPFP_TRANSACTION" || contains_text context "RBF_TRANSACTION"

abbrev pub is_client_news : (String → String → Bool) → MonitorNews → Bool
is_client_news contains_text (transaction txid context) =
    not (is_internal_context contains_text context)
is_client_news contains_text (other_news n) = true

module _ (ctx : EngineContext) where
  open ctx use {outside as o, settings}

  abbrev pub coordinator_is_ready : M Bool
  coordinator_is_ready = ask o.is_ready

  -- The six steps, once the monitor is ready.
  unfoldable pub tick_steps : ℕ → M (Unit {0})
  tick_steps fuel = do
    current_height ← get_height ctx
    modify (cleanup_news current_height)
    review_active ctx
    review_speedups ctx
    dispatch_pending ctx
    boost_failed ← dispatch_pending_speedups ctx
    boost_if_stale ctx fuel boost_failed
    create_cpfp_batch ctx fuel

  unfoldable pub tick : ℕ → M (Unit {0})
  unfolding tick_steps
  tick fuel = do
    call monitor_ticked o.monitor_tick
    ready ← coordinator_is_ready
    when ready (tick_steps fuel)

  abbrev pub registered :
      Transaction → TxKind → String → BlockHeight → Option ℕ → Option ℕ → FeeInfo → CoordinatedTx
  registered tx kind context target trigger stuck fee_info = record {
    txid = o.bitcoin.compute_txid tx;
    tx = tx;
    kind = kind;
    state = to_dispatch;
    target_block_height = target;
    confirmation_trigger = trigger;
    stuck_in_mempool_blocks = stuck;
    settled_block_height = none;
    broadcast_block_height = none;
    fail_guard_until = none;
    retry_count = 0;
    fee_info = fee_info;
    context = context;
  }

  -- The two writes at the end of `register_tx`.
  abbrev pub store_registered : CoordinatedTx → M (Unit {0})
  store_registered tx = do
    modify (insert_tx tx)
    when (is_needs_speedup tx) (modify (add_pending_speedup_parent tx.txid))

  -- The body of `register_tx` for a txid that is not registered.
  unfoldable pub register_new :
      Transaction → TxKind → String → Option BlockHeight → Option ℕ → Option ℕ → M (Unit {0})
  register_new tx kind context target trigger stuck = do
    current_height ← get_height ctx
    (fee_rate, news) ← network_fee_rate ctx
    monitor_call ctx (transactions (o.bitcoin.compute_txid tx ∷ []) context trigger) false
    store_registered (
        registered tx kind context (unwrap_or target current_height) trigger stuck
          (compute_fee_for_tx o.bitcoin tx fee_rate))

  unfoldable pub register_tx :
      Transaction → TxKind → String → Option BlockHeight → Option ℕ → Option ℕ → M (Unit {0})
  unfolding register_new
  register_tx tx kind context target trigger stuck = do
    known ← reads (exists (o.bitcoin.compute_txid tx))
    when (not known) (register_new tx kind context target trigger stuck)

  unfoldable pub dispatch_without_speedup :
      Transaction → String → Option BlockHeight → Option ℕ → Option ℕ → M (Unit {0})
  unfolding register_tx
  dispatch_without_speedup tx context target trigger stuck =
      register_tx tx normal context target trigger stuck

  unfoldable pub dispatch_with_speedup :
      Transaction → SpeedupData → String → Option BlockHeight → Option ℕ → M (Unit {0})
  unfolding register_tx
  dispatch_with_speedup tx d context target trigger =
      register_tx tx (needs_speedup d) context target trigger none

  unfoldable pub coordinator_dispatch :
      Transaction → Option SpeedupData → String → Option BlockHeight → Option ℕ → M (Unit {0})
  unfolding dispatch_with_speedup dispatch_without_speedup
  coordinator_dispatch tx (some d) context target trigger =
      dispatch_with_speedup tx d context target trigger
  coordinator_dispatch tx none context target trigger =
      dispatch_without_speedup tx context target trigger none

  -- The part of `cancel_transactions` behind its loop over the request.
  abbrev pub cancel_eligible : List Txid → String → Option ℕ → M (Unit {0})
  cancel_eligible eligible context trigger = when (not (is_empty eligible)) (do
    for_each eligible (λ txid. modify (remove_pending_speedup_parent txid))
    cancel_call ctx (transactions eligible context trigger)
    for_each eligible (λ txid. modify (remove_tx txid)))

  unfoldable pub cancel_transactions : List Txid → String → Option ℕ → M (Unit {0})
  unfolding split_cancel
  cancel_transactions txids context trigger = do
    eligible ← updates (split_cancel txids)
    cancel_eligible eligible context trigger

  unfoldable pub coordinator_cancel : TypesToMonitor → M (Unit {0})
  unfolding cancel_transactions
  coordinator_cancel (transactions txids context trigger) =
      cancel_transactions txids context trigger
  coordinator_cancel (other n) = cancel_call ctx (other n)

  unfoldable pub add_funding : Utxo → M (Unit {0})
  unfolding set_funding
  add_funding utxo = do
    news ← updates (set_funding settings.funding utxo)
    elim news [ none ↦ pure tt | some n ↦ modify (push_news n) ]

  abbrev pub get_transaction : Txid → M TransactionStatus
  get_transaction txid = ask (λ log. o.get_tx_status log txid true)

  unfoldable pub coordinator_news : M News
  coordinator_news = do
    all ← ask o.get_news
    mine ← reads get_news
    pure (record {
      monitor_news = filter (is_client_news o.contains_text) all;
      coordinator_news = mine;
    })

  unfoldable pub coordinator_ack_news : AckNews → M (Unit {0})
  coordinator_ack_news (monitor_ack n) = call (acked n) (λ log. o.ack_news log n)
  coordinator_ack_news (coordinator_ack n) = do
    current_height ← get_height ctx
    modify (ack_news n current_height)

  abbrev pub coordinator_monitor : TypesToMonitor → M (Unit {0})
  coordinator_monitor what = monitor_call ctx what false
