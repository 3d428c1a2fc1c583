-- ===== src/Invariant/Outcome.antt =====
-- What becomes of a dispatched transaction (src/engines/common.rs) keeps the state well formed.
use rust_bitvmx_bitcoin.Common.{
  Bool, Bool-cases, List, Option, [], add32, false, if◌then◌else◌, inl, inr, leb, none, some, suc,
  true, zero, ℕ, ◌∷◌, nat_eq, string_eq,
}
use rust_bitvmx_bitcoin.Types.{
  BlockHeight, CoordinatedTx, CoordinatorNews, FeeInfo, OutPoint, Txid, state_eq, outpoint_eq,
  news_eq,
}
use rust_bitvmx_bitcoin.Storage.Db.{Db, update_tx}
use rust_bitvmx_bitcoin.Storage.News.{push_news}
use rust_bitvmx_bitcoin.Storage.Records.{mark_as_retry}
use rust_bitvmx_bitcoin.Helper.{funding_outpoints, non_funding_inputs}
use rust_bitvmx_bitcoin.Outside.{Log}
use rust_bitvmx_bitcoin.Storage.WellFormed.Operations.{
  Frame, IsSafe, Within, mark_as_retry-Within, push_news-Within, settle_tx-Within, update_tx-Within,
  update_tx_state-Within,
}
use rust_bitvmx_bitcoin.Storage.WellFormed.Funds.{mark_replaced-Within}
use rust_bitvmx_bitcoin.World.{ask, modify, pure, ◌>>=◌}
use rust_bitvmx_bitcoin.World.Keeps.{Keeps, Keeps-bind, Keeps-modify, Keeps-tries, keeps_rules}
use rust_bitvmx_bitcoin.Dispatcher.{DispatchOutcome, broadcast_error, fatal, parent_failed, success}
use rust_bitvmx_bitcoin.Engine.Common.{
  EngineContext, any_spent, apply_retry_rate_limit, classify_dispatch_error, fee_rate_with_news,
  handle_dispatch_result, is_guarded, mark_accepted, mark_already_confirmed, mark_confirmed,
  mark_finalized, mark_orphan, mark_reorg, missing_input_kind, network_fee_rate, retry_or_fail,
  retry_ready, set_last_retry, settle_missing_input,
}
use rust_bitvmx_bitcoin.Invariant.Failure.{cascade-Keeps, settle_failed_child-Keeps}

module _ (ctx : EngineContext) (L : Frame) where
  open ctx use {outside as o, settings}

  network_fee_rate-Keeps : Keeps (Within L) (network_fee_rate ctx)
  unfolding network_fee_rate
  network_fee_rate-Keeps = search keeps_rules

  news-Keeps :
      (n : Option CoordinatorNews)
      → Keeps (Within L) (elim n [ none ↦ pure tt | some m ↦ modify (push_news m) ])
  news-Keeps none = search keeps_rules
  news-Keeps (some n) = search (Keeps-modify, push_news-Within L)

  pub fee_rate_with_news-Keeps : Keeps (Within L) (fee_rate_with_news ctx)
  unfolding fee_rate_with_news
  fee_rate_with_news-Keeps =
      Keeps-bind (network_fee_rate ctx) _ network_fee_rate-Keeps
        (λ p. Keeps-bind _ (λ _. pure p.0) (news-Keeps p.1) (λ _. search keeps_rules))

  set_last_retry-Keeps : (now : ℕ) → Keeps (Within L) (set_last_retry ctx now)
  set_last_retry-Keeps now = record { at = λ w h. h }

  retry_ready-Keeps : Keeps (Within L) (retry_ready ctx)
  unfolding retry_ready
  retry_ready-Keeps = record { at = λ w h. by_clock w.last_retry_at w.db w.log h }
    where
      by_clock :
          (since : Option ℕ) (db : Db) (log : Log)
          → Within L db
          → Within L (retry_ready ctx (record { db = db; last_retry_at = since; log = log })).1.db
      by_clock none db log h = h
      by_clock (some at) db log h = h

  pub apply_retry_rate_limit-Keeps :
      (txs : List CoordinatedTx) → Keeps (Within L) (apply_retry_rate_limit ctx txs)
  unfolding apply_retry_rate_limit
  apply_retry_rate_limit-Keeps txs =
      search (keeps_rules, retry_ready-Keeps, set_last_retry-Keeps) depth 12

  written-Keeps : (tx : CoordinatedTx) → IsSafe L tx → Keeps (Within L) (modify (update_tx tx))
  written-Keeps tx safe = Keeps-modify (update_tx tx) (λ db. update_tx-Within L tx db safe)

  pub mark_reorg-Keeps :
      (tx : CoordinatedTx) (h : BlockHeight) → IsSafe L tx → Keeps (Within L) (mark_reorg ctx tx h)
  unfolding mark_reorg
  mark_reorg-Keeps tx h safe = written-Keeps _ safe

  pub mark_finalized-Keeps :
      (id : Txid) (h : BlockHeight) → Keeps (Within L) (mark_finalized ctx id h)
  unfolding mark_finalized
  mark_finalized-Keeps id h = Keeps-tries _ (settle_tx-Within L id _ h)

  pub mark_confirmed-Keeps : (id : Txid) → Keeps (Within L) (mark_confirmed ctx id)
  unfolding mark_confirmed
  mark_confirmed-Keeps id = Keeps-tries _ (update_tx_state-Within L id _)

  pub mark_orphan-Keeps : (id : Txid) → Keeps (Within L) (mark_orphan ctx id)
  unfolding mark_orphan
  mark_orphan-Keeps id = Keeps-tries _ (update_tx_state-Within L id _)

  mark_accepted-Keeps :
      (tx : CoordinatedTx) (id : Txid) (h : BlockHeight) (f : FeeInfo)
      → IsSafe L tx
      → Keeps (Within L) (mark_accepted ctx tx id h f)
  unfolding mark_accepted
  mark_accepted-Keeps tx id h f safe =
      search (keeps_rules, Keeps-tries, mark_replaced-Within L, written-Keeps, safe) depth 12

  mark_already_confirmed-Keeps :
      (tx : CoordinatedTx) (id : Txid) (h : BlockHeight)
      → IsSafe L tx
      → Keeps (Within L) (mark_already_confirmed ctx tx id h)
  unfolding mark_already_confirmed
  mark_already_confirmed-Keeps tx id h safe =
      search (keeps_rules, Keeps-tries, mark_replaced-Within L, written-Keeps, safe) depth 12

  any_spent-Keeps : (ops : List OutPoint) → Keeps (Within L) (any_spent ctx ops)
  unfolding any_spent
  any_spent-Keeps [] = search keeps_rules
  any_spent-Keeps (op ∷ ops) =
      Keeps-bind (ask (λ log. o.is_utxo_unspent_rpc log op.txid op.vout true)) _
        (search keeps_rules) (by_answer (any_spent-Keeps ops))
    where
      by_answer :
          Keeps (Within L) (any_spent ctx ops)
          → (b : Bool) → Keeps (Within L) (elim b [ true ↦ any_spent ctx ops | false ↦ pure true ])
      by_answer rest true = rest
      by_answer rest false = search keeps_rules

  missing_input_kind-Keeps : (tx : CoordinatedTx) → Keeps (Within L) (missing_input_kind ctx tx)
  unfolding missing_input_kind
  missing_input_kind-Keeps tx =
      Keeps-bind (any_spent ctx (funding_outpoints tx)) _ (any_spent-Keeps (funding_outpoints tx))
        by_answer
    where
      by_answer :
          (b : Bool)
          → Keeps (Within L) (elim b [
            | true ↦ pure (some true)
            | false ↦ do
              other_gone ← any_spent ctx (non_funding_inputs tx)
              pure (if other_gone then some false else none)
          ])
      by_answer true = search keeps_rules
      by_answer false = search (keeps_rules, any_spent-Keeps)

  settle_missing_input-Keeps :
      (tx : CoordinatedTx) (id : Txid) (h : BlockHeight) (fm : Bool)
      → IsSafe L tx
      → Keeps (Within L) (settle_missing_input ctx tx id h fm)
  unfolding settle_missing_input
  settle_missing_input-Keeps tx id h fm safe = elim (Bool-cases (is_guarded ctx tx h)) [
    | inl e ↦ rw e (Keeps-modify (mark_as_retry id) (mark_as_retry-Within L id))
    | inr e ↦ elim (Bool-cases fm) [
      | inl f ↦ rw (e, f) (cascade-Keeps L tx h true safe.0)
      | inr f ↦ rw (e, f) (settle_failed_child-Keeps L tx h safe.0)
    ]
  ]

  retry_or_fail-Keeps :
      (tx : CoordinatedTx) (id : Txid) (h : BlockHeight)
      → IsSafe L tx
      → Keeps (Within L) (retry_or_fail ctx tx id h)
  unfolding retry_or_fail
  retry_or_fail-Keeps tx id h safe =
      elim (Bool-cases
        (leb settings.coordinator.retry_attempts_sending_tx (add32 tx.retry_count 1))) [
          | inl e ↦ rw e (cascade-Keeps L tx h false safe.0)
          | inr e ↦ rw e (Keeps-modify (mark_as_retry id) (mark_as_retry-Within L id))
        ]

  classify_dispatch_error-Keeps :
      (tx : CoordinatedTx) (id : Txid) (h : BlockHeight) (f : FeeInfo)
      → IsSafe L tx
      → Keeps (Within L) (classify_dispatch_error ctx tx id h f)
  unfolding classify_dispatch_error
  classify_dispatch_error-Keeps tx id h f safe =
      Keeps-bind (ask (λ log. o.get_tx_confirmations log id)) _ (search keeps_rules) by_depth
    where
      by_missing :
          (m : Option Bool)
          → Keeps (Within L) (elim m [
            | some funding_missing ↦ settle_missing_input ctx tx id h funding_missing
            | none ↦ retry_or_fail ctx tx id h
          ])
      by_missing (some fm) = settle_missing_input-Keeps tx id h fm safe
      by_missing none = retry_or_fail-Keeps tx id h safe

      by_depth :
          (c : Option ℕ)
          → Keeps (Within L) (elim c [
            | some zero ↦ mark_accepted ctx tx id h f
            | some (suc n) ↦ mark_already_confirmed ctx tx id h
            | none ↦ do
              missing ← missing_input_kind ctx tx
              elim missing [
                | some funding_missing ↦ settle_missing_input ctx tx id h funding_missing
                | none ↦ retry_or_fail ctx tx id h
              ]
          ])
      by_depth (some zero) = mark_accepted-Keeps tx id h f safe
      by_depth (some (suc n)) = mark_already_confirmed-Keeps tx id h safe
      by_depth none =
          Keeps-bind (missing_input_kind ctx tx) _ (missing_input_kind-Keeps tx) by_missing

  pub handle_dispatch_result-Keeps :
      (tx : CoordinatedTx) (id : Txid) (r : DispatchOutcome) (h : BlockHeight) (f : FeeInfo)
      → IsSafe L tx
      → Keeps (Within L) (handle_dispatch_result ctx tx id r h f)
  unfolding handle_dispatch_result
  handle_dispatch_result-Keeps tx id success h f safe =
      search (keeps_rules, mark_accepted-Keeps, safe)
  handle_dispatch_result-Keeps tx id (fatal msg) h f safe =
      search (keeps_rules, cascade-Keeps L, safe.0)
  handle_dispatch_result-Keeps tx id (parent_failed p) h f safe =
      search (keeps_rules, settle_failed_child-Keeps L, safe.0)
  handle_dispatch_result-Keeps tx id (broadcast_error raw) h f safe =
      search (keeps_rules, classify_dispatch_error-Keeps, safe)
