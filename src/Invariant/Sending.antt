-- ===== src/Invariant/Sending.antt =====
-- The dispatch steps of both engines (src/engines, src/core/dispatcher.rs) keep the state well formed.
use rust_bitvmx_bitcoin.Common.{
  All, Bool, List, Option, Option-cases, [], arith, false, filter, find, if◌then◌else◌, inl, inr,
  is_empty, none, not, some, subst, sym, true, ℕ, ◌==◌, ◌∙◌, ◌∷◌, ◌≡◌, nat_eq, string_eq,
}
use rust_bitvmx_bitcoin.Types.{
  BlockHeight, CoordinatedTx, CoordinatorNews, OutPoint, Txid, ok, state_eq, outpoint_eq, news_eq,
}
use rust_bitvmx_bitcoin.Storage.Db.{get_active_txs}
use rust_bitvmx_bitcoin.Storage.Speedups.{get_speedups_ordered, resolve}
use rust_bitvmx_bitcoin.Storage.Funding.{is_tx_known}
use rust_bitvmx_bitcoin.Storage.Evict.Exact.{ScansAll}
use rust_bitvmx_bitcoin.Storage.WellFormed.Operations.{Frame, IsSafe, Within}
use rust_bitvmx_bitcoin.Helper.{find_tx_in_batch}
use rust_bitvmx_bitcoin.World.{M, World, branch, pure, reads, ◌>>=◌}
use rust_bitvmx_bitcoin.World.Keeps.{
  Keeps, Keeps-bind, Keeps-branch, Keeps-ensured, Keeps-for_each, Keeps-when, keeps_rules,
}
use rust_bitvmx_bitcoin.Dispatcher.{
  DispatchOutcome, broadcast, dispatch, dispatch_loop, dispatch_one, input_ready, inputs_ready,
  parents_ready, prepend, send_unless,
}
use rust_bitvmx_bitcoin.Fee.{compute_fee_for_tx}
use rust_bitvmx_bitcoin.Engine.Common.{
  EngineContext, apply_retry_rate_limit, fee_rate_with_news, get_height, is_retry,
}
use rust_bitvmx_bitcoin.Engine.Common.Pacing.{has_elapsed, retry_pacing}
use rust_bitvmx_bitcoin.Engine.Failure.{is_to_dispatch}
use rust_bitvmx_bitcoin.Engine.Transactions.{
  dispatch_batch, dispatch_pending, handle_result, is_due, send_due,
}
use rust_bitvmx_bitcoin.Engine.Speedup.{
  dispatch_pending_speedups, handle_speedup_result, send_limited, send_pending, send_speedups,
}
use rust_bitvmx_bitcoin.Invariant.Snapshot.{
  All-sub, Keeps-step, Kept, Listed, active-IsSafe, find-All, resolve-IsSafe,
}
use rust_bitvmx_bitcoin.Invariant.Outcome.{
  apply_retry_rate_limit-Keeps, fee_rate_with_news-Keeps, handle_dispatch_result-Keeps,
}

module _ (ctx : EngineContext) (L : Frame) where
  open ctx use {outside as o, settings}

  input_ready-Keeps : (op : OutPoint) (known : Bool) → Keeps (Within L) (input_ready o op known)
  input_ready-Keeps op true = search keeps_rules
  input_ready-Keeps op false = search keeps_rules

  inputs_ready-Keeps : (ops : List OutPoint) → Keeps (Within L) (inputs_ready o ops)
  unfolding inputs_ready
  inputs_ready-Keeps [] = search keeps_rules
  inputs_ready-Keeps (op ∷ ops) =
      let rest : Bool → M Bool = λ ready. branch ready (inputs_ready o ops) (pure false) in
      Keeps-bind (reads (is_tx_known op.txid)) (λ known. input_ready o op known >>= rest)
        (search keeps_rules)
        (λ known. Keeps-bind (input_ready o op known) rest (input_ready-Keeps op known) (λ ready.
          Keeps-branch ready (inputs_ready o ops) (pure false) (inputs_ready-Keeps ops)
            (search keeps_rules)))

  broadcast-Keeps : (tx : CoordinatedTx) → Keeps (Within L) (broadcast o tx)
  unfolding broadcast
  broadcast-Keeps tx = search keeps_rules

  send_unless-Keeps :
      (tx : CoordinatedTx) (dead : Option Txid) → Keeps (Within L) (send_unless o tx dead)
  unfolding parents_ready
  send_unless-Keeps tx none = search (keeps_rules, inputs_ready-Keeps, broadcast-Keeps) depth 12
  send_unless-Keeps tx (some parent) = search keeps_rules

  dispatch_one-Keeps : (tx : CoordinatedTx) → Keeps (Within L) (dispatch_one o tx)
  unfolding dispatch_one
  dispatch_one-Keeps tx = search (keeps_rules, send_unless-Keeps)

  dispatch_loop-Keeps : (txs : List CoordinatedTx) → Keeps (Within L) (dispatch_loop o txs)
  unfolding dispatch_loop
  dispatch_loop-Keeps [] = search keeps_rules
  dispatch_loop-Keeps (tx ∷ txs) =
      Keeps-bind (dispatch_one o tx)
        (λ one. dispatch_loop o txs >>= λ rest. pure (prepend one rest)) (dispatch_one-Keeps tx)
        (λ one. search (keeps_rules, dispatch_loop-Keeps txs))

  dispatch-Keeps :
      (txs : List CoordinatedTx) → Keeps (Within L) (dispatch o settings.dispatcher txs)
  unfolding dispatch
  dispatch-Keeps txs = search (keeps_rules, dispatch_loop-Keeps)

  -- The pacing returns some of what it is given.
  paced-All :
      (P : CoordinatedTx → Type 0) (txs : List CoordinatedTx) (w : World) (l : List CoordinatedTx)
      → All P txs
      → (apply_retry_rate_limit ctx txs w).0 ≡ ok l
      → All P l
  paced-All P txs w l all e =
      let is : ok (if has_elapsed ctx w then txs else filter (λ t. not (is_retry ctx t)) txs)
          ≡ ok l =
        sym (retry_pacing ctx txs w).0 ∙ e in
      subst (All P) (ok_inj is) (some_of (has_elapsed ctx w))
    where
      ok_inj : {a b : List CoordinatedTx} → ok a ≡ ok b → a ≡ b
      ok_inj e = ground arith

      some_of : (b : Bool) → All P (if b then txs else filter (λ t. not (is_retry ctx t)) txs)
      some_of true = all
      some_of false = All-sub P (λ t. not (is_retry ctx t)) txs all

  handle_result-Keeps :
      (txs : List CoordinatedTx) (rate : ℕ) (h : BlockHeight) (r : Txid × DispatchOutcome)
      → All (IsSafe L) txs
      → Keeps (Within L) (handle_result ctx txs rate h r)
  unfolding handle_result find_tx_in_batch
  handle_result-Keeps txs rate h (id, outcome) all =
      elim (Option-cases (find (λ (t : CoordinatedTx). t.txid == id) txs)) [
        | inl e ↦ rw (e, find_tx_in_batch) (record { at = λ w kept. kept })
        | inr (t, e) ↦
            rw (e, find_tx_in_batch)
              (record {
                at = λ w kept.
                    (handle_dispatch_result-Keeps ctx L t id outcome h
                        (compute_fee_for_tx o.bitcoin t.tx rate)
                        (find-All (IsSafe L) _ txs t all e)).at
                      w kept;
              })
      ]

  dispatch_batch-Keeps :
      (txs : List CoordinatedTx) (h : BlockHeight)
      → All (IsSafe L) txs
      → Keeps (Within L) (dispatch_batch ctx txs h)
  unfolding dispatch_batch
  dispatch_batch-Keeps txs h all =
      Keeps-bind (fee_rate_with_news ctx) _ (fee_rate_with_news-Keeps ctx L) (λ rate.
        Keeps-ensured (All (IsSafe L)) (apply_retry_rate_limit ctx txs) _
          (λ w kept. (
            (apply_retry_rate_limit-Keeps ctx L txs).at w kept,
            λ l e. paced-All (IsSafe L) txs w l all e,
          ))
          (λ limited safe.
            Keeps-bind (dispatch o settings.dispatcher limited) _ (dispatch-Keeps limited)
              (λ results.
                Keeps-for_each results (handle_result ctx limited rate h)
                  (λ r. handle_result-Keeps limited rate h r safe))))

module _ (ctx : EngineContext) (N : CoordinatorNews → Type 0)
    (scans : ScansAll ctx.outside.scan) where
  open ctx use {outside as o, settings}

  due-Keeps : (h : BlockHeight) → Keeps (Kept N) (reads (get_active_txs o.scan) >>= send_due ctx h)
  due-Keeps h = Keeps-step (get_active_txs o.scan) (send_due ctx h) (λ db wf.
      let due = filter (is_due ctx h) (get_active_txs o.scan db) in
      Keeps-when (not (is_empty due)) (dispatch_batch ctx due h) (
        dispatch_batch-Keeps ctx (Listed N db) due h
          (All-sub (IsSafe (Listed N db)) (is_due ctx h) _ (active-IsSafe N o.scan db scans wf))))

  pub dispatch_pending-Keeps : Keeps (Kept N) (dispatch_pending ctx)
  unfolding dispatch_pending
  dispatch_pending-Keeps =
      Keeps-bind (get_height ctx) (λ h. reads (get_active_txs o.scan) >>= send_due ctx h)
        (search keeps_rules) due-Keeps

module _ (ctx : EngineContext) (N : CoordinatorNews → Type 0) where
  open ctx use {outside as o, settings}

  module _ (L : Frame) where
    handle_speedup_result-Keeps :
        (txs : List CoordinatedTx) (h : BlockHeight) (r : Txid × DispatchOutcome)
        → All (IsSafe L) txs
        → Keeps (Within L) (handle_speedup_result ctx txs h r)
    unfolding handle_speedup_result
    handle_speedup_result-Keeps txs h (id, outcome) all =
        elim (Option-cases (find (λ (t : CoordinatedTx). t.txid == id) txs)) [
          | inl e ↦ rw (e, handle_speedup_result) (search keeps_rules)
          | inr (t, e) ↦
              rw (e, handle_speedup_result)
                (handle_dispatch_result-Keeps ctx L t id outcome h t.fee_info
                  (find-All (IsSafe L) _ txs t all e))
        ]

    send_speedups-Keeps :
        (h : BlockHeight) (txs : List CoordinatedTx)
        → All (IsSafe L) txs
        → Keeps (Within L) (send_speedups ctx h txs)
    send_speedups-Keeps h txs all =
        search
          (
            keeps_rules,
            dispatch-Keeps ctx L,
            λ (r : Txid × DispatchOutcome). handle_speedup_result-Keeps txs h r all,
          )
          depth 12

    send_pending-Keeps :
        (h : BlockHeight) (txs : List CoordinatedTx)
        → All (IsSafe L) txs
        → Keeps (Within L) (send_pending ctx h txs)
    send_pending-Keeps h txs all =
        Keeps-branch (is_empty txs) (pure false)
          (apply_retry_rate_limit ctx txs >>= send_limited ctx h) (search keeps_rules)
          (Keeps-ensured (All (IsSafe L)) (apply_retry_rate_limit ctx txs) (send_limited ctx h)
            (λ w kept. (
              (apply_retry_rate_limit-Keeps ctx L txs).at w kept,
              λ l e. paced-All ctx L (IsSafe L) txs w l all e,
            ))
            (λ limited safe.
              Keeps-branch (is_empty limited) (pure false) (send_speedups ctx h limited)
                (search keeps_rules) (send_speedups-Keeps h limited safe)))

  listed-Keeps :
      (h : BlockHeight)
      → Keeps
          (Kept N)
          (reads get_speedups_ordered >>= λ all. send_pending ctx h (filter is_to_dispatch all))
  unfolding get_speedups_ordered
  listed-Keeps h =
      Keeps-step get_speedups_ordered (λ all. send_pending ctx h (filter is_to_dispatch all))
        (λ db wf.
          send_pending-Keeps (Listed N db) h (filter is_to_dispatch (resolve db db.speedup_list)) (
            All-sub (IsSafe (Listed N db)) is_to_dispatch _
              (resolve-IsSafe N db db.speedup_list wf)))

  pub dispatch_pending_speedups-Keeps : Keeps (Kept N) (dispatch_pending_speedups ctx)
  unfolding dispatch_pending_speedups
  dispatch_pending_speedups-Keeps = search (keeps_rules, listed-Keeps)
