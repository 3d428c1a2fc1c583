-- ===== src/Engine/Speedup.antt =====
-- src/engines/speedup_engine.rs: steps 2, 4, 5 and 6 of a tick.
use rust_bitvmx_bitcoin.Common.{
  Bool, List, Option, [], any, drop, false, filter, find, if◌then◌else◌, is_empty, last, leb,
  length, ltb, map, nat_eqb, none, not, reverse, saturating_sub, some, ℕ, ◌&&◌, ◌++◌, ◌==◌, ◌||◌,
  ◌∷◌, nat_eq, string_eq,
}
use rust_bitvmx_bitcoin.Types.{
  BlockHeight, CoordinatedTx, F64, SpeedupContext, SpeedupData, SpeedupKind, Transaction, TxKind,
  Txid, Utxo, cpfp, err, max_fee_rate_reached, needs_speedup, normal, ok, rbf, speedup, to_dispatch,
  state_eq, outpoint_eq, news_eq,
}
use rust_bitvmx_bitcoin.Storage.Db.{Db, get_tx_by_id, update_tx}
use rust_bitvmx_bitcoin.Storage.News.{push_news}
use rust_bitvmx_bitcoin.Storage.Speedups.{get_speedups_ordered}
use rust_bitvmx_bitcoin.Storage.Pending.{get_pending_speedup_parents, remove_pending_speedup_parent}
use rust_bitvmx_bitcoin.Storage.Funding.{is_tx_failed}
use rust_bitvmx_bitcoin.Helper.{context, is_boost, parents, speedup_kind}
use rust_bitvmx_bitcoin.Outside.{TxFunctions}
use rust_bitvmx_bitcoin.World.{M, branch, for_each, modify, pure, reads, updates, when, ◌>>=◌, ◌>>◌}
use rust_bitvmx_bitcoin.Fee.{boost_fee_rate, chain_fee_diff, fee_info_for_paid_speedup}
use rust_bitvmx_bitcoin.Dispatcher.{DispatchOutcome, batch_by_weight, dispatch}
use rust_bitvmx_bitcoin.Engine.Common.{
  EngineContext, apply_retry_rate_limit, fee_rate_with_news, get_height, handle_dispatch_result,
}
use rust_bitvmx_bitcoin.Engine.Failure.{is_to_dispatch}
use rust_bitvmx_bitcoin.Engine.Review.{review_speedup}
use rust_bitvmx_bitcoin.Engine.Build.{
  ParentEntry, SpeedupBuildResult, build_speedup, ctx_for_kind, entries_vbytes, is_live_in_mempool,
  make_speedup_context, save_speedup,
}

-- What `boost_if_stale` reads of the tip that it boosts.
pub record BoostPlan : Type 0 where
  pub last_txid : Txid
  pub last_rate : ℕ
  pub next_bump : F64
  pub use_rbf : Bool
  pub parent_entries : List ParentEntry
  pub rbf_initial_inputs : Option (List Utxo)
  pub rbf_inherited_count : ℕ

abbrev pub any_to_dispatch : List CoordinatedTx → Bool
any_to_dispatch = any λ (tx : CoordinatedTx). tx.state == to_dispatch

abbrev pub is_boost_tx : CoordinatedTx → Bool
is_boost_tx t = elim (speedup_kind t) [ err e ↦ false | ok k ↦ is_boost k ]

-- `(signing data, vsize)` of a parent that needs a speedup; others are skipped.
abbrev pub entry_of : TxFunctions → Transaction → TxKind → List ParentEntry
entry_of b tx (needs_speedup d) = (d, b.vsize tx) ∷ []
entry_of b tx normal = []
entry_of b tx (speedup k) = []

abbrev pub entries_of : TxFunctions → List CoordinatedTx → List ParentEntry
entries_of b [] = []
entries_of b (p ∷ ps) = entry_of b p.tx p.kind ++ entries_of b ps

module _ (ctx : EngineContext) where
  open ctx use {outside as o, settings}

  unfoldable pub review_speedups : M (Unit {0})
  review_speedups = do
    current_height ← get_height ctx
    all_speedups ← reads get_speedups_ordered
    for_each all_speedups (review_speedup ctx all_speedups current_height)

  -- One round of the loop over the results; a txid that is not in the batch is skipped.
  unfoldable pub handle_speedup_result :
      List CoordinatedTx → BlockHeight → Txid × DispatchOutcome → M (Unit {0})
  handle_speedup_result txs current_height (txid, outcome) =
      elim (find (λ (t : CoordinatedTx). t.txid == txid) txs) [
        | none ↦ pure tt
        | some tx ↦ handle_dispatch_result ctx tx txid outcome current_height tx.fee_info
      ]

  -- The part of `dispatch_pending_speedups` behind its early returns.
  abbrev pub send_speedups : BlockHeight → List CoordinatedTx → M Bool
  send_speedups current_height dispatchable = do
    let boosts = filter is_boost_tx dispatchable
    results ← dispatch o settings.dispatcher dispatchable
    for_each results (handle_speedup_result dispatchable current_height)
    reads (λ db. any (λ (t : CoordinatedTx). is_tx_failed t.txid db) boosts)

  -- With none left over by the pacing, nothing is sent.
  abbrev pub send_limited : BlockHeight → List CoordinatedTx → M Bool
  send_limited current_height dispatchable =
      branch (is_empty dispatchable) (pure false) (send_speedups current_height dispatchable)

  abbrev pub send_pending : BlockHeight → List CoordinatedTx → M Bool
  send_pending current_height pending =
      branch (is_empty pending) (pure false)
        (apply_retry_rate_limit ctx pending >>= send_limited current_height)

  unfoldable pub dispatch_pending_speedups : M Bool
  unfolding handle_speedup_result
  dispatch_pending_speedups = do
    current_height ← get_height ctx
    all_speedups ← reads get_speedups_ordered
    send_pending current_height (filter is_to_dispatch all_speedups)

  abbrev pub plan_of : List CoordinatedTx → CoordinatedTx → SpeedupContext → BoostPlan
  plan_of all_speedups tip last_context =
      let use_rbf =
        leb settings.speedup.max_unconfirmed_speedups
          (length (filter (is_live_in_mempool all_speedups) all_speedups)) in
      record {
        last_txid = tip.txid;
        last_rate = tip.fee_info.package_fee_rate;
        next_bump = o.floats.mul last_context.bump_fee_used settings.speedup.bump_fee_percentage;
        use_rbf = use_rbf;
        parent_entries =
            if use_rbf
            then map (λ (p : SpeedupData × ℕ × ℕ). (p.0, p.2)) last_context.parent_data
            else [];
        rbf_initial_inputs = if use_rbf then some last_context.funding_inputs else none;
        rbf_inherited_count = if use_rbf then length last_context.funding_inputs else 0;
      }

  -- The tests on the tip that `boost_if_stale` finds.
  abbrev pub is_stale_tip : BlockHeight → CoordinatedTx → Bool
  is_stale_tip current_height tip =
      (elim tip.broadcast_block_height [
        | none ↦ false
        | some h ↦
            leb settings.speedup.min_blocks_before_resend_speedup (saturating_sub current_height h)
      ])
      && ltb tip.fee_info.package_fee_rate settings.fee.max_feerate_sat_vb

  -- The first block of `boost_if_stale`: none where it returns early.
  unfoldable pub boost_plan : BlockHeight → List CoordinatedTx → Option BoostPlan
  boost_plan current_height all_speedups =
      if any_to_dispatch all_speedups
      then none
      else elim (find (is_live_in_mempool all_speedups) (reverse all_speedups)) [
        | none ↦ none
        | some tip ↦
            if is_stale_tip current_height tip
            then elim (speedup_kind tip) [
              | err e ↦ none
              | ok k ↦ some (plan_of all_speedups tip (context k))
            ]
            else none
      ]

  abbrev pub boost_kind : BoostPlan → List Utxo → SpeedupContext → SpeedupKind
  boost_kind plan inputs c =
      if plan.use_rbf
      then rbf plan.last_txid (drop plan.rbf_inherited_count inputs) c
      else cpfp (plan.last_txid ∷ []) c

  -- The predecessor of a capped RBF is marked as being at the cap.
  abbrev pub mark_at_cap : BoostPlan → Db → Db
  mark_at_cap plan db = elim (get_tx_by_id plan.last_txid db) [
    | none ↦ db
    | some p ↦
        update_tx
          (record p {
            fee_info = record p.fee_info { package_fee_rate = settings.fee.max_feerate_sat_vb };
          })
          db
  ]

  unfoldable pub save_boost : BoostPlan → BlockHeight → SpeedupBuildResult → M (Unit {0})
  save_boost plan current_height built = do
    let c = make_speedup_context built.funding_inputs plan.next_bump plan.parent_entries
    let fee_info =
        fee_info_for_paid_speedup o.bitcoin built.tx built.fee (entries_vbytes plan.parent_entries)
    let kind = boost_kind plan built.funding_inputs c
    save_speedup ctx built.tx fee_info kind current_height
    when built.capped (do
      modify (
          push_news (
            max_fee_rate_reached (o.bitcoin.compute_txid built.tx) fee_info.package_fee_rate
              (ctx_for_kind kind)))
      when plan.use_rbf (modify (mark_at_cap plan)))

  unfoldable pub build_boost : ℕ → BlockHeight → List CoordinatedTx → BoostPlan → M (Unit {0})
  unfolding save_boost
  build_boost fuel current_height all_speedups plan = do
    network_rate ← fee_rate_with_news ctx
    let fee_rate = boost_fee_rate network_rate plan.last_rate
    let unconfirmed = filter (is_live_in_mempool all_speedups) all_speedups
    let diff = (chain_fee_diff o.bitcoin fee_rate unconfirmed).0
    built ←
        build_speedup ctx fuel plan.parent_entries plan.rbf_initial_inputs plan.next_bump fee_rate
          diff
    elim built [ none ↦ pure tt | some b ↦ save_boost plan current_height b ]

  abbrev pub follow_plan : ℕ → BlockHeight → List CoordinatedTx → Option BoostPlan → M (Unit {0})
  follow_plan fuel current_height all_speedups none = pure tt
  follow_plan fuel current_height all_speedups (some plan) =
      build_boost fuel current_height all_speedups plan

  unfoldable pub boost_if_stale : ℕ → Bool → M (Unit {0})
  boost_if_stale fuel skip_boost = when (not skip_boost) (do
    current_height ← get_height ctx
    all_speedups ← reads get_speedups_ordered
    follow_plan fuel current_height all_speedups (boost_plan current_height all_speedups))

  unfoldable pub save_batch :
      List CoordinatedTx → List ParentEntry → SpeedupBuildResult → M (Unit {0})
  save_batch batch entries built = do
    let parent_txids = map (λ (p : CoordinatedTx). p.txid) batch
    for_each parent_txids (λ p. modify (remove_pending_speedup_parent p))
    let bump_fee = settings.fee.base_fee_multiplier
    let c = make_speedup_context built.funding_inputs bump_fee entries
    let fee_info = fee_info_for_paid_speedup o.bitcoin built.tx built.fee (entries_vbytes entries)
    let kind = cpfp parent_txids c
    when built.capped (
        modify (
          push_news (
            max_fee_rate_reached (o.bitcoin.compute_txid built.tx) fee_info.package_fee_rate
              (ctx_for_kind kind))))
    current_height ← get_height ctx
    save_speedup ctx built.tx fee_info kind current_height

  -- The part of `create_cpfp_batch` behind its early returns.
  unfoldable pub build_batch : ℕ → List CoordinatedTx → List CoordinatedTx → M (Unit {0})
  unfolding save_batch
  build_batch fuel parents unconfirmed = do
    fee_rate ← fee_rate_with_news ctx
    let diff = (chain_fee_diff o.bitcoin fee_rate unconfirmed).0
    elim (last (batch_by_weight o.bitcoin settings.dispatcher parents 1)) [
      | none ↦ pure tt
      | some batch ↦ do
        let entries = entries_of o.bitcoin batch
        when (not (is_empty entries)) (do
          built ← build_speedup ctx fuel entries none settings.fee.base_fee_multiplier fee_rate diff
          elim built [ none ↦ pure tt | some b ↦ save_batch batch entries b ])
    ]

  -- The rest of `create_cpfp_batch`, from the pending parents on.
  abbrev pub batch_pending : ℕ → List CoordinatedTx → M (Unit {0})
  batch_pending fuel parents = do
    all_speedups ← reads get_speedups_ordered
    let unconfirmed = filter (is_live_in_mempool all_speedups) all_speedups
    let slots = saturating_sub settings.speedup.max_unconfirmed_speedups (length unconfirmed)
    let stop = is_empty parents || (any_to_dispatch all_speedups || nat_eqb slots 0)
    when (not stop) (build_batch fuel parents unconfirmed)

  unfoldable pub create_cpfp_batch : ℕ → M (Unit {0})
  unfolding build_batch
  create_cpfp_batch fuel = updates get_pending_speedup_parents >>= batch_pending fuel
