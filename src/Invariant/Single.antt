-- ===== src/Invariant/Single.antt =====
-- One speedup at a time: what `boost_if_stale` and `create_cpfp_batch` of
-- src/engines/speedup_engine.rs put on the list of speedups.
use rust_bitvmx_bitcoin.Common.{
  Bool, List, Option, ap, arith, contains, false, filter, inr, is_empty, last, length, nat_eqb,
  none, not, refl, saturating_sub, some, true, ℕ, ◌||◌, ◌≡◌, ◌⊎◌, nat_eq, string_eq,
}
use rust_bitvmx_bitcoin.Types.{BlockHeight, CoordinatedTx, Txid, state_eq, outpoint_eq, news_eq}
use rust_bitvmx_bitcoin.Storage.Db.{Db}
use rust_bitvmx_bitcoin.Storage.Speedups.{get_speedups_ordered}
use rust_bitvmx_bitcoin.Storage.Pending.{get_pending_speedup_parents}
use rust_bitvmx_bitcoin.Storage.Pending.Queue.{get_pending_speedup_parents_exact}
use rust_bitvmx_bitcoin.Storage.WellFormed.{IsWellFormed}
use rust_bitvmx_bitcoin.Storage.WellFormed.Operations.{Within}
use rust_bitvmx_bitcoin.Storage.WellFormed.Funds.{scan-Within}
use rust_bitvmx_bitcoin.World.{M, World, pure, reads, updates}
use rust_bitvmx_bitcoin.World.Keeps.{Keeps, Keeps-ask, Keeps-pure, Keeps-reads, Keeps-updates}
use rust_bitvmx_bitcoin.World.Rules.{continue_keeps}
use rust_bitvmx_bitcoin.Fee.{chain_fee_diff}
use rust_bitvmx_bitcoin.Dispatcher.{batch_by_weight}
use rust_bitvmx_bitcoin.Engine.Common.{EngineContext, fee_rate_with_news, get_height}
use rust_bitvmx_bitcoin.Engine.Build.{
  ParentEntry, SpeedupBuildResult, build_speedup, is_live_in_mempool,
}
use rust_bitvmx_bitcoin.Engine.Speedup.{
  BoostPlan, any_to_dispatch, batch_pending, boost_if_stale, boost_plan, build_batch, build_boost,
  create_cpfp_batch, entries_of, follow_plan, save_batch, save_boost,
}
use rust_bitvmx_bitcoin.Invariant.Build.{build_speedup-Keeps}
use rust_bitvmx_bitcoin.Invariant.Outcome.{fee_rate_with_news-Keeps}
use rust_bitvmx_bitcoin.Invariant.Batch.{batch_steps}
use rust_bitvmx_bitcoin.Invariant.Growth.{
  GrowsByOne, Leads, Leads-Keeps, Leads-Lists, Leads-bind, Leads-when, save_batch-Lists,
  save_boost-Lists, start,
}

module _ (old : List Txid) where
  module _ (ctx : EngineContext) where
    open ctx use {outside as o, settings}

    rate_step : Keeps (Within (start old)) (fee_rate_with_news ctx)
    rate_step = fee_rate_with_news-Keeps ctx (start old)

    boosted-Leads :
        (plan : BoostPlan) (h : BlockHeight) (built : Option SpeedupBuildResult)
        → Leads old (elim built [ none ↦ pure tt | some b ↦ save_boost ctx plan h b ])
    boosted-Leads plan h none = Leads-Keeps old (pure tt) (Keeps-pure tt)
    boosted-Leads plan h (some b) =
        Leads-Lists old (save_boost ctx plan h b) (o.bitcoin.compute_txid b.tx) (
          save_boost-Lists (λ k. (contains old k ≡ true) ⊎ (o.bitcoin.compute_txid b.tx ≡ k)) ctx
            plan h b (inr refl))

    follow_plan-Leads :
        (fuel : ℕ) (h : BlockHeight) (all : List CoordinatedTx) (plan : Option BoostPlan)
        → Leads old (follow_plan ctx fuel h all plan)
    unfolding build_boost
    follow_plan-Leads fuel h all none = Leads-Keeps old (pure tt) (Keeps-pure tt)
    follow_plan-Leads fuel h all (some plan) =
        Leads-bind old (fee_rate_with_news ctx) _ rate_step (λ rate.
          Leads-bind old _ _ (build_speedup-Keeps ctx (start old) fuel _ _ _ _ _)
            (λ built. boosted-Leads plan h built))

    boost-Leads : (fuel : ℕ) (skip : Bool) → Leads old (boost_if_stale ctx fuel skip)
    unfolding boost_if_stale
    boost-Leads fuel skip = Leads-when old (not skip) _ (
        Leads-bind old (get_height ctx) _ (Keeps-ask o.get_monitor_height) (λ h.
          Leads-bind old (reads get_speedups_ordered) _ (Keeps-reads get_speedups_ordered)
            (λ all. follow_plan-Leads fuel h all (boost_plan ctx h all))))

    saved-Leads :
        (batch : List CoordinatedTx) (entries : List ParentEntry)
        (built : Option SpeedupBuildResult)
        → Leads old (elim built [ none ↦ pure tt | some b ↦ save_batch ctx batch entries b ])
    saved-Leads batch entries none = Leads-Keeps old (pure tt) (Keeps-pure tt)
    saved-Leads batch entries (some b) =
        Leads-Lists old (save_batch ctx batch entries b) (o.bitcoin.compute_txid b.tx) (
          save_batch-Lists (λ k. (contains old k ≡ true) ⊎ (o.bitcoin.compute_txid b.tx ≡ k)) ctx
            batch entries b (inr refl))

    with_batch-Leads :
        (fuel rate diff : ℕ) (found : Option (List CoordinatedTx))
        → (let rest : M (Unit {0}) = elim found [
          | none ↦ pure tt
          | some batch ↦ batch_steps ctx (λ n. ⊥) fuel rate diff batch
        ] in
            Leads old rest)
    with_batch-Leads fuel rate diff none = Leads-Keeps old (pure tt) (Keeps-pure tt)
    with_batch-Leads fuel rate diff (some batch) =
        let entries = entries_of o.bitcoin batch in
        Leads-when old (not (is_empty entries)) _ (
          Leads-bind old
            (build_speedup ctx fuel entries none settings.fee.base_fee_multiplier rate diff) _
            (build_speedup-Keeps ctx (start old) fuel entries none settings.fee.base_fee_multiplier
              rate diff)
            (saved-Leads batch entries))

    build_batch-Leads :
        (fuel : ℕ) (parents unconfirmed : List CoordinatedTx)
        → Leads old (build_batch ctx fuel parents unconfirmed)
    unfolding build_batch
    build_batch-Leads fuel parents unconfirmed =
        Leads-bind old (fee_rate_with_news ctx) _ rate_step (λ rate.
          with_batch-Leads fuel rate (chain_fee_diff o.bitcoin rate unconfirmed).0
            (last (batch_by_weight o.bitcoin settings.dispatcher parents 1)))

    create-Leads : (fuel : ℕ) → Leads old (create_cpfp_batch ctx fuel)
    unfolding create_cpfp_batch
    create-Leads fuel =
        Leads-bind old (updates get_pending_speedup_parents) (batch_pending ctx fuel)
          (Keeps-updates get_pending_speedup_parents (scan-Within (start old)))
          (λ ps.
            Leads-bind old (reads get_speedups_ordered) _ (Keeps-reads get_speedups_ordered) (λ all.
              let unconfirmed = filter (is_live_in_mempool all) all in
              let slots =
                saturating_sub settings.speedup.max_unconfirmed_speedups (length unconfirmed) in
              Leads-when old (not (is_empty ps || (any_to_dispatch all || nat_eqb slots 0)))
                (build_batch ctx fuel ps unconfirmed) (build_batch-Leads fuel ps unconfirmed)))

scan_keeps-speedups :
    (db : Db) → get_speedups_ordered (get_pending_speedup_parents db).1 ≡ get_speedups_ordered db
unfolding get_speedups_ordered
scan_keeps-speedups db = rw (get_pending_speedup_parents_exact db) refl

or_true : (a : Bool) → (a || true) ≡ true
or_true a = ground arith

module _ (ctx : EngineContext) where
  open ctx use {outside as o, settings}

  no_plan :
      (h : BlockHeight) (all : List CoordinatedTx)
      → any_to_dispatch all ≡ true
      → boost_plan ctx h all ≡ none
  unfolding boost_plan
  no_plan h all e = rw (e, boost_plan) refl

  no_boost :
      (fuel : ℕ) (skip : Bool) (w : World)
      → any_to_dispatch (get_speedups_ordered w.db) ≡ true
      → (boost_if_stale ctx fuel skip w).1 ≡ w
  unfolding boost_if_stale
  no_boost fuel true w e = refl
  no_boost fuel false w e =
      continue_keeps (λ w'. w' ≡ w) (o.get_monitor_height w.log) _ w refl
        (λ h f.
          ap (λ plan. (follow_plan ctx fuel h (get_speedups_ordered w.db) plan w).1)
            (no_plan h (get_speedups_ordered w.db) e))

  no_batch :
      (fuel : ℕ) (w : World)
      → any_to_dispatch (get_speedups_ordered w.db) ≡ true
      → (create_cpfp_batch ctx fuel w).1.db.speedup_list ≡ w.db.speedup_list
  unfolding create_cpfp_batch
  no_batch fuel w e =
      let db' = (get_pending_speedup_parents w.db).1 in
      let still : any_to_dispatch (get_speedups_ordered db') ≡ true =
        rw (scan_keeps-speedups w.db) e in
      rw (still, or_true (is_empty (get_pending_speedup_parents w.db).0))
        (rw (get_pending_speedup_parents_exact w.db) refl)

  -- Speedups are made one at a time. On a well-formed state, whatever the fuel and the answers of the
  -- node, the monitor and the builder, and also where the call ends with an error, `boost_if_stale`
  -- and `create_cpfp_batch` each put at most one new txid on the list of speedups; and while a listed
  -- speedup waits for dispatch the one changes nothing and the other leaves the list as it is.
  pub one_speedup_at_a_time :
      (fuel : ℕ) (skip : Bool) (w : World)
      → IsWellFormed w.db
      → GrowsByOne w.db.speedup_list (boost_if_stale ctx fuel skip w).1.db.speedup_list
        × GrowsByOne w.db.speedup_list (create_cpfp_batch ctx fuel w).1.db.speedup_list
        × (any_to_dispatch (get_speedups_ordered w.db) ≡ true
            → ((boost_if_stale ctx fuel skip w).1 ≡ w)
              × ((create_cpfp_batch ctx fuel w).1.db.speedup_list ≡ w.db.speedup_list))
  one_speedup_at_a_time fuel skip w wf =
      let old = w.db.speedup_list in
      let within : Within (start old) w.db =
        (wf, record { in_list = λ k c. c; in_news = λ n p. absurd p }) in
      (
        (boost-Leads old ctx fuel skip).at w within,
        (create-Leads old ctx fuel).at w within,
        λ waits. (no_boost fuel skip w waits, no_batch fuel w waits),
      )
