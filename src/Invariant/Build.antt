-- ===== src/Invariant/Build.antt =====
-- The making of speedups (src/engines/speedup_engine.rs) keeps the state well formed.
use rust_bitvmx_bitcoin.Common.{
  Bool, Bool-cases, IsUnique, List, Option, Option-cases, [], arith, contains-append, false, inl,
  inr, none, push_new-IsUnique, refl, some, suc, true, zero, ℕ, ◌==◌, ◌∷◌, ◌≡◌, nat_eq, string_eq,
}
use rust_bitvmx_bitcoin.Common.Maps.{lookup-insert}
use rust_bitvmx_bitcoin.Types.{
  BlockHeight, CoordinatedTx, CoordinatorNews, F64, FeeInfo, SpeedupContext, SpeedupKind,
  Transaction, Utxo, funding_not_available, state_eq, outpoint_eq, news_eq,
}
use rust_bitvmx_bitcoin.Storage.Db.{Db, get_tx_by_id, insert_tx}
use rust_bitvmx_bitcoin.Storage.News.{push_news}
use rust_bitvmx_bitcoin.Storage.Pending.{cpfp_parents}
use rust_bitvmx_bitcoin.Storage.Speedups.{get_speedups_ordered, insert_speedup}
use rust_bitvmx_bitcoin.Storage.Funding.{is_speedup}
use rust_bitvmx_bitcoin.Storage.WellFormed.{IsWellFormed, insert_tx-IsWellFormed}
use rust_bitvmx_bitcoin.Storage.WellFormed.Operations.{
  Frame, Within, push_news-Within, revise-Within,
}
use rust_bitvmx_bitcoin.Storage.WellFormed.Funds.{
  combine-Within, get_funding-Within, release_marks-Within,
}
use rust_bitvmx_bitcoin.Outside.{transactions}
use rust_bitvmx_bitcoin.World.{M, modify, pure, reads, tries, updates, ◌>>◌}
use rust_bitvmx_bitcoin.World.Keeps.{
  Keeps, Keeps-bind, Keeps-call, Keeps-modify, Keeps-pure, Keeps-tries, Keeps-updates, keeps_rules,
}
use rust_bitvmx_bitcoin.Funding.{get_combine_funding, get_funding, release_marks}
use rust_bitvmx_bitcoin.Engine.Common.{EngineContext, fee_rate_with_news, monitor_call}
use rust_bitvmx_bitcoin.Engine.Build.{
  BuildRequest, ParentEntry, SpeedupBuildResult, after_combine, build_loop, build_speedup,
  ctx_for_kind, emit_funding_not_available, emit_insufficient_funds, give_up, round, save_speedup,
  sized, speedup_record,
}
use rust_bitvmx_bitcoin.Engine.Speedup.{
  BoostPlan, boost_if_stale, boost_kind, build_boost, follow_plan, mark_at_cap, save_boost,
}
use rust_bitvmx_bitcoin.Invariant.Snapshot.{Anything, Keeps-anyhow, Kept}
use rust_bitvmx_bitcoin.Invariant.Outcome.{fee_rate_with_news-Keeps}

-- A new speedup joins the records and the list.
insert_speedup-IsWellFormed :
    (tx : CoordinatedTx) (db : Db)
    → is_speedup tx ≡ true
    → IsUnique (cpfp_parents tx)
    → IsWellFormed db
    → IsWellFormed (insert_speedup tx db)
unfolding insert_speedup insert_tx
insert_speedup-IsWellFormed tx db kind once wf =
    let wf' = insert_tx-IsWellFormed tx db (once, λ c. kind) wf in
    record {
      stored = wf'.stored;
      parents_once = wf'.parents_once;
      pending_once = wf'.pending_once;
      listed_once = push_new-IsUnique db.speedup_list tx.txid wf.listed_once;
      listed_stored = λ k c. elim (Bool-cases (tx.txid == k)) [
        | inl hit ↦ (tx, rw (lookup-insert tx.txid k tx db.txs, hit) refl, kind)
        | inr miss ↦
            wf'.listed_stored k (ground (arith, contains-append db.speedup_list (tx.txid ∷ []) k))
      ];
      funding_sound = wf'.funding_sound;
      news_once = wf'.news_once;
    }

module _ (L : Frame) where
  told-Keeps : (n : CoordinatorNews) → Keeps (Within L) (modify (push_news n))
  told-Keeps n = Keeps-modify (push_news n) (push_news-Within L n)

  released-Keeps : (us : List Utxo) → Keeps (Within L) (modify (release_marks us))
  released-Keeps us = Keeps-modify (release_marks us) (release_marks-Within L us)

  combined-Keeps : Keeps (Within L) (updates get_combine_funding)
  combined-Keeps = Keeps-updates get_combine_funding (combine-Within L)

  ruleset build_rules = (keeps_rules, told-Keeps, released-Keeps, combined-Keeps)

module _ (ctx : EngineContext) (L : Frame) where
  open ctx use {outside as o, settings}

  module _ (again : List Utxo → ℕ → M (Option SpeedupBuildResult)) (r : BuildRequest)
      (kept : (us : List Utxo) (n : ℕ) → Keeps (Within L) (again us n)) where
    give_up-Keeps : (inputs : List Utxo) (fee : ℕ) → Keeps (Within L) (give_up ctx r inputs fee)
    unfolding emit_insufficient_funds
    give_up-Keeps inputs fee = search build_rules

    after_combine-Keeps :
        (inputs : List Utxo) (fee : ℕ) (u : Option Utxo)
        → Keeps (Within L) (after_combine ctx again r inputs fee u)
    after_combine-Keeps inputs fee none = give_up-Keeps inputs fee
    after_combine-Keeps inputs fee (some u) = kept _ 0

    sized-Keeps : (inputs : List Utxo) (size : ℕ) → Keeps (Within L) (sized ctx again r inputs size)
    sized-Keeps inputs size = search (build_rules, after_combine-Keeps, kept) depth 14

    round-Keeps : (inputs : List Utxo) (size : ℕ) → Keeps (Within L) (round ctx again r inputs size)
    round-Keeps inputs size = search (build_rules, sized-Keeps) depth 12

  build_loop-Keeps :
      (fuel : ℕ) (r : BuildRequest) (inputs : List Utxo) (size : ℕ)
      → Keeps (Within L) (build_loop ctx fuel r inputs size)
  unfolding build_loop
  build_loop-Keeps zero r inputs size = search keeps_rules
  build_loop-Keeps (suc fuel) r inputs size =
      round-Keeps (build_loop ctx fuel r) r (build_loop-Keeps fuel r) inputs size

  funded-Keeps : (all : List CoordinatedTx) → Keeps (Within L) (tries (get_funding all))
  funded-Keeps all = Keeps-tries (get_funding all) (get_funding-Within L all)

  pub build_speedup-Keeps :
      (fuel : ℕ) (entries : List ParentEntry) (inputs : Option (List Utxo)) (bump : F64)
      (rate diff : ℕ)
      → Keeps (Within L) (build_speedup ctx fuel entries inputs bump rate diff)
  unfolding build_speedup emit_funding_not_available
  build_speedup-Keeps fuel entries (some inputs) bump rate diff =
      search (keeps_rules, build_loop-Keeps)
  build_speedup-Keeps fuel entries none bump rate diff =
      Keeps-bind (reads get_speedups_ordered) _ (search keeps_rules)
        (λ all. Keeps-bind (tries (get_funding all)) _ (funded-Keeps all) by_found)
    where
      request : Bool → BuildRequest
      request b = record {
        parent_entries = entries;
        bump_fee = bump;
        fee_rate = rate;
        chain_diff_fee = diff;
        is_rbf = false;
        inherited_count = 0;
        primary_is_speedup = b;
      }

      by_found :
          (found : Option (Utxo × Bool))
          → (let rest : M (Option SpeedupBuildResult) = elim found [
            | none ↦ do emit_funding_not_available ctx; pure none
            | some (utxo, kind) ↦ build_loop ctx fuel (request kind) (utxo ∷ []) 0
          ] in
              Keeps (Within L) rest)
      by_found none =
          Keeps-bind (emit_funding_not_available ctx) (λ _. pure none)
            (told-Keeps L funding_not_available) (λ _. Keeps-pure none)
      by_found (some (utxo, kind)) = build_loop-Keeps fuel (request kind) (utxo ∷ []) 0

-- Saving what was built, under whatever is listed.
module _ (ctx : EngineContext) (N : CoordinatorNews → Type 0) where
  open ctx use {outside as o, settings}

  pub save_speedup-Keeps :
      (tx : Transaction) (f : FeeInfo) (kind : SpeedupKind) (h : BlockHeight)
      → IsUnique (cpfp_parents (speedup_record ctx tx f kind h))
      → Keeps (Kept N) (save_speedup ctx tx f kind h)
  unfolding save_speedup insert_speedup insert_tx
  save_speedup-Keeps tx f kind h once =
      Keeps-bind (modify (insert_speedup (speedup_record ctx tx f kind h)))
        (λ _.
          monitor_call ctx (transactions (o.bitcoin.compute_txid tx ∷ []) (ctx_for_kind kind) none)
            false)
        (Keeps-modify (insert_speedup (speedup_record ctx tx f kind h)) (λ db kept. (
          insert_speedup-IsWellFormed (speedup_record ctx tx f kind h) db refl once kept.0,
          kept.1,
        )))
        (λ _. Keeps-call _ _)

  plan_kind-IsUnique :
      (plan : BoostPlan) (tx : Transaction) (f : FeeInfo) (h : BlockHeight) (us : List Utxo)
      (c : SpeedupContext)
      → IsUnique (cpfp_parents (speedup_record ctx tx f (boost_kind ctx plan us c) h))
  plan_kind-IsUnique plan tx f h us c = elim (Bool-cases plan.use_rbf) [
    | inl e ↦ rw e tt
    | inr e ↦ rw e (refl, tt)
  ]

  mark_at_cap-Within :
      (L : Frame) (plan : BoostPlan) (db : Db) → Within L db → Within L (mark_at_cap ctx plan db)
  mark_at_cap-Within L plan db kept = elim (Option-cases (get_tx_by_id plan.last_txid db)) [
    | inl e ↦ rw (e, mark_at_cap) kept
    | inr (t, e) ↦ rw (e, mark_at_cap) (revise-Within L plan.last_txid t _ db e refl refl refl kept)
  ]

  capped-Keeps : (plan : BoostPlan) → Keeps (Kept N) (modify (mark_at_cap ctx plan))
  capped-Keeps plan =
      Keeps-anyhow (modify (mark_at_cap ctx plan))
        (Keeps-modify (mark_at_cap ctx plan) (mark_at_cap-Within (Anything N) plan))

  pub told_anyhow-Keeps : (n : CoordinatorNews) → Keeps (Kept N) (modify (push_news n))
  told_anyhow-Keeps n = Keeps-anyhow (modify (push_news n)) (told-Keeps (Anything N) n)

  save_boost-Keeps :
      (plan : BoostPlan) (h : BlockHeight) (built : SpeedupBuildResult)
      → Keeps (Kept N) (save_boost ctx plan h built)
  unfolding save_boost
  save_boost-Keeps plan h built =
      search (keeps_rules, save_speedup-Keeps, plan_kind-IsUnique, capped-Keeps, told_anyhow-Keeps)
        depth 14

  pub spent-Keeps :
      (fuel : ℕ) (entries : List ParentEntry) (inputs : Option (List Utxo)) (bump : F64)
      (rate diff : ℕ)
      → Keeps (Kept N) (build_speedup ctx fuel entries inputs bump rate diff)
  spent-Keeps fuel entries inputs bump rate diff =
      Keeps-anyhow (build_speedup ctx fuel entries inputs bump rate diff)
        (build_speedup-Keeps ctx (Anything N) fuel entries inputs bump rate diff)

  pub rate-Keeps : Keeps (Kept N) (fee_rate_with_news ctx)
  rate-Keeps = Keeps-anyhow (fee_rate_with_news ctx) (fee_rate_with_news-Keeps ctx (Anything N))

  boosted-Keeps :
      (plan : BoostPlan) (h : BlockHeight) (built : Option SpeedupBuildResult)
      → Keeps (Kept N) (elim built [ none ↦ pure tt | some b ↦ save_boost ctx plan h b ])
  boosted-Keeps plan h none = search keeps_rules
  boosted-Keeps plan h (some b) = save_boost-Keeps plan h b

  build_boost-Keeps :
      (fuel : ℕ) (h : BlockHeight) (all : List CoordinatedTx) (plan : BoostPlan)
      → Keeps (Kept N) (build_boost ctx fuel h all plan)
  unfolding build_boost
  build_boost-Keeps fuel h all plan =
      search (keeps_rules, rate-Keeps, spent-Keeps, boosted-Keeps) depth 12

  follow_plan-Keeps :
      (fuel : ℕ) (h : BlockHeight) (all : List CoordinatedTx) (plan : Option BoostPlan)
      → Keeps (Kept N) (follow_plan ctx fuel h all plan)
  follow_plan-Keeps fuel h all none = search keeps_rules
  follow_plan-Keeps fuel h all (some plan) = build_boost-Keeps fuel h all plan

  pub boost_if_stale-Keeps :
      (fuel : ℕ) (skip : Bool) → Keeps (Kept N) (boost_if_stale ctx fuel skip)
  unfolding boost_if_stale
  boost_if_stale-Keeps fuel skip = search (keeps_rules, follow_plan-Keeps) depth 12
