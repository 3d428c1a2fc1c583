-- ===== src/Invariant/Growth.antt =====
-- How a step of src/engines/speedup_engine.rs lets the list of speedups grow.
use rust_bitvmx_bitcoin.Common.{
  Bool, Bool-cases, List, Option-cases, [], arith, contains, contains-append, false, inl, inr,
  nat_eqb_iff, none, subst, true, ◌==◌, ◌∷◌, ◌≡◌, ◌⊎◌, nat_eq, string_eq,
}
use rust_bitvmx_bitcoin.Types.{
  BlockHeight, CoordinatedTx, CoordinatorNews, FeeInfo, Result, SpeedupKind, Transaction, Txid, err,
  ok, state_eq, outpoint_eq, news_eq,
}
use rust_bitvmx_bitcoin.Storage.Db.{Db, get_tx_by_id, insert_tx, update_tx}
use rust_bitvmx_bitcoin.Storage.News.{push_news}
use rust_bitvmx_bitcoin.Storage.Speedups.{insert_speedup}
use rust_bitvmx_bitcoin.Storage.Pending.{remove_pending_speedup_parent}
use rust_bitvmx_bitcoin.Storage.WellFormed.Operations.{Frame, Within, push_news_lem}
use rust_bitvmx_bitcoin.World.{M, World, continue, modify, pure, when, ◌>>=◌}
use rust_bitvmx_bitcoin.World.Keeps.{
  Keeps, Keeps-bind, Keeps-call, Keeps-modify, Keeps-pure, keeps_rules,
}
use rust_bitvmx_bitcoin.Outside.{transactions}
use rust_bitvmx_bitcoin.Engine.Common.{EngineContext, monitor_call}
use rust_bitvmx_bitcoin.Engine.Build.{
  ParentEntry, SpeedupBuildResult, ctx_for_kind, save_speedup, speedup_record,
}
use rust_bitvmx_bitcoin.Engine.Speedup.{BoostPlan, mark_at_cap, save_batch, save_boost}

-- The list has at most one txid that was not on it before.
abbrev pub GrowsByOne : List Txid → List Txid → Type 0
GrowsByOne old now =
    (id : Txid) × ((k : Txid) → contains now k ≡ true → (contains old k ≡ true) ⊎ (id ≡ k))

-- Which txids are listed.
abbrev Lists : (Txid → Type 0) → Db → Type 0
Lists P db = (k : Txid) → contains db.speedup_list k ≡ true → P k

module _ (P : Txid → Type 0) where
  insert_speedup-Lists :
      (tx : CoordinatedTx) (db : Db) → P tx.txid → Lists P db → Lists P (insert_speedup tx db)
  unfolding insert_speedup insert_tx
  insert_speedup-Lists tx db new h k c = elim (Bool-cases (tx.txid == k)) [
    | inl hit ↦ subst P ((nat_eqb_iff tx.txid k).0 hit) new
    | inr miss ↦ h k (ground (arith, contains-append db.speedup_list (tx.txid ∷ []) k))
  ]

  told-Lists : (n : CoordinatorNews) → Keeps (Lists P) (modify (push_news n))
  told-Lists n = Keeps-modify (push_news n) (λ db h. rw (push_news_lem n db) h)

  dropped-Lists : (id : Txid) → Keeps (Lists P) (modify (remove_pending_speedup_parent id))
  unfolding remove_pending_speedup_parent
  dropped-Lists id = Keeps-modify (remove_pending_speedup_parent id) (λ db h. h)

  module _ (ctx : EngineContext) where
    open ctx use {outside as o, settings}

    capped-Lists : (plan : BoostPlan) → Keeps (Lists P) (modify (mark_at_cap ctx plan))
    unfolding update_tx insert_tx
    capped-Lists plan = Keeps-modify (mark_at_cap ctx plan) kept
      where
        kept : (db : Db) → Lists P db → Lists P (mark_at_cap ctx plan db)
        kept db h = elim (Option-cases (get_tx_by_id plan.last_txid db)) [
          | inl e ↦ rw (e, mark_at_cap) h
          | inr (t, e) ↦ rw (e, mark_at_cap) h
        ]

    module _ (tx : Transaction) (new : P (o.bitcoin.compute_txid tx)) where
      save_speedup-Lists :
          (f : FeeInfo) (kind : SpeedupKind) (h : BlockHeight)
          → Keeps (Lists P) (save_speedup ctx tx f kind h)
      unfolding save_speedup insert_speedup insert_tx
      save_speedup-Lists f kind h =
          Keeps-bind (modify (insert_speedup (speedup_record ctx tx f kind h)))
            (λ _.
              monitor_call ctx
                (transactions (o.bitcoin.compute_txid tx ∷ []) (ctx_for_kind kind) none) false)
            (Keeps-modify (insert_speedup (speedup_record ctx tx f kind h))
              (λ db. insert_speedup-Lists (speedup_record ctx tx f kind h) db new))
            (λ _. Keeps-call _ _)

    pub save_boost-Lists :
        (plan : BoostPlan) (h : BlockHeight) (built : SpeedupBuildResult)
        → P (o.bitcoin.compute_txid built.tx)
        → Keeps (Lists P) (save_boost ctx plan h built)
    unfolding save_boost
    save_boost-Lists plan h built new =
        let saved = save_speedup-Lists built.tx new in
        search (keeps_rules, saved, capped-Lists, told-Lists) depth 14

    pub save_batch-Lists :
        (batch : List CoordinatedTx) (entries : List ParentEntry) (built : SpeedupBuildResult)
        → P (o.bitcoin.compute_txid built.tx)
        → Keeps (Lists P) (save_batch ctx batch entries built)
    unfolding save_batch
    save_batch-Lists batch entries built new =
        let saved = save_speedup-Lists built.tx new in
        search (keeps_rules, saved, dropped-Lists, told-Lists) depth 14

module _ (old : List Txid) where
  -- The state as it is while nothing is saved: no txid but the old ones is listed.
  abbrev pub start : Frame
  start = record { listed = λ k. contains old k ≡ true; promised = λ n. ⊥ }

  -- `m` lists at most one more txid, whether it returns or raises, when it finds the list unchanged.
  pub record Leads {A : Type 0} (m : M A) : Type 0 where
    pub at : (w : World) → Within start w.db → GrowsByOne old (m w).1.db.speedup_list

  pub Within-GrowsByOne : (db : Db) → Within start db → GrowsByOne old db.speedup_list
  Within-GrowsByOne db h = (0, λ k c. inl (h.1.in_list k c))

  module _ {A : Type 0} where
    pub Leads-Keeps : (m : M A) → Keeps (Within start) m → Leads m
    Leads-Keeps m k = record { at = λ w h. Within-GrowsByOne (m w).1.db (k.at w h) }

    pub Leads-Lists :
        (m : M A) (id : Txid) → Keeps (Lists (λ k. (contains old k ≡ true) ⊎ (id ≡ k))) m → Leads m
    Leads-Lists m id kept = record { at = λ w h. (id, kept.at w (λ k c. inl (h.1.in_list k c))) }

  pub Leads-when : (b : Bool) (m : M (Unit {0})) → Leads m → Leads (when b m)
  Leads-when true m l = l
  Leads-when false m l = Leads-Keeps (pure tt) (Keeps-pure tt)

  module _ {A B : Type 0} where
    continue-Leads :
        (r : Result A) (f : A → M B) (w : World)
        → ((a : A) → Leads (f a))
        → Within start w.db
        → GrowsByOne old (continue r f w).1.db.speedup_list
    continue-Leads (ok a) f w fs h = (fs a).at w h
    continue-Leads (err e) f w fs h = Within-GrowsByOne w.db h

    pub Leads-bind :
        (m : M A) (f : A → M B) → Keeps (Within start) m → ((a : A) → Leads (f a)) → Leads (m >>= f)
    Leads-bind m f km fs = record { at = λ w h. continue-Leads (m w).0 f (m w).1 fs (km.at w h) }
