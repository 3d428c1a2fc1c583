-- ===== src/Engine/Build/Released.antt =====
-- A build of src/engines/speedup_engine.rs that gives up leaves the funding as it found it.
use rust_bitvmx_bitcoin.Common.{
  Bool, List, Option, [], drop, false, length, none, refl, some, subst, sym, true, ℕ, ◌++◌, ◌∷◌,
  ◌≡◌, nat_eq, string_eq,
}
use rust_bitvmx_bitcoin.Types.{
  F64, Result, Utxo, err, funding_not_available, ok, outpoint, state_eq, outpoint_eq, news_eq,
}
use rust_bitvmx_bitcoin.Storage.Db.{Db}
use rust_bitvmx_bitcoin.Storage.Speedups.{get_speedups_ordered}
use rust_bitvmx_bitcoin.Storage.Funding.{set_spent}
use rust_bitvmx_bitcoin.World.{M, World, continue, pure, ◌>>◌}
use rust_bitvmx_bitcoin.Funding.{get_funding, release_marks}
use rust_bitvmx_bitcoin.Funding.Release.{is_marked, set_spent_undo}
use rust_bitvmx_bitcoin.Funding.Handed.{HasOwnFunding, get_funding-Free}
use rust_bitvmx_bitcoin.Storage.WellFormed.{IsWellFormed}
use rust_bitvmx_bitcoin.Storage.WellFormed.Operations.{push_news_lem}
use rust_bitvmx_bitcoin.Storage.Stored.{stored-IsKeyed}
use rust_bitvmx_bitcoin.Engine.Common.{EngineContext}
use rust_bitvmx_bitcoin.Engine.Build.{
  BuildRequest, ParentEntry, SpeedupBuildResult, build_loop, build_speedup,
  emit_funding_not_available,
}
use rust_bitvmx_bitcoin.Funding.Combined.{combine_alone, combine_second, funding_none}
use rust_bitvmx_bitcoin.Engine.Build.Restores.{Holds, err_none, loop-Restores}

drop_all : (us : List Utxo) → drop (length us) us ≡ []
drop_all [] = refl
drop_all (u ∷ us) = drop_all us

drop-append : (us : List Utxo) (v : Utxo) → drop (length us) (us ++ v ∷ []) ≡ v ∷ []
drop-append [] v = refl
drop-append (u ∷ us) v = drop-append us v

-- The inputs of the RBF's predecessor are no concern of this build.
inherited-Holds : (d : Db) (inputs : List Utxo) → IsWellFormed d → Holds d (length inputs) inputs d
unfolding release_marks
inherited-Holds d inputs wf = record {
  back = rw (drop_all inputs) refl;
  back_combined = λ u one e. rw (drop-append inputs u) (combine_alone d u wf e);
}

first-Holds :
    (d : Db) (u : Utxo)
    → IsWellFormed d
    → is_marked (outpoint u) d ≡ false
    → Holds d 0 (u ∷ []) (set_spent (outpoint u) true d)
unfolding release_marks
first-Holds d u wf unmarked = record {
  back = set_spent_undo (outpoint u) d (stored-IsKeyed d.txs wf.stored) unmarked;
  back_combined = λ v one e. combine_second d u v wf unmarked e;
}

module _ (ctx : EngineContext) (fuel : ℕ) (request : Bool → BuildRequest)
    (owns : (b : Bool) → (request b).inherited_count ≡ 0) (w : World) (wf : IsWellFormed w.db)
    (own : HasOwnFunding w.db) where
  abbrev funded : Result (Option (Utxo × Bool)) × Db
  funded = get_funding (get_speedups_ordered w.db) w.db

  -- The steps after `get_funding`.
  abbrev from_funding : Option (Utxo × Bool) → M (Option SpeedupBuildResult)
  from_funding found = elim found [
    | none ↦ do emit_funding_not_available ctx; pure none
    | some (utxo, kind) ↦ build_loop ctx fuel (request kind) (utxo ∷ []) 0
  ]

  after_funding :
      (x : Result (Option (Utxo × Bool)))
      → funded.0 ≡ x
      → let r = continue x from_funding (record w { db = funded.1 }) in
        r.0 ≡ ok none → r.1.db ≡ record w.db { news = r.1.db.news }
  unfolding emit_funding_not_available
  after_funding (err x) e f = absurd (err_none x f)
  after_funding (ok none) e f =
      rw (funding_none (get_speedups_ordered w.db) w.db e)
        (push_news_lem funding_not_available w.db)
  after_funding (ok (some (u, kind))) e f =
      let (unmarked, next) = get_funding-Free w.db u kind wf own e in
      let held =
        subst (λ n. Holds w.db n (u ∷ []) (set_spent (outpoint u) true w.db)) (sym (owns kind))
          (first-Holds w.db u wf unmarked) in
      (loop-Restores ctx w.db (request kind) fuel (u ∷ []) 0).at (record w { db = funded.1 })
        (subst (Holds w.db (request kind).inherited_count (u ∷ [])) (sym next) held) f

-- A build that returns without a speedup, for want of funds, has given back all that it took: the
-- store is as it was, but for the news. This is so for a CPFP and for an RBF, whose inherited inputs stay marked,
-- on a well-formed store in which no funding record is for an output of a listed speedup.
pub build_gives_back :
    (ctx : EngineContext) (fuel : ℕ) (entries : List ParentEntry) (inherited : Option (List Utxo))
    (bump : F64) (rate diff : ℕ) (w : World)
    → IsWellFormed w.db
    → HasOwnFunding w.db
    → let r = build_speedup ctx fuel entries inherited bump rate diff w in
      r.0 ≡ ok none → r.1.db ≡ record w.db { news = r.1.db.news }
unfolding build_speedup
build_gives_back ctx fuel entries (some inputs) bump rate diff w wf own e =
    (loop-Restores ctx w.db _ fuel inputs 0).at w (inherited-Holds w.db inputs wf) e
build_gives_back ctx fuel entries none bump rate diff w wf own e =
    after_funding ctx fuel
      (λ b. record {
        parent_entries = entries;
        bump_fee = bump;
        fee_rate = rate;
        chain_diff_fee = diff;
        is_rbf = false;
        inherited_count = 0;
        primary_is_speedup = b;
      })
      (λ b. refl) w wf own _ refl e
