-- ===== src/Engine/Build/Restores.antt =====
-- The loop of `build_speedup` of src/engines/speedup_engine.rs gives back what it has taken, where it
-- gives up.
use rust_bitvmx_bitcoin.Common.{
  Bool, Bool-cases, List, Option, [], arith, drop, false, inl, inr, leb, length, length-append, ltb,
  nat_eqb, none, refl, saturating_sub, some, subst, suc, sym, true, zero, ℕ, ◌&&◌, ◌++◌, ◌∷◌, ◌≡◌,
  nat_eq, string_eq,
}
use rust_bitvmx_bitcoin.Types.{
  Error, Result, Transaction, Utxo, err, ok, out_of_fuel, state_eq, outpoint_eq, news_eq,
}
use rust_bitvmx_bitcoin.Storage.Db.{Db}
use rust_bitvmx_bitcoin.World.{M, World, branch, continue, pure, ◌>>=◌}
use rust_bitvmx_bitcoin.World.Keeps.{Keeps, keeps_rules}
use rust_bitvmx_bitcoin.Funding.{get_combine_funding, release_marks}
use rust_bitvmx_bitcoin.Storage.WellFormed.Operations.{push_news_lem}
use rust_bitvmx_bitcoin.Engine.Common.{EngineContext}
use rust_bitvmx_bitcoin.Engine.Build.{
  BuildRequest, SpeedupBuildResult, after_combine, build_loop, build_tx, combine,
  emit_insufficient_funds, finish, give_up, measured, round, sized, speedup_fee, total_amount,
}
use rust_bitvmx_bitcoin.Funding.Combined.{combine_none}

-- Where `m` gives up, in a state of `R`, it leaves `d` and news.
pub record Restores (R : Db → Type 0) (d : Db) (m : M (Option SpeedupBuildResult)) : Type 0 where
  pub at :
      (w : World) → R w.db → (m w).0 ≡ ok none → (m w).1.db ≡ record d { news = (m w).1.db.news }

abbrev pub Built : Type 0
Built = Result (Option SpeedupBuildResult)

abbrev pub gave_up : Built
gave_up = ok none

built_none : (b : SpeedupBuildResult) → ok (some b) ≡ gave_up → ⊥
built_none b e = ground arith

abbrev pub failed_with : Error → Built
failed_with x = err x

pub err_none : (x : Error) → failed_with x ≡ gave_up → ⊥
err_none x e = ground arith

module _ {R : Db → Type 0} {d : Db} where
  Restores-built : (b : SpeedupBuildResult) → Restores R d (pure (some b))
  Restores-built b = record { at = λ w r e. absurd (built_none b e) }

  Restores-branch :
      (b : Bool) (m n : M (Option SpeedupBuildResult))
      → Restores R d m
      → Restores R d n
      → Restores R d (branch b m n)
  Restores-branch true m n mr nr = mr
  Restores-branch false m n mr nr = nr

  module _ {A : Type 0} where
    Restores-bind :
        (m : M A) (f : A → M (Option SpeedupBuildResult))
        → Keeps R m
        → ((a : A) → Restores R d (f a))
        → Restores R d (m >>= f)
    Restores-bind m f mk fr = record { at = λ w r. rest (m w).0 (m w).1 (mk.at w r) }
      where
        rest :
            (x : Result A) (w : World)
            → R w.db
            → (continue x f w).0 ≡ ok none
            → (continue x f w).1.db ≡ record d { news = (continue x f w).1.db.news }
        rest (ok a) w r e = (fr a).at w r e
        rest (err x) w r e = absurd (err_none x e)

-- What a build has taken is given back by releasing its own inputs, before a combine and after.
pub record Holds (d : Db) (own : ℕ) (inputs : List Utxo) (db : Db) : Type 0 where
  pub back : release_marks (drop own inputs) db ≡ d
  pub back_combined :
      (u : Utxo)
      → length inputs ≡ 1
      → (get_combine_funding db).0 ≡ some u
      → release_marks (drop own (inputs ++ u ∷ [])) (get_combine_funding db).1 ≡ d

module _ (ctx : EngineContext) (d : Db) where
  open ctx use {outside as o, settings}

  module _ (r : BuildRequest) where
    abbrev pub Own : List Utxo → Db → Type 0
    Own inputs = Holds d r.inherited_count inputs

    give_up-Restores :
        (inputs : List Utxo) (fee : ℕ) → Restores (Own inputs) d (give_up ctx r inputs fee)
    unfolding emit_insufficient_funds
    give_up-Restores inputs fee = record { at = λ w h e. rw h.back (push_news_lem _ d) }

    module _ (again : List Utxo → ℕ → M (Option SpeedupBuildResult))
        (next : (us : List Utxo) (n : ℕ) → Restores (Own us) d (again us n)) where
      -- Two inputs are never combined with a third.
      pair_holds :
          (inputs : List Utxo) (u : Utxo) (db : Db)
          → length inputs ≡ 1
          → release_marks (drop r.inherited_count (inputs ++ u ∷ [])) db ≡ d
          → Own (inputs ++ u ∷ []) db
      pair_holds inputs u db one back = record {
        back = back;
        back_combined =
            λ v alone. absurd (ground (arith, length-append inputs (u ∷ []), one, alone));
      }

      after_combine-at :
          (inputs : List Utxo) (fee : ℕ) (w : World)
          → length inputs ≡ 1
          → Own inputs w.db
          → (x : Option Utxo) → (get_combine_funding w.db).0 ≡ x
          → let w' = record w { db = (get_combine_funding w.db).1 } in
            let end = after_combine ctx again r inputs fee x w' in
            end.0 ≡ ok none → end.1.db ≡ record d { news = end.1.db.news }
      after_combine-at inputs fee w one h none e =
          (give_up-Restores inputs fee).at _ (subst (Own inputs) (sym (combine_none w.db e)) h)
      after_combine-at inputs fee w one h (some u) e =
          (next (inputs ++ u ∷ []) 0).at _ (pair_holds inputs u _ one (h.back_combined u one e))

      combined-Restores :
          (inputs : List Utxo) (fee : ℕ)
          → Restores (Own inputs) d (combine ctx r inputs >>= after_combine ctx again r inputs fee)
      combined-Restores inputs fee =
          elim (Bool-cases (nat_eqb (length inputs) 1 && r.primary_is_speedup)) [
            | inl may ↦ record {
              at = λ w h. rw may (after_combine-at inputs fee w (ground arith) h _ refl);
            }
            | inr not_ ↦ record { at = λ w h. rw not_ ((give_up-Restores inputs fee).at w h) }
          ]

      finish-Restores :
          (inputs : List Utxo) (size : ℕ) (quote : ℕ × Bool) (tx : Transaction)
          → Restores (Own inputs) d (finish ctx again inputs size quote tx)
      finish-Restores inputs size quote tx =
          Restores-branch (leb (o.bitcoin.vsize tx) size) _ _ (Restores-built _)
            (next inputs (o.bitcoin.vsize tx))

      sized-Restores :
          (inputs : List Utxo) (size : ℕ) → Restores (Own inputs) d (sized ctx again r inputs size)
      sized-Restores inputs size =
          let quote = speedup_fee ctx r size in
          Restores-branch (ltb (saturating_sub (total_amount inputs) quote.0) o.max_dust_limit) _ _
            (combined-Restores inputs quote.0)
            (Restores-bind (build_tx ctx r.parent_entries inputs quote.0)
              (finish ctx again inputs size quote) (search keeps_rules)
              (finish-Restores inputs size quote))

      round-Restores :
          (inputs : List Utxo) (size : ℕ) → Restores (Own inputs) d (round ctx again r inputs size)
      round-Restores inputs size =
          Restores-bind (build_tx ctx r.parent_entries inputs 1)
            (λ dummy. sized ctx again r inputs (measured ctx size dummy)) (search keeps_rules)
            (λ dummy. sized-Restores inputs (measured ctx size dummy))

    pub loop-Restores :
        (fuel : ℕ) (inputs : List Utxo) (size : ℕ)
        → Restores (Own inputs) d (build_loop ctx fuel r inputs size)
    unfolding build_loop
    loop-Restores zero inputs size = record { at = λ w h e. absurd (err_none out_of_fuel e) }
    loop-Restores (suc fuel) inputs size =
        round-Restores (build_loop ctx fuel r) (loop-Restores fuel) inputs size
