-- ===== src/Engine/Build/Fueled.antt =====
-- The loop of `build_speedup` of src/engines/speedup_engine.rs never runs out of the fuel that
-- `IsEnough` asks for.
use rust_bitvmx_bitcoin.Common.{
  Bool, Bool-cases, List, Option, [], arith, false, first, inl, inr, leb, length, ltb, nat_eqb,
  nat_eqb_iff, none, refl, saturating_sub, some, suc, true, zero, ℕ, ◌&&◌, ◌++◌, ◌+◌, ◌<◌, ◌∷◌, ◌≡◌,
  ◌≤◌, nat_eq, string_eq,
}
use rust_bitvmx_bitcoin.Types.{
  Result, SpeedupData, Transaction, Utxo, err, ok, out_of_fuel, state_eq, outpoint_eq, news_eq,
}
use rust_bitvmx_bitcoin.World.{M, World, branch, continue, pure, updates, ◌>>=◌}
use rust_bitvmx_bitcoin.Engine.Common.{EngineContext}
use rust_bitvmx_bitcoin.Engine.Build.{
  BuildRequest, ParentEntry, SpeedupBuildResult, after_combine, build_loop, build_tx, combine,
  emit_insufficient_funds, finish, measured, round, sized, speedup_fee, total_amount,
}
use rust_bitvmx_bitcoin.Engine.Build.Ends.{
  IsBounded, IsEnough, anew, build_loop_same, built_bound, less, measured-le,
}
use rust_bitvmx_bitcoin.Funding.{get_combine_funding}

-- The call has come to an end, with a value or an error of its own.
abbrev pub HasEnded : {A : Type 0} → Result A × World → Type 0
HasEnded r = r.0 ≡ err out_of_fuel → ⊥

ok_ends : {A : Type 0} {a : A} → ok a ≡ err out_of_fuel → ⊥
ok_ends e = ground arith

continue_ended :
    {A B : Type 0} (r : Result A) (f : A → M B) (w : World)
    → (r ≡ err out_of_fuel → ⊥)
    → ((a : A) → r ≡ ok a → HasEnded (f a w))
    → HasEnded (continue r f w)
continue_ended (ok a) f w first after = after a refl
continue_ended (err e) f w first after = λ q. first (ground arith)

bind_ended :
    {A B : Type 0} (m : M A) (f : A → M B) (w : World)
    → HasEnded (m w)
    → ((a : A) → (m w).0 ≡ ok a → HasEnded (f a (m w).1))
    → HasEnded ((m >>= f) w)
bind_ended m f w first after = continue_ended (m w).0 f (m w).1 first after

branch_ended :
    {A : Type 0} (b : Bool) (m n : M A) (w : World)
    → (b ≡ true → HasEnded (m w))
    → (b ≡ false → HasEnded (n w))
    → HasEnded (branch b m n w)
branch_ended true m n w f g = f refl
branch_ended false m n w f g = g refl

module _ (ctx : EngineContext) where
  open ctx use {outside as o, settings}

  -- `out_of_fuel` is no error of the protocol builder.
  abbrev pub HasOwnErrors : Type 0
  HasOwnErrors =
      (ds : List SpeedupData) (inputs : List Utxo) (key fee : ℕ)
      → o.speedup_transactions ds inputs key fee ≡ err out_of_fuel
      → ⊥

  build_tx_ended :
      HasOwnErrors
      → (entries : List ParentEntry) (inputs : List Utxo) (fee : ℕ) (w : World)
      → HasEnded (build_tx ctx entries inputs fee w)
  build_tx_ended own entries [] fee w = λ e. ground arith
  build_tx_ended own entries (u ∷ us) fee w = own _ (u ∷ us) u.pub_key fee

  module _ (bound : ℕ) (r : BuildRequest)
      (again : List Utxo → ℕ → M (Option SpeedupBuildResult)) where
    -- A next round that ends where a round may call it.
    abbrev Ends : List Utxo → ℕ → Type 0
    Ends inputs v =
        ((size : ℕ) (w : World) → v < size → size ≤ bound → HasEnded (again inputs size w))
        × ((u : Utxo) (w : World) → length inputs ≡ 1 → HasEnded (again (inputs ++ u ∷ []) 0 w))

    extra_ended :
        (inputs : List Utxo) (v fee : ℕ) (extra : Option Utxo) (w : World)
        → Ends inputs v
        → length inputs ≡ 1
        → HasEnded (after_combine ctx again r inputs fee extra w)
    unfolding emit_insufficient_funds
    extra_ended inputs v fee none w ends one = ok_ends
    extra_ended inputs v fee (some u) w ends one = ends.1 u w one

    combine_ended :
        (inputs : List Utxo) (v fee : ℕ) (w : World)
        → Ends inputs v
        → HasEnded ((combine ctx r inputs >>= after_combine ctx again r inputs fee) w)
    unfolding emit_insufficient_funds
    combine_ended inputs v fee w ends = elim (Bool-cases (nat_eqb (length inputs) 1)) [
      | inr many ↦ rw many ok_ends
      | inl one ↦
          bind_ended (combine ctx r inputs) (after_combine ctx again r inputs fee) w
            (branch_ended (nat_eqb (length inputs) 1 && r.primary_is_speedup)
              (updates get_combine_funding) (pure none) w (λ _. ok_ends) (λ _. ok_ends))
            (λ extra e.
              extra_ended inputs v fee extra (combine ctx r inputs w).1 ends
                ((nat_eqb_iff (length inputs) 1).0 one))
    ]

    sized_ended :
        (inputs : List Utxo) (v : ℕ) (w : World)
        → IsBounded ctx bound
        → HasOwnErrors
        → Ends inputs v
        → HasEnded (sized ctx again r inputs v w)
    sized_ended inputs v w bounded own ends =
        let quote = speedup_fee ctx r v in
        let built = build_tx ctx r.parent_entries inputs quote.0 in
        branch_ended (ltb (saturating_sub (total_amount inputs) quote.0) o.max_dust_limit)
          (combine ctx r inputs >>= after_combine ctx again r inputs quote.0)
          (built >>= finish ctx again inputs v quote) w (λ _. combine_ended inputs v quote.0 w ends)
          (λ _.
            bind_ended built (finish ctx again inputs v quote) w
              (build_tx_ended own r.parent_entries inputs quote.0 w)
              (λ tx e.
                branch_ended (leb (o.bitcoin.vsize tx) v)
                  (pure (
                    some (record {
                      tx = tx;
                      fee = quote.0;
                      capped = quote.1;
                      funding_inputs = inputs;
                    })))
                  (again inputs (o.bitcoin.vsize tx)) (built w).1 (λ _. ok_ends)
                  (λ grown.
                    ends.0 (o.bitcoin.vsize tx) (built w).1 (ground arith)
                      (built_bound ctx bound bounded r.parent_entries inputs quote.0 w tx e))))

    round_ended :
        (inputs : List Utxo) (size : ℕ) (w : World)
        → IsBounded ctx bound
        → HasOwnErrors
        → ((dummy : Transaction) → Ends inputs (measured ctx size dummy))
        → HasEnded (round ctx again r inputs size w)
    round_ended inputs size w bounded own ends =
        let built = build_tx ctx r.parent_entries inputs 1 in
        bind_ended built (λ dummy. sized ctx again r inputs (measured ctx size dummy)) w
          (build_tx_ended own r.parent_entries inputs 1 w)
          (λ dummy e.
            sized_ended inputs (measured ctx size dummy) (built w).1 bounded own (ends dummy))

  module _ (bound : ℕ) (r : BuildRequest) (bounded : IsBounded ctx bound) (own : HasOwnErrors) where
    loop_ended :
        (fuel : ℕ) (inputs : List Utxo) (size : ℕ) (w : World)
        → IsEnough ctx bound fuel inputs size
        → HasEnded (build_loop ctx fuel r inputs size w)
    unfolding build_loop
    loop_ended zero inputs size w enough = absurd (spent enough)
      where
        spent : {n : ℕ} {P : Type 0} → (suc bound ≤ 0 + n) × P × (n ≤ bound) → ⊥
        spent h = ground arith
    loop_ended (suc fuel) inputs size w enough =
        round_ended bound r (build_loop ctx fuel r) inputs size w bounded own (λ dummy. (
          (λ size' w' grown le. loop_ended fuel inputs size' w' (
              less ctx bound fuel inputs size size' (measured ctx size dummy) enough
                (measured-le ctx bound size dummy) grown le)),
          (λ u w' one.
              loop_ended fuel (inputs ++ u ∷ []) 0 w'
                (anew ctx bound fuel inputs size u enough one)),
        ))

  -- When every transaction that the builder builds has at most `bound` virtual bytes, and running out
  -- of fuel is no error of the builder's own, the loop comes to an end by itself on the fuel that
  -- `IsEnough` asks for: it does not run out of fuel, and on more fuel it does the same.
  pub build_loop_ends :
      (bound : ℕ) (r : BuildRequest) (fuel more : ℕ) (inputs : List Utxo) (size : ℕ) (w : World)
      → IsBounded ctx bound
      → HasOwnErrors
      → IsEnough ctx bound fuel inputs size
      → ¬ ((build_loop ctx fuel r inputs size w).0 ≡ err out_of_fuel)
        × (build_loop ctx (more + fuel) r inputs size w ≡ build_loop ctx fuel r inputs size w)
  build_loop_ends bound r fuel more inputs size w bounded own enough = (
    loop_ended bound r bounded own fuel inputs size w enough,
    build_loop_same ctx bound r fuel more inputs size w bounded enough,
  )
