-- ===== src/Engine/Build/Ends.antt =====
-- The fuel of the loop of `build_speedup` of src/engines/speedup_engine.rs, over a bound on the sizes
-- of the transactions that the protocol builder builds.
use rust_bitvmx_bitcoin.Common.{
  Bool, Bool-cases, List, Option, [], ap, arith, inl, inr, leb, length, length-append, ltb, nat_eqb,
  nat_eqb_iff, none, refl, saturating_sub, some, subst, suc, sym, zero, ℕ, ◌++◌, ◌+◌, ◌<◌, ◌∙◌, ◌∷◌,
  ◌≡◌, ◌≤◌, nat_eq, string_eq,
}
use rust_bitvmx_bitcoin.Types.{SpeedupData, Transaction, Utxo, ok, state_eq, outpoint_eq, news_eq}
use rust_bitvmx_bitcoin.World.{M, World, ◌>>=◌}
use rust_bitvmx_bitcoin.World.Rules.{bind_same, branch_same, err_not_ok}
use rust_bitvmx_bitcoin.Engine.Common.{EngineContext}
use rust_bitvmx_bitcoin.Engine.Build.{
  BuildRequest, ParentEntry, SpeedupBuildResult, after_combine, build_loop, build_tx, combine,
  finish, measured, round, sized, speedup_fee, total_amount,
}

module _ (ctx : EngineContext) (bound : ℕ) where
  open ctx use {outside as o, settings}

  -- Every transaction that the builder builds has at most `bound` virtual bytes.
  abbrev pub IsBounded : Type 0
  IsBounded =
      (ds : List SpeedupData) (inputs : List Utxo) (key fee : ℕ) (tx : Transaction)
      → o.speedup_transactions ds inputs key fee ≡ ok tx
      → o.bitcoin.vsize tx ≤ bound

  -- A fuel that is enough: one round for each size that is left, and all sizes anew after a combine,
  -- which only a single input allows.
  abbrev pub IsEnough : ℕ → List Utxo → ℕ → Type 0
  IsEnough fuel inputs size =
      (suc bound ≤ fuel + size)
      × (length inputs ≡ 1 → suc bound + suc bound ≤ fuel + size)
      × (size ≤ bound)

  pub built_bound :
      IsBounded
      → (entries : List ParentEntry) (inputs : List Utxo) (fee : ℕ) (w : World) (tx : Transaction)
      → (build_tx ctx entries inputs fee w).0 ≡ ok tx
      → o.bitcoin.vsize tx ≤ bound
  built_bound bounded entries [] fee w tx e = absurd (err_not_ok e)
  built_bound bounded entries (u ∷ us) fee w tx e = bounded _ (u ∷ us) u.pub_key fee tx e

  module _ (r : BuildRequest) (first second : List Utxo → ℕ → M (Option SpeedupBuildResult)) where
    -- Two next rounds that agree where a round may call them.
    abbrev Agree : List Utxo → ℕ → Type 0
    Agree inputs v =
        ((size : ℕ) (w : World)
          → v < size
          → size ≤ bound
          → first inputs size w ≡ second inputs size w)
        × ((u : Utxo) (w : World)
            → length inputs ≡ 1
            → first (inputs ++ u ∷ []) 0 w ≡ second (inputs ++ u ∷ []) 0 w)

    finish_same :
        (inputs : List Utxo) (v : ℕ) (quote : ℕ × Bool) (tx : Transaction) (w : World)
        → Agree inputs v
        → o.bitcoin.vsize tx ≤ bound
        → finish ctx first inputs v quote tx w ≡ finish ctx second inputs v quote tx w
    finish_same inputs v quote tx w agree le = elim (Bool-cases (leb (o.bitcoin.vsize tx) v)) [
      | inl fits ↦ rw fits refl
      | inr grown ↦ rw grown (agree.0 (o.bitcoin.vsize tx) w (ground arith) le)
    ]

    extra_same :
        (inputs : List Utxo) (v fee : ℕ) (extra : Option Utxo) (w : World)
        → Agree inputs v
        → length inputs ≡ 1
        → after_combine ctx first r inputs fee extra w
          ≡ after_combine ctx second r inputs fee extra w
    extra_same inputs v fee none w agree one = refl
    extra_same inputs v fee (some u) w agree one = agree.1 u w one

    combine_same :
        (inputs : List Utxo) (v fee : ℕ) (w : World)
        → Agree inputs v
        → (combine ctx r inputs >>= after_combine ctx first r inputs fee) w
          ≡ (combine ctx r inputs >>= after_combine ctx second r inputs fee) w
    combine_same inputs v fee w agree = elim (Bool-cases (nat_eqb (length inputs) 1)) [
      | inr many ↦ rw many refl
      | inl one ↦
          bind_same (combine ctx r inputs) (after_combine ctx first r inputs fee)
            (after_combine ctx second r inputs fee) w
            (λ extra e.
              extra_same inputs v fee extra (combine ctx r inputs w).1 agree
                ((nat_eqb_iff (length inputs) 1).0 one))
    ]

    sized_same :
        (inputs : List Utxo) (v : ℕ) (w : World)
        → IsBounded
        → Agree inputs v
        → sized ctx first r inputs v w ≡ sized ctx second r inputs v w
    sized_same inputs v w bounded agree =
        let quote = speedup_fee ctx r v in
        branch_same (ltb (saturating_sub (total_amount inputs) quote.0) o.max_dust_limit)
          (combine ctx r inputs >>= after_combine ctx first r inputs quote.0)
          (build_tx ctx r.parent_entries inputs quote.0 >>= finish ctx first inputs v quote)
          (combine ctx r inputs >>= after_combine ctx second r inputs quote.0)
          (build_tx ctx r.parent_entries inputs quote.0 >>= finish ctx second inputs v quote) w
          (λ _. combine_same inputs v quote.0 w agree)
          (λ _.
            bind_same (build_tx ctx r.parent_entries inputs quote.0)
              (finish ctx first inputs v quote) (finish ctx second inputs v quote) w
              (λ tx e.
                finish_same inputs v quote tx (build_tx ctx r.parent_entries inputs quote.0 w).1
                  agree (built_bound bounded r.parent_entries inputs quote.0 w tx e)))

    round_same :
        (inputs : List Utxo) (size : ℕ) (w : World)
        → IsBounded
        → ((dummy : Transaction) → Agree inputs (measured ctx size dummy))
        → round ctx first r inputs size w ≡ round ctx second r inputs size w
    round_same inputs size w bounded agree =
        bind_same (build_tx ctx r.parent_entries inputs 1)
          (λ dummy. sized ctx first r inputs (measured ctx size dummy))
          (λ dummy. sized ctx second r inputs (measured ctx size dummy)) w
          (λ dummy e.
            sized_same inputs (measured ctx size dummy) (build_tx ctx r.parent_entries inputs 1 w).1
              bounded (agree dummy))

  pub measured-le : (size : ℕ) (dummy : Transaction) → size ≤ measured ctx size dummy
  measured-le size dummy = ground (arith, nat_eqb_iff size 0)

  -- What is left after a round: for a larger size, and for the combined inputs.
  pub less :
      (fuel : ℕ) (inputs : List Utxo) (size size' v : ℕ)
      → IsEnough (suc fuel) inputs size
      → size ≤ v
      → v < size'
      → size' ≤ bound
      → IsEnough fuel inputs size'
  less fuel inputs size size' v enough le grown top = (
    omega (arith, enough.0, le, grown),
    λ one. let both = enough.1 one in omega (arith, both, le, grown),
    top,
  )

  pub anew :
      (fuel : ℕ) (inputs : List Utxo) (size : ℕ) (u : Utxo)
      → IsEnough (suc fuel) inputs size
      → length inputs ≡ 1
      → IsEnough fuel (inputs ++ u ∷ []) 0
  anew fuel inputs size u enough one =
      let both = enough.1 one in
      let top = enough.2 in
      let two = length-append inputs (u ∷ []) in
      (
        omega (arith, both, top),
        λ single. absurd (two_not_one (two ∙ ap (λ n. n + 1) one) single),
        omega arith,
      )
    where
      two_not_one : {n : ℕ} → n ≡ 1 + 1 → n ≡ 1 → ⊥
      two_not_one e f = omega arith

  -- More fuel than `IsEnough` asks for changes nothing.
  pub build_loop_same :
      (r : BuildRequest) (fuel more : ℕ) (inputs : List Utxo) (size : ℕ) (w : World)
      → IsBounded
      → IsEnough fuel inputs size
      → build_loop ctx (more + fuel) r inputs size w ≡ build_loop ctx fuel r inputs size w
  unfolding build_loop
  build_loop_same r zero more inputs size w bounded enough = absurd (spent enough)
    where
      spent : {n : ℕ} {P : Type 0} → (suc bound ≤ 0 + n) × P × (n ≤ bound) → ⊥
      spent h = ground arith
  build_loop_same r (suc fuel) more inputs size w bounded enough =
      let shift : more + suc fuel ≡ suc (more + fuel) = omega arith in
      subst (λ n. build_loop ctx n r inputs size w ≡ build_loop ctx (suc fuel) r inputs size w)
        (sym shift)
        (round_same r (build_loop ctx (more + fuel) r) (build_loop ctx fuel r) inputs size w bounded
          (λ dummy. (
            (λ size' w' grown le. build_loop_same r fuel more inputs size' w' bounded (
                less fuel inputs size size' (measured ctx size dummy) enough
                  (measured-le size dummy) grown le)),
            (λ u w' one.
                build_loop_same r fuel more (inputs ++ u ∷ []) 0 w' bounded
                  (anew fuel inputs size u enough one)),
          )))
