-- ===== src/Engine/Build/Paid.antt =====
-- What a speedup that `build_speedup` of src/engines/speedup_engine.rs returns pays for.
use rust_bitvmx_bitcoin.Common.{
  Bool, List, Option, [], arith, inl, inr, leb, leb→le, ltb, map, none, refl, saturating_sub, some,
  subst, suc, zero, ℕ, ◌++◌, ◌∷◌, ◌≡◌, ◌≤◌, nat_eq, string_eq,
}
use rust_bitvmx_bitcoin.Types.{Transaction, Utxo, ok, state_eq, outpoint_eq, news_eq}
use rust_bitvmx_bitcoin.Helper.{first_input}
use rust_bitvmx_bitcoin.World.{M, World, pure, ◌>>=◌}
use rust_bitvmx_bitcoin.World.Rules.{bind_returns, branch_returns, err_not_ok, none_not_some}
use rust_bitvmx_bitcoin.Engine.Common.{EngineContext}
use rust_bitvmx_bitcoin.Engine.Build.{
  BuildRequest, ParentEntry, SpeedupBuildResult, after_combine, build_loop, build_tx, combine,
  emit_insufficient_funds, finish, measured, round, sized, speedup_fee, total_amount,
}

module _ (ctx : EngineContext) where
  open ctx use {outside as o, settings}

  -- The fee is the one computed for some size that the built transaction does not pass, it leaves
  -- the inputs at least the dust limit, and the builder built the transaction with it.
  abbrev pub Pays : BuildRequest → SpeedupBuildResult → Type 0
  Pays r b =
      ((v : ℕ) × (o.bitcoin.vsize b.tx ≤ v) × (speedup_fee ctx r v ≡ (b.fee, b.capped)))
      × (o.max_dust_limit ≤ saturating_sub (total_amount b.funding_inputs) b.fee)
      × ((input : Utxo) × (first_input b.funding_inputs ≡ ok input)
          × (o.speedup_transactions (map (λ (e : ParentEntry). e.0) r.parent_entries)
                b.funding_inputs input.pub_key b.fee
              ≡ ok b.tx))

  -- What holds of every result that a next round returns.
  abbrev Paying : BuildRequest → (List Utxo → ℕ → M (Option SpeedupBuildResult)) → Type 0
  Paying r again =
      (inputs : List Utxo) (size : ℕ) (w : World) (b : SpeedupBuildResult)
      → (again inputs size w).0 ≡ ok (some b)
      → Pays r b

  built_by :
      (r : BuildRequest) (inputs : List Utxo) (fee : ℕ) (w : World) (tx : Transaction)
      → (build_tx ctx r.parent_entries inputs fee w).0 ≡ ok tx
      → (input : Utxo) × (first_input inputs ≡ ok input)
        × (o.speedup_transactions
              (map (λ (e : ParentEntry). e.0) r.parent_entries)
              inputs
              input.pub_key
              fee
            ≡ ok tx)
  built_by r [] fee w tx e = cc
  built_by r (u ∷ us) fee w tx e = (u, refl, e)

  abbrev result : List Utxo → ℕ × Bool → Transaction → SpeedupBuildResult
  result inputs quote tx = record {
    tx = tx;
    fee = quote.0;
    capped = quote.1;
    funding_inputs = inputs;
  }

  module _ (r : BuildRequest) (again : List Utxo → ℕ → M (Option SpeedupBuildResult))
      (paying : Paying r again) where
    combine_Pays :
        (inputs : List Utxo) (fee : ℕ) (extra : Option Utxo) (w : World) (b : SpeedupBuildResult)
        → (after_combine ctx again r inputs fee extra w).0 ≡ ok (some b)
        → Pays r b
    unfolding emit_insufficient_funds
    combine_Pays inputs fee none w b e = absurd (none_not_some b e)
    combine_Pays inputs fee (some u) w b e = paying (inputs ++ u ∷ []) 0 w b e

    finish-Pays :
        (inputs : List Utxo) (v : ℕ) (tx : Transaction) (w w' : World) (b : SpeedupBuildResult)
        → o.max_dust_limit ≤ saturating_sub (total_amount inputs) (speedup_fee ctx r v).0
        → (build_tx ctx r.parent_entries inputs (speedup_fee ctx r v).0 w').0 ≡ ok tx
        → (finish ctx again inputs v (speedup_fee ctx r v) tx w).0 ≡ ok (some b)
        → Pays r b
    finish-Pays inputs v tx w w' b dust built e =
        let quote = speedup_fee ctx r v in
        elim (branch_returns (leb (o.bitcoin.vsize tx) v) (pure (some (result inputs quote tx)))
          (again inputs (o.bitcoin.vsize tx)) w (some b) e) [
            | inr (grown, f) ↦ paying inputs (o.bitcoin.vsize tx) w b f
            | inl (fits, f) ↦
                (let same : result inputs quote tx ≡ b = ground arith in
                  subst (Pays r) same
                    ((v, leb→le _ _ fits, refl), dust, built_by r inputs quote.0 w' tx built))
          ]

    sized-Pays :
        (inputs : List Utxo) (v : ℕ) (w : World) (b : SpeedupBuildResult)
        → (sized ctx again r inputs v w).0 ≡ ok (some b)
        → Pays r b
    sized-Pays inputs v w b e =
        let quote = speedup_fee ctx r v in
        elim (branch_returns (ltb (saturating_sub (total_amount inputs) quote.0) o.max_dust_limit)
          (combine ctx r inputs >>= after_combine ctx again r inputs quote.0)
          (build_tx ctx r.parent_entries inputs quote.0 >>= finish ctx again inputs v quote) w
          (some b) e) [
            | inl (short, f) ↦
                (let (extra, g, h) =
                    bind_returns (combine ctx r inputs) (after_combine ctx again r inputs quote.0) w
                      (some b) f in
                  combine_Pays inputs quote.0 extra (combine ctx r inputs w).1 b h)
            | inr (enough, f) ↦
                (let (tx, g, h) =
                    bind_returns (build_tx ctx r.parent_entries inputs quote.0)
                      (finish ctx again inputs v quote) w (some b) f in
                  finish-Pays inputs v tx (build_tx ctx r.parent_entries inputs quote.0 w).1 w b
                    (ground arith) g h)
          ]

    round-Pays :
        (inputs : List Utxo) (size : ℕ) (w : World) (b : SpeedupBuildResult)
        → (round ctx again r inputs size w).0 ≡ ok (some b)
        → Pays r b
    round-Pays inputs size w b e =
        let (dummy, f, g) =
          bind_returns (build_tx ctx r.parent_entries inputs 1)
            (λ dummy. sized ctx again r inputs (measured ctx size dummy)) w (some b) e in
        sized-Pays inputs (measured ctx size dummy) (build_tx ctx r.parent_entries inputs 1 w).1 b g

  -- Every speedup that the build loop returns pays the fee computed for a size that the built
  -- transaction does not exceed, is the builder's transaction for that fee and the returned inputs,
  -- and leaves of the inputs' total at least the dust limit for the change.
  pub build_loop-Pays :
      (fuel : ℕ) (r : BuildRequest) (inputs : List Utxo) (size : ℕ) (w : World)
      (b : SpeedupBuildResult)
      → (build_loop ctx fuel r inputs size w).0 ≡ ok (some b)
      → Pays r b
  unfolding build_loop
  build_loop-Pays zero r inputs size w b e = absurd (err_not_ok e)
  build_loop-Pays (suc fuel) r inputs size w b e =
      round-Pays r (build_loop ctx fuel r) (build_loop-Pays fuel r) inputs size w b e
