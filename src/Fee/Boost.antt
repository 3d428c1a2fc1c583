-- ===== src/Fee/Boost.antt =====
-- What a boost pays: the rates of `boost_fee_rate` through `compute_speedup_fee` of src/core/fee.rs
-- into the package rate that is recorded for it.
use native.Mathlib.Nat.{mod-eq_of_lt}
use rust_bitvmx_bitcoin.Common.{
  Bool, List, add64, arith, checked_div, false, if◌then◌else◌, ltb, mul64, saturating_sub, suc,
  u64_mod, unwrap_or, zero, ℕ, ◌&&◌, ◌*◌, ◌+◌, ◌/◌, ◌<◌, ◌^◌, ◌≡◌, ◌≤◌, nat_eq, string_eq,
}
use rust_bitvmx_bitcoin.Types.{F64, Transaction, state_eq, outpoint_eq, news_eq}
use rust_bitvmx_bitcoin.Config.{FeeSettings}
use rust_bitvmx_bitcoin.Fee.{
  base_speedup_fee, boost_fee_rate, compute_speedup_fee, fee_info_for_paid_speedup,
  min_relay_fee_rate, sum64,
}
use rust_bitvmx_bitcoin.Fee.Bounds.{credit-le-budget, fee_cap_lem, speedup_fee_cap}
use rust_bitvmx_bitcoin.Outside.{FloatFunctions, TxFunctions}

-- The integers that an f64 represents exactly.
abbrev pub f64_exact : ℕ
f64_exact = 2 ^ 53

-- Multiplying by the bump fee and rounding up makes no exact integer smaller, as a bump fee of at
-- least 1 does.
abbrev pub IsRaising : FloatFunctions → F64 → Type 0
IsRaising f bump = (n : ℕ) → n < f64_exact → n ≤ f.to_u64 (f.ceil (f.mul (f.of_u64 n) bump))

part-le : (p v rate : ℕ) → v * rate ≤ (p + v) * rate
part-le p v rate = grind arith

-- The fee before the multiplier, over the package's debt and the child's.
pub plain_fee : ℕ → ℕ → ℕ → Bool → ℕ → ℕ
plain_fee owed child p is_rbf diff =
    add64
      (if is_rbf && ltb (saturating_sub owed p) (mul64 child 2)
        then mul64 child 2
        else saturating_sub owed p)
      diff

plain_covers :
    (owed child p : ℕ) (is_rbf : Bool) (diff : ℕ)
    → child ≤ owed
    → 2 * owed + diff < f64_exact
    → (owed ≤ p + plain_fee owed child p is_rbf diff)
      × (plain_fee owed child p is_rbf diff < f64_exact)
unfolding plain_fee
plain_covers owed child p is_rbf diff part small = ground arith

-- What a package owes at a rate, less its parents' credit, is never more than the fee before the
-- multiplier.
base_covers :
    (p v rate : ℕ) (is_rbf : Bool) (diff : ℕ)
    → 2 * ((p + v) * rate) + diff < f64_exact
    → p + v < u64_mod
    → ((p + v) * rate ≤ p + base_speedup_fee p v rate is_rbf diff)
      × (base_speedup_fee p v rate is_rbf diff < f64_exact)
unfolding base_speedup_fee plain_fee
base_covers p v rate is_rbf diff small fits =
    let part = part-le p v rate in
    let size : add64 p v ≡ p + v = mod-eq_of_lt fits in
    let credit : mul64 p min_relay_fee_rate ≡ p = omega arith in
    let owed : mul64 (p + v) rate ≡ (p + v) * rate = omega arith in
    let child : mul64 v rate ≡ v * rate = omega arith in
    rw (base_speedup_fee, size, credit, owed, child)
      (plain_covers ((p + v) * rate) (v * rate) p is_rbf diff part small)

quotient_covers : (n rate d : ℕ) → 0 < d → d * rate ≤ n → rate ≤ n / d
quotient_covers n rate d pos h = grind arith

rate-le-owed : (n rate : ℕ) → 0 < n → rate ≤ n * rate
rate-le-owed n rate pos = grind arith

boost_above :
    (network predecessor n : ℕ)
    → 0 < n
    → n * boost_fee_rate network predecessor < f64_exact
    → (network ≤ boost_fee_rate network predecessor)
      × (predecessor < boost_fee_rate network predecessor)
unfolding boost_fee_rate
boost_above network predecessor n pos small =
    let fits = rate-le-owed n (boost_fee_rate network predecessor) pos in omega arith

-- The package rate that is recorded reaches a rate whose debt is covered by the fee.
recorded :
    (p v rate fee : ℕ)
    → 0 < v
    → p + v < u64_mod
    → p + fee < u64_mod
    → (p + v) * rate ≤ p + fee
    → rate ≤ unwrap_or (checked_div (add64 (mul64 p min_relay_fee_rate) fee) (add64 p v)) 0
recorded p v rate fee some_size fits sum_fits covered =
    let credit : mul64 p min_relay_fee_rate ≡ p = omega arith in
    let total : add64 p fee ≡ p + fee = mod-eq_of_lt sum_fits in
    let size : add64 p v ≡ p + v = mod-eq_of_lt fits in
    rw (credit, total, size) (by_size (p + v) (omega arith) covered)
  where
    by_size : (d : ℕ) → 0 < d → d * rate ≤ p + fee → rate ≤ unwrap_or (checked_div (p + fee) d) 0
    by_size zero pos h = absurd (none_below pos)
      where
        none_below : 0 < 0 → ⊥
        none_below q = omega arith
    by_size (suc d) pos h = ground (arith, quotient_covers (p + fee) rate (suc d) pos h)

uncapped_fee :
    (f : FloatFunctions) (s : FeeSettings) (ps : List ℕ) (v : ℕ) (bump : F64) (rate : ℕ)
    (is_rbf : Bool) (diff : ℕ)
    → (compute_speedup_fee f s ps v bump rate is_rbf diff).1 ≡ false
    → (compute_speedup_fee f s ps v bump rate is_rbf diff).0
      ≡ f.to_u64 (f.ceil (f.mul (f.of_u64 (base_speedup_fee (sum64 ps) v rate is_rbf diff)) bump))
unfolding compute_speedup_fee
uncapped_fee f s ps v bump rate is_rbf diff uncapped = ground arith

-- A boost outpays its predecessor: when a speedup is priced at the boost's rate, for its own size,
-- and its fee is not reported as capped, the package rate recorded for it is at least the network
-- rate and strictly above its predecessor's rate. This is so for a CPFP and an RBF, for a bump fee
-- that makes no amount smaller, when the speedup has a size, twice what the package owes at that
-- rate, with what its chain owes, is below 2 ^ 53, and the package's budget fits a u64.
pub boost_outpays :
    (b : TxFunctions) (f : FloatFunctions) (s : FeeSettings) (ps : List ℕ) (tx : Transaction)
    (bump : F64) (network predecessor : ℕ) (is_rbf : Bool) (diff : ℕ)
    → IsRaising f bump
    → 0 < b.vsize tx
    → 2 * ((sum64 ps + b.vsize tx) * boost_fee_rate network predecessor) + diff < f64_exact
    → sum64 ps + b.vsize tx < u64_mod
    → s.max_feerate_sat_vb * (sum64 ps + b.vsize tx) < u64_mod
    → 0 < s.max_feerate_sat_vb
    → let quote =
        compute_speedup_fee f s ps
          (b.vsize tx)
          bump
          (boost_fee_rate network predecessor)
          is_rbf
          diff in
      quote.1 ≡ false
      → let recorded_rate = (fee_info_for_paid_speedup b tx quote.0 (sum64 ps)).package_fee_rate in
        (network ≤ recorded_rate) × (predecessor < recorded_rate)
unfolding fee_info_for_paid_speedup
boost_outpays b f s ps tx bump network predecessor is_rbf diff raises some_size small fits budget
      pos uncapped =
    let p = sum64 ps in
    let v = b.vsize tx in
    let rate = boost_fee_rate network predecessor in
    let quote = compute_speedup_fee f s ps v bump rate is_rbf diff in
    let above = boost_above network predecessor (p + v) (omega arith) (omega arith) in
    let base = base_covers p v rate is_rbf diff small fits in
    let raised = raises (base_speedup_fee p v rate is_rbf diff) base.1 in
    let paid = uncapped_fee f s ps v bump rate is_rbf diff uncapped in
    let capped = (speedup_fee_cap f s ps v bump rate is_rbf diff).0 in
    let cap = fee_cap_lem s p v fits budget in
    let credit = credit-le-budget s.max_feerate_sat_vb p v pos in
    let reached =
      recorded p v rate quote.0 some_size fits (omega (arith, capped, cap, credit, budget))
        (omega (arith, base.0, raised, paid)) in
    (omega (arith, above, reached), omega (arith, above, reached))
