-- ===== src/Tests/Charging.antt =====
-- Runs of the fee computations and of the settings check.
use rust_bitvmx_bitcoin.Common.{
  [], arith, leb, ltb, none, refl, some, true, ℕ, ◌<◌, ◌↔◌, ◌∷◌, ◌≡◌, ◌≤◌, nat_eq, string_eq,
}
use rust_bitvmx_bitcoin.Types.{
  Error, Result, err, estimate_feerate_too_high, ok, state_eq, outpoint_eq, news_eq,
}
use rust_bitvmx_bitcoin.Config.{default_fee_settings, default_settings, f64_one, validate}
use rust_bitvmx_bitcoin.Tests.Data.{child_tx, parent_tx, sizes, spending, whole}
use rust_bitvmx_bitcoin.Fee.{
  boost_fee_rate, chain_fee_diff, compute_speedup_fee, fee_info_for_paid_speedup,
  get_network_fee_rate, sum64,
}
use rust_bitvmx_bitcoin.Fee.Boost.{IsRaising, boost_outpays}
use rust_bitvmx_bitcoin.Fee.Chain.{chain_fee_diff_exact}
use rust_bitvmx_bitcoin.Fee.Bounds.{capped_rate_exact, network_fee_rate_bounds, package_rate-le-max}
use rust_bitvmx_bitcoin.Config.Bounds.{IsInRange, validate_iff}

validate_iff_example :
    (validate (record { lt = ltb; le = leb }) default_settings ≡ ok tt)
    ↔ IsInRange (record { lt = ltb; le = leb }) default_settings
validate_iff_example = validate_iff (record { lt = ltb; le = leb }) default_settings

abbrev high_estimate : Result ℕ
high_estimate = ok 5000

network_fee_rate_bounds_example :
    let (rate, news) = get_network_fee_rate default_fee_settings high_estimate in
    (1 ≤ rate)
    × (rate ≤ 1000)
    × ((e : Error) → high_estimate ≡ err e → (rate ≡ 1) × (news ≡ none))
    × ((asked : ℕ)
        → high_estimate ≡ ok asked
        → (asked ≤ 1000 → news ≡ none)
          × (1000 < asked → (rate ≡ 1000) × (news ≡ some (estimate_feerate_too_high asked 1000)))
          × (1 ≤ asked → asked ≤ 1000 → rate ≡ asked)
          × (asked < 1 → rate ≡ 1))
network_fee_rate_bounds_example =
    network_fee_rate_bounds default_fee_settings high_estimate (omega arith)

whole-IsRaising : IsRaising whole f64_one
whole-IsRaising n small = omega arith

boost_outpays_example :
    let quote = compute_speedup_fee whole default_fee_settings (100 ∷ []) 150 f64_one 10 true 7 in
    let recorded_rate =
      (fee_info_for_paid_speedup sizes
        (spending 1 600)
        quote.0
        (sum64 (100 ∷ []))).package_fee_rate in
    (5 ≤ recorded_rate) × (9 < recorded_rate)
unfolding compute_speedup_fee boost_fee_rate
boost_outpays_example =
    boost_outpays sizes whole default_fee_settings (100 ∷ []) (spending 1 600) f64_one 5 9 true 7
      whole-IsRaising (omega arith) (omega arith) (omega arith) (omega arith) (omega arith) refl

capped_rate_exact_example :
    (fee_info_for_paid_speedup sizes
      (spending 1 600)
      (compute_speedup_fee whole default_fee_settings (100 ∷ []) 150 f64_one 2000 true 7).0
      (sum64 (100 ∷ []))).package_fee_rate
    ≡ 1000
unfolding compute_speedup_fee
capped_rate_exact_example =
    capped_rate_exact sizes whole default_fee_settings (100 ∷ []) (spending 1 600) f64_one 2000 true
      7 (omega arith) (omega arith) (omega arith) (omega arith) refl

package_rate-le-max_example :
    (fee_info_for_paid_speedup sizes
      (spending 1 600)
      (compute_speedup_fee whole default_fee_settings (100 ∷ []) 150 f64_one 2000 true 7).0
      (sum64 (100 ∷ []))).package_fee_rate
    ≤ 1000
package_rate-le-max_example =
    package_rate-le-max sizes whole default_fee_settings (100 ∷ []) (spending 1 600) f64_one 2000
      true 7 (omega arith) (omega arith) (omega arith)

chain_fee_diff_exact_example : chain_fee_diff sizes 10 (child_tx ∷ parent_tx ∷ []) ≡ (1400, 200)
chain_fee_diff_exact_example =
    chain_fee_diff_exact sizes 10 (child_tx ∷ parent_tx ∷ []) parent_tx refl (omega arith)
      (omega arith)
