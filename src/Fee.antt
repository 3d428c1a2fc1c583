-- ===== src/Fee.antt =====
-- src/core/fee.rs. u64 and usize arithmetic wraps where the source's operator would in a release
-- build; the `saturating_` and `checked_` operations are written as such.
pub mod Bounds
pub mod Boost
pub mod Chain
use rust_bitvmx_bitcoin.Common.{
  Bool, List, Option, [], add64, checked_div, false, if◌then◌else◌, last, leb, ltb, max, mul64,
  none, saturating_add, saturating_mul, saturating_sub, some, true, unwrap_or, ℕ, ◌&&◌, ◌∷◌, nat_eq,
  string_eq,
}
use rust_bitvmx_bitcoin.Types.{
  CoordinatedTx, CoordinatorNews, F64, FeeInfo, Result, Transaction, err, estimate_feerate_too_high,
  ok, state_eq, outpoint_eq, news_eq,
}
use rust_bitvmx_bitcoin.Config.{FeeSettings}
use rust_bitvmx_bitcoin.Outside.{FloatFunctions, TxFunctions}

abbrev pub min_relay_fee_rate : ℕ
min_relay_fee_rate = 1

unfoldable pub compute_fee_for_tx : TxFunctions → Transaction → ℕ → FeeInfo
compute_fee_for_tx b tx fee_rate = record {
  fee = mul64 (b.vsize tx) fee_rate;
  fee_rate = fee_rate;
  package_fee_rate = fee_rate;
  weight = b.weight tx;
}

unfoldable pub compute_fee : TxFunctions → CoordinatedTx → ℕ → FeeInfo
unfolding compute_fee_for_tx
compute_fee b tx network_fee_rate = compute_fee_for_tx b tx.tx network_fee_rate

unfoldable pub fee_info_for_paid_speedup : TxFunctions → Transaction → ℕ → ℕ → FeeInfo
fee_info_for_paid_speedup b tx fee_paid parent_vbytes =
    let child_vsize = b.vsize tx in
    let parent_credit = mul64 parent_vbytes min_relay_fee_rate in
    let package_vsize = add64 parent_vbytes child_vsize in
    record {
      fee = fee_paid;
      fee_rate = unwrap_or (checked_div fee_paid child_vsize) 0;
      package_fee_rate = unwrap_or (checked_div (add64 parent_credit fee_paid) package_vsize) 0;
      weight = b.weight tx;
    }

-- `.ok().filter(|rate| *rate >= min).unwrap_or(min)`
abbrev pub estimate_or : ℕ → Result ℕ → ℕ
estimate_or floor (ok rate) = if leb floor rate then rate else floor
estimate_or floor (err e) = floor

-- The estimate is the monitor's answer.
unfoldable pub get_network_fee_rate : FeeSettings → Result ℕ → ℕ × Option CoordinatorNews
get_network_fee_rate s estimate =
    let rate = estimate_or s.min_safe_fee_rate estimate in
    if ltb s.max_feerate_sat_vb rate
    then (s.max_feerate_sat_vb, some (estimate_feerate_too_high rate s.max_feerate_sat_vb))
    else (rate, none)

abbrev pub base_fee_multiplier : FeeSettings → F64
base_fee_multiplier s = s.base_fee_multiplier

unfoldable pub boost_fee_rate : ℕ → ℕ → ℕ
boost_fee_rate network_rate predecessor_rate = max network_rate (saturating_add predecessor_rate 1)

-- The loop of `chain_fee_diff` over its two sums.
unfoldable pub chain_loop : TxFunctions → ℕ → List CoordinatedTx → ℕ → ℕ → ℕ × ℕ
chain_loop b rate_diff [] fee_diff chain_vsize = (fee_diff, chain_vsize)
chain_loop b rate_diff (tx ∷ txs) fee_diff chain_vsize =
    chain_loop b rate_diff txs (add64 fee_diff (mul64 (b.vsize tx.tx) rate_diff))
      (add64 chain_vsize (b.vsize tx.tx))

unfoldable pub chain_fee_diff : TxFunctions → ℕ → List CoordinatedTx → ℕ × ℕ
unfolding chain_loop
chain_fee_diff b new_fee_rate unconfirmed = elim (last unconfirmed) [
  | none ↦ (0, 0)
  | some tx ↦
      chain_loop b (saturating_sub new_fee_rate tx.fee_info.package_fee_rate) unconfirmed 0 0
]

abbrev pub sum64 : List ℕ → ℕ
sum64 [] = 0
sum64 (x ∷ xs) = add64 x (sum64 xs)

-- The fee before the multiplier.
unfoldable pub base_speedup_fee : ℕ → ℕ → ℕ → Bool → ℕ → ℕ
base_speedup_fee parent_vbytes child_vsize fee_rate is_rbf chain_diff_fee =
    let child_total_sats = mul64 child_vsize fee_rate in
    let parent_already_paid = mul64 parent_vbytes min_relay_fee_rate in
    let total_fee =
      saturating_sub (mul64 (add64 parent_vbytes child_vsize) fee_rate) parent_already_paid in
    let floored =
      if is_rbf && ltb total_fee (mul64 child_total_sats 2)
      then mul64 child_total_sats 2
      else total_fee in
    add64 floored chain_diff_fee

unfoldable pub fee_cap : FeeSettings → ℕ → ℕ → ℕ
fee_cap s parent_vbytes child_vsize =
    saturating_sub (saturating_mul s.max_feerate_sat_vb (add64 parent_vbytes child_vsize))
      (mul64 parent_vbytes min_relay_fee_rate)

unfoldable pub compute_speedup_fee :
    FloatFunctions → FeeSettings → List ℕ → ℕ → F64 → ℕ → Bool → ℕ → ℕ × Bool
unfolding base_speedup_fee fee_cap
compute_speedup_fee f s parent_vsizes child_vsize bump_fee fee_rate is_rbf chain_diff_fee =
    let parent_vbytes = sum64 parent_vsizes in
    let total_fee = base_speedup_fee parent_vbytes child_vsize fee_rate is_rbf chain_diff_fee in
    let final_fee = f.to_u64 (f.ceil (f.mul (f.of_u64 total_fee) bump_fee)) in
    let cap = fee_cap s parent_vbytes child_vsize in
    if ltb cap final_fee then (cap, true) else (final_fee, false)
