-- ===== src/Config/Bounds.antt =====
-- What the settings that `validate` accepts satisfy.
use rust_bitvmx_bitcoin.Common.{true, ◌≤◌, ◌<◌, ◌≡◌, ◌↔◌, arith}
use rust_bitvmx_bitcoin.Types.{ok}
use rust_bitvmx_bitcoin.Config.{BitcoinSettings, F64Order, validate, f64_zero, f64_one, f64_hundred}

pub record IsInRange (f : F64Order) (s : BitcoinSettings) : Type 0 where
  pub unconfirmed :
      (0 < s.speedup.max_unconfirmed_speedups) × (s.speedup.max_unconfirmed_speedups ≤ 25)
  pub weight : (0 < s.dispatcher.max_tx_weight) × (s.dispatcher.max_tx_weight ≤ 400_000)
  pub funding : 10_000 ≤ s.funding.min_funding_amount_sats
  pub resend :
      (0 < s.speedup.min_blocks_before_resend_speedup)
      × (s.speedup.min_blocks_before_resend_speedup ≤ 3)
  pub feerate : (0 < s.fee.max_feerate_sat_vb) × (s.fee.max_feerate_sat_vb ≤ 1000)
  pub multiplier :
      (f.lt f64_zero s.fee.base_fee_multiplier ≡ true)
      × (f.le s.fee.base_fee_multiplier f64_hundred ≡ true)
  pub bump :
      (f.le f64_one s.speedup.bump_fee_percentage ≡ true)
      × (f.le s.speedup.bump_fee_percentage f64_hundred ≡ true)
  pub interval :
      (0 < s.coordinator.retry_interval_seconds) × (s.coordinator.retry_interval_seconds ≤ 300)
  pub floor : (1 ≤ s.fee.min_safe_fee_rate) × (s.fee.min_safe_fee_rate ≤ s.fee.max_feerate_sat_vb)

-- `validate` accepts exactly the settings in which every field lies in its documented range: the
-- unconfirmed speedups in 1..25, the weight in 1..400000, the funding minimum from 10000, the resend
-- gap in 1..3, the maximal rate in 1..1000, the two multipliers in (0, 100] and [1, 100] by the f64
-- order, the retry interval in 1..300, and the safe rate from 1 up to the maximal rate.
pub validate_iff : (f : F64Order) (s : BitcoinSettings) → (validate f s ≡ ok tt) ↔ IsInRange f s
unfolding validate
validate_iff f s = (λ h. ground arith, λ r. ground arith)
