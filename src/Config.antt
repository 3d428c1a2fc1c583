-- ===== src/Config.antt =====
-- src/config/settings.rs and src/config/configs.rs: the settings, their defaults and `validate`.
-- The settings of the RPC client, the key manager, the backend and the monitor are other crates'.
pub mod Bounds
use rust_bitvmx_bitcoin.Common.{
  ℕ, String, Bool, true, false, ◌&&◌, ◌≤◌, ◌<◌, ◌≡◌, ltb, leb, if◌then◌else◌,
}
use rust_bitvmx_bitcoin.Types.{F64, Result, ok, err, invalid_configuration}

abbrev pub default_max_unconfirmed_speedups : ℕ
default_max_unconfirmed_speedups = 10

abbrev pub max_limit_unconfirmed_parents : ℕ
max_limit_unconfirmed_parents = 25

abbrev pub default_max_tx_weight : ℕ
default_max_tx_weight = 400_000

abbrev pub max_limit_tx_weight : ℕ
max_limit_tx_weight = 400_000

abbrev pub default_min_funding_amount_sats : ℕ
default_min_funding_amount_sats = 10_000

abbrev pub min_limit_funding_amount_sats : ℕ
min_limit_funding_amount_sats = 10_000

abbrev pub default_min_blocks_before_resend_speedup : ℕ
default_min_blocks_before_resend_speedup = 1

abbrev pub max_min_blocks_before_resend_speedup : ℕ
max_min_blocks_before_resend_speedup = 3

abbrev pub default_max_feerate_sat_vb : ℕ
default_max_feerate_sat_vb = 1000

abbrev pub max_limit_feerate_sat_vb : ℕ
max_limit_feerate_sat_vb = 1000

abbrev pub default_retry_interval_seconds : ℕ
default_retry_interval_seconds = 5

abbrev pub max_retry_interval_seconds : ℕ
max_retry_interval_seconds = 300

abbrev pub default_retry_attempts_sending_tx : ℕ
default_retry_attempts_sending_tx = 3

abbrev pub default_min_safe_fee_rate : ℕ
default_min_safe_fee_rate = 1

abbrev pub default_max_tracking_confirmations : ℕ
default_max_tracking_confirmations = 10

-- The f64 constants 0.0, 1.0, 1.5 and 100.0, as IEEE 754 bit patterns.
abbrev pub f64_zero : F64
f64_zero = 0

abbrev pub f64_one : F64
f64_one = 0x3ff0_0000_0000_0000

abbrev pub f64_one_and_half : F64
f64_one_and_half = 0x3ff8_0000_0000_0000

abbrev pub f64_hundred : F64
f64_hundred = 0x4059_0000_0000_0000

-- `<=` and `<` on f64, taken as parameters.
pub record F64Order : Type 0 where
  pub lt : F64 → F64 → Bool
  pub le : F64 → F64 → Bool

pub record CoordinatorSettings : Type 0 where
  pub retry_interval_seconds : ℕ
  pub retry_attempts_sending_tx : ℕ

pub record DispatcherSettings : Type 0 where
  pub max_tx_weight : ℕ

pub record FeeSettings : Type 0 where
  pub max_feerate_sat_vb : ℕ
  pub base_fee_multiplier : F64
  pub min_safe_fee_rate : ℕ

pub record SpeedupSettings : Type 0 where
  pub max_unconfirmed_speedups : ℕ
  pub min_blocks_before_resend_speedup : ℕ
  pub bump_fee_percentage : F64

pub record FundingSettings : Type 0 where
  pub min_funding_amount_sats : ℕ

pub record CoordinatorStorageSettings : Type 0 where
  pub max_tracking_confirmations : ℕ

pub record BitcoinSettings : Type 0 where
  pub coordinator : CoordinatorSettings
  pub dispatcher : DispatcherSettings
  pub fee : FeeSettings
  pub speedup : SpeedupSettings
  pub funding : FundingSettings
  pub storage : CoordinatorStorageSettings

abbrev pub default_coordinator_settings : CoordinatorSettings
default_coordinator_settings = record {
  retry_interval_seconds = default_retry_interval_seconds;
  retry_attempts_sending_tx = default_retry_attempts_sending_tx;
}

abbrev pub default_dispatcher_settings : DispatcherSettings
default_dispatcher_settings = record { max_tx_weight = default_max_tx_weight }

abbrev pub default_fee_settings : FeeSettings
default_fee_settings = record {
  max_feerate_sat_vb = default_max_feerate_sat_vb;
  base_fee_multiplier = f64_one;
  min_safe_fee_rate = default_min_safe_fee_rate;
}

abbrev pub default_speedup_settings : SpeedupSettings
default_speedup_settings = record {
  max_unconfirmed_speedups = default_max_unconfirmed_speedups;
  min_blocks_before_resend_speedup = default_min_blocks_before_resend_speedup;
  bump_fee_percentage = f64_one_and_half;
}

abbrev pub default_funding_settings : FundingSettings
default_funding_settings = record { min_funding_amount_sats = default_min_funding_amount_sats }

abbrev pub default_storage_settings : CoordinatorStorageSettings
default_storage_settings = record {
  max_tracking_confirmations = default_max_tracking_confirmations;
}

abbrev pub default_settings : BitcoinSettings
default_settings = record {
  coordinator = default_coordinator_settings;
  dispatcher = default_dispatcher_settings;
  fee = default_fee_settings;
  speedup = default_speedup_settings;
  funding = default_funding_settings;
  storage = default_storage_settings;
}

infixl 5 ◌>>◌
abbrev ◌>>◌ : Result (Unit {0}) → Result (Unit {0}) → Result (Unit {0})
ok a >> k = k
err e >> k = err e

-- The macro `ensure!`.
abbrev pub ensure : Bool → String → Result (Unit {0})
ensure true msg = ok tt
ensure false msg = err (invalid_configuration msg)

unfoldable pub validate : F64Order → BitcoinSettings → Result (Unit {0})
validate f s = do
  ensure
      (ltb 0 s.speedup.max_unconfirmed_speedups
        && leb s.speedup.max_unconfirmed_speedups max_limit_unconfirmed_parents)
      "invalid max_unconfirmed_speedups"
  ensure (ltb 0 s.dispatcher.max_tx_weight && leb s.dispatcher.max_tx_weight max_limit_tx_weight)
      "invalid max_tx_weight"
  ensure (leb min_limit_funding_amount_sats s.funding.min_funding_amount_sats)
      "funding below dust threshold"
  ensure
      (ltb 0 s.speedup.min_blocks_before_resend_speedup
        && leb s.speedup.min_blocks_before_resend_speedup max_min_blocks_before_resend_speedup)
      "invalid min_blocks_before_resend_speedup"
  ensure (ltb 0 s.fee.max_feerate_sat_vb && leb s.fee.max_feerate_sat_vb max_limit_feerate_sat_vb)
      "invalid max_feerate_sat_vb"
  ensure (f.lt f64_zero s.fee.base_fee_multiplier && f.le s.fee.base_fee_multiplier f64_hundred)
      "invalid base_fee_multiplier"
  ensure
      (f.le f64_one s.speedup.bump_fee_percentage && f.le s.speedup.bump_fee_percentage f64_hundred)
      "invalid bump_fee_percentage"
  ensure
      (ltb 0 s.coordinator.retry_interval_seconds
        && leb s.coordinator.retry_interval_seconds max_retry_interval_seconds)
      "invalid retry_interval_seconds"
  ensure (leb 1 s.fee.min_safe_fee_rate) "min_safe_fee_rate must be at least 1 sat/vB"
  ensure (leb s.fee.min_safe_fee_rate s.fee.max_feerate_sat_vb)
      "min_safe_fee_rate cannot exceed max_feerate_sat_vb"
