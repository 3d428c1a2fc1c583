-- ===== src/Fee/Bounds.antt =====
-- Bounds on the rates and fees of src/core/fee.rs.
use native.Mathlib.Nat.{mod-eq_of_lt, mul-div_cancel, zero-lt-suc}
use rust_bitvmx_bitcoin.Common.{
  Bool, List, add64, arith, checked_div, mul64, none, some, suc, true, u64_mod, unwrap_or, zero, ℕ,
  ◌*◌, ◌+◌, ◌-◌, ◌/◌, ◌<◌, ◌↔◌, ◌∙◌, ◌≡◌, ◌≤◌, nat_eq, string_eq,
}
use rust_bitvmx_bitcoin.Types.{
  Error, F64, Result, Transaction, err, estimate_feerate_too_high, ok, state_eq, outpoint_eq,
  news_eq,
}
use rust_bitvmx_bitcoin.Config.{FeeSettings}
use rust_bitvmx_bitcoin.Fee.{
  base_speedup_fee, compute_speedup_fee, fee_cap, fee_info_for_paid_speedup, get_network_fee_rate,
  min_relay_fee_rate, sum64,
}
use rust_bitvmx_bitcoin.Outside.{FloatFunctions, TxFunctions}

-- The network fee rate lies between the safe floor and the maximal rate whenever the floor does not
-- pass the maximum; an estimate between the two is taken as it is, and a failed estimate and
-- one below the floor are replaced by the floor. When the estimate is above the maximum the rate is the maximum and news is given that shows
-- the estimate, and otherwise no news is given.
pub network_fee_rate_bounds :
    (s : FeeSettings) (estimate : Result ℕ)
    → s.min_safe_fee_rate ≤ s.max_feerate_sat_vb
    → let (rate, news) = get_network_fee_rate s estimate in
      (s.min_safe_fee_rate ≤ rate)
      × (rate ≤ s.max_feerate_sat_vb)
      × ((e : Error) → estimate ≡ err e → (rate ≡ s.min_safe_fee_rate) × (news ≡ none))
      × ((asked : ℕ)
          → estimate ≡ ok asked
          → (asked ≤ s.max_feerate_sat_vb → news ≡ none)
            × (s.max_feerate_sat_vb < asked
                → (rate ≡ s.max_feerate_sat_vb)
                  × (news ≡ some (estimate_feerate_too_high asked s.max_feerate_sat_vb)))
            × (s.min_safe_fee_rate ≤ asked → asked ≤ s.max_feerate_sat_vb → rate ≡ asked)
            × (asked < s.min_safe_fee_rate → rate ≡ s.min_safe_fee_rate))
unfolding get_network_fee_rate
network_fee_rate_bounds s (err x) h = (
  ground arith,
  ground arith,
  λ e same. (ground arith, ground arith),
  λ asked same. absurd (err_ok same),
)
  where
    err_ok : {e : Error} {n : ℕ} → err e ≡ ok n → ⊥
    err_ok q = ground arith
network_fee_rate_bounds s (ok n) h = (
  ground arith,
  ground arith,
  λ e same. absurd (ok_err same),
  λ asked same. (
    λ low. ground arith,
    λ high. (ground arith, ground arith),
    λ low high. ground arith,
    λ under. ground arith,
  ),
)
  where
    ok_err : {e : Error} {n : ℕ} → ok n ≡ err e → ⊥
    ok_err q = ground arith

-- The fee never passes the cap, and it is reported as capped exactly when the scaled fee did.
pub speedup_fee_cap :
    (f : FloatFunctions) (s : FeeSettings) (ps : List ℕ) (v : ℕ) (bump : F64) (rate : ℕ)
    (is_rbf : Bool) (diff : ℕ)
    → let r = compute_speedup_fee f s ps v bump rate is_rbf diff in
      (r.0 ≤ fee_cap s (sum64 ps) v)
      × ((r.1 ≡ true) ↔ (
          fee_cap s (sum64 ps) v
          < f.to_u64
              (f.ceil (f.mul (f.of_u64 (base_speedup_fee (sum64 ps) v rate is_rbf diff)) bump))))
unfolding compute_speedup_fee
speedup_fee_cap f s ps v bump rate is_rbf diff =
    (ground arith, (λ h. ground arith, λ h. ground arith))

-- The budget less the parents' credit, where nothing wraps or saturates.
pub fee_cap_lem :
    (s : FeeSettings) (p v : ℕ)
    → p + v < u64_mod
    → s.max_feerate_sat_vb * (p + v) < u64_mod
    → fee_cap s p v ≡ s.max_feerate_sat_vb * (p + v) - p
unfolding fee_cap
fee_cap_lem s p v fits budget = rw (mod-eq_of_lt fits, mod-eq_of_lt (credit p v fits)) (omega arith)
  where
    credit : (p v : ℕ) → p + v < u64_mod → p * 1 < u64_mod
    credit p v h = omega arith

div_bound : (n m d : ℕ) → 0 < d → n ≤ m * d → n / d ≤ m
div_bound n m d pos h = grind arith

pub credit-le-budget : (m p v : ℕ) → 0 < m → p ≤ m * (p + v)
credit-le-budget m p v pos = grind arith

rate_of : ℕ → ℕ → ℕ
rate_of total size = unwrap_or (checked_div total size) 0

rate_of-le : (m total size : ℕ) → total ≤ m * size → rate_of total size ≤ m
unfolding rate_of
rate_of-le m total zero h = omega arith
rate_of-le m total (suc k) h = ground (arith, div_bound total m (suc k))

package_bound :
    (m p v fee : ℕ)
    → p + v < u64_mod
    → m * (p + v) < u64_mod
    → 0 < m
    → fee ≤ m * (p + v) - p
    → unwrap_or (checked_div (add64 (mul64 p min_relay_fee_rate) fee) (add64 p v)) 0 ≤ m
unfolding rate_of
package_bound m p v fee fits budget pos h =
    let covered = credit-le-budget m p v pos in
    let credit : mul64 p min_relay_fee_rate ≡ p = omega arith in
    let total : add64 p fee ≡ p + fee = omega arith in
    let size : add64 p v ≡ p + v = omega arith in
    rw (credit, total, size) (rate_of-le m (p + fee) (p + v) (omega arith))

-- A package stays at or below the maximal rate: the package rate that is recorded for a built
-- speedup whose fee was computed for its own size is at most `max_feerate_sat_vb`, when the sizes
-- and the package's budget fit a u64.
pub package_rate-le-max :
    (b : TxFunctions) (f : FloatFunctions) (s : FeeSettings) (ps : List ℕ) (tx : Transaction)
    (bump : F64) (rate : ℕ) (is_rbf : Bool) (diff : ℕ)
    → sum64 ps + b.vsize tx < u64_mod
    → s.max_feerate_sat_vb * (sum64 ps + b.vsize tx) < u64_mod
    → 0 < s.max_feerate_sat_vb
    → (fee_info_for_paid_speedup b tx
        (compute_speedup_fee f s ps (b.vsize tx) bump rate is_rbf diff).0
        (sum64 ps)).package_fee_rate
      ≤ s.max_feerate_sat_vb
unfolding fee_info_for_paid_speedup
package_rate-le-max b f s ps tx bump rate is_rbf diff fits budget pos =
    package_bound s.max_feerate_sat_vb (sum64 ps) (b.vsize tx) _ fits budget pos (
      rw (← fee_cap_lem s (sum64 ps) (b.vsize tx) fits budget)
        (speedup_fee_cap f s ps (b.vsize tx) bump rate is_rbf diff).0)

-- Exactly the budget, where the fee is the cap.
package_exact :
    (m p v fee : ℕ)
    → p + v < u64_mod
    → m * (p + v) < u64_mod
    → 0 < m
    → 0 < v
    → fee ≡ m * (p + v) - p
    → unwrap_or (checked_div (add64 (mul64 p min_relay_fee_rate) fee) (add64 p v)) 0 ≡ m
unfolding rate_of
package_exact m p v fee fits budget pos some_size e =
    let covered = credit-le-budget m p v pos in
    let credit : mul64 p min_relay_fee_rate ≡ p = omega arith in
    let total : add64 p fee ≡ m * (p + v) = omega arith in
    let size : add64 p v ≡ p + v = omega arith in
    rw (credit, total, size) (exact m (p + v) (omega arith))
  where
    none_below : 0 < 0 → ⊥
    none_below h = omega arith

    exact : (m n : ℕ) → 0 < n → unwrap_or (checked_div (m * n) n) 0 ≡ m
    exact m zero pos = absurd (none_below pos)
    exact m (suc n) pos = ground (arith, mul-div_cancel m (zero-lt-suc n))

capped_fee :
    (f : FloatFunctions) (s : FeeSettings) (ps : List ℕ) (v : ℕ) (bump : F64) (rate : ℕ)
    (is_rbf : Bool) (diff : ℕ)
    → (compute_speedup_fee f s ps v bump rate is_rbf diff).1 ≡ true
    → (compute_speedup_fee f s ps v bump rate is_rbf diff).0 ≡ fee_cap s (sum64 ps) v
unfolding compute_speedup_fee
capped_fee f s ps v bump rate is_rbf diff capped = ground arith

-- A speedup whose fee is reported as capped is recorded with exactly the maximal package rate, the
-- rate at which it is not boosted again, when the sizes and the package's budget fit a u64 and the
-- speedup has a size.
pub capped_rate_exact :
    (b : TxFunctions) (f : FloatFunctions) (s : FeeSettings) (ps : List ℕ) (tx : Transaction)
    (bump : F64) (rate : ℕ) (is_rbf : Bool) (diff : ℕ)
    → sum64 ps + b.vsize tx < u64_mod
    → s.max_feerate_sat_vb * (sum64 ps + b.vsize tx) < u64_mod
    → 0 < s.max_feerate_sat_vb
    → 0 < b.vsize tx
    → (compute_speedup_fee f s ps (b.vsize tx) bump rate is_rbf diff).1 ≡ true
    → (fee_info_for_paid_speedup b tx
        (compute_speedup_fee f s ps (b.vsize tx) bump rate is_rbf diff).0
        (sum64 ps)).package_fee_rate
      ≡ s.max_feerate_sat_vb
unfolding fee_info_for_paid_speedup
capped_rate_exact b f s ps tx bump rate is_rbf diff fits budget pos some_size capped =
    package_exact s.max_feerate_sat_vb (sum64 ps) (b.vsize tx) _ fits budget pos some_size (
      capped_fee f s ps (b.vsize tx) bump rate is_rbf diff capped
      ∙ fee_cap_lem s (sum64 ps) (b.vsize tx) fits budget)
