-- ===== src/Fee/Chain.antt =====
-- What the chain of unconfirmed speedups of src/core/fee.rs owes at a new rate.
use native.Mathlib.Nat.{mod-eq_of_lt}
use rust_bitvmx_bitcoin.Common.{
  List, [], add64, arith, last, mul64, some, u64_mod, ℕ, ◌*◌, ◌+◌, ◌-◌, ◌<◌, ◌∙◌, ◌∷◌, ◌≡◌, nat_eq,
  string_eq,
}
use rust_bitvmx_bitcoin.Types.{CoordinatedTx, state_eq, outpoint_eq, news_eq}
use rust_bitvmx_bitcoin.Fee.{chain_fee_diff, chain_loop}
use rust_bitvmx_bitcoin.Outside.{TxFunctions}

-- The sizes of a chain, added without a bound.
abbrev pub total_size : TxFunctions → List CoordinatedTx → ℕ
total_size b [] = 0
total_size b (tx ∷ txs) = b.vsize tx.tx + total_size b txs

owed_split : (v n d : ℕ) → (v + n) * d ≡ v * d + n * d
owed_split v n d = grind arith

add-mul-exact : (f v n d : ℕ) → f + (v + n) * d < u64_mod → add64 f (mul64 v d) ≡ f + v * d
add-mul-exact f v n d h =
    let split = owed_split v n d in
    let small : v * d < u64_mod = omega arith in
    let sum_small : f + v * d < u64_mod = omega arith in
    rw (mod-eq_of_lt small) (mod-eq_of_lt sum_small)

pair_eq : {a b c d : ℕ} → a ≡ b → c ≡ d → ◌≡◌ {A = ℕ × ℕ} (a, c) (b, d)
pair_eq e f i = (e i, f i)

loop_exact :
    (b : TxFunctions) (d : ℕ) (txs : List CoordinatedTx) (f c : ℕ)
    → f + total_size b txs * d < u64_mod
    → c + total_size b txs < u64_mod
    → chain_loop b d txs f c ≡ (f + total_size b txs * d, c + total_size b txs)
unfolding chain_loop
loop_exact b d [] f c fee size = pair_eq (omega arith) (omega arith)
loop_exact b d (tx ∷ txs) f c fee size =
    let v = b.vsize tx.tx in
    let n = total_size b txs in
    let split = owed_split v n d in
    let fee_sum = add-mul-exact f v n d fee in
    let size_sum : add64 c v ≡ c + v = mod-eq_of_lt (omega arith) in
    rw (fee_sum, size_sum)
      (loop_exact b d txs (f + v * d) (c + v) (omega arith) (omega arith)
        ∙ pair_eq (omega arith) (omega arith))

-- The difference that a chain owes at a new rate is its total size times the rise of the rate over
-- the package rate of its last transaction, nothing where the rate does not rise, and the size that
-- is reported is the total, when the difference and the total each fit a u64.
pub chain_fee_diff_exact :
    (b : TxFunctions) (rate : ℕ) (txs : List CoordinatedTx) (tip : CoordinatedTx)
    → last txs ≡ some tip
    → total_size b txs * (rate - tip.fee_info.package_fee_rate) < u64_mod
    → total_size b txs < u64_mod
    → chain_fee_diff b rate txs
      ≡ (total_size b txs * (rate - tip.fee_info.package_fee_rate), total_size b txs)
unfolding chain_fee_diff
chain_fee_diff_exact b rate txs tip e fee size =
    rw (e, chain_fee_diff)
      (loop_exact b (rate - tip.fee_info.package_fee_rate) txs 0 0 (omega arith) (omega arith)
        ∙ pair_eq (omega arith) (omega arith))
