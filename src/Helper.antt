-- ===== src/Helper.antt =====
-- src/helper.rs: accessors of a speedup's context, the lifecycle test, and dispatch-result checks.
-- `&T` and `&mut T` accessors of one field are one function here, and a write is a record update.
pub mod Lifecycle
use rust_bitvmx_bitcoin.Common.{
  Bool, List, Option, [], any, contains, false, filter, find, if◌then◌else◌, is_empty, is_some,
  last, leb, length, map, none, not, saturating_sub, some, true, ℕ, ◌&&◌, ◌-◌, ◌==◌, ◌||◌, ◌∷◌,
  nat_eq, string_eq,
}
use rust_bitvmx_bitcoin.Types.{
  BlockHeight, CoordinatedTx, OutPoint, Result, SpeedupContext, SpeedupKind, TransactionState,
  TxKind, TxOut, Txid, Utxo, confirmed, cpfp, err, failed, finalized, in_mempool,
  invariant_violation, needs_speedup, normal, ok, outpoint, panicked, rbf, speedup, to_dispatch,
  state_eq, outpoint_eq, news_eq,
}

abbrev pub context : SpeedupKind → SpeedupContext
context (cpfp parents c) = c
context (rbf replaces inputs c) = c

-- A write through `context_mut`.
abbrev pub context_mut : SpeedupContext → SpeedupKind → SpeedupKind
context_mut c (cpfp parents _) = cpfp parents c
context_mut c (rbf replaces inputs _) = rbf replaces inputs c

abbrev pub is_being_replaced : SpeedupContext → Bool
is_being_replaced c = is_some c.replaced_by

abbrev pub is_rbf : SpeedupKind → Bool
is_rbf (cpfp parents c) = false
is_rbf (rbf replaces inputs c) = true

abbrev pub is_boost : SpeedupKind → Bool
is_boost (cpfp parents c) = is_empty c.parent_data
is_boost (rbf replaces inputs c) = true

abbrev pub parents : SpeedupKind → List Txid
parents (cpfp ps c) = ps
parents (rbf replaces inputs c) = []

abbrev kind_speedup : TxKind → Result SpeedupKind
kind_speedup (speedup k) = ok k
kind_speedup normal = err (invariant_violation "expected Speedup")
kind_speedup (needs_speedup d) = err (invariant_violation "expected Speedup")

-- `speedup_kind`, and `speedup_kind_mut` before the write.
abbrev pub speedup_kind : CoordinatedTx → Result SpeedupKind
speedup_kind tx = kind_speedup tx.kind

infixl 5 ◌>>=◌
abbrev ◌>>=◌ {ℓ κ} : {A : Type ℓ} {B : Type κ} → Result A → (A → Result B) → Result B
ok a >>= f = f a
err e >>= f = err e

abbrev pub last_output : CoordinatedTx → Result (TxOut × ℕ)
last_output tx = elim (last tx.tx.output) [
  | none ↦ err (invariant_violation "tx has no outputs")
  | some out ↦ ok (out, length tx.tx.output - 1)
]

-- `funding_inputs[0]`
abbrev pub first_input : List Utxo → Result Utxo
first_input [] = err panicked
first_input (u ∷ us) = ok u

unfoldable pub speedup_change_utxo : CoordinatedTx → Result Utxo
speedup_change_utxo tx = do
  k ← speedup_kind tx
  (out, vout) ← last_output tx
  input ← first_input (context k).funding_inputs
  ok (record { txid = tx.txid; vout = vout; amount = out.value; pub_key = input.pub_key })

abbrev pub funding_inputs : CoordinatedTx → List Utxo
funding_inputs tx = elim (speedup_kind tx) [ ok k ↦ (context k).funding_inputs | err e ↦ [] ]

abbrev pub funding_outpoints : CoordinatedTx → List OutPoint
funding_outpoints tx = map outpoint (funding_inputs tx)

abbrev pub non_funding_inputs : CoordinatedTx → List OutPoint
non_funding_inputs tx = filter (λ op. not (contains (funding_outpoints tx) op)) tx.tx.input

abbrev pub verify_tx_id : CoordinatedTx → Txid → Result (Unit {0})
verify_tx_id tx txid = if tx.txid == txid then ok tt else err (invariant_violation "expected txid")

-- The outcomes are a parameter: only the txids are looked at.
unfoldable pub verify_single_dispatch_result {ℓ} :
    {O : Type ℓ} → Txid → List (Txid × O) → Result (Txid × O)
verify_single_dispatch_result expected [] = err (invariant_violation "dispatch returned results")
verify_single_dispatch_result expected (r ∷ []) =
    if r.0 == expected then ok r else err (invariant_violation "dispatch returned txid")
verify_single_dispatch_result expected (r ∷ s ∷ rs) =
    err (invariant_violation "dispatch returned results")

unfoldable pub find_tx_in_batch : List CoordinatedTx → Txid → Result CoordinatedTx
find_tx_in_batch txs txid = elim (find (λ (t : CoordinatedTx). t.txid == txid) txs) [
  | some tx ↦ ok tx
  | none ↦ err (invariant_violation "dispatcher returned txid not present in dispatch batch")
]

unfoldable pub can_transition_to : TransactionState → TransactionState → Bool
can_transition_to to_dispatch in_mempool = true
can_transition_to in_mempool confirmed = true
can_transition_to confirmed finalized = true
can_transition_to to_dispatch confirmed = true
can_transition_to to_dispatch finalized = true
can_transition_to in_mempool finalized = true
can_transition_to in_mempool to_dispatch = true
can_transition_to confirmed in_mempool = true
can_transition_to confirmed to_dispatch = true
can_transition_to to_dispatch failed = true
can_transition_to in_mempool failed = true
can_transition_to a b = a == b

abbrev kind_replaced : TxKind → Bool
kind_replaced (speedup k) = is_being_replaced (context k)
kind_replaced normal = false
kind_replaced (needs_speedup d) = false

abbrev kind_replaces : Txid → TxKind → Bool
kind_replaces txid (speedup (rbf replaces inputs c)) = replaces == txid
kind_replaces txid (speedup (cpfp ps c)) = false
kind_replaces txid normal = false
kind_replaces txid (needs_speedup d) = false

unfoldable pub has_live_replacement : CoordinatedTx → List CoordinatedTx → Bool
has_live_replacement tx all_speedups =
    kind_replaced tx.kind
    || any (λ (s : CoordinatedTx). not (s.state == failed) && kind_replaces tx.txid s.kind)
        all_speedups

abbrev pub is_ready_to_dispatch : CoordinatedTx → BlockHeight → Bool
is_ready_to_dispatch tx current_height = leb tx.target_block_height current_height

abbrev stuck_since : Option ℕ → Option BlockHeight → BlockHeight → Bool
stuck_since (some threshold) (some broadcast) height =
    leb threshold (saturating_sub height broadcast)
stuck_since (some threshold) none height = false
stuck_since none broadcast height = false

abbrev pub is_stuck_in_mempool : CoordinatedTx → BlockHeight → Bool
is_stuck_in_mempool tx current_height =
    stuck_since tx.stuck_in_mempool_blocks tx.broadcast_block_height current_height
