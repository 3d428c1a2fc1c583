-- ===== src/Funding/Newest.antt =====
-- Which output `get_funding` of src/core/funding.rs takes.
use rust_bitvmx_bitcoin.Common.{
  All, Bool, Bool-cases, List, Option, [], ap, arith, false, if◌then◌else◌, inl, inr, none, not,
  refl, reverse, some, true, ◌&&◌, ◌++◌, ◌||◌, ◌∙◌, ◌∷◌, ◌≡◌, ◌⊎◌, nat_eq, string_eq,
}
use rust_bitvmx_bitcoin.Types.{
  CoordinatedTx, Result, TxKind, Utxo, err, needs_speedup, normal, ok, outpoint, speedup, state_eq,
  outpoint_eq, news_eq,
}
use rust_bitvmx_bitcoin.Storage.Db.{Db}
use rust_bitvmx_bitcoin.Storage.Funding.{is_speedup, set_spent}
use rust_bitvmx_bitcoin.Storage.Pending.{is_broadcast}
use rust_bitvmx_bitcoin.Funding.{chain_tip, get_funding, queue_funding}
use rust_bitvmx_bitcoin.Helper.{context, has_live_replacement, speedup_change_utxo}
use rust_bitvmx_bitcoin.World.Rules.{Result-cases}

abbrev spent_flag : TxKind → Bool
spent_flag (speedup k) = (context k).spent
spent_flag normal = false
spent_flag (needs_speedup d) = false

-- On the network, neither replaced by a live speedup nor spent; a record of another kind on the list
-- counts as well, and its answer is the error.
abbrev pub is_tip : List CoordinatedTx → CoordinatedTx → Bool
is_tip all tx =
    is_broadcast tx.state
    && not (is_speedup tx && (has_live_replacement tx all || spent_flag tx.kind))

abbrev pub change_of : CoordinatedTx → Result (Option Utxo)
change_of tx = elim (speedup_change_utxo tx) [ err e ↦ err e | ok utxo ↦ ok (some utxo) ]

-- The change output of a tip, marked as spent.
abbrev pub tip_funding : CoordinatedTx → Db → Result (Option (Utxo × Bool)) × Db
tip_funding tx db = elim (speedup_change_utxo tx) [
  | err e ↦ (err e, db)
  | ok utxo ↦ (ok (some (utxo, true)), set_spent (outpoint utxo) true db)
]

chain_tip_step :
    (all : List CoordinatedTx) (tx : CoordinatedTx) (txs : List CoordinatedTx)
    → chain_tip all (tx ∷ txs) ≡ (if is_tip all tx then change_of tx else chain_tip all txs)
unfolding chain_tip speedup_change_utxo
chain_tip_step all tx txs = by_kind tx.kind refl
  where
    by_kind :
        (k : TxKind)
        → tx.kind ≡ k
        → chain_tip all (tx ∷ txs) ≡ (if is_tip all tx then change_of tx else chain_tip all txs)
    by_kind normal e = ground arith
    by_kind (needs_speedup d) e = ground arith
    by_kind (speedup k) e = ground arith

abbrev pub IsNoTip : List CoordinatedTx → CoordinatedTx → Type 0
IsNoTip all tx = is_tip all tx ≡ false

-- No tip, or the first one.
abbrev TipOf : List CoordinatedTx → List CoordinatedTx → Type 0
TipOf all txs =
    (All (IsNoTip all) txs × (chain_tip all txs ≡ ok none))
    ⊎ ((newer : List CoordinatedTx) × (tx : CoordinatedTx) × (older : List CoordinatedTx) × (txs
          ≡ newer ++ tx ∷ older)
        × (is_tip all tx ≡ true)
        × All (IsNoTip all) newer
        × (chain_tip all txs ≡ change_of tx))

tip_of : (all txs : List CoordinatedTx) → TipOf all txs
unfolding chain_tip
tip_of all [] = inl (tt, refl)
tip_of all (tx ∷ txs) = elim (Bool-cases (is_tip all tx)) [
  | inl tip ↦ inr ([], tx, txs, refl, tip, tt, chain_tip_step all tx txs ∙ rw tip refl)
  | inr other ↦
      (let step : chain_tip all (tx ∷ txs) ≡ chain_tip all txs =
          chain_tip_step all tx txs ∙ rw other refl in
        elim (tip_of all txs) [
          | inl (none_here, e) ↦ inl ((other, none_here), step ∙ e)
          | inr (newer, t, older, split, tip, nos, e) ↦
              inr (tx ∷ newer, t, older, ap (λ l. tx ∷ l) split, tip, (other, nos), step ∙ e)
        ])
]

-- From the newest speedup to the oldest: when one is a tip, the first such is chosen, and
-- `get_funding` answers its change output, marked as spent, or the error that it has none; when no
-- listed speedup is a tip, the answer and the marks are those of the funding queue.
pub get_funding_newest :
    (speedups : List CoordinatedTx) (db : Db)
    → (All (IsNoTip speedups) (reverse speedups)
        × (get_funding speedups db ≡ (ok (queue_funding db).0, (queue_funding db).1)))
      ⊎ ((newer : List CoordinatedTx) × (tx : CoordinatedTx) × (older : List CoordinatedTx)
          × (reverse speedups ≡ newer ++ tx ∷ older)
          × (is_tip speedups tx ≡ true)
          × All (IsNoTip speedups) newer
          × (get_funding speedups db ≡ tip_funding tx db))
unfolding get_funding
get_funding_newest speedups db = elim (tip_of speedups (reverse speedups)) [
  | inl (nos, e) ↦ inl (nos, rw (e, get_funding) refl)
  | inr (newer, tx, older, split, tip, nos, e) ↦
      inr (newer, tx, older, split, tip, nos, by_change tx e)
]
  where
    by_change :
        (tx : CoordinatedTx)
        → chain_tip speedups (reverse speedups) ≡ change_of tx
        → get_funding speedups db ≡ tip_funding tx db
    by_change tx e = elim (Result-cases (speedup_change_utxo tx)) [
      | inl (utxo, ok_change) ↦ ground arith
      | inr (x, no_change) ↦ ground arith
    ]
