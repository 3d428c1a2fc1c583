-- ===== src/Engine/Review/Failing.antt =====
-- What settling a replaced speedup as Failed does to the records (src/engines/speedup_engine.rs).
use rust_bitvmx_bitcoin.Common.{
  ==_refl, Bool-cases, List, Option, Option-cases, ap, arith, inl, inr, none, refl, some, sym, true,
  ℕ, ◌<◌, ◌==◌, ◌∙◌, ◌≡◌, nat_eq, string_eq,
}
use rust_bitvmx_bitcoin.Common.Maps.{keys, keys-insert_present, lookup}
use rust_bitvmx_bitcoin.Types.{
  BlockHeight, CoordinatedTx, Txid, Utxo, failed, invalid_state_transition, tx_not_found, state_eq,
  outpoint_eq, news_eq,
}
use rust_bitvmx_bitcoin.Storage.Db.{Db, update_tx}
use rust_bitvmx_bitcoin.Storage.Records.{guarded, moved, settle_tx, update_tx_state_impl}
use rust_bitvmx_bitcoin.Storage.Records.Transitions.{
  IsKeyed, change_at, lookup-guarded, txs-push_news,
}
use rust_bitvmx_bitcoin.Helper.{can_transition_to}
use rust_bitvmx_bitcoin.Engine.Failure.{rbf_of}

-- A replaced speedup is older than what replaces it, by some measure of age.
abbrev pub IsOlder : (Txid → ℕ) → Db → Type 0
IsOlder age db =
    (id older : Txid) (p : CoordinatedTx) (inputs : List Utxo)
    → lookup id db.txs ≡ some p
    → rbf_of p.kind ≡ some (older, inputs)
    → age older < age id

-- The txids that a chain of replacements leads to, from the first on.
pub data Replaced (db : Db) : Txid → Txid → Type 0 where
  first_one : (id : Txid) → Replaced db id id
  older_one :
      (id older k : Txid) (p : CoordinatedTx) (inputs : List Utxo)
      → lookup id db.txs ≡ some p
      → rbf_of p.kind ≡ some (older, inputs)
      → Replaced db older k
      → Replaced db id k

-- A record that has failed.
abbrev pub HasFailed : Txid → Db → Type 0
HasFailed k db = (t : CoordinatedTx) × (lookup k db.txs ≡ some t) × (t.state ≡ failed)

-- What a settlement as Failed does to the records.
module _ (id : Txid) (h : BlockHeight) where
  abbrev pub failing : Db → Db
  failing db = (settle_tx id failed h db).1

  pub lookup-failing :
      (db : Db) (k : Txid)
      → IsKeyed db.txs
      → lookup k (failing db).txs ≡ change_at id failed (moved failed (some h)) k (lookup k db.txs)
  unfolding settle_tx update_tx_state_impl
  lookup-failing db k keyed =
      lookup-guarded id failed (moved failed (some h)) (λ t. refl) db k keyed

  kept_kind :
      (k : Txid) (o : Option CoordinatedTx) (t' : CoordinatedTx)
      → change_at id failed (moved failed (some h)) k o ≡ some t'
      → (t : CoordinatedTx) × (o ≡ some t) × (t.kind ≡ t'.kind) × (t.txid ≡ t'.txid)
  kept_kind k none t' e = ground arith
  kept_kind k (some t) t' e = (t, refl, ground arith, ground arith)

  -- The kind that a record had it still has.
  still_kind :
      (k : Txid) (t : CoordinatedTx)
      → (t' : CoordinatedTx) × (change_at id failed (moved failed (some h)) k (some t) ≡ some t')
        × (t'.kind ≡ t.kind)
  still_kind k t = elim (Bool-cases (id == k)) [
    | inr apart ↦ (t, rw apart refl, refl)
    | inl same ↦ elim (Bool-cases (can_transition_to t.state failed)) [
      | inl may ↦ (moved failed (some h) t, rw (same, may) refl, refl)
      | inr not_ ↦ (t, rw (same, not_) refl, refl)
    ]
  ]

  pub failing-IsKeyed : (db : Db) → IsKeyed db.txs → IsKeyed (failing db).txs
  failing-IsKeyed db keyed k t' e =
      let (t, at, kind, txid) =
        kept_kind k (lookup k db.txs) t' (sym (lookup-failing db k keyed) ∙ e) in
      sym txid ∙ keyed k t at

  pub failing-IsOlder :
      (age : Txid → ℕ) (db : Db) → IsKeyed db.txs → IsOlder age db → IsOlder age (failing db)
  failing-IsOlder age db keyed old i older p' inputs e r =
      let (p, at, kind, txid) =
        kept_kind i (lookup i db.txs) p' (sym (lookup-failing db i keyed) ∙ e) in
      old i older p inputs at (ap rbf_of kind ∙ r)

  pub keys-failing : (db : Db) → IsKeyed db.txs → keys (failing db).txs ≡ keys db.txs
  unfolding settle_tx update_tx_state_impl guarded update_tx
  keys-failing db keyed = elim (Option-cases (lookup id db.txs)) [
    | inl e ↦ rw (e, guarded, txs-push_news (tx_not_found id) db) refl
    | inr (t, e) ↦ elim (Bool-cases (can_transition_to t.state failed)) [
      | inl may ↦
          rw (e, may, guarded)
            (keys-insert_present t.txid (moved failed (some h) t) db.txs
              (rw (keyed id t e, e) refl))
      | inr not_ ↦
          rw (e, not_, guarded, txs-push_news (invalid_state_transition id t.state failed) db) refl
    ]
  ]

  pub failing-HasFailed :
      (k : Txid) (db : Db) → IsKeyed db.txs → HasFailed k db → HasFailed k (failing db)
  failing-HasFailed k db keyed (t, at, done) = elim (Bool-cases (id == k)) [
    | inr apart ↦ (t, lookup-failing db k keyed ∙ rw (at, apart) refl, done)
    | inl same ↦ elim (Bool-cases (can_transition_to t.state failed)) [
      | inl may ↦
          (moved failed (some h) t, lookup-failing db k keyed ∙ rw (at, same, may) refl, refl)
      | inr not_ ↦ (t, lookup-failing db k keyed ∙ rw (at, same, not_) refl, done)
    ]
  ]

  -- Its own record fails, where it may.
  pub own-HasFailed :
      (db : Db) (t : CoordinatedTx)
      → IsKeyed db.txs
      → lookup id db.txs ≡ some t
      → can_transition_to t.state failed ≡ true
      → HasFailed id (failing db)
  own-HasFailed db t keyed at may =
      (moved failed (some h) t, lookup-failing db id keyed ∙ rw (at, ==_refl id, may) refl, refl)

  pub failing-Replaced :
      (db : Db) (i k : Txid) → IsKeyed db.txs → Replaced db i k → Replaced (failing db) i k
  failing-Replaced db _ _ keyed (first_one i) = first_one i
  failing-Replaced db _ _ keyed (older_one i older k p inputs at r rest) =
      let (p', e, kind) = still_kind i p in
      older_one i older k p' inputs
        (lookup-failing db i keyed ∙ (ap (change_at id failed (moved failed (some h)) i) at ∙ e))
        (ap rbf_of kind ∙ r) (failing-Replaced db older k keyed rest)
