-- ===== src/Funding/Marks.antt =====
-- The funding records of src/core/funding.rs before and after a mark.
use rust_bitvmx_bitcoin.Common.{
  Bool, Bool-cases, Option-cases, ap, arith, false, find, inl, inr, none, refl, some, subst, sym,
  true, ◌==◌, ◌∙◌, ◌≡◌, nat_eq, string_eq,
}
use rust_bitvmx_bitcoin.Common.Maps.{lookup, lookup-insert, lookup-insert_self}
use rust_bitvmx_bitcoin.Types.{
  FundingData, OutPoint, Utxo, outpoint, state_eq, outpoint_eq, news_eq,
}
use rust_bitvmx_bitcoin.Storage.Db.{Db, get_tx_by_id, update_tx}
use rust_bitvmx_bitcoin.Storage.Funding.{
  get_funding_record, is_speedup, put_funding_record, read_funding_records, set_spent,
}
use rust_bitvmx_bitcoin.Funding.Once.{IsFundingKeyed, found_rec, take_by, taken_lem}
use rust_bitvmx_bitcoin.Funding.Release.{is_marked, set_spent_record}

-- What the queue hands out under a test that only unspent records pass.
pub take_free :
    (p : FundingData → Bool) (db d : Db) (u : Utxo)
    → ((rec : FundingData) → p rec ≡ true → rec.spent ≡ false)
    → IsFundingKeyed db
    → take_by p db ≡ (some u, d)
    → (rec : FundingData) × (get_funding_record (outpoint u) db ≡ some rec)
      × (rec.spent ≡ false)
      × (d ≡ set_spent (outpoint u) true db)
unfolding read_funding_records
take_free p db d u unspent keyed e =
    let (rec, found, is_u, next) =
      taken_lem (find p (read_funding_records db)) db u (ap (λ r. r.0) e) in
    let ((op, at), passes) = found_rec p db db.funding_list rec found in
    let own : op ≡ outpoint u = sym (keyed op rec at) ∙ ap outpoint is_u in
    (
      rec,
      subst (λ k. lookup k db.funding ≡ some rec) own at,
      unspent rec passes,
      sym (ap (λ r. r.1) e) ∙ (next ∙ ap (λ v. set_spent (outpoint v) true db) is_u),
    )

pub record_marked :
    (op : OutPoint) (db : Db) (rec : FundingData)
    → get_funding_record op db ≡ some rec
    → is_marked op db ≡ rec.spent
record_marked op db rec e = rw (e, is_marked) refl

-- The funding records after a mark.
pub record-set_spent :
    (op k : OutPoint) (b : Bool) (db : Db)
    → (op == k) ≡ false
    → get_funding_record k (set_spent op b db) ≡ get_funding_record k db
unfolding set_spent put_funding_record update_tx
record-set_spent op k b db apart = elim (Option-cases (get_funding_record op db)) [
  | inr (rec, e) ↦
      rw (e, set_spent) (lookup-insert op k (record rec { spent = b }) db.funding ∙ rw apart refl)
  | inl e ↦ elim (Option-cases (get_tx_by_id op.txid db)) [
    | inl absent ↦ rw (e, absent, set_spent) refl
    | inr (tx, found) ↦ elim (Bool-cases (is_speedup tx)) [
      | inl paid ↦ rw (e, found, paid, set_spent) refl
      | inr plain ↦ rw (e, found, plain, set_spent) refl
    ]
  ]
]

none-some : {A : Type 0} {x : A} → none ≡ some x → ⊥
none-some e = ground arith

some_inj : {x y : FundingData} → some x ≡ some y → x ≡ y
some_inj e = ground arith

pub record_after_mark :
    (op : OutPoint) (db : Db) (rec : FundingData)
    → get_funding_record op (set_spent op true db) ≡ some rec
    → rec.spent ≡ true
unfolding set_spent put_funding_record update_tx
record_after_mark op db rec e = elim (Option-cases (get_funding_record op db)) [
  | inr (r, at) ↦
      (let there =
          ap (get_funding_record op) (set_spent_record op true db r at)
          ∙ lookup-insert_self op (record r { spent = true }) db.funding in
        ap (λ (x : FundingData). x.spent) (some_inj (sym e ∙ there)))
  | inl absent ↦ absurd (none-some (sym (still_none absent) ∙ e))
]
  where
    still_none :
        get_funding_record op db ≡ none → get_funding_record op (set_spent op true db) ≡ none
    still_none absent = elim (Option-cases (get_tx_by_id op.txid db)) [
      | inl unknown ↦ rw (absent, unknown, set_spent) absent
      | inr (tx, found) ↦ elim (Bool-cases (is_speedup tx)) [
        | inl paid ↦ rw (absent, found, paid, set_spent) absent
        | inr plain ↦ rw (absent, found, plain, set_spent) absent
      ]
    ]
