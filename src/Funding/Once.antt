-- ===== src/Funding/Once.antt =====
-- The funding queue of src/core/funding.rs hands out no output twice.
use rust_bitvmx_bitcoin.Common.{
  Bool, Bool-cases, List, Option, Option-cases, [], ap, arith, false, find, first, if◌then◌else◌,
  inl, inr, none, refl, some, subst, sym, true, ◌==◌, ◌∙◌, ◌∷◌, ◌≡◌, nat_eq, string_eq,
}
use rust_bitvmx_bitcoin.Common.Maps.{insert, lookup, lookup-insert}
use rust_bitvmx_bitcoin.Types.{
  FundingData, OutPoint, Utxo, outpoint, outpoint_eqb_iff, state_eq, outpoint_eq, news_eq,
}
use rust_bitvmx_bitcoin.Storage.Db.{Db}
use rust_bitvmx_bitcoin.Storage.Funding.{
  get_funding_record, put_funding_record, read_funding_records, resolve_funding, set_spent,
}
use rust_bitvmx_bitcoin.Funding.{get_combine_funding, is_unspent, is_unspent_user, queue_funding}

-- Each funding record is stored under its own outpoint.
abbrev pub IsFundingKeyed : Db → Type 0
IsFundingKeyed db =
    (op : OutPoint) (rec : FundingData) → lookup op db.funding ≡ some rec → outpoint rec.utxo ≡ op

resolve_gone :
    (db : Db) (op : OutPoint) (ops : List OutPoint)
    → get_funding_record op db ≡ none
    → resolve_funding db (op ∷ ops) ≡ resolve_funding db ops
resolve_gone db op ops e = rw (e, resolve_funding) refl

resolve_here :
    (db : Db) (op : OutPoint) (ops : List OutPoint) (r : FundingData)
    → get_funding_record op db ≡ some r
    → resolve_funding db (op ∷ ops) ≡ r ∷ resolve_funding db ops
resolve_here db op ops r e = rw (e, resolve_funding) refl

-- A record that a search finds is stored, and passes the test.
pub found_rec :
    (p : FundingData → Bool) (db : Db) (ops : List OutPoint) (rec : FundingData)
    → find p (resolve_funding db ops) ≡ some rec
    → ((op : OutPoint) × (lookup op db.funding ≡ some rec)) × (p rec ≡ true)
found_rec p db [] rec e = absurd (none_some e)
  where
    none_some : {A : Type 0} {a : A} → none ≡ some a → ⊥
    none_some e = ground arith
found_rec p db (op ∷ ops) rec e = elim (Option-cases (get_funding_record op db)) [
  | inl gone ↦
      found_rec p db ops rec (subst (λ l. find p l ≡ some rec) (resolve_gone db op ops gone) e)
  | inr (r, here) ↦
      at_head op r here (subst (λ l. find p l ≡ some rec) (resolve_here db op ops r here) e)
        (found_rec p db ops rec)
]
  where
    at_head :
        (op : OutPoint) (r : FundingData)
        → get_funding_record op db ≡ some r
        → find p (r ∷ resolve_funding db ops) ≡ some rec
        → (find p (resolve_funding db ops) ≡ some rec
            → ((op : OutPoint) × (lookup op db.funding ≡ some rec)) × (p rec ≡ true))
        → ((op : OutPoint) × (lookup op db.funding ≡ some rec)) × (p rec ≡ true)
    at_head op r here e later = elim (Bool-cases (p r)) [
      | inl fits ↦
          (let same : r ≡ rec = ground arith in
            ((op, here ∙ ap some same), subst (λ x. p x ≡ true) same fits))
      | inr fails ↦ later (ground arith)
    ]

-- What marking a stored record as spent does to the records.
marked :
    (rec : FundingData) (db : Db)
    → IsFundingKeyed db
    → ((op : OutPoint) × (lookup op db.funding ≡ some rec))
    → (set_spent (outpoint rec.utxo) true db).funding
      ≡ insert (outpoint rec.utxo) (record rec { spent = true }) db.funding
unfolding set_spent put_funding_record
marked rec db keyed (op, e) =
    let at : lookup (outpoint rec.utxo) db.funding ≡ some rec =
      subst (λ x. lookup x db.funding ≡ some rec) (sym (keyed op rec e)) e in
    rw (at, set_spent) refl

-- `queue_funding` and `get_combine_funding` as one: the first listed record that passes a test.
abbrev pub taken : Option FundingData → Db → Option Utxo × Db
taken none db = (none, db)
taken (some rec) db = (some rec.utxo, set_spent (outpoint rec.utxo) true db)

abbrev pub take_by : (FundingData → Bool) → Db → Option Utxo × Db
take_by p db = taken (find p (read_funding_records db)) db

pub taken_lem :
    (o : Option FundingData) (db : Db) (u : Utxo)
    → (taken o db).0 ≡ some u
    → (rec : FundingData) × (o ≡ some rec)
      × (rec.utxo ≡ u)
      × ((taken o db).1 ≡ set_spent (outpoint rec.utxo) true db)
taken_lem none db u e = absurd (none_some e)
  where
    none_some : {A : Type 0} {a : A} → none ≡ some a → ⊥
    none_some e = ground arith
taken_lem (some rec) db u e = (rec, refl, ground arith, refl)

clash :
    (rec rec' : FundingData) (db : Db) (k : OutPoint)
    → IsFundingKeyed db
    → lookup k (insert (outpoint rec.utxo) (record rec { spent = true }) db.funding) ≡ some rec'
    → rec'.spent ≡ false
    → outpoint rec.utxo ≡ outpoint rec'.utxo
    → ⊥
clash rec rec' db k keyed e free same =
    let put : FundingData = record rec { spent = true } in
    let e' = sym (lookup-insert (outpoint rec.utxo) k put db.funding) ∙ e in
    elim (Bool-cases (outpoint rec.utxo == k)) [
      | inl hit ↦
          (let same_rec : some put ≡ some rec' =
              subst (λ b. (if b then some put else lookup k db.funding) ≡ some rec') hit e' in
            spent_clash put rec' same_rec refl free)
      | inr miss ↦
          (let old : lookup k db.funding ≡ some rec' =
              subst (λ b. (if b then some put else lookup k db.funding) ≡ some rec') miss e' in
            let at = same ∙ keyed k rec' old in
            true_false (sym ((outpoint_eqb_iff (outpoint rec.utxo) k).1 at) ∙ miss))
    ]
  where
    true_false : true ≡ false → ⊥
    true_false e = ground arith

    spent_clash : (a b : FundingData) → some a ≡ some b → a.spent ≡ true → b.spent ≡ false → ⊥
    spent_clash a b e f g = ground arith

-- Taking under a test that only unspent records pass never gives the output just taken.
take_twice :
    (p q : FundingData → Bool) (db : Db) (u v : Utxo)
    → ((rec : FundingData) → q rec ≡ true → rec.spent ≡ false)
    → IsFundingKeyed db
    → (take_by p db).0 ≡ some u
    → (take_by q (take_by p db).1).0 ≡ some v
    → outpoint u ≡ outpoint v
    → ⊥
unfolding read_funding_records
take_twice p q db u v unspent keyed e f same =
    let (rec, found, is_u, next) = taken_lem (find p (read_funding_records db)) db u e in
    let db' = (take_by p db).1 in
    let (rec', found', is_v, _) = taken_lem (find q (read_funding_records db')) db' v f in
    let stored = (found_rec p db db.funding_list rec found).0 in
    let (stored', passes) = found_rec q db' db'.funding_list rec' found' in
    let after : db'.funding ≡ insert (outpoint rec.utxo) (record rec { spent = true }) db.funding =
      ap (λ (d : Db). d.funding) next ∙ marked rec db keyed stored in
    clash rec rec' db stored'.0 keyed (subst (λ m. lookup stored'.0 m ≡ some rec') after stored'.1)
      (unspent rec' passes) (ap outpoint is_u ∙ (same ∙ sym (ap outpoint is_v)))

-- The two ways in which the funding manager takes an output of the queue.
pub data Taking : Type 0 where
  primary combined : Taking

abbrev pub taking : Taking → Db → Option Utxo × Db
taking primary db =
    let r = queue_funding db in (elim r.0 [ none ↦ none | some found ↦ some found.0 ], r.1)
taking combined db = get_combine_funding db

abbrev test_of : Taking → FundingData → Bool
test_of primary = is_unspent
test_of combined = is_unspent_user

test_of-spent : (t : Taking) (rec : FundingData) → test_of t rec ≡ true → rec.spent ≡ false
test_of-spent primary rec e = ground arith
test_of-spent combined rec e = ground arith

pub taking_lem : (t : Taking) (db : Db) → taking t db ≡ take_by (test_of t) db
unfolding queue_funding get_combine_funding
taking_lem primary db = elim (Option-cases (find is_unspent (read_funding_records db))) [
  | inl e ↦ rw (e, queue_funding) refl
  | inr (rec, e) ↦ rw (e, queue_funding) refl
]
taking_lem combined db = elim (Option-cases (find is_unspent_user (read_funding_records db))) [
  | inl e ↦ rw (e, get_combine_funding) refl
  | inr (rec, e) ↦ rw (e, get_combine_funding) refl
]

-- On a store whose funding records stand under their own outpoints, an output that the queue hands
-- out, as primary funding or to be combined, is not handed out again by the next taking of either
-- sort.
pub funding_handed_out_once :
    (first second : Taking) (db : Db) (u v : Utxo)
    → IsFundingKeyed db
    → (taking first db).0 ≡ some u
    → (taking second (taking first db).1).0 ≡ some v
    → ¬ (outpoint u ≡ outpoint v)
funding_handed_out_once first second db u v keyed e f =
    take_twice (test_of first) (test_of second) db u v (test_of-spent second) keyed
      (ap (λ (r : Option Utxo × Db). r.0) (sym (taking_lem first db)) ∙ e)
      (sym (
          ap (λ (r : Option Utxo × Db). r.0) (taking_lem second (taking first db).1)
          ∙ ap (λ (d : Db). (take_by (test_of second) d).0)
              (ap (λ (r : Option Utxo × Db). r.1) (taking_lem first db)))
        ∙ f)
