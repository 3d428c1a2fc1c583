-- ===== src/Funding/Release.antt =====
-- Marks of src/core/funding.rs that are taken back leave the store as it was.
use rust_bitvmx_bitcoin.Common.{
  Bool, Bool-cases, Option-cases, ap, arith, false, inl, inr, none, refl, some, sym, true, ◌==◌,
  ◌∙◌, ◌≡◌, nat_eq, string_eq,
}
use rust_bitvmx_bitcoin.Common.Maps.{
  insert, insert_comm, insert_undo, lookup, lookup-insert, lookup-insert_self,
}
use rust_bitvmx_bitcoin.Types.{
  CoordinatedTx, FundingData, OutPoint, TxKind, cpfp, needs_speedup, normal, outpoint_eq, rbf,
  speedup, state_eq, news_eq,
}
use rust_bitvmx_bitcoin.Storage.Db.{Db, get_tx_by_id, update_tx}
use rust_bitvmx_bitcoin.Storage.Records.Transitions.{IsKeyed}
use rust_bitvmx_bitcoin.Storage.Funding.{
  get_funding_record, is_speedup, put_funding_record, set_kind_spent, set_spent,
}
use rust_bitvmx_bitcoin.Helper.{context}

-- The spent flag of an output: of its funding record, or else of the speedup with its txid.
abbrev pub is_spent_kind : TxKind → Bool
is_spent_kind (speedup k) = (context k).spent
is_spent_kind normal = false
is_spent_kind (needs_speedup d) = false

abbrev pub is_marked : OutPoint → Db → Bool
is_marked op db = elim (get_funding_record op db) [
  | some rec ↦ rec.spent
  | none ↦ elim (get_tx_by_id op.txid db) [ none ↦ false | some tx ↦ is_spent_kind tx.kind ]
]

set_kind_spent_undo :
    (k : TxKind) → is_spent_kind k ≡ false → set_kind_spent false (set_kind_spent true k) ≡ k
set_kind_spent_undo normal e = refl
set_kind_spent_undo (needs_speedup d) e = refl
set_kind_spent_undo (speedup (cpfp ps c)) e =
    ap (λ b. speedup (cpfp ps (record c { spent = b }))) (sym e)
set_kind_spent_undo (speedup (rbf r i c)) e =
    ap (λ b. speedup (rbf r i (record c { spent = b }))) (sym e)

set_kind_spent-is_speedup :
    (b : Bool) (t : CoordinatedTx)
    → is_speedup (record t { kind = set_kind_spent b t.kind }) ≡ is_speedup t
set_kind_spent-is_speedup b t = by_kind t.kind refl
  where
    by_kind :
        (k : TxKind)
        → t.kind ≡ k
        → is_speedup (record t { kind = set_kind_spent b t.kind }) ≡ is_speedup t
    by_kind normal e = rw e refl
    by_kind (needs_speedup d) e = rw e refl
    by_kind (speedup k) e = rw e refl

-- The three ways in which a flag is written.
pub set_spent_record :
    (op : OutPoint) (b : Bool) (db : Db) (rec : FundingData)
    → get_funding_record op db ≡ some rec
    → set_spent op b db ≡ record db { funding = insert op (record rec { spent = b }) db.funding }
unfolding set_spent put_funding_record
set_spent_record op b db rec e = rw (e, set_spent) refl

set_spent_speedup :
    (op : OutPoint) (b : Bool) (db : Db) (tx : CoordinatedTx)
    → get_funding_record op db ≡ none
    → get_tx_by_id op.txid db ≡ some tx
    → is_speedup tx ≡ true
    → set_spent op b db
      ≡ record db { txs = insert tx.txid (record tx { kind = set_kind_spent b tx.kind }) db.txs }
unfolding set_spent update_tx
set_spent_speedup op b db tx e found paid = rw (e, found, paid, set_spent) refl

set_spent_plain :
    (op : OutPoint) (b : Bool) (db : Db) (tx : CoordinatedTx)
    → get_funding_record op db ≡ none
    → get_tx_by_id op.txid db ≡ some tx
    → is_speedup tx ≡ false
    → set_spent op b db ≡ db
unfolding set_spent
set_spent_plain op b db tx e found plain = rw (e, found, plain, set_spent) refl

set_spent_unknown :
    (op : OutPoint) (b : Bool) (db : Db)
    → get_funding_record op db ≡ none
    → get_tx_by_id op.txid db ≡ none
    → set_spent op b db ≡ db
unfolding set_spent
set_spent_unknown op b db e absent = rw (e, absent, set_spent) refl

undo_record :
    (op : OutPoint) (db : Db) (rec : FundingData)
    → get_funding_record op db ≡ some rec
    → rec.spent ≡ false
    → set_spent op false (set_spent op true db) ≡ db
undo_record op db rec e free =
    let put : FundingData = record rec { spent = true } in
    let marked : Db = record db { funding = insert op put db.funding } in
    ap (set_spent op false) (set_spent_record op true db rec e)
    ∙ set_spent_record op false marked put (lookup-insert_self op put db.funding)
    ∙ ap
        (λ b. record db {
          funding = insert op (record rec { spent = b }) (insert op put db.funding);
        })
        (sym free)
    ∙ ap (λ m. record db { funding = m }) (insert_undo op rec put db.funding e)

undo_speedup :
    (op : OutPoint) (db : Db) (tx : CoordinatedTx)
    → tx.txid ≡ op.txid
    → get_funding_record op db ≡ none
    → get_tx_by_id op.txid db ≡ some tx
    → is_speedup tx ≡ true
    → is_spent_kind tx.kind ≡ false
    → set_spent op false (set_spent op true db) ≡ db
undo_speedup op db tx own e found paid free =
    let put : CoordinatedTx = record tx { kind = set_kind_spent true tx.kind } in
    let marked : Db = record db { txs = insert tx.txid put db.txs } in
    let there : get_tx_by_id op.txid marked ≡ some put =
      ap (λ k. lookup k (insert tx.txid put db.txs)) (sym own)
      ∙ lookup-insert_self tx.txid put db.txs in
    ap (set_spent op false) (set_spent_speedup op true db tx e found paid)
    ∙ set_spent_speedup op false marked put e there (set_kind_spent-is_speedup true tx ∙ paid)
    ∙ ap
        (λ k. record db {
          txs = insert tx.txid (record tx { kind = k }) (insert tx.txid put db.txs);
        })
        (set_kind_spent_undo tx.kind free)
    ∙ ap (λ m. record db { txs = m })
        (insert_undo tx.txid tx put db.txs (ap (λ k. lookup k db.txs) own ∙ found))

-- A mark that an unmarked output is given and that is taken back.
pub set_spent_undo :
    (op : OutPoint) (db : Db)
    → IsKeyed db.txs
    → is_marked op db ≡ false
    → set_spent op false (set_spent op true db) ≡ db
set_spent_undo op db keyed free = elim (Option-cases (get_funding_record op db)) [
  | inr (rec, e) ↦ undo_record op db rec e (sym (rw (e, is_marked) refl) ∙ free)
  | inl e ↦ elim (Option-cases (get_tx_by_id op.txid db)) [
    | inl absent ↦
        ap (set_spent op false) (set_spent_unknown op true db e absent)
        ∙ set_spent_unknown op false db e absent
    | inr (tx, found) ↦ elim (Bool-cases (is_speedup tx)) [
      | inr plain ↦
          ap (set_spent op false) (set_spent_plain op true db tx e found plain)
          ∙ set_spent_plain op false db tx e found plain
      | inl paid ↦
          undo_speedup op db tx (keyed op.txid tx found) e found paid
            (sym (rw (e, found, is_marked) refl) ∙ free)
    ]
  ]
]

module _ (a b : OutPoint) (x y : Bool) (db : Db) (rec : FundingData)
    (at_b : get_funding_record b db ≡ some rec) (apart : (a == b) ≡ false) where
  abbrev put_b : FundingData
  put_b = record rec { spent = y }

  abbrev with_b : Db
  with_b = record db { funding = insert b put_b db.funding }

  at_a : get_funding_record a with_b ≡ get_funding_record a db
  at_a = ground (
    arith,
    lookup-insert b a put_b db.funding,
    outpoint_eq.tests_equality a b,
    outpoint_eq.tests_equality b a,
  )

  -- Another output's flag is written before or after.
  apart_record :
      (r : FundingData)
      → get_funding_record a db ≡ some r
      → set_spent a x with_b ≡ set_spent b y (set_spent a x db)
  apart_record r e =
      let put : FundingData = record r { spent = x } in
      let at_b' : get_funding_record b (record db { funding = insert a put db.funding })
          ≡ some rec =
        lookup-insert a b put db.funding ∙ rw apart at_b in
      set_spent_record a x with_b r (at_a ∙ e)
      ∙ ap (λ m. record db { funding = m })
          (insert_comm a b put put_b db.funding apart (rw e refl) (rw at_b refl))
      ∙ sym (
          ap (set_spent b y) (set_spent_record a x db r e)
          ∙ set_spent_record b y (record db { funding = insert a put db.funding }) rec at_b')

  apart_same :
      set_spent a x db ≡ db
      → set_spent a x with_b ≡ with_b
      → set_spent a x with_b ≡ set_spent b y (set_spent a x db)
  apart_same e e' = e' ∙ sym (ap (set_spent b y) e ∙ set_spent_record b y db rec at_b)

  apart_any : set_spent a x with_b ≡ set_spent b y (set_spent a x db)
  apart_any = elim (Option-cases (get_funding_record a db)) [
    | inr (r, e) ↦ apart_record r e
    | inl e ↦ elim (Option-cases (get_tx_by_id a.txid db)) [
      | inl absent ↦
          apart_same (set_spent_unknown a x db e absent)
            (set_spent_unknown a x with_b (at_a ∙ e) absent)
      | inr (tx, found) ↦ elim (Bool-cases (is_speedup tx)) [
        | inr plain ↦
            apart_same (set_spent_plain a x db tx e found plain)
              (set_spent_plain a x with_b tx (at_a ∙ e) found plain)
        | inl paid ↦
            set_spent_speedup a x with_b tx (at_a ∙ e) found paid
            ∙ sym (
                ap (set_spent b y) (set_spent_speedup a x db tx e found paid)
                ∙ set_spent_record b y _ rec at_b)
      ]
    ]
  ]

  pub set_spent_apart : set_spent a x (set_spent b y db) ≡ set_spent b y (set_spent a x db)
  set_spent_apart = ap (set_spent a x) (set_spent_record b y db rec at_b) ∙ apart_any
