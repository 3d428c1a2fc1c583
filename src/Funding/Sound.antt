-- ===== src/Funding/Sound.antt =====
-- The funding queue's records through the storage operations of src/core/storage.rs that write them.
use rust_bitvmx_bitcoin.Common.{
  Bool, Bool-cases, List, Option-cases, [], ap, arith, if◌then◌else◌, inl, inr, none, refl, some,
  subst, sym, true, ◌==◌, ◌∙◌, ◌∷◌, ◌≡◌, nat_eq, string_eq, is_some, contains, contains-append,
  push_new, ==_refl, ◌||◌, filter, not, any, ◌&&◌,
}
use rust_bitvmx_bitcoin.Common.Maps.{delete, insert, lookup, lookup-insert, lookup-delete}
use rust_bitvmx_bitcoin.Types.{
  CoordinatedTx, FundingData, OutPoint, SpeedupContext, Utxo, outpoint, outpoint_eqb_iff, state_eq,
  outpoint_eq, news_eq,
}
use rust_bitvmx_bitcoin.Storage.Db.{Db, get_tx_by_id, update_tx}
use rust_bitvmx_bitcoin.Storage.Funding.{
  append_funding, clear_funding_records, delete_all, finalize_change, get_funding_record,
  is_speedup, put_funding_record, set_spent,
}
use rust_bitvmx_bitcoin.Storage.Funding.Finalize.{
  consumed_of, finalize_change_exact, record_after, replace_first,
}
use rust_bitvmx_bitcoin.Funding.Once.{IsFundingKeyed}

-- Each record stands under its own outpoint, and every record is listed in the queue.
abbrev pub IsSound : Db → Type 0
IsSound db =
    IsFundingKeyed db
    × ((op : OutPoint) → is_some (lookup op db.funding) ≡ true → contains db.funding_list op ≡ true)

some_inj : {a b : FundingData} → some a ≡ some b → a ≡ b
some_inj e = ground arith

-- A record written under its own outpoint, which is listed.
insert-IsSound :
    (op : OutPoint) (rec : FundingData) (l : List OutPoint) (db : Db)
    → outpoint rec.utxo ≡ op
    → contains l op ≡ true
    → ((k : OutPoint) → contains db.funding_list k ≡ true → contains l k ≡ true)
    → IsSound db
    → IsSound (record db { funding = insert op rec db.funding; funding_list = l })
insert-IsSound op rec l db own listed grown (keyed, all) = (
  λ k r e. elim (Bool-cases (op == k)) [
    | inl hit ↦
        (let same = (outpoint_eqb_iff op k).0 hit in
          let at : some rec ≡ some r = sym (rw (lookup-insert op k rec db.funding, hit) refl) ∙ e in
          subst (λ (x : FundingData). outpoint x.utxo ≡ k) (some_inj at) (own ∙ same))
    | inr miss ↦ keyed k r (sym (rw (lookup-insert op k rec db.funding, miss) refl) ∙ e)
  ],
  λ k e. elim (Bool-cases (op == k)) [
    | inl hit ↦ subst (λ x. contains l x ≡ true) ((outpoint_eqb_iff op k).0 hit) listed
    | inr miss ↦ grown k (all k (sym (rw (lookup-insert op k rec db.funding, miss) refl) ∙ e))
  ],
)

listed_self : (op : OutPoint) (l : List OutPoint) → contains (push_new l op) op ≡ true
listed_self op l = elim (Bool-cases (contains l op)) [
  | inl old ↦ rw old old
  | inr new ↦ rw (new, contains-append l (op ∷ []) op, new, ==_refl op) refl
]

listed_still :
    (op k : OutPoint) (l : List OutPoint) → contains l k ≡ true → contains (push_new l op) k ≡ true
listed_still op k l e = elim (Bool-cases (contains l op)) [
  | inl old ↦ rw old e
  | inr new ↦ rw (new, contains-append l (op ∷ []) k, e) refl
]

pub append-IsSound : (utxo : Utxo) (db : Db) → IsSound db → IsSound (append_funding utxo db)
unfolding append_funding
append-IsSound utxo db =
    insert-IsSound (outpoint utxo) _ (push_new db.funding_list (outpoint utxo)) db refl
      (listed_self (outpoint utxo) db.funding_list)
      (λ k. listed_still (outpoint utxo) k db.funding_list)

pub set_spent-IsSound :
    (op : OutPoint) (spent : Bool) (db : Db) → IsSound db → IsSound (set_spent op spent db)
unfolding set_spent put_funding_record update_tx
set_spent-IsSound op spent db (keyed, all) = elim (Option-cases (get_funding_record op db)) [
  | inr (rec, e) ↦
      rw (e, set_spent)
        (insert-IsSound op (record rec { spent = spent }) db.funding_list db (keyed op rec e)
          (all op (rw e refl)) (λ k h. h) (keyed, all))
  | inl e ↦ elim (Option-cases (get_tx_by_id op.txid db)) [
    | inl absent ↦ rw (e, set_spent, absent) (keyed, all)
    | inr (tx, found) ↦ elim (Bool-cases (is_speedup tx)) [
      | inl paid ↦ rw (e, set_spent, found, paid) (keyed, all)
      | inr plain ↦ rw (e, set_spent, found, plain) (keyed, all)
    ]
  ]
]

lookup-delete_all :
    (l : List OutPoint) (k : OutPoint) (m : List (OutPoint × FundingData))
    → lookup k (delete_all l m) ≡ (if contains l k then none else lookup k m)
lookup-delete_all [] k m = refl
lookup-delete_all (op ∷ ops) k m =
    lookup-delete_all ops k (delete op m) ∙ ground (arith, lookup-delete op k m)

pub cleared :
    (db : Db) → IsSound db → (op : OutPoint) → lookup op (clear_funding_records db).funding ≡ none
unfolding clear_funding_records
cleared db (keyed, all) op =
    lookup-delete_all db.funding_list op db.funding ∙ ground (arith, all op)

contains-filter :
    (p : OutPoint → Bool) (k : OutPoint) (l : List OutPoint)
    → contains (filter p l) k ≡ (contains l k && p k)
contains-filter p k [] = refl
contains-filter p k (x ∷ xs) = ground (arith, contains-filter p k xs, outpoint_eqb_iff x k)

replaced_listed :
    (c : List OutPoint) (change k : OutPoint) (l : List OutPoint)
    → contains (replace_first c change l) k ≡ (
        if any (contains c) l
        then change == k || (contains l k && not (contains c k))
        else contains l k)
replaced_listed c change k [] = refl
replaced_listed c change k (op ∷ ops) = ground (
  arith,
  replaced_listed c change k ops,
  contains-filter (λ o. not (contains c o)) k ops,
  outpoint_eqb_iff op k,
)

pub finalize-IsSound :
    (tx : CoordinatedTx) (ctx : SpeedupContext) (change : Utxo) (db : Db)
    → IsSound db
    → IsSound (finalize_change tx ctx change db)
finalize-IsSound tx ctx change db (keyed, all) =
    let (list_is, found) = finalize_change_exact tx ctx change db in
    (
      λ k r e. own k r (sym (found k) ∙ e),
      λ k e.
          subst (λ l. contains l k ≡ true) (sym list_is)
            (replaced_listed (consumed_of ctx) (outpoint change) k db.funding_list
              ∙ listed k (ap is_some (sym (found k)) ∙ e)),
    )
  where
    own :
        (k : OutPoint) (r : FundingData)
        → record_after ctx change db k ≡ some r
        → outpoint r.utxo ≡ k
    own k r e = ground (arith, keyed k r, outpoint_eqb_iff (outpoint change) k)

    listed :
        (k : OutPoint)
        → is_some (record_after ctx change db k) ≡ true
        → (if any (contains (consumed_of ctx)) db.funding_list
            then outpoint change == k
              || (contains db.funding_list k && not (contains (consumed_of ctx) k))
            else contains db.funding_list k)
          ≡ true
    listed k e = ground (arith, all k)
