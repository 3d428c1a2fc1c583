-- ===== src/Storage/Funding.antt =====
-- `FundingStorage` and `DispatcherStorage` for src/core/storage.rs.
pub mod Finalize
use rust_bitvmx_bitcoin.Common.{
  Bool, List, Option, [], contains, false, if◌then◌else◌, is_some, length, map, min, none, push_new,
  some, suc, true, zero, ℕ, ◌==◌, ◌∷◌, nat_eq, string_eq,
}
use rust_bitvmx_bitcoin.Common.Maps.{delete, insert, lookup}
use rust_bitvmx_bitcoin.Types.{
  CoordinatedTx, FundingData, OutPoint, Result, SpeedupContext, TxKind, Txid, Utxo, err, failed,
  needs_speedup, normal, ok, outpoint, panicked, speedup, state_eq, outpoint_eq, news_eq,
}
use rust_bitvmx_bitcoin.Storage.Db.{Db, get_tx_by_id, update_tx}
use rust_bitvmx_bitcoin.Storage.Speedups.{remove_speedup_from_list}
use rust_bitvmx_bitcoin.Helper.{context, context_mut, speedup_change_utxo, speedup_kind}

abbrev pub get_funding_record : OutPoint → Db → Option FundingData
get_funding_record op db = lookup op db.funding

abbrev is_speedup_kind : TxKind → Bool
is_speedup_kind (speedup k) = true
is_speedup_kind normal = false
is_speedup_kind (needs_speedup d) = false

-- `matches!(tx.kind, TxKind::Speedup(_))`
abbrev pub is_speedup : CoordinatedTx → Bool
is_speedup tx = is_speedup_kind tx.kind

unfoldable pub is_speedup_derived : OutPoint → Db → Bool
is_speedup_derived op db = elim (get_funding_record op db) [
  | some rec ↦ rec.from_speedup
  | none ↦ elim (get_tx_by_id op.txid db) [ none ↦ false | some tx ↦ is_speedup tx ]
]

unfoldable pub put_funding_record : OutPoint → FundingData → Db → Db
put_funding_record op rec db = record db { funding = insert op rec db.funding }

abbrev pub resolve_funding : Db → List OutPoint → List FundingData
resolve_funding db [] = []
resolve_funding db (op ∷ ops) =
    let rest = resolve_funding db ops in
    elim (get_funding_record op db) [ none ↦ rest | some rec ↦ rec ∷ rest ]

unfoldable pub read_funding_records : Db → List FundingData
read_funding_records db = resolve_funding db db.funding_list

unfoldable pub append_funding : Utxo → Db → Db
append_funding utxo db = record db {
  funding =
      insert (outpoint utxo) (record { utxo = utxo; spent = false; from_speedup = false })
        db.funding;
  funding_list = push_new db.funding_list (outpoint utxo);
}

abbrev pub set_kind_spent : Bool → TxKind → TxKind
set_kind_spent spent (speedup k) = speedup (context_mut (record (context k) { spent = spent }) k)
set_kind_spent spent normal = normal
set_kind_spent spent (needs_speedup d) = needs_speedup d

-- A flag that has the value already is written again here, which changes nothing.
unfoldable pub set_spent : OutPoint → Bool → Db → Db
unfolding update_tx put_funding_record
set_spent op spent db = elim (get_funding_record op db) [
  | some rec ↦ put_funding_record op (record rec { spent = spent }) db
  | none ↦ elim (get_tx_by_id op.txid db) [
    | none ↦ db
    | some tx ↦
        if is_speedup tx
        then update_tx (record tx { kind = set_kind_spent spent tx.kind }) db
        else db
  ]
]

abbrev pub delete_all :
    List OutPoint → List (OutPoint × FundingData) → List (OutPoint × FundingData)
delete_all [] m = m
delete_all (op ∷ ops) m = delete_all ops (delete op m)

unfoldable pub clear_funding_records : Db → Db
clear_funding_records db = record db {
  funding = delete_all db.funding_list db.funding;
  funding_list = [];
}

-- The positions of the entries that are consumed, counted from `idx`.
abbrev pub matching : List OutPoint → ℕ → List OutPoint → List ℕ
matching consumed idx [] = []
matching consumed idx (op ∷ ops) =
    let rest = matching consumed (suc idx) ops in if contains consumed op then idx ∷ rest else rest

-- `Vec::remove` and `Vec::insert`, at positions that are in range.
abbrev pub remove_at : ℕ → List OutPoint → List OutPoint
remove_at i [] = []
remove_at zero (op ∷ ops) = ops
remove_at (suc i) (op ∷ ops) = op ∷ remove_at i ops

abbrev pub insert_at : ℕ → OutPoint → List OutPoint → List OutPoint
insert_at zero x ops = x ∷ ops
insert_at (suc i) x [] = x ∷ []
insert_at (suc i) x (op ∷ ops) = op ∷ insert_at i x ops

abbrev pub entry : ℕ → List OutPoint → Option OutPoint
entry i [] = none
entry zero (op ∷ ops) = some op
entry (suc i) (op ∷ ops) = entry i ops

-- One round of the removal loop: the entry at the position goes, and its record.
abbrev pub drop_entry :
    ℕ
    → List OutPoint × List (OutPoint × FundingData)
    → List OutPoint × List (OutPoint × FundingData)
drop_entry idx (ops, records) = elim (entry idx ops) [
  | none ↦ (ops, records)
  | some removed ↦ (remove_at idx ops, delete removed records)
]

-- The loop runs over the positions from the highest down.
abbrev pub drop_entries :
    List ℕ
    → List OutPoint × List (OutPoint × FundingData)
    → List OutPoint × List (OutPoint × FundingData)
drop_entries [] acc = acc
drop_entries (idx ∷ idxs) acc = drop_entry idx (drop_entries idxs acc)

abbrev pub finalize_change : CoordinatedTx → SpeedupContext → Utxo → Db → Db
finalize_change tx ctx change db =
    let consumed = map outpoint ctx.funding_inputs in
    elim (matching consumed 0 db.funding_list) [
      | [] ↦ db
      | insert_pos ∷ idxs ↦
          (let kept = drop_entries (insert_pos ∷ idxs) (db.funding_list, db.funding) in
            let record_of : FundingData = record {
              utxo = change;
              spent = ctx.spent;
              from_speedup = true;
            } in
            let db' =
              put_funding_record (outpoint change) record_of (record db { funding = kept.1 }) in
            let pos = min insert_pos (length kept.0) in
            remove_speedup_from_list tx.txid
              (record db' { funding_list = insert_at pos (outpoint change) kept.0 }))
    ]

-- A panic inside `speedup_change_utxo` is not caught by the match on its error.
unfoldable pub replace_funding_on_finalize : Txid → Db → Result (Unit {0}) × Db
unfolding speedup_change_utxo put_funding_record remove_speedup_from_list
replace_funding_on_finalize txid db = elim (get_tx_by_id txid db) [
  | none ↦ (ok tt, db)
  | some tx ↦ elim (speedup_change_utxo tx) [
    | err panicked ↦ (err panicked, db)
    | err _ ↦ (ok tt, db)
    | ok change ↦ elim (speedup_kind tx) [
      | err e ↦ (err e, db)
      | ok k ↦ (ok tt, finalize_change tx (context k) change db)
    ]
  ]
]

abbrev pub is_tx_known : Txid → Db → Bool
is_tx_known txid db = is_some (get_tx_by_id txid db)

abbrev pub is_tx_failed : Txid → Db → Bool
is_tx_failed txid db = elim (get_tx_by_id txid db) [ none ↦ false | some t ↦ t.state == failed ]
