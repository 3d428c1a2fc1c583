-- ===== src/Funding.antt =====
-- `FundingManager` of src/core/funding.rs.
pub mod Once
pub mod Newest
pub mod Sound
pub mod Release
pub mod Marks
pub mod Handed
pub mod Combined
pub mod Calls
use rust_bitvmx_bitcoin.Common.{
  Bool, List, Option, [], false, find, if◌then◌else◌, is_empty, ltb, none, not, reverse, some, true,
  ◌||◌, ◌∷◌, nat_eq, string_eq,
}
use rust_bitvmx_bitcoin.Types.{
  CoordinatedTx, CoordinatorNews, FundingData, Result, Txid, Utxo, err, invalid_funding_utxo, ok,
  outpoint, state_eq, outpoint_eq, news_eq,
}
use rust_bitvmx_bitcoin.Config.{FundingSettings}
use rust_bitvmx_bitcoin.Storage.Db.{Db}
use rust_bitvmx_bitcoin.Storage.Funding.{
  append_funding, clear_funding_records, read_funding_records, replace_funding_on_finalize,
  set_spent,
}
use rust_bitvmx_bitcoin.Storage.Pending.{is_broadcast}
use rust_bitvmx_bitcoin.Helper.{context, has_live_replacement, speedup_change_utxo, speedup_kind}

unfoldable pub set_funding : FundingSettings → Utxo → Db → Option CoordinatorNews × Db
set_funding s utxo db =
    if ltb utxo.amount s.min_funding_amount_sats
    then (some (invalid_funding_utxo utxo.amount s.min_funding_amount_sats), db)
    else (none, append_funding utxo db)

abbrev pub clear_funding : Db → Db
clear_funding db = clear_funding_records db

abbrev pub has_funding : Db → Bool
has_funding db = not (is_empty (read_funding_records db))

-- Pass 1 of `get_funding`, over the speedups from the newest.
unfoldable pub chain_tip : List CoordinatedTx → List CoordinatedTx → Result (Option Utxo)
chain_tip speedups [] = ok none
chain_tip speedups (tx ∷ txs) =
    let rest = chain_tip speedups txs in
    if not (is_broadcast tx.state) then rest else elim (speedup_kind tx) [
      | err e ↦ err e
      | ok k ↦
          (let taken = has_live_replacement tx speedups || (context k).spent in
            if taken
            then rest
            else elim (speedup_change_utxo tx) [ err e ↦ err e | ok utxo ↦ ok (some utxo) ])
    ]

abbrev pub is_unspent : FundingData → Bool
is_unspent rec = not rec.spent

abbrev pub is_unspent_user : FundingData → Bool
is_unspent_user rec = not (rec.from_speedup || rec.spent)

-- Pass 2 of `get_funding`.
unfoldable pub queue_funding : Db → Option (Utxo × Bool) × Db
queue_funding db = elim (find is_unspent (read_funding_records db)) [
  | none ↦ (none, db)
  | some rec ↦ (some (rec.utxo, rec.from_speedup), set_spent (outpoint rec.utxo) true db)
]

unfoldable pub get_funding : List CoordinatedTx → Db → Result (Option (Utxo × Bool)) × Db
get_funding speedups db = elim (chain_tip speedups (reverse speedups)) [
  | err e ↦ (err e, db)
  | ok (some utxo) ↦ (ok (some (utxo, true)), set_spent (outpoint utxo) true db)
  | ok none ↦ (let (r, db') = queue_funding db in (ok r, db'))
]

unfoldable pub get_combine_funding : Db → Option Utxo × Db
get_combine_funding db = elim (find is_unspent_user (read_funding_records db)) [
  | none ↦ (none, db)
  | some rec ↦ (some rec.utxo, set_spent (outpoint rec.utxo) true db)
]

unfoldable pub release_marks : List Utxo → Db → Db
release_marks [] db = db
release_marks (u ∷ us) db = release_marks us (set_spent (outpoint u) false db)

unfoldable pub mark_parents_unspent : CoordinatedTx → Db → Result (Unit {0}) × Db
mark_parents_unspent tx db = elim (speedup_kind tx) [
  | err e ↦ (err e, db)
  | ok k ↦ (ok tt, release_marks (context k).funding_inputs db)
]

abbrev pub replace_on_finalize : Txid → Db → Result (Unit {0}) × Db
replace_on_finalize txid db = replace_funding_on_finalize txid db
