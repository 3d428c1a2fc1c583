-- ===== src/Funding/Calls.antt =====
-- The funding queue through every sequence of the calls of src/core/funding.rs.
use rust_bitvmx_bitcoin.Common.{
  Bool-cases, List, Option, Option-cases, [], ap, arith, false, find, inl, inr, none, refl, reverse,
  some, sym, true, ◌∙◌, ◌∷◌, ◌≡◌, nat_eq, string_eq, is_some, ltb,
}
use rust_bitvmx_bitcoin.Common.Maps.{lookup}
use rust_bitvmx_bitcoin.Types.{
  CoordinatedTx, FundingData, Txid, OutPoint, Result, Utxo, err, ok, panicked, outpoint, state_eq,
  outpoint_eq, news_eq,
}
use rust_bitvmx_bitcoin.Storage.Db.{Db, get_tx_by_id}
use rust_bitvmx_bitcoin.Storage.Funding.{
  read_funding_records, replace_funding_on_finalize, set_spent,
}
use rust_bitvmx_bitcoin.Config.{FundingSettings}
use rust_bitvmx_bitcoin.Helper.{context, speedup_change_utxo, speedup_kind}
use rust_bitvmx_bitcoin.Funding.{
  chain_tip, clear_funding, get_combine_funding, get_funding, is_unspent, is_unspent_user,
  mark_parents_unspent, queue_funding, release_marks, replace_on_finalize, set_funding,
}
use rust_bitvmx_bitcoin.World.Rules.{Result-cases}
use rust_bitvmx_bitcoin.Funding.Sound.{
  IsSound, append-IsSound, set_spent-IsSound, cleared, finalize-IsSound,
}

-- The calls of the funding manager that can change the queue.
pub data FundingCall : Type 0 where
  funded : FundingSettings → Utxo → FundingCall
  asked : List CoordinatedTx → FundingCall
  combining : FundingCall
  released : CoordinatedTx → FundingCall
  replaced : Txid → FundingCall
  wiped : FundingCall

abbrev pub after_call : FundingCall → Db → Db
after_call (funded s utxo) db = (set_funding s utxo db).1
after_call (asked speedups) db = (get_funding speedups db).1
after_call combining db = (get_combine_funding db).1
after_call (released tx) db = (mark_parents_unspent tx db).1
after_call (replaced txid) db = (replace_on_finalize txid db).1
after_call wiped db = clear_funding db

abbrev pub after_calls : List FundingCall → Db → Db
after_calls [] db = db
after_calls (c ∷ cs) db = after_calls cs (after_call c db)

release-IsSound : (us : List Utxo) (db : Db) → IsSound db → IsSound (release_marks us db)
unfolding release_marks
release-IsSound [] db sound = sound
release-IsSound (u ∷ us) db sound =
    release-IsSound us (set_spent (outpoint u) false db)
      (set_spent-IsSound (outpoint u) false db sound)

queue-IsSound : (db : Db) → IsSound db → IsSound (queue_funding db).1
unfolding queue_funding
queue-IsSound db sound = elim (Option-cases (find is_unspent (read_funding_records db))) [
  | inl e ↦ rw (e, queue_funding) sound
  | inr (rec, e) ↦ rw (e, queue_funding) (set_spent-IsSound (outpoint rec.utxo) true db sound)
]

combine-IsSound : (db : Db) → IsSound db → IsSound (get_combine_funding db).1
unfolding get_combine_funding
combine-IsSound db sound = elim (Option-cases (find is_unspent_user (read_funding_records db))) [
  | inl e ↦ rw (e, get_combine_funding) sound
  | inr (rec, e) ↦ rw (e, get_combine_funding) (set_spent-IsSound (outpoint rec.utxo) true db sound)
]

ask-IsSound :
    (speedups : List CoordinatedTx) (db : Db) → IsSound db → IsSound (get_funding speedups db).1
unfolding get_funding
ask-IsSound speedups db sound = elim (Result-cases (chain_tip speedups (reverse speedups))) [
  | inr (x, e) ↦ rw (e, get_funding) sound
  | inl (o, e) ↦ found o e
]
  where
    found :
        (o : Option Utxo)
        → chain_tip speedups (reverse speedups) ≡ ok o
        → IsSound (get_funding speedups db).1
    found none e = rw (e, get_funding) (queue-IsSound db sound)
    found (some utxo) e = rw (e, get_funding) (set_spent-IsSound (outpoint utxo) true db sound)

replace-IsSound : (txid : Txid) (db : Db) → IsSound db → IsSound (replace_on_finalize txid db).1
unfolding replace_funding_on_finalize
replace-IsSound txid db sound = elim (Option-cases (get_tx_by_id txid db)) [
  | inl e ↦ rw (e, replace_funding_on_finalize) sound
  | inr (tx, e) ↦ by_change tx e (speedup_change_utxo tx) refl
]
  where
    by_change :
        (tx : CoordinatedTx)
        → get_tx_by_id txid db ≡ some tx
        → (c : Result Utxo) → speedup_change_utxo tx ≡ c
        → IsSound (replace_on_finalize txid db).1
    by_change tx e (err panicked) f = rw (e, replace_funding_on_finalize, f) sound
    by_change tx e (err _) f = rw (e, replace_funding_on_finalize, f) sound
    by_change tx e (ok change) f = elim (Result-cases (speedup_kind tx)) [
      | inl (k, g) ↦
          rw (e, replace_funding_on_finalize, f, g)
            (finalize-IsSound tx (context k) change db sound)
      | inr (x, g) ↦ rw (e, replace_funding_on_finalize, f, g) sound
    ]

fund-IsSound :
    (s : FundingSettings) (utxo : Utxo) (db : Db) → IsSound db → IsSound (set_funding s utxo db).1
unfolding set_funding
fund-IsSound s utxo db sound = elim (Bool-cases (ltb utxo.amount s.min_funding_amount_sats)) [
  | inl small ↦ rw (small, set_funding) sound
  | inr large ↦ rw (large, set_funding) (append-IsSound utxo db sound)
]

parents-IsSound :
    (tx : CoordinatedTx) (db : Db) → IsSound db → IsSound (mark_parents_unspent tx db).1
unfolding mark_parents_unspent
parents-IsSound tx db sound = elim (Result-cases (speedup_kind tx)) [
  | inl (k, e) ↦ rw (e, mark_parents_unspent) (release-IsSound (context k).funding_inputs db sound)
  | inr (x, e) ↦ rw (e, mark_parents_unspent) sound
]

call-IsSound : (c : FundingCall) (db : Db) → IsSound db → IsSound (after_call c db)
call-IsSound (funded s utxo) db sound = fund-IsSound s utxo db sound
call-IsSound (asked speedups) db sound = ask-IsSound speedups db sound
call-IsSound combining db sound = combine-IsSound db sound
call-IsSound (released tx) db sound = parents-IsSound tx db sound
call-IsSound (replaced txid) db sound = replace-IsSound txid db sound
call-IsSound wiped db sound = (
  λ op rec e. absurd (none_some (sym (cleared db sound op) ∙ e)),
  λ op e. absurd (false_true (ap is_some (sym (cleared db sound op)) ∙ e)),
)
  where
    none_some : {rec : FundingData} → none ≡ some rec → ⊥
    none_some e = ground arith

    false_true : false ≡ true → ⊥
    false_true e = ground arith

-- Whatever calls of the funding manager are made, in whatever order, a store whose funding records
-- stand under their own outpoints and are all listed in the queue stays such a store; and when the
-- queue is then cleared, no record is left.
pub funding_queue_holds :
    (cs : List FundingCall) (db : Db)
    → IsSound db
    → IsSound (after_calls cs db)
      × ((op : OutPoint) → lookup op (clear_funding (after_calls cs db)).funding ≡ none)
funding_queue_holds [] db sound = (sound, cleared db sound)
funding_queue_holds (c ∷ cs) db sound =
    funding_queue_holds cs (after_call c db) (call-IsSound c db sound)
