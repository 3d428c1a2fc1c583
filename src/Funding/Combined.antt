-- ===== src/Funding/Combined.antt =====
-- A second output that src/core/funding.rs combines with the first, and what finds nothing.
use rust_bitvmx_bitcoin.Common.{
  Bool, Bool-cases, List, Option, Option-cases, [], ap, arith, false, find, inl, inr, none, refl,
  reverse, some, subst, sym, true, ◌==◌, ◌∙◌, ◌∷◌, ◌≡◌, nat_eq, string_eq,
}
use rust_bitvmx_bitcoin.Types.{
  CoordinatedTx, Error, FundingData, Result, Utxo, err, ok, outpoint, outpoint_eq, state_eq,
  news_eq,
}
use rust_bitvmx_bitcoin.Storage.Db.{Db}
use rust_bitvmx_bitcoin.Storage.Funding.{get_funding_record, read_funding_records, set_spent}
use rust_bitvmx_bitcoin.Funding.{
  chain_tip, get_combine_funding, get_funding, is_unspent, is_unspent_user, queue_funding,
  release_marks,
}
use rust_bitvmx_bitcoin.Funding.Once.{IsFundingKeyed, combined, taking_lem}
use rust_bitvmx_bitcoin.Funding.Sound.{set_spent-IsSound}
use rust_bitvmx_bitcoin.Funding.Release.{is_marked, set_spent_apart, set_spent_undo}
use rust_bitvmx_bitcoin.Storage.WellFormed.{IsWellFormed}
use rust_bitvmx_bitcoin.Storage.Stored.{stored-IsKeyed}
use rust_bitvmx_bitcoin.Funding.Marks.{
  record-set_spent, record_after_mark, record_marked, take_free,
}

-- A combine that gives nothing changes nothing.
pub combine_none : (db : Db) → (get_combine_funding db).0 ≡ none → (get_combine_funding db).1 ≡ db
unfolding get_combine_funding
combine_none db e = elim (Option-cases (find is_unspent_user (read_funding_records db))) [
  | inl empty ↦ rw (empty, get_combine_funding) refl
  | inr (rec, found) ↦ absurd (some_none rec.utxo (sym (rw (found, get_combine_funding) refl) ∙ e))
]
  where
    some_none : (u : Utxo) → some u ≡ none → ⊥
    some_none u e = ground arith

true-false : true ≡ false → ⊥
true-false e = ground arith

-- The output that a combine takes.
combine_free :
    (db : Db) (v : Utxo)
    → IsFundingKeyed db
    → (get_combine_funding db).0 ≡ some v
    → (rec : FundingData) × (get_funding_record (outpoint v) db ≡ some rec)
      × (rec.spent ≡ false)
      × ((get_combine_funding db).1 ≡ set_spent (outpoint v) true db)
combine_free db v keyed e =
    let left : Db = (get_combine_funding db).1 in
    take_free is_unspent_user db left v (λ rec passes. ground arith) keyed
      (sym (taking_lem combined db) ∙ ap {B = Option Utxo × Db} (λ x. (x, left)) e)

-- A combine alone, and one after another output was marked.
pub combine_alone :
    (d : Db) (v : Utxo)
    → IsWellFormed d
    → (get_combine_funding d).0 ≡ some v
    → release_marks (v ∷ []) (get_combine_funding d).1 ≡ d
unfolding release_marks
combine_alone d v wf e =
    let (rec, at, free, next) = combine_free d v wf.funding_sound.0 e in
    ap (set_spent (outpoint v) false) next
    ∙ set_spent_undo (outpoint v) d (stored-IsKeyed d.txs wf.stored)
        (record_marked (outpoint v) d rec at ∙ free)

pub combine_second :
    (d : Db) (u v : Utxo)
    → IsWellFormed d
    → is_marked (outpoint u) d ≡ false
    → (get_combine_funding (set_spent (outpoint u) true d)).0 ≡ some v
    → release_marks (u ∷ v ∷ []) (get_combine_funding (set_spent (outpoint u) true d)).1 ≡ d
unfolding release_marks
combine_second d u v wf unmarked e =
    let m : Db = set_spent (outpoint u) true d in
    let keyed = stored-IsKeyed d.txs wf.stored in
    let (rec, at, free, next) =
      combine_free m v (set_spent-IsSound (outpoint u) true d wf.funding_sound).0 e in
    let apart : (outpoint u == outpoint v) ≡ false = elim (Bool-cases (outpoint u == outpoint v)) [
      | inr differs ↦ differs
      | inl same ↦ absurd (
          true-false (
            sym (
              record_after_mark (outpoint u) d rec (
                subst (λ k. get_funding_record k m ≡ some rec)
                  (sym ((outpoint_eq.tests_equality (outpoint u) (outpoint v)).0 same)) at))
            ∙ free))
    ] in
    let at_d : get_funding_record (outpoint v) d ≡ some rec =
      sym (record-set_spent (outpoint u) (outpoint v) true d apart) ∙ at in
    ap (λ x. set_spent (outpoint v) false (set_spent (outpoint u) false x)) next
    ∙ ap (set_spent (outpoint v) false) (
        set_spent_apart (outpoint u) (outpoint v) false true m rec at apart
        ∙ ap (set_spent (outpoint v) true) (set_spent_undo (outpoint u) d keyed unmarked))
    ∙ set_spent_undo (outpoint v) d keyed (record_marked (outpoint v) d rec at_d ∙ free)

-- `get_funding` that finds nothing changes nothing.
pub funding_none :
    (speedups : List CoordinatedTx) (db : Db)
    → (get_funding speedups db).0 ≡ ok none
    → (get_funding speedups db).1 ≡ db
unfolding get_funding queue_funding
funding_none speedups db = by_tip (chain_tip speedups (reverse speedups)) refl
  where
    some_none : (x : Utxo × Bool) → ok (some x) ≡ ok none → ⊥
    some_none x e = ground arith

    no_funding : Result (Option (Utxo × Bool))
    no_funding = ok none

    err_none : (x : Error) → err x ≡ no_funding → ⊥
    err_none x e = ground arith

    by_tip :
        (o : Result (Option Utxo))
        → chain_tip speedups (reverse speedups) ≡ o
        → (get_funding speedups db).0 ≡ ok none
        → (get_funding speedups db).1 ≡ db
    by_tip (err x) e = rw (e, get_funding) (λ f. absurd (err_none x f))
    by_tip (ok (some u)) e = rw (e, get_funding) (λ f. absurd (some_none (u, true) f))
    by_tip (ok none) e =
        rw (e, get_funding)
          (elim (Option-cases (find is_unspent (read_funding_records db))) [
            | inl empty ↦ rw (empty, queue_funding) (λ f. refl)
            | inr (rec, found) ↦
                rw (found, queue_funding) (λ f. absurd (some_none (rec.utxo, rec.from_speedup) f))
          ])
