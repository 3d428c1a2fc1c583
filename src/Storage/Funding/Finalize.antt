-- ===== src/Storage/Funding/Finalize.antt =====
-- `replace_funding_on_finalize` of src/core/storage.rs: its loops over positions against the queue
-- with the consumed entries taken out and the change put in their place.
use rust_bitvmx_bitcoin.Common.{
  Bool-cases, List, Option, Option-cases, [], any, ap, arith, contains, false, filter,
  if◌then◌else◌, inl, inr, length, map, min, none, not, refl, some, subst, suc, sym, true, ℕ, ◌&&◌,
  ◌==◌, ◌∙◌, ◌∷◌, ◌≡◌, nat_eq, string_eq,
}
use rust_bitvmx_bitcoin.Common.Maps.{delete, lookup, lookup-delete, lookup-insert}
use rust_bitvmx_bitcoin.Types.{
  CoordinatedTx, FundingData, OutPoint, SpeedupContext, Utxo, outpoint, outpoint_eqb_iff, state_eq,
  outpoint_eq, news_eq,
}
use rust_bitvmx_bitcoin.Storage.Db.{Db}
use rust_bitvmx_bitcoin.Storage.Speedups.{remove_speedup_from_list}
use rust_bitvmx_bitcoin.Storage.Funding.{
  drop_entries, drop_entry, entry, finalize_change, insert_at, matching, put_funding_record,
}

module _ (consumed : List OutPoint) where
  -- The specification: the change in the place of the first consumed entry, the others taken out.
  abbrev pub replace_first : OutPoint → List OutPoint → List OutPoint
  replace_first change [] = []
  replace_first change (op ∷ ops) =
      let rest = replace_first change ops in
      if contains consumed op
      then change ∷ filter (λ o. not (contains consumed o)) ops
      else op ∷ rest

  abbrev pub kept : List OutPoint → List OutPoint
  kept = filter λ o. not (contains consumed o)

  abbrev delete_in : List OutPoint → List (OutPoint × FundingData) → List (OutPoint × FundingData)
  delete_in [] records = records
  delete_in (op ∷ ops) records =
      let rest = delete_in ops records in if contains consumed op then delete op rest else rest

  shifted_matches :
      (i : ℕ) (ops : List OutPoint)
      → matching consumed (suc i) ops ≡ map suc (matching consumed i ops)
  shifted_matches i [] = refl
  shifted_matches i (op ∷ ops) = ground (arith, shifted_matches (suc i) ops)

  step_suc :
      (i : ℕ) (op : OutPoint) (p : List OutPoint × List (OutPoint × FundingData))
      → drop_entry (suc i) (op ∷ p.0, p.1) ≡ (op ∷ (drop_entry i p).0, (drop_entry i p).1)
  step_suc i op (ops, records) = elim (Option-cases (entry i ops)) [
    | inl e ↦ rw (e, drop_entry) refl
    | inr (removed, e) ↦ rw (e, drop_entry) refl
  ]

  drop_suc :
      (idxs : List ℕ) (op : OutPoint) (ops : List OutPoint)
      (records : List (OutPoint × FundingData))
      → drop_entries (map suc idxs) (op ∷ ops, records)
        ≡ (op ∷ (drop_entries idxs (ops, records)).0, (drop_entries idxs (ops, records)).1)
  drop_suc [] op ops records = refl
  drop_suc (i ∷ idxs) op ops records =
      rw (drop_suc idxs op ops records) (step_suc i op (drop_entries idxs (ops, records)))

  drop-kept :
      (ops : List OutPoint) (records : List (OutPoint × FundingData))
      → drop_entries (matching consumed 0 ops) (ops, records) ≡ (kept ops, delete_in ops records)
  drop-kept [] records = refl
  drop-kept (op ∷ ops) records = elim (Bool-cases (contains consumed op)) [
    | inl out ↦
        rw
          (
            out,
            shifted_matches 0 ops,
            drop_suc (matching consumed 0 ops) op ops records,
            drop-kept ops records,
          )
          refl
    | inr stays ↦
        rw
          (
            stays,
            shifted_matches 0 ops,
            drop_suc (matching consumed 0 ops) op ops records,
            drop-kept ops records,
          )
          refl
  ]

  unmap :
      (l : List ℕ) (pos : ℕ) (idxs : List ℕ)
      → map suc l ≡ pos ∷ idxs
      → (p : ℕ) × (r : List ℕ) × (l ≡ p ∷ r) × (suc p ≡ pos)
  unmap [] pos idxs e = absurd (nil_not_cons e)
    where
      nil_not_cons : {n : ℕ} {l : List ℕ} → [] ≡ n ∷ l → ⊥
      nil_not_cons e = ground arith
  unmap (p ∷ r) pos idxs e = (p, r, refl, ground arith)

  at_front : (n : ℕ) (x : OutPoint) (l : List OutPoint) → insert_at (min 0 n) x l ≡ x ∷ l
  at_front n x l = let none_before : min 0 n ≡ 0 = omega arith in rw none_before refl

  behind :
      (p n : ℕ) (x op : OutPoint) (l : List OutPoint)
      → insert_at (min (suc p) (suc n)) x (op ∷ l) ≡ op ∷ insert_at (min p n) x l
  behind p n x op l = let shift : min (suc p) (suc n) ≡ suc (min p n) = omega arith in rw shift refl

  insert-replace :
      (change : OutPoint) (ops : List OutPoint) (pos : ℕ) (idxs : List ℕ)
      → matching consumed 0 ops ≡ pos ∷ idxs
      → insert_at (min pos (length (kept ops))) change (kept ops) ≡ replace_first change ops
  insert-replace change [] pos idxs e = cc
  insert-replace change (op ∷ ops) pos idxs e = elim (Bool-cases (contains consumed op)) [
    | inl out ↦
        (let start : 0 ≡ pos = ground arith in
          rw (out, ← start) (at_front (length (kept ops)) change (kept ops)))
    | inr stays ↦
        (let later : map suc (matching consumed 0 ops) ≡ pos ∷ idxs =
            sym (shifted_matches 0 ops) ∙ ground arith in
          let (p, r, f, next) = unmap (matching consumed 0 ops) pos idxs later in
          rw (stays, ← next)
            (behind p (length (kept ops)) change op (kept ops)
              ∙ ap (λ l. op ∷ l) (insert-replace change ops p r f)))
  ]

  lookup-delete_in :
      (ops : List OutPoint) (records : List (OutPoint × FundingData)) (k : OutPoint)
      → lookup k (delete_in ops records)
        ≡ (if contains consumed k && contains ops k then none else lookup k records)
  lookup-delete_in [] records k = ground arith
  lookup-delete_in (op ∷ ops) records k = ground (
    arith,
    lookup-delete_in ops records k,
    lookup-delete op k (delete_in ops records),
    outpoint_eqb_iff op k,
  )

  unmap_nil : (l : List ℕ) → map suc l ≡ [] → l ≡ []
  unmap_nil [] e = refl
  unmap_nil (n ∷ l) e = cc

  matching_none :
      (change : OutPoint) (ops : List OutPoint)
      → matching consumed 0 ops ≡ []
      → (any (contains consumed) ops ≡ false) × (replace_first change ops ≡ ops)
  matching_none change [] e = (refl, refl)
  matching_none change (op ∷ ops) e = elim (Bool-cases (contains consumed op)) [
    | inl out ↦ (cc, cc)
    | inr stays ↦
        (let later : map suc (matching consumed 0 ops) ≡ [] =
            sym (shifted_matches 0 ops) ∙ ground arith in
          let rest = matching_none change ops (unmap_nil (matching consumed 0 ops) later) in
          rw stays (rest.0, ap (λ l. op ∷ l) rest.1))
  ]

  matching_some :
      (ops : List OutPoint) (pos : ℕ) (idxs : List ℕ)
      → matching consumed 0 ops ≡ pos ∷ idxs
      → any (contains consumed) ops ≡ true
  matching_some [] pos idxs e = cc
  matching_some (op ∷ ops) pos idxs e = elim (Bool-cases (contains consumed op)) [
    | inl out ↦ rw out refl
    | inr stays ↦
        (let later : map suc (matching consumed 0 ops) ≡ pos ∷ idxs =
            sym (shifted_matches 0 ops) ∙ ground arith in
          let (p, r, f, next) = unmap (matching consumed 0 ops) pos idxs later in
          rw stays (matching_some ops p r f))
  ]

abbrev pub consumed_of : SpeedupContext → List OutPoint
consumed_of ctx = map outpoint ctx.funding_inputs

-- The specification of what is stored under an outpoint of the funding queue.
abbrev pub record_after : SpeedupContext → Utxo → Db → OutPoint → Option FundingData
record_after ctx change db op =
    if not (any (contains (consumed_of ctx)) db.funding_list)
    then lookup op db.funding
    else if outpoint change == op
    then some (record { utxo = change; spent = ctx.spent; from_speedup = true })
    else if contains (consumed_of ctx) op && contains db.funding_list op
    then none
    else lookup op db.funding

-- When a speedup finalizes, its change takes the place of the first funding entry that it consumed,
-- with the speedup's own spent flag and marked as coming from a speedup; the other entries that it
-- consumed leave the queue with their records, and all others keep their place and record. If it
-- consumed no listed entry, the queue and the records stay as they are.
pub finalize_change_exact :
    (tx : CoordinatedTx) (ctx : SpeedupContext) (change : Utxo) (db : Db)
    → ((finalize_change tx ctx change db).funding_list
        ≡ replace_first (consumed_of ctx) (outpoint change) db.funding_list)
      × ((op : OutPoint)
          → lookup op (finalize_change tx ctx change db).funding ≡ record_after ctx change db op)
unfolding put_funding_record remove_speedup_from_list
finalize_change_exact tx ctx change db =
    by_positions (matching (consumed_of ctx) 0 db.funding_list) refl
  where
    by_positions :
        (idxs : List ℕ)
        → matching (consumed_of ctx) 0 db.funding_list ≡ idxs
        → ((finalize_change tx ctx change db).funding_list
            ≡ replace_first (consumed_of ctx) (outpoint change) db.funding_list)
          × ((op : OutPoint)
              → lookup op (finalize_change tx ctx change db).funding
                ≡ record_after ctx change db op)
    by_positions [] e =
        let none_out = matching_none (consumed_of ctx) (outpoint change) db.funding_list e in
        rw (e, finalize_change) (sym none_out.1, λ op. rw (none_out.0) refl)
    by_positions (pos ∷ idxs) e =
        let out = matching_some (consumed_of ctx) db.funding_list pos idxs e in
        let dropped =
          subst
            (λ i. drop_entries i (db.funding_list, db.funding) ≡ (
              kept (consumed_of ctx) db.funding_list,
              delete_in (consumed_of ctx) db.funding_list db.funding,
            ))
            e (drop-kept (consumed_of ctx) db.funding_list db.funding) in
        rw (e, finalize_change, dropped)
          (
            insert-replace (consumed_of ctx) (outpoint change) db.funding_list pos idxs e,
            λ op.
                lookup-insert (outpoint change) op
                  (record { utxo = change; spent = ctx.spent; from_speedup = true })
                  (delete_in (consumed_of ctx) db.funding_list db.funding)
                ∙ rw (out, lookup-delete_in (consumed_of ctx) db.funding_list db.funding op) refl,
          )
