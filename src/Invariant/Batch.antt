-- ===== src/Invariant/Batch.antt =====
-- The CPFP that a tick makes for a batch of pending parents (src/engines/speedup_engine.rs): its
-- parents are distinct, and the state stays well formed.
use rust_bitvmx_bitcoin.Common.{
  All, Bool-cases, IsUnique, List, Option, Option-cases, [], ap, append-nil, arith, contains, false,
  inl, inr, is_empty, last, length, map, nat_eqb_iff, none, not, refl, some, subst, sym, true, ℕ,
  ◌++◌, ◌∙◌, ◌∷◌, ◌≡◌, ◌≤◌, ◌⊎◌, nat_eq, string_eq,
}
use rust_bitvmx_bitcoin.Common.Maps.{lookup}
use rust_bitvmx_bitcoin.Types.{
  CoordinatedTx, CoordinatorNews, Txid, ok, state_eq, outpoint_eq, news_eq,
}
use rust_bitvmx_bitcoin.Config.{DispatcherSettings}
use rust_bitvmx_bitcoin.Storage.Db.{Db}
use rust_bitvmx_bitcoin.Storage.Pending.{
  get_pending_speedup_parents, is_broadcast, remove_pending_speedup_parent,
}
use rust_bitvmx_bitcoin.Storage.Pending.Queue.{broadcast_parents, get_pending_speedup_parents_exact}
use rust_bitvmx_bitcoin.Storage.WellFormed.{IsWellFormed}
use rust_bitvmx_bitcoin.Storage.WellFormed.Funds.{remove_pending-Within, scan-Within}
use rust_bitvmx_bitcoin.Helper.{parents}
use rust_bitvmx_bitcoin.Outside.{TxFunctions}
use rust_bitvmx_bitcoin.World.{M, modify, pure, updates, when, ◌>>=◌}
use rust_bitvmx_bitcoin.World.Keeps.{
  Keeps, Keeps-bind, Keeps-ensured, Keeps-modify, Keeps-when, keeps_rules,
}
use rust_bitvmx_bitcoin.Fee.{chain_fee_diff}
use rust_bitvmx_bitcoin.Engine.Common.{EngineContext, fee_rate_with_news}
use rust_bitvmx_bitcoin.Engine.Build.{ParentEntry, SpeedupBuildResult, build_speedup}
use rust_bitvmx_bitcoin.Engine.Speedup.{
  batch_pending, build_batch, create_cpfp_batch, entries_of, save_batch,
}
use rust_bitvmx_bitcoin.Dispatcher.{batch_by_weight}
use rust_bitvmx_bitcoin.Dispatcher.Packing.{IsPacked}
use rust_bitvmx_bitcoin.Dispatcher.Batches.{IsLight, batches_hold, concat}
use rust_bitvmx_bitcoin.Invariant.Snapshot.{Anything, Keeps-anyhow, Kept}
use rust_bitvmx_bitcoin.Storage.Records.Transitions.{IsKeyed}
use rust_bitvmx_bitcoin.Storage.Stored.{stored-IsKeyed}
use rust_bitvmx_bitcoin.Invariant.Build.{
  rate-Keeps, save_speedup-Keeps, spent-Keeps, told_anyhow-Keeps,
}

abbrev txids_of : List CoordinatedTx → List Txid
txids_of = map λ (p : CoordinatedTx). p.txid

-- What the scan returns has txids of the list, in its order.
contains-scanned :
    (db : Db) (ids : List Txid) (k : Txid)
    → IsKeyed db.txs
    → contains (txids_of (broadcast_parents db ids)) k ≡ true
    → contains ids k ≡ true
contains-scanned db [] k keyed c = c
contains-scanned db (id ∷ ids) k keyed c = elim (Option-cases (lookup id db.txs)) [
  | inl e ↦ ground (arith, contains-scanned db ids k keyed (rw (e, broadcast_parents) at c))
  | inr (t, e) ↦ elim (Bool-cases (is_broadcast t.state)) [
    | inl live ↦ ground (
      arith,
      contains-scanned db ids k keyed,
      keyed id t e,
      nat_eqb_iff id k,
      rw (e, live, broadcast_parents) at c,
    )
    | inr dead ↦
        ground (arith, contains-scanned db ids k keyed (rw (e, dead, broadcast_parents) at c))
  ]
]

scanned-IsUnique :
    (db : Db) (ids : List Txid)
    → IsKeyed db.txs
    → IsUnique ids
    → IsUnique (txids_of (broadcast_parents db ids))
scanned-IsUnique db [] keyed once = tt
scanned-IsUnique db (id ∷ ids) keyed once = elim (Option-cases (lookup id db.txs)) [
  | inl e ↦ rw (e, broadcast_parents) (scanned-IsUnique db ids keyed once.1)
  | inr (t, e) ↦ elim (Bool-cases (is_broadcast t.state)) [
    | inl live ↦
        rw (e, live, broadcast_parents)
          (
            ground (arith, contains-scanned db ids t.txid keyed, keyed id t e),
            scanned-IsUnique db ids keyed once.1,
          )
    | inr dead ↦ rw (e, dead, broadcast_parents) (scanned-IsUnique db ids keyed once.1)
  ]
]

contains-front :
    (xs ys : List CoordinatedTx) (k : Txid)
    → contains (txids_of (xs ++ ys)) k ≡ false
    → contains (txids_of xs) k ≡ false
contains-front [] ys k c = refl
contains-front (x ∷ xs) ys k c = ground (arith, contains-front xs ys k)

front-IsUnique :
    (xs ys : List CoordinatedTx) → IsUnique (txids_of (xs ++ ys)) → IsUnique (txids_of xs)
front-IsUnique [] ys once = tt
front-IsUnique (x ∷ xs) ys once = (contains-front xs ys x.txid once.0, front-IsUnique xs ys once.1)

-- The only batch is the front of what was scanned.
batch-IsUnique :
    (b : TxFunctions) (s : DispatcherSettings) (ps batch : List CoordinatedTx)
    → last (batch_by_weight b s ps 1) ≡ some batch
    → IsUnique (txids_of ps)
    → IsUnique (txids_of batch)
batch-IsUnique b s ps batch e once = only (batch_by_weight b s ps 1) (batches_hold b s ps 1) e
  where
    only :
        (batches : List (List CoordinatedTx))
        → ((rest : List CoordinatedTx) × (concat batches ++ rest ≡ ps)
            × ((is_empty rest ≡ true) ⊎ (length batches ≡ 1)))
          × (length batches ≤ 1)
          × All (IsLight b s.max_tx_weight 1) batches
          × IsPacked b s.max_tx_weight batches
        → last batches ≡ some batch
        → IsUnique (txids_of batch)
    only [] h f = ground arith
    only (l ∷ []) ((rest, all, spent), size, light, packed) f =
        let same : l ≡ batch = ground arith in
        subst (λ x. IsUnique (txids_of x)) same
          (front-IsUnique l rest (
            subst (λ x. IsUnique (txids_of x)) (sym all ∙ ap (λ x. x ++ rest) (append-nil l)) once))
    only (l ∷ m ∷ ls) (all, size, light, packed) f = absurd (omega (arith, size))

scanned_txids-IsUnique :
    (db : Db) → IsWellFormed db → IsUnique (txids_of (get_pending_speedup_parents db).0)
scanned_txids-IsUnique db wf = rw (get_pending_speedup_parents_exact db) (
    scanned-IsUnique db db.pending_speedup_parents (stored-IsKeyed db.txs wf.stored)
      wf.pending_once)

module _ (ctx : EngineContext) (N : CoordinatorNews → Type 0) where
  open ctx use {outside as o, settings}

  unlisted-Keeps : (id : Txid) → Keeps (Kept N) (modify (remove_pending_speedup_parent id))
  unlisted-Keeps id =
      Keeps-anyhow (modify (remove_pending_speedup_parent id))
        (Keeps-modify (remove_pending_speedup_parent id) (remove_pending-Within (Anything N) id))

  save_batch-Keeps :
      (batch : List CoordinatedTx) (entries : List ParentEntry) (built : SpeedupBuildResult)
      → IsUnique (txids_of batch)
      → Keeps (Kept N) (save_batch ctx batch entries built)
  unfolding save_batch
  save_batch-Keeps batch entries built once =
      search (keeps_rules, unlisted-Keeps, save_speedup-Keeps, told_anyhow-Keeps, once) depth 14

  saved-Keeps :
      (batch : List CoordinatedTx) (entries : List ParentEntry) (built : Option SpeedupBuildResult)
      → IsUnique (txids_of batch)
      → Keeps (Kept N) (elim built [ none ↦ pure tt | some b ↦ save_batch ctx batch entries b ])
  saved-Keeps batch entries none once = search keeps_rules
  saved-Keeps batch entries (some b) once = save_batch-Keeps batch entries b once

  -- The part of `build_batch` that has a batch.
  abbrev pub batch_steps : ℕ → ℕ → ℕ → List CoordinatedTx → M (Unit {0})
  batch_steps fuel rate diff batch =
      let entries = entries_of o.bitcoin batch in
      when (not (is_empty entries)) (do
        built ← build_speedup ctx fuel entries none settings.fee.base_fee_multiplier rate diff
        elim built [ none ↦ pure tt | some b ↦ save_batch ctx batch entries b ])

  batch_steps-Keeps :
      (fuel rate diff : ℕ) (batch : List CoordinatedTx)
      → IsUnique (txids_of batch)
      → Keeps (Kept N) (batch_steps fuel rate diff batch)
  batch_steps-Keeps fuel rate diff batch once =
      let entries = entries_of o.bitcoin batch in
      Keeps-when (not (is_empty entries)) _ (
        Keeps-bind (build_speedup ctx fuel entries none settings.fee.base_fee_multiplier rate diff)
          _ (spent-Keeps ctx N fuel entries none settings.fee.base_fee_multiplier rate diff)
          (λ built. saved-Keeps batch entries built once))

  with_batch-Keeps :
      (fuel rate diff : ℕ) (found : Option (List CoordinatedTx))
      → ((batch : List CoordinatedTx) → found ≡ some batch → IsUnique (txids_of batch))
      → (let rest : M (Unit {0}) = elim found [
        | none ↦ pure tt
        | some batch ↦ batch_steps fuel rate diff batch
      ] in
          Keeps (Kept N) rest)
  with_batch-Keeps fuel rate diff none once = search keeps_rules
  with_batch-Keeps fuel rate diff (some batch) once =
      batch_steps-Keeps fuel rate diff batch (once batch refl)

  build_batch-Keeps :
      (fuel : ℕ) (parents unconfirmed : List CoordinatedTx)
      → IsUnique (txids_of parents)
      → Keeps (Kept N) (build_batch ctx fuel parents unconfirmed)
  unfolding build_batch
  build_batch-Keeps fuel parents unconfirmed once =
      Keeps-bind (fee_rate_with_news ctx) _ (rate-Keeps ctx N) (λ rate.
        with_batch-Keeps fuel rate (chain_fee_diff o.bitcoin rate unconfirmed).0
          (last (batch_by_weight o.bitcoin settings.dispatcher parents 1))
          (λ batch e. batch-IsUnique o.bitcoin settings.dispatcher parents batch e once))

  batch_pending-Keeps :
      (fuel : ℕ) (ps : List CoordinatedTx)
      → IsUnique (txids_of ps)
      → Keeps (Kept N) (batch_pending ctx fuel ps)
  batch_pending-Keeps fuel ps once = search (keeps_rules, build_batch-Keeps, once) depth 12

  scanned-Kept : (db : Db) → Kept N db → Kept N (get_pending_speedup_parents db).1
  scanned-Kept db (wf, news) =
      let (wf', stay) =
        scan-Within (Anything N) db (wf, record { in_list = λ k c. tt; in_news = news }) in
      (wf', stay.in_news)

  pub create_cpfp_batch-Keeps : (fuel : ℕ) → Keeps (Kept N) (create_cpfp_batch ctx fuel)
  unfolding create_cpfp_batch
  create_cpfp_batch-Keeps fuel =
      Keeps-ensured (λ ps. IsUnique (txids_of ps)) (updates get_pending_speedup_parents)
        (batch_pending ctx fuel)
        (λ w wf. (
          scanned-Kept w.db wf,
          λ ps e. subst (λ x. IsUnique (txids_of x)) (ok_inj e) (scanned_txids-IsUnique w.db wf.0),
        ))
        (batch_pending-Keeps fuel)
    where
      ok_inj : {a b : List CoordinatedTx} → ok a ≡ ok b → a ≡ b
      ok_inj e = ground arith
