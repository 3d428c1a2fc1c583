-- ===== src/Coordinator/Cancel.antt =====
-- Which records a cancel request removes: `cancel_transactions` of src/coordinator.rs.
use rust_bitvmx_bitcoin.Common.{
  Bool, List, Option, Option-cases, String, [], ap, arith, contains, false, filter, if◌then◌else◌,
  inl, inr, nat_eqb_iff, none, not, refl, some, subst, sym, true, ℕ, ◌&&◌, ◌==◌, ◌∙◌, ◌∷◌, ◌≡◌,
  nat_eq, string_eq,
}
use rust_bitvmx_bitcoin.Common.Maps.{lookup, lookup-delete}
use rust_bitvmx_bitcoin.Types.{
  CancelReason, CoordinatedTx, Error, Result, Txid, err, invalid_cancel, ok, to_dispatch, state_eq,
  outpoint_eq, news_eq,
}
use rust_bitvmx_bitcoin.Storage.Db.{Db}
use rust_bitvmx_bitcoin.Storage.News.{push_news}
use rust_bitvmx_bitcoin.Storage.Records.{remove_tx}
use rust_bitvmx_bitcoin.Storage.Pending.{remove_pending_speedup_parent}
use rust_bitvmx_bitcoin.Storage.Funding.{is_speedup}
use rust_bitvmx_bitcoin.Storage.Records.Transitions.{txs-push_news}
use rust_bitvmx_bitcoin.Helper.{context}
use rust_bitvmx_bitcoin.Outside.{cancelled, transactions}
use rust_bitvmx_bitcoin.World.{World}
use rust_bitvmx_bitcoin.World.Rules.{Result-cases, for_each-modify, write_all}
use rust_bitvmx_bitcoin.Engine.Common.{EngineContext}
use rust_bitvmx_bitcoin.Coordinator.{
  cancel_eligible, cancel_transactions, classify_cancel_request, split_cancel,
}

-- A transaction that a cancel request may remove: not a speedup, and not dispatched yet.
abbrev pub is_cancellable : CoordinatedTx → Bool
is_cancellable tx = not (is_speedup tx) && tx.state == to_dispatch

abbrev holds : Option CoordinatedTx → Bool
holds none = false
holds (some tx) = is_cancellable tx

-- The eligible txids are those asked for whose record may be cancelled; only news is stored.
classify_lem :
    (id : Txid) (db : Db)
    → (classify_cancel_request id db ≡ none → holds (lookup id db.txs) ≡ true)
      × ((reason : CancelReason)
          → classify_cancel_request id db ≡ some reason
          → holds (lookup id db.txs) ≡ false)
unfolding classify_cancel_request
classify_lem id db = elim (Option-cases (lookup id db.txs)) [
  | inl e ↦ rw (e, classify_cancel_request) ((λ h. cc), (λ r h. refl))
  | inr (tx, e) ↦ rw (e, classify_cancel_request) ((λ h. ground arith), (λ r h. ground arith))
]

split_txs : (ids : List Txid) (db : Db) → (split_cancel ids db).1.txs ≡ db.txs
unfolding split_cancel
split_txs [] db = refl
split_txs (id ∷ ids) db = elim (Option-cases (classify_cancel_request id db)) [
  | inl e ↦ rw (e, split_cancel) (split_txs ids db)
  | inr (reason, e) ↦
      rw (e, split_cancel)
        (split_txs ids (push_news (invalid_cancel id reason) db)
          ∙ txs-push_news (invalid_cancel id reason) db)
]

split_eligible :
    (ids : List Txid) (db : Db)
    → (split_cancel ids db).0 ≡ filter (λ id. holds (lookup id db.txs)) ids
unfolding split_cancel
split_eligible [] db = refl
split_eligible (id ∷ ids) db = elim (Option-cases (classify_cancel_request id db)) [
  | inl e ↦
      rw (e, split_cancel, (classify_lem id db).0 e) (ap (λ l. id ∷ l) (split_eligible ids db))
  | inr (reason, e) ↦
      rw (e, split_cancel, (classify_lem id db).1 reason e)
        (split_eligible ids (push_news (invalid_cancel id reason) db)
          ∙ rw (txs-push_news (invalid_cancel id reason) db) refl)
]

unlist_txs :
    (ids : List Txid) (db : Db) → (write_all remove_pending_speedup_parent ids db).txs ≡ db.txs
unfolding remove_pending_speedup_parent
unlist_txs [] db = refl
unlist_txs (id ∷ ids) db = unlist_txs ids (remove_pending_speedup_parent id db)

remove_all_txs :
    (ids : List Txid) (db : Db) (k : Txid)
    → lookup k (write_all remove_tx ids db).txs ≡ (if contains ids k then none else lookup k db.txs)
unfolding remove_tx
remove_all_txs [] db k = refl
remove_all_txs (id ∷ ids) db k =
    remove_all_txs ids (remove_tx id db) k ∙ ground (arith, lookup-delete id k db.txs)

-- What is left of a record.
abbrev pub after_cancel : List Txid → Txid → Option CoordinatedTx → Option CoordinatedTx
after_cancel ids k none = none
after_cancel ids k (some tx) = if contains ids k && is_cancellable tx then none else some tx

contains-eligible :
    (p : Txid → Bool) (k : Txid) (l : List Txid) → contains (filter p l) k ≡ (contains l k && p k)
contains-eligible p k [] = refl
contains-eligible p k (x ∷ l) = ground (arith, contains-eligible p k l, nat_eqb_iff x k)

left_over :
    (ids : List Txid) (k : Txid) (o : Option CoordinatedTx)
    → (if contains ids k && holds o then none else o) ≡ after_cancel ids k o
left_over ids k none = ground arith
left_over ids k (some tx) = ground arith

eligible_left :
    (ids : List Txid) (db : Db) (k : Txid)
    → lookup k
        (write_all remove_tx (split_cancel ids db).0 (
          write_all remove_pending_speedup_parent
            (split_cancel ids db).0
            (split_cancel ids db).1)).txs
      ≡ after_cancel ids k (lookup k db.txs)
eligible_left ids db k =
    remove_all_txs (split_cancel ids db).0
      (write_all remove_pending_speedup_parent (split_cancel ids db).0 (split_cancel ids db).1) k
    ∙ rw
        (
          unlist_txs (split_cancel ids db).0 (split_cancel ids db).1,
          split_txs ids db,
          split_eligible ids db,
          contains-eligible (λ id. holds (lookup id db.txs)) k ids,
        )
        (left_over ids k (lookup k db.txs))

module _ (ctx : EngineContext) where
  open ctx use {outside as o}

  -- What a run gives when it returns, and when it fails.
  abbrev Ends : List Txid → World → Result (Unit {0}) × World → Type 0
  Ends el w r =
      (r.0 ≡ ok tt
        → (r.1).db.txs
          ≡ (write_all remove_tx el (write_all remove_pending_speedup_parent el w.db)).txs)
      × ((e : Error) → r.0 ≡ err e → (r.1).db.txs ≡ w.db.txs)

  ran :
      (x : Txid) (xs : List Txid) (context : String) (trigger : Option ℕ) (w : World) (u : Unit {0})
      → o.cancel w.log (transactions (x ∷ xs) context trigger) ≡ ok u
      → cancel_eligible ctx (x ∷ xs) context trigger w ≡ (
        ok tt,
        record w {
          db = write_all remove_tx (x ∷ xs) (write_all remove_pending_speedup_parent (x ∷ xs) w.db);
          log = cancelled (transactions (x ∷ xs) context trigger) ∷ w.log;
        },
      )
  ran x xs context trigger w u fine =
      let unlisted = write_all remove_pending_speedup_parent (x ∷ xs) w.db in
      rw
        (
          for_each-modify remove_pending_speedup_parent xs
              (record w { db = remove_pending_speedup_parent x w.db }),
          fine,
          for_each-modify remove_tx xs (record w {
            db = remove_tx x unlisted;
            log = cancelled (transactions (x ∷ xs) context trigger) ∷ w.log;
          }),
        )
        refl

  failed_run :
      (x : Txid) (xs : List Txid) (context : String) (trigger : Option ℕ) (w : World) (e : Error)
      → o.cancel w.log (transactions (x ∷ xs) context trigger) ≡ err e
      → cancel_eligible ctx (x ∷ xs) context trigger w ≡ (
        err e,
        record w {
          db = write_all remove_pending_speedup_parent (x ∷ xs) w.db;
          log = cancelled (transactions (x ∷ xs) context trigger) ∷ w.log;
        },
      )
  failed_run x xs context trigger w e bad =
      rw
        (
          for_each-modify remove_pending_speedup_parent xs
              (record w { db = remove_pending_speedup_parent x w.db }),
          bad,
        )
        refl

  eligible_Ends :
      (el : List Txid) (context : String) (trigger : Option ℕ) (w : World)
      → Ends el w (cancel_eligible ctx el context trigger w)
  eligible_Ends [] context trigger w = ((λ h. refl), (λ e h. cc))
  eligible_Ends (x ∷ xs) context trigger w =
      elim (Result-cases (o.cancel w.log (transactions (x ∷ xs) context trigger))) [
        | inl (u, fine) ↦
            subst (Ends (x ∷ xs) w) (sym (ran x xs context trigger w u fine))
              ((λ h. refl), (λ e h. cc))
        | inr (e, bad) ↦
            subst (Ends (x ∷ xs) w) (sym (failed_run x xs context trigger w e bad))
              ((λ h. cc), (λ e' h. unlist_txs (x ∷ xs) w.db))
      ]

  -- A cancel request that returns normally has removed exactly the records it names that are not
  -- speedups and wait for dispatch, and kept every other record as it was; one that fails, because
  -- the monitor's cancel fails, has removed no record.
  pub cancel_exact :
      (ids : List Txid) (context : String) (trigger : Option ℕ) (w : World)
      → let r = cancel_transactions ctx ids context trigger w in
        (r.0 ≡ ok tt → (k : Txid) → lookup k (r.1).db.txs ≡ after_cancel ids k (lookup k w.db.txs))
        × ((e : Error) → r.0 ≡ err e → (r.1).db.txs ≡ w.db.txs)
  unfolding cancel_transactions
  cancel_exact ids context trigger w =
      let el = (split_cancel ids w.db).0 in
      let w' : World = record w { db = (split_cancel ids w.db).1 } in
      let ends = eligible_Ends el context trigger w' in
      (λ h k. rw (ends.0 h) (eligible_left ids w.db k), λ e h. ends.1 e h ∙ split_txs ids w.db)
