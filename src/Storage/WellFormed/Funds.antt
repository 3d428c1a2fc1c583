-- ===== src/Storage/WellFormed/Funds.antt =====
-- The pending parents, the funding queue and the marks of replaced speedups: what is written there
-- keeps the state well formed, and puts no txid on the list of speedups.
use rust_bitvmx_bitcoin.Common.{
  Bool, Bool-cases, IsUnique, List, Option, Option-cases, [], arith, contains, contains-remove_all,
  false, find, inl, inr, ltb, map, none, push_new-IsUnique, refl, remove_all, remove_all-IsUnique,
  reverse, some, true, ℕ, ◌∷◌, ◌≡◌, nat_eq, string_eq,
}
use rust_bitvmx_bitcoin.Types.{
  CoordinatedTx, OutPoint, Result, SpeedupContext, SpeedupKind, TxKind, Txid, Utxo, cpfp, err,
  needs_speedup, normal, ok, outpoint, panicked, rbf, speedup, state_eq, outpoint_eq, news_eq,
}
use rust_bitvmx_bitcoin.Config.{FundingSettings}
use rust_bitvmx_bitcoin.Storage.Db.{Db, get_tx_by_id, update_tx}
use rust_bitvmx_bitcoin.Storage.Pending.{
  add_pending_speedup_parent, cpfp_parents, get_pending_speedup_parents,
  prepend_pending_speedup_parents, remove_pending_speedup_parent, requeue_protocol_parents,
}
use rust_bitvmx_bitcoin.Storage.Pending.Queue.{
  IsUnique-filter, fresh-IsUnique, get_pending_speedup_parents_exact, pending_unique,
}
use rust_bitvmx_bitcoin.Storage.Speedups.{remove_speedup_from_list}
use rust_bitvmx_bitcoin.Storage.Funding.{
  append_funding, finalize_change, get_funding_record, is_speedup, matching, put_funding_record,
  read_funding_records, replace_funding_on_finalize, set_spent,
}
use rust_bitvmx_bitcoin.Helper.{context, context_mut, speedup_change_utxo, speedup_kind}
use rust_bitvmx_bitcoin.Funding.{
  chain_tip, get_combine_funding, get_funding, is_unspent, is_unspent_user, mark_parents_unspent,
  queue_funding, release_marks, replace_on_finalize, set_funding,
}
use rust_bitvmx_bitcoin.Funding.Sound.{append-IsSound, finalize-IsSound, set_spent-IsSound}
use rust_bitvmx_bitcoin.World.Rules.{Result-cases}
use rust_bitvmx_bitcoin.Engine.Failure.{
  mark_replaced, rbf_of, release_rbf, restore_replaced, set_replaced_by,
}
use rust_bitvmx_bitcoin.Storage.WellFormed.{funding-IsWellFormed, pending-IsWellFormed}
use rust_bitvmx_bitcoin.Storage.WellFormed.Operations.{
  Frame, Within, revise-Within, set_kind_spent-kind,
}

-- What a write through `context_mut` keeps.
context_mut-kind :
    (t : CoordinatedTx) (k : SpeedupKind) (c : SpeedupContext)
    → t.kind ≡ speedup k
    → (cpfp_parents (record t { kind = speedup (context_mut c k) }) ≡ cpfp_parents t)
      × (is_speedup (record t { kind = speedup (context_mut c k) }) ≡ is_speedup t)
context_mut-kind t (cpfp ps _) c e = rw e (refl, refl)
context_mut-kind t (rbf r i _) c e = rw e (refl, refl)

kind_of : (t : CoordinatedTx) (k : SpeedupKind) → speedup_kind t ≡ ok k → t.kind ≡ speedup k
kind_of t k e = by_kind t.kind refl
  where
    by_kind : (x : TxKind) → t.kind ≡ x → t.kind ≡ speedup k
    by_kind normal f = ground arith
    by_kind (needs_speedup d) f = ground arith
    by_kind (speedup j) f = ground arith

module _ (L : Frame) where
  pub set_spent-Within :
      (op : OutPoint) (b : Bool) (db : Db) → Within L db → Within L (set_spent op b db)
  unfolding set_spent put_funding_record
  set_spent-Within op b db (wf, sub) = elim (Option-cases (get_funding_record op db)) [
    | inr (rec, e) ↦
        (let sound = rw (e, set_spent) at (set_spent-IsSound op b db wf.funding_sound) in
          rw (e, set_spent)
            (funding-IsWellFormed _ _ db.speedup_list db sound wf.listed_once (λ k c. c) wf, sub))
    | inl e ↦ elim (Option-cases (get_tx_by_id op.txid db)) [
      | inl absent ↦ rw (e, set_spent, absent) (wf, sub)
      | inr (tx, found) ↦ elim (Bool-cases (is_speedup tx)) [
        | inl paid ↦
            rw (e, set_spent, found, paid)
              (revise-Within L op.txid tx _ db found refl (set_kind_spent-kind b tx).0
                (set_kind_spent-kind b tx).1 (wf, sub))
        | inr plain ↦ rw (e, set_spent, found, plain) (wf, sub)
      ]
    ]
  ]

  pub release_marks-Within :
      (us : List Utxo) (db : Db) → Within L db → Within L (release_marks us db)
  unfolding release_marks
  release_marks-Within [] db h = h
  release_marks-Within (u ∷ us) db h =
      release_marks-Within us (set_spent (outpoint u) false db)
        (set_spent-Within (outpoint u) false db h)

  pub mark_parents_unspent-Within :
      (tx : CoordinatedTx) (db : Db) → Within L db → Within L (mark_parents_unspent tx db).1
  unfolding mark_parents_unspent
  mark_parents_unspent-Within tx db h = elim (Result-cases (speedup_kind tx)) [
    | inl (k, e) ↦
        rw (e, mark_parents_unspent) (release_marks-Within (context k).funding_inputs db h)
    | inr (x, e) ↦ rw (e, mark_parents_unspent) h
  ]

  replaced-Within :
      (id : Txid) (t : CoordinatedTx) (k : SpeedupKind) (v : Option Txid) (db : Db)
      → get_tx_by_id id db ≡ some t
      → speedup_kind t ≡ ok k
      → Within L db
      → Within L (update_tx (record t { kind = set_replaced_by v k }) db)
  replaced-Within id t k v db found e h =
      let same = context_mut-kind t k (record (context k) { replaced_by = v }) (kind_of t k e) in
      revise-Within L id t _ db found refl same.0 same.1 h

  pub mark_replaced-Within :
      (txid : Txid) (tx : CoordinatedTx) (db : Db)
      → Within L db
      → Within L (mark_replaced txid tx db).1
  unfolding mark_replaced
  mark_replaced-Within txid tx db h = elim (Option-cases (rbf_of tx.kind)) [
    | inl e ↦ rw (e, mark_replaced) h
    | inr (r, e) ↦ elim (Option-cases (get_tx_by_id r.0 db)) [
      | inl absent ↦ rw (e, mark_replaced, absent) h
      | inr (t, found) ↦ elim (Result-cases (speedup_kind t)) [
        | inl (k, f) ↦
            rw (e, mark_replaced, found, f) (replaced-Within r.0 t k (some txid) db found f h)
        | inr (x, f) ↦ rw (e, mark_replaced, found, f) h
      ]
    ]
  ]

  pub restore_replaced-Within :
      (id : Txid) (db : Db) → Within L db → Within L (restore_replaced id db)
  unfolding restore_replaced
  restore_replaced-Within id db h = elim (Option-cases (get_tx_by_id id db)) [
    | inl absent ↦ rw (absent, restore_replaced) h
    | inr (t, found) ↦ elim (Result-cases (speedup_kind t)) [
      | inl (k, f) ↦ rw (found, restore_replaced, f) (replaced-Within id t k none db found f h)
      | inr (x, f) ↦ rw (found, restore_replaced, f) h
    ]
  ]

  pub release_rbf-Within :
      (tx : CoordinatedTx) (db : Db) → Within L db → Within L (release_rbf tx db)
  unfolding release_rbf
  release_rbf-Within tx db h = elim (Option-cases (rbf_of tx.kind)) [
    | inl e ↦ rw (e, release_rbf) h
    | inr (r, e) ↦
        rw (e, release_rbf)
          (restore_replaced-Within r.0 (release_marks r.1 db) (release_marks-Within r.1 db h))
  ]

  pub requeue-Within :
      (tx : CoordinatedTx) (db : Db)
      → IsUnique (cpfp_parents tx)
      → Within L db
      → Within L (requeue_protocol_parents tx db)
  unfolding requeue_protocol_parents prepend_pending_speedup_parents
  requeue-Within tx db once (wf, sub) =
      (pending-IsWellFormed _ db (pending_unique 0 [] tx db wf.pending_once tt once).3 wf, sub)

  pub prepend-Within :
      (ids : List Txid) (db : Db)
      → IsUnique ids
      → Within L db
      → Within L (prepend_pending_speedup_parents ids db)
  unfolding prepend_pending_speedup_parents
  prepend-Within ids db once (wf, sub) = (
    pending-IsWellFormed _ db (fresh-IsUnique db.pending_speedup_parents ids wf.pending_once once)
        wf,
    sub,
  )

  pub remove_pending-Within :
      (id : Txid) (db : Db) → Within L db → Within L (remove_pending_speedup_parent id db)
  unfolding remove_pending_speedup_parent
  remove_pending-Within id db (wf, sub) = (
    pending-IsWellFormed _ db (remove_all-IsUnique id db.pending_speedup_parents wf.pending_once)
        wf,
    sub,
  )

  pub add_pending-Within :
      (id : Txid) (db : Db) → Within L db → Within L (add_pending_speedup_parent id db)
  unfolding add_pending_speedup_parent
  add_pending-Within id db (wf, sub) = (
    pending-IsWellFormed _ db (push_new-IsUnique db.pending_speedup_parents id wf.pending_once) wf,
    sub,
  )

  pub scan-Within : (db : Db) → Within L db → Within L (get_pending_speedup_parents db).1
  scan-Within db (wf, sub) = rw (get_pending_speedup_parents_exact db) (
    pending-IsWellFormed _ db (IsUnique-filter _ db.pending_speedup_parents wf.pending_once) wf,
    sub,
  )

  append-Within : (utxo : Utxo) (db : Db) → Within L db → Within L (append_funding utxo db)
  unfolding append_funding
  append-Within utxo db (wf, sub) = (
    funding-IsWellFormed _ _ db.speedup_list db (append-IsSound utxo db wf.funding_sound)
        wf.listed_once (λ k c. c) wf,
    sub,
  )

  pub set_funding-Within :
      (s : FundingSettings) (utxo : Utxo) (db : Db)
      → Within L db
      → Within L (set_funding s utxo db).1
  unfolding set_funding
  set_funding-Within s utxo db h = elim (Bool-cases (ltb utxo.amount s.min_funding_amount_sats)) [
    | inl small ↦ rw (small, set_funding) h
    | inr large ↦ rw (large, set_funding) (append-Within utxo db h)
  ]

  queue-Within : (db : Db) → Within L db → Within L (queue_funding db).1
  unfolding queue_funding
  queue-Within db h = elim (Option-cases (find is_unspent (read_funding_records db))) [
    | inl e ↦ rw (e, queue_funding) h
    | inr (rec, e) ↦ rw (e, queue_funding) (set_spent-Within (outpoint rec.utxo) true db h)
  ]

  pub combine-Within : (db : Db) → Within L db → Within L (get_combine_funding db).1
  unfolding get_combine_funding
  combine-Within db h = elim (Option-cases (find is_unspent_user (read_funding_records db))) [
    | inl e ↦ rw (e, get_combine_funding) h
    | inr (rec, e) ↦ rw (e, get_combine_funding) (set_spent-Within (outpoint rec.utxo) true db h)
  ]

  pub get_funding-Within :
      (speedups : List CoordinatedTx) (db : Db) → Within L db → Within L (get_funding speedups db).1
  unfolding get_funding
  get_funding-Within speedups db h = elim (Result-cases (chain_tip speedups (reverse speedups))) [
    | inr (x, e) ↦ rw (e, get_funding) h
    | inl (o, e) ↦ found o e
  ]
    where
      found :
          (o : Option Utxo)
          → chain_tip speedups (reverse speedups) ≡ ok o
          → Within L (get_funding speedups db).1
      found none e = rw (e, get_funding) (queue-Within db h)
      found (some utxo) e = rw (e, get_funding) (set_spent-Within (outpoint utxo) true db h)

  finalize-Within :
      (tx : CoordinatedTx) (ctx : SpeedupContext) (change : Utxo) (db : Db)
      → Within L db
      → Within L (finalize_change tx ctx change db)
  unfolding put_funding_record remove_speedup_from_list
  finalize-Within tx ctx change db (wf, sub) =
      by_positions (matching (map outpoint ctx.funding_inputs) 0 db.funding_list) refl
    where
      fewer :
          (k : Txid)
          → contains (remove_all tx.txid db.speedup_list) k ≡ true
          → contains db.speedup_list k ≡ true
      fewer k c = ground (arith, contains-remove_all tx.txid k db.speedup_list)

      by_positions :
          (idxs : List ℕ)
          → matching (map outpoint ctx.funding_inputs) 0 db.funding_list ≡ idxs
          → Within L (finalize_change tx ctx change db)
      by_positions [] e = rw (e, finalize_change) (wf, sub)
      by_positions (pos ∷ idxs) e =
          let sound =
            rw (e, finalize_change) at (finalize-IsSound tx ctx change db wf.funding_sound) in
          rw (e, finalize_change)
            (
              funding-IsWellFormed _ _ _ db sound
                  (remove_all-IsUnique tx.txid db.speedup_list wf.listed_once) fewer wf,
              record { in_list = λ k c. sub.in_list k (fewer k c); in_news = sub.in_news },
            )

  pub replace-Within :
      (txid : Txid) (db : Db) → Within L db → Within L (replace_on_finalize txid db).1
  unfolding replace_funding_on_finalize
  replace-Within txid db h = elim (Option-cases (get_tx_by_id txid db)) [
    | inl e ↦ rw (e, replace_funding_on_finalize) h
    | inr (tx, e) ↦ by_change tx e (speedup_change_utxo tx) refl
  ]
    where
      by_change :
          (tx : CoordinatedTx)
          → get_tx_by_id txid db ≡ some tx
          → (c : Result Utxo) → speedup_change_utxo tx ≡ c
          → Within L (replace_on_finalize txid db).1
      by_change tx e (err panicked) f = rw (e, replace_funding_on_finalize, f) h
      by_change tx e (err _) f = rw (e, replace_funding_on_finalize, f) h
      by_change tx e (ok change) f = elim (Result-cases (speedup_kind tx)) [
        | inl (k, g) ↦
            rw (e, replace_funding_on_finalize, f, g) (finalize-Within tx (context k) change db h)
        | inr (x, g) ↦ rw (e, replace_funding_on_finalize, f, g) h
      ]
