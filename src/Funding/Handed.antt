-- ===== src/Funding/Handed.antt =====
-- What src/core/funding.rs hands out has been unmarked, and is marked from then on.
use rust_bitvmx_bitcoin.Common.{
  All, Bool, Bool-cases, List, Option, Option-cases, [], ap, append_assoc, arith, contains,
  contains-append, false, find, inl, inr, nat_eqb_iff, none, refl, reverse, reverse_aux, some,
  subst, sym, true, ◌++◌, ◌||◌, ◌∙◌, ◌∷◌, ◌≡◌, nat_eq, string_eq,
}
use rust_bitvmx_bitcoin.Common.Maps.{lookup}
use rust_bitvmx_bitcoin.Types.{
  CoordinatedTx, Error, OutPoint, Result, SpeedupKind, TxKind, Txid, Utxo, err, needs_speedup,
  normal, ok, outpoint, speedup, state_eq, outpoint_eq, news_eq,
}
use rust_bitvmx_bitcoin.Storage.Db.{Db, get_tx_by_id}
use rust_bitvmx_bitcoin.Storage.Records.Transitions.{IsKeyed}
use rust_bitvmx_bitcoin.Storage.Pending.{is_broadcast}
use rust_bitvmx_bitcoin.Storage.Speedups.{get_speedups_ordered, resolve}
use rust_bitvmx_bitcoin.Storage.Funding.{get_funding_record, read_funding_records, set_spent}
use rust_bitvmx_bitcoin.Helper.{context, has_live_replacement, speedup_change_utxo, speedup_kind}
use rust_bitvmx_bitcoin.Funding.{chain_tip, get_funding, is_unspent, queue_funding}
use rust_bitvmx_bitcoin.Funding.Once.{found_rec}
use rust_bitvmx_bitcoin.Funding.Release.{is_marked, is_spent_kind}
use rust_bitvmx_bitcoin.World.Rules.{Result-cases}
use rust_bitvmx_bitcoin.Storage.WellFormed.{IsWellFormed}
use rust_bitvmx_bitcoin.Storage.Stored.{stored-IsKeyed}
use rust_bitvmx_bitcoin.Funding.Marks.{record_marked}

-- No funding record is for an output of a listed speedup.
abbrev pub HasOwnFunding : Db → Type 0
HasOwnFunding db =
    (op : OutPoint) → contains db.speedup_list op.txid ≡ true → get_funding_record op db ≡ none

-- The listed speedups, as the store has them.
abbrev IsListed : Db → CoordinatedTx → Type 0
IsListed db t = (get_tx_by_id t.txid db ≡ some t) × (contains db.speedup_list t.txid ≡ true)

resolve-IsListed :
    (db : Db) (ids : List Txid)
    → IsKeyed db.txs
    → All (λ id. contains db.speedup_list id ≡ true) ids
    → All (IsListed db) (resolve db ids)
resolve-IsListed db [] keyed all = tt
resolve-IsListed db (id ∷ ids) keyed all = elim (Option-cases (get_tx_by_id id db)) [
  | inl e ↦ rw (e, resolve) (resolve-IsListed db ids keyed all.1)
  | inr (t, e) ↦
      (let own = sym (keyed id t e) in
        rw (e, resolve)
          (
            (
              subst (λ k. get_tx_by_id k db ≡ some t) own e,
              subst (λ k. contains db.speedup_list k ≡ true) own all.0,
            ),
            resolve-IsListed db ids keyed all.1,
          ))
]

change-txid : (t : CoordinatedTx) (u : Utxo) → speedup_change_utxo t ≡ ok u → u.txid ≡ t.txid
unfolding speedup_change_utxo
change-txid t u e = ground arith

kind_of : (t : CoordinatedTx) (k : SpeedupKind) → speedup_kind t ≡ ok k → t.kind ≡ speedup k
kind_of t k e = by_kind t.kind refl
  where
    by_kind : (x : TxKind) → t.kind ≡ x → t.kind ≡ speedup k
    by_kind normal f = ground arith
    by_kind (needs_speedup d) f = ground arith
    by_kind (speedup j) f = ground arith

-- The change of a listed speedup that is not spent.
change_free :
    (db : Db) (t : CoordinatedTx) (k : SpeedupKind) (u : Utxo)
    → HasOwnFunding db
    → IsListed db t
    → speedup_kind t ≡ ok k
    → (context k).spent ≡ false
    → speedup_change_utxo t ≡ ok u
    → is_marked (outpoint u) db ≡ false
change_free db t k u own (at, listed) e free change =
    let same = sym (change-txid t u change) in
    let no_record =
      own (outpoint u) (subst (λ id. contains db.speedup_list id ≡ true) same listed) in
    let found = subst (λ id. get_tx_by_id id db ≡ some t) same at in
    rw (no_record, found, is_marked) (ap is_spent_kind (kind_of t k e) ∙ free)

-- What the walk from the newest speedup finds.
tip_free :
    (db : Db) (speedups txs : List CoordinatedTx) (u : Utxo)
    → HasOwnFunding db
    → All (IsListed db) txs
    → chain_tip speedups txs ≡ ok (some u)
    → is_marked (outpoint u) db ≡ false
unfolding chain_tip
tip_free db speedups [] u own all e = absurd (none_ok e)
  where
    none_ok : ok none ≡ ok (some u) → ⊥
    none_ok e = ground arith
tip_free db speedups (t ∷ ts) u own all e =
    let rest = tip_free db speedups ts u own all.1 in
    elim (Bool-cases (is_broadcast t.state)) [
      | inr skip ↦ rest (sym (rw (skip, chain_tip) refl) ∙ e)
      | inl live ↦ elim (Result-cases (speedup_kind t)) [
        | inr (x, f) ↦ absurd (err_ok x (sym (rw (live, f, chain_tip) refl) ∙ e))
        | inl (k, f) ↦ elim (Bool-cases (has_live_replacement t speedups || (context k).spent)) [
          | inl skipped ↦ rest (sym (rw (live, f, skipped, chain_tip) refl) ∙ e)
          | inr free ↦ elim (Result-cases (speedup_change_utxo t)) [
            | inr (x, g) ↦ absurd (err_ok x (sym (rw (live, f, free, g, chain_tip) refl) ∙ e))
            | inl (c, g) ↦
                change_free db t k u own all.0 f (ground arith)
                  (g ∙ ok_some (sym (rw (live, f, free, g, chain_tip) refl) ∙ e))
          ]
        ]
      ]
    ]
  where
    err_ok : (x : Error) → err x ≡ ok (some u) → ⊥
    err_ok x e = ground arith

    ok_some : {c : Utxo} → ok (some c) ≡ ok (some u) → ok c ≡ ok u
    ok_some e = ground arith

All-reverse_aux :
    (P : CoordinatedTx → Type 0) (xs acc : List CoordinatedTx)
    → All P xs
    → All P acc
    → All P (reverse_aux xs acc)
All-reverse_aux P [] acc all done = done
All-reverse_aux P (x ∷ xs) acc all done = All-reverse_aux P xs (x ∷ acc) all.1 (all.0, done)

All-contains : (pre ids : List Txid) → All (λ id. contains (pre ++ ids) id ≡ true) ids
All-contains pre [] = tt
All-contains pre (id ∷ ids) = (
  ground (arith, contains-append pre (id ∷ ids) id, nat_eqb_iff id id),
  subst (λ l. All (λ k. contains l k ≡ true) ids) (append_assoc pre (id ∷ []) ids)
      (All-contains (pre ++ id ∷ []) ids),
)

module _ (db : Db) (u : Utxo) (derives : Bool) (wf : IsWellFormed db) (own : HasOwnFunding db) where
  abbrev Free : Result (Option (Utxo × Bool)) × Db → Type 0
  Free r =
      r.0 ≡ ok (some (u, derives))
      → (is_marked (outpoint u) db ≡ false) × (r.1 ≡ set_spent (outpoint u) true db)

  abbrev given : Utxo → Bool → Result (Option (Utxo × Bool))
  given v b = ok (some (v, b))

  abbrev nothing : Result (Option (Utxo × Bool))
  nothing = ok none

  same_utxo : {v : Utxo} {b : Bool} → given v b ≡ given u derives → v ≡ u
  same_utxo e = ground arith

  no_utxo : nothing ≡ given u derives → ⊥
  no_utxo e = ground arith

  queue-Free : Free (ok (queue_funding db).0, (queue_funding db).1)
  unfolding queue_funding read_funding_records
  queue-Free = elim (Option-cases (find is_unspent (read_funding_records db))) [
    | inl empty ↦ rw (empty, queue_funding) (λ e. absurd (no_utxo e))
    | inr (rec, found) ↦
        rw (found, queue_funding)
          (λ e.
            let same : rec.utxo ≡ u = same_utxo e in
            let ((op, at), passes) = found_rec is_unspent db db.funding_list rec found in
            let key : op ≡ outpoint u = sym (wf.funding_sound.0 op rec at) ∙ ap outpoint same in
            (
              record_marked (outpoint u) db rec (subst (λ k. lookup k db.funding ≡ some rec) key at)
                  ∙ ground arith,
              ap (λ v. set_spent (outpoint v) true db) same,
            ))
  ]

  by_tip :
      (o : Result (Option Utxo))
      → chain_tip (get_speedups_ordered db) (reverse (get_speedups_ordered db)) ≡ o
      → Free (get_funding (get_speedups_ordered db) db)
  unfolding get_funding get_speedups_ordered
  by_tip (err x) e = rw (e, get_funding) (λ f. absurd (err_ok f))
    where
      err_ok : err x ≡ given u derives → ⊥
      err_ok f = ground arith
  by_tip (ok none) e = rw (e, get_funding) queue-Free
  by_tip (ok (some v)) e =
      rw (e, get_funding)
        (λ f.
          let same : v ≡ u = same_utxo f in
          let listed =
            All-reverse_aux (IsListed db) (resolve db db.speedup_list) []
              (resolve-IsListed db db.speedup_list (stored-IsKeyed db.txs wf.stored)
                (All-contains [] db.speedup_list))
              tt in
          (
            tip_free db _ _ u own listed (e ∙ ap (λ x. ok (some x)) same),
            ap (λ x. set_spent (outpoint x) true db) same,
          ))

  -- What `get_funding` hands out was not marked, and is marked in what it leaves.
  pub get_funding-Free : Free (get_funding (get_speedups_ordered db) db)
  get_funding-Free = by_tip _ refl
