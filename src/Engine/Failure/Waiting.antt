-- ===== src/Engine/Failure/Waiting.antt =====
-- The listed speedups that wait for dispatch, counted: what bounds the depth of `fail_and_cascade` of
-- src/engines/common.rs.
use rust_bitvmx_bitcoin.Common.{
  All, Bool-cases, List, Option-cases, [], arith, contains, false, filter, if◌then◌else◌, inl, inr,
  length, nat_eqb_iff, not, refl, some, subst, suc, true, ℕ, ◌&&◌, ◌<◌, ◌==◌, ◌∷◌, ◌≡◌, ◌≤◌, nat_eq,
  string_eq,
}
use rust_bitvmx_bitcoin.Common.Maps.{lookup}
use rust_bitvmx_bitcoin.Types.{CoordinatedTx, Txid, state_eq, outpoint_eq, news_eq}
use rust_bitvmx_bitcoin.Storage.Db.{Db}
use rust_bitvmx_bitcoin.Storage.Speedups.{resolve}
use rust_bitvmx_bitcoin.Storage.Records.Transitions.{IsKeyed}
use rust_bitvmx_bitcoin.Engine.Failure.{is_to_dispatch}
use rust_bitvmx_bitcoin.Engine.Failure.Shrink.{Shrinks}
use rust_bitvmx_bitcoin.Engine.Failure.Settle.{calm_waits, waits}

-- How many listed speedups wait for dispatch, and how many of them are not `id`.
abbrev pub waiting : Db → List Txid → ℕ
waiting db [] = 0
waiting db (k ∷ ks) = let rest = waiting db ks in if waits (lookup k db.txs) then suc rest else rest

abbrev pub others : Txid → Db → List Txid → ℕ
others id db [] = 0
others id db (k ∷ ks) =
    let rest = others id db ks in
    if not (k == id) && waits (lookup k db.txs) then suc rest else rest

pub length-waiting :
    (db : Db) (l : List Txid) → length (filter is_to_dispatch (resolve db l)) ≡ waiting db l
length-waiting db [] = refl
length-waiting db (k ∷ l) = elim (Option-cases (lookup k db.txs)) [
  | inl e ↦ rw (e, resolve) (length-waiting db l)
  | inr (t, e) ↦ rw (e, resolve) (ground (arith, length-waiting db l))
]

pub waits-Shrinks :
    (db db' : Db)
    → Shrinks db db'
    → (k : Txid) → waits (lookup k db.txs) ≡ false
    → waits (lookup k db'.txs) ≡ false
waits-Shrinks db db' f k e = calm_waits (lookup k db.txs) (lookup k db'.txs) (f.1 k) e

pub others-Shrinks :
    (id : Txid) (db db' : Db) (l : List Txid) → Shrinks db db' → others id db' l ≤ others id db l
others-Shrinks id db db' [] f = omega arith
others-Shrinks id db db' (k ∷ l) f =
    ground (arith, others-Shrinks id db db' l f, waits-Shrinks db db' f k)

pub waiting-others :
    (id : Txid) (db : Db) (l : List Txid)
    → waits (lookup id db.txs) ≡ false
    → waiting db l ≤ others id db l
waiting-others id db [] e = omega arith
waiting-others id db (k ∷ l) e = elim (Bool-cases (k == id)) [
  | inl same ↦
      (let eq : id ≡ k = ground (arith, nat_eqb_iff k id) in
        ground (arith, waiting-others id db l e, subst (λ x. waits (lookup x db.txs) ≡ false) eq e))
  | inr other ↦ ground (arith, waiting-others id db l e)
]

pub others-le-waiting : (id : Txid) (db : Db) (l : List Txid) → others id db l ≤ waiting db l
others-le-waiting id db [] = omega arith
others-le-waiting id db (k ∷ l) = ground (arith, others-le-waiting id db l)

others-lt-waiting :
    (id : Txid) (db : Db) (l : List Txid)
    → contains l id ≡ true
    → waits (lookup id db.txs) ≡ true
    → others id db l < waiting db l
others-lt-waiting id db [] c e = cc
others-lt-waiting id db (k ∷ l) c e = elim (Bool-cases (k == id)) [
  | inl same ↦
      (let eq : id ≡ k = ground (arith, nat_eqb_iff k id) in
        ground (arith, others-le-waiting id db l, subst (λ x. waits (lookup x db.txs) ≡ true) eq e))
  | inr other ↦ ground (arith, others-lt-waiting id db l)
]

-- The records of a snapshot that wait, as the loop meets them.
pub waiting_fit :
    (n : ℕ) (db : Db) (ids : List Txid)
    → IsKeyed db.txs
    → waiting db db.speedup_list ≤ n
    → All (λ id. contains db.speedup_list id ≡ true) ids
    → All (λ d. others d.txid db db.speedup_list < n) (filter is_to_dispatch (resolve db ids))
waiting_fit n db [] keyed le listed = tt
waiting_fit n db (id ∷ ids) keyed le listed = elim (Option-cases (lookup id db.txs)) [
  | inl e ↦ rw (e, resolve) (waiting_fit n db ids keyed le listed.1)
  | inr (t, e) ↦ elim (Bool-cases (is_to_dispatch t)) [
    | inr off ↦ rw (e, resolve, off) (waiting_fit n db ids keyed le listed.1)
    | inl on ↦
        rw (e, resolve, on)
          (
            rw (keyed id t e) (
                let lt = others-lt-waiting id db db.speedup_list listed.0 (rw e on) in
                omega (arith, lt, le)),
            waiting_fit n db ids keyed le listed.1,
          )
  ]
]

abbrev pub snapshot : Db → List CoordinatedTx
snapshot db = filter is_to_dispatch (resolve db db.speedup_list)

-- The snapshot of a longer list.
snap_on :
    (db : Db) (k : Txid) (ids : List Txid) (t : CoordinatedTx)
    → lookup k db.txs ≡ some t
    → is_to_dispatch t ≡ true
    → filter is_to_dispatch (resolve db (k ∷ ids)) ≡ t ∷ filter is_to_dispatch (resolve db ids)
snap_on db k ids t e on = rw (e, resolve, on) refl

snap_tail :
    (P : CoordinatedTx → Type 0) (db : Db) (k : Txid) (ids : List Txid)
    → All P (filter is_to_dispatch (resolve db (k ∷ ids)))
    → All P (filter is_to_dispatch (resolve db ids))
snap_tail P db k ids all = elim (Option-cases (lookup k db.txs)) [
  | inl e ↦ subst (All P) (rw (e, resolve) refl) all
  | inr (t, e) ↦ elim (Bool-cases (is_to_dispatch t)) [
    | inl on ↦ (subst (All P) (snap_on db k ids t e on) all).1
    | inr off ↦ subst (All P) (rw (e, resolve, off) refl) all
  ]
]

-- A waiting record that is listed is met by the loop.
pub met :
    (P : CoordinatedTx → Type 0) (db : Db) (ids : List Txid) (id : Txid) (t : CoordinatedTx)
    → All P (filter is_to_dispatch (resolve db ids))
    → contains ids id ≡ true
    → lookup id db.txs ≡ some t
    → is_to_dispatch t ≡ true
    → P t
met P db [] id t all c e on = cc
met P db (k ∷ ids) id t all c e on = elim (Bool-cases (k == id)) [
  | inl same ↦
      (let eq : id ≡ k = ground (arith, nat_eqb_iff k id) in
        (subst (All P) (snap_on db k ids t (subst (λ x. lookup x db.txs ≡ some t) eq e) on) all).0)
  | inr other ↦ met P db ids id t (snap_tail P db k ids all) (ground arith) e on
]
