-- ===== src/Storage/Records/Transitions.antt =====
-- The guarded operations of src/core/storage.rs keep every record on the lifecycle.
use rust_bitvmx_bitcoin.Common.{
  Bool-cases, List, Option, Option-cases, [], arith, if◌then◌else◌, inl, inr, is_some, none, not,
  refl, some, nat_eqb_iff, sym, ◌&&◌, ◌==◌, ◌∙◌, ◌∷◌, ◌≡◌, ◌⊎◌, nat_eq, string_eq,
}
use rust_bitvmx_bitcoin.Common.Maps.{lookup, lookup-insert}
use rust_bitvmx_bitcoin.Types.{
  BlockHeight, CoordinatedTx, CoordinatorNews, TransactionState, Txid, failed, finalized,
  invalid_state_transition, to_dispatch, tx_not_found, state_eq, outpoint_eq, news_eq,
}
use rust_bitvmx_bitcoin.Storage.Db.{Db, is_terminal}
use rust_bitvmx_bitcoin.Storage.News.{add_news, push_news}
use rust_bitvmx_bitcoin.Storage.Records.{
  guarded, mark_as_retry, moved, requeue_not_found, settle_tx, update_tx_state,
  update_tx_state_impl,
}
use rust_bitvmx_bitcoin.Helper.{can_transition_to}
use rust_bitvmx_bitcoin.Helper.Lifecycle.{Step, can_transition-Step}

-- A call of one of the guarded operations.
pub data Move : Type 0 where
  update : Txid → TransactionState → Move
  settle : Txid → TransactionState → BlockHeight → Move
  requeue : Txid → BlockHeight → Move
  retry : Txid → Move

abbrev pub run : Move → Db → Db
run (update t s) db = (update_tx_state t s db).1
run (settle t s h) db = (settle_tx t s h db).1
run (requeue t h) db = requeue_not_found t h db
run (retry t) db = mark_as_retry t db

abbrev pub run_all : List Move → Db → Db
run_all [] db = db
run_all (m ∷ ms) db = run_all ms (run m db)

pub txs-push_news : (n : CoordinatorNews) (db : Db) → (push_news n db).txs ≡ db.txs
unfolding add_news
txs-push_news n db = ground arith

-- Each record is stored under its own txid.
abbrev pub IsKeyed : List (Txid × CoordinatedTx) → Type 0
IsKeyed m = (k : Txid) (t : CoordinatedTx) → lookup k m ≡ some t → t.txid ≡ k

-- The txid that a call is about, and the state that it asks for.
abbrev pub target : Move → Txid
target (update t s) = t
target (settle t s h) = t
target (requeue t h) = t
target (retry t) = t

abbrev pub asked : Move → TransactionState
asked (update t s) = s
asked (settle t s h) = s
asked (requeue t h) = to_dispatch
asked (retry t) = to_dispatch

-- A call leaves a record as it was, or it is about that record and takes it to the state asked for,
-- along one arrow of the lifecycle diagram or from that very state.
abbrev pub Evolves : Move → Txid → Option CoordinatedTx → Option CoordinatedTx → Type 0
Evolves m k none none = Unit {0}
Evolves m k none (some t') = ⊥
Evolves m k (some t) none = ⊥
Evolves m k (some t) (some t') =
    (t' ≡ t) ⊎ ((target m ≡ k) × (t'.txid ≡ t.txid) × (t'.state ≡ asked m) × Step t.state t'.state)

Evolves-refl : (m : Move) (k : Txid) (o : Option CoordinatedTx) → Evolves m k o o
Evolves-refl m k none = tt
Evolves-refl m k (some t) = inl refl

module _ (tx_id : Txid) (s : TransactionState) (change : CoordinatedTx → CoordinatedTx) where
  -- A record whose state may move to `s` is changed, and any other is left.
  abbrev pub change_if : CoordinatedTx → CoordinatedTx
  change_if t = if can_transition_to t.state s then change t else t

  abbrev pub change_at : Txid → Option CoordinatedTx → Option CoordinatedTx
  change_at k none = none
  change_at k (some t) = some (if tx_id == k then change_if t else t)

  module _ (keeps : (t : CoordinatedTx) → (change t).txid ≡ t.txid) where
    pub lookup-guarded :
        (db : Db) (k : Txid)
        → IsKeyed db.txs
        → lookup k (guarded tx_id s change db).txs ≡ change_at k (lookup k db.txs)
    unfolding guarded
    lookup-guarded db k keyed = elim (Option-cases (lookup tx_id db.txs)) [
      | inl e ↦ rw (e, guarded, txs-push_news (tx_not_found tx_id) db) (ground arith)
      | inr (t, e) ↦
          rw (e, guarded)
            (ground (
              arith,
              keyed tx_id t,
              keeps t,
              lookup-insert (change t).txid k (change t) db.txs,
              txs-push_news (invalid_state_transition tx_id t.state s) db,
            ))
    ]

  change_at-keyed :
      ((t : CoordinatedTx) → (change t).txid ≡ t.txid)
      → (k : Txid) (o : Option CoordinatedTx) {t' : CoordinatedTx}
      → ((t : CoordinatedTx) → o ≡ some t → t.txid ≡ k)
      → change_at k o ≡ some t'
      → t'.txid ≡ k
  change_at-keyed keeps k none old h = cc
  change_at-keyed keeps k (some t) old h = ground (arith, keeps t, old t)

-- What holds of one call for all txids.
abbrev Keeps : Move → Db → Db → Type 0
Keeps m db db' = IsKeyed db'.txs × ((k : Txid) → Evolves m k (lookup k db.txs) (lookup k db'.txs))

Keeps-refl : (m : Move) (db : Db) → IsKeyed db.txs → Keeps m db db
Keeps-refl m db keyed = (keyed, λ k. Evolves-refl m k (lookup k db.txs))

-- A call that changes the record it is about as asked, where the lifecycle lets it.
module _ (m : Move) (change : CoordinatedTx → CoordinatedTx) where
  abbrev Changes : Type 0
  Changes = (t : CoordinatedTx) → ((change t).txid ≡ t.txid) × ((change t).state ≡ asked m)

  change_at-Evolves :
      Changes
      → (k : Txid) (o : Option CoordinatedTx)
      → Evolves m k o (change_at (target m) (asked m) change k o)
  change_at-Evolves shape k none = tt
  change_at-Evolves shape k (some t) = elim (Bool-cases (target m == k)) [
    | inr other ↦ rw other (inl refl)
    | inl same ↦ elim (Bool-cases (can_transition_to t.state (asked m))) [
      | inr refused ↦ rw (same, refused) (inl refl)
      | inl may ↦
          (let step : Step t.state (change t).state =
              rw (shape t).1 (can_transition-Step t.state (asked m) may) in
            rw (same, may)
              (inr ((nat_eqb_iff (target m) k).0 same, (shape t).0, (shape t).1, step)))
    ]
  ]

  guarded-Keeps :
      Changes → (db : Db) → IsKeyed db.txs → Keeps m db (guarded (target m) (asked m) change db)
  guarded-Keeps shape db keyed = (
    λ k t h.
        change_at-keyed (target m) (asked m) change (λ t. (shape t).0) k (lookup k db.txs) (keyed k)
          (sym (lookup-guarded (target m) (asked m) change (λ t. (shape t).0) db k keyed) ∙ h),
    λ k.
        rw (lookup-guarded (target m) (asked m) change (λ t. (shape t).0) db k keyed)
          (change_at-Evolves shape k (lookup k db.txs)),
  )

impl-Keeps :
    (t : Txid) (s : TransactionState) (h : Option BlockHeight) (db : Db)
    → IsKeyed db.txs
    → Keeps (update t s) db (update_tx_state_impl t s h db).1
unfolding update_tx_state_impl
impl-Keeps t s h db keyed = elim (Bool-cases (is_terminal s && not (is_some h))) [
  | inl wrong ↦ rw (wrong, update_tx_state_impl) (Keeps-refl (update t s) db keyed)
  | inr fine ↦
      rw (fine, update_tx_state_impl)
        (guarded-Keeps (update t s) (moved s h) (λ tx. (refl, refl)) db keyed)
]

settle-Keeps :
    (t : Txid) (s : TransactionState) (h : BlockHeight) (db : Db)
    → IsKeyed db.txs
    → Keeps (settle t s h) db (settle_tx t s h db).1
unfolding settle_tx
settle-Keeps t finalized h db keyed =
    guarded-Keeps (settle t finalized h) (moved finalized (some h)) (λ tx. (refl, refl)) db keyed
settle-Keeps t failed h db keyed =
    guarded-Keeps (settle t failed h) (moved failed (some h)) (λ tx. (refl, refl)) db keyed
settle-Keeps t s h db keyed = Keeps-refl (settle t s h) db keyed

run-Keeps : (m : Move) (db : Db) → IsKeyed db.txs → Keeps m db (run m db)
unfolding update_tx_state requeue_not_found mark_as_retry
run-Keeps (update t s) db keyed = impl-Keeps t s none db keyed
run-Keeps (settle t s h) db keyed = settle-Keeps t s h db keyed
run-Keeps (requeue t h) db keyed = guarded-Keeps (requeue t h) _ (λ tx. (refl, refl)) db keyed
run-Keeps (retry t) db keyed = guarded-Keeps (retry t) _ (λ tx. (refl, refl)) db keyed

run_all-IsKeyed : (ms : List Move) (db : Db) → IsKeyed db.txs → IsKeyed (run_all ms db).txs
run_all-IsKeyed [] db keyed = keyed
run_all-IsKeyed (m ∷ ms) db keyed = run_all-IsKeyed ms (run m db) (run-Keeps m db keyed).0

-- After any sequence of calls of `update_tx_state`, `settle_tx`, `requeue_not_found` and
-- `mark_as_retry`, with whatever arguments, on a store whose records stand under their own txids,
-- the next such call makes no record appear or go and leaves every record as it was, but for the one
-- that it is about: that one keeps its txid and either stays as it was or is in the state asked for,
-- which its old state equals or has an arrow to in the lifecycle diagram.
pub moves_follow_lifecycle :
    (before : List Move) (m : Move) (db : Db)
    → IsKeyed db.txs
    → (k : Txid)
    → let now = run_all before db in Evolves m k (lookup k now.txs) (lookup k (run m now).txs)
moves_follow_lifecycle before m db keyed =
    (run-Keeps m (run_all before db) (run_all-IsKeyed before db keyed)).1
