-- ===== src/Engine/Failure/Settle.antt =====
-- `settle_failed_dispatch` of src/engines/common.rs as a function of the store, and what it keeps.
use rust_bitvmx_bitcoin.Common.{
  ==_refl, Bool, Bool-cases, Option, Option-cases, arith, false, if◌then◌else◌, inl, inr, none,
  refl, some, true, ◌≡◌, nat_eq, string_eq,
}
use rust_bitvmx_bitcoin.Common.Maps.{lookup}
use rust_bitvmx_bitcoin.Types.{
  BlockHeight, CoordinatedTx, TxKind, Txid, cpfp, failed, needs_speedup, normal, ok, rbf, speedup,
  state_eq, outpoint_eq, news_eq,
}
use rust_bitvmx_bitcoin.Storage.Db.{Db, update_tx}
use rust_bitvmx_bitcoin.Storage.News.{add_news, push_news}
use rust_bitvmx_bitcoin.Storage.Records.{guarded, moved, settle_tx, update_tx_state_impl}
use rust_bitvmx_bitcoin.Storage.Pending.{requeue_protocol_parents}
use rust_bitvmx_bitcoin.Storage.Records.Transitions.{
  IsKeyed, change_at, lookup-guarded, txs-push_news,
}
use rust_bitvmx_bitcoin.Helper.{can_transition_to, funding_inputs}
use rust_bitvmx_bitcoin.Funding.{mark_parents_unspent, release_marks}
use rust_bitvmx_bitcoin.Engine.Failure.{
  cpfp_of, dispatch_error_news, is_to_dispatch, release_rbf, settle_failed_dispatch,
}
use rust_bitvmx_bitcoin.Engine.Failure.Shrink.{
  Calms, OptionCalms, OptionCalms-refl, Shrinks, Shrinks-IsKeyed, Shrinks-refl, Shrinks-trans,
  push_news-Shrinks, release_marks-Shrinks, release_rbf-Shrinks, requeue-Shrinks,
}
use rust_bitvmx_bitcoin.World.{World, tries, when}

-- Whether a record is there and waits for dispatch.
abbrev pub waits : Option CoordinatedTx → Bool
waits none = false
waits (some t) = is_to_dispatch t

-- The store after each part of `settle_failed_dispatch`.
abbrev settled : CoordinatedTx → BlockHeight → Db → Db
settled tx h db =
    push_news (dispatch_error_news tx tx.txid) (guarded tx.txid failed (moved failed (some h)) db)

abbrev unmarked : CoordinatedTx → Db → Db
unmarked tx db = if cpfp_of tx.kind then release_marks (funding_inputs tx) db else db

abbrev requeued : CoordinatedTx → Bool → Db → Db
requeued tx fm db = if fm then requeue_protocol_parents tx db else db

abbrev pub after_settle : CoordinatedTx → BlockHeight → Bool → Db → Db
after_settle tx h fm db = requeued tx fm (release_rbf tx (unmarked tx (settled tx h db)))

unmark_lem :
    (tx : CoordinatedTx) (k : TxKind) (w : World)
    → tx.kind ≡ k
    → when (cpfp_of tx.kind) (tries (mark_parents_unspent tx)) w
      ≡ (ok tt, record w { db = unmarked tx w.db })
unfolding mark_parents_unspent
unmark_lem tx (speedup (cpfp ps c)) w e = rw e refl
unmark_lem tx (speedup (rbf r i c)) w e = rw e refl
unmark_lem tx normal w e = rw e refl
unmark_lem tx (needs_speedup d) w e = rw e refl

pub settle_failed_lem :
    (tx : CoordinatedTx) (h : BlockHeight) (fm : Bool) (w : World)
    → settle_failed_dispatch tx h fm w ≡ (ok tt, record w { db = after_settle tx h fm w.db })
unfolding settle_failed_dispatch settle_tx update_tx_state_impl
settle_failed_lem tx h true w =
    rw (unmark_lem tx tx.kind (record w { db = settled tx h w.db }) refl) refl
settle_failed_lem tx h false w =
    rw (unmark_lem tx tx.kind (record w { db = settled tx h w.db }) refl) refl

-- Settling calms every record, and leaves the transaction itself not waiting.
moved-Calms : (h : BlockHeight) (t : CoordinatedTx) → Calms t (moved failed (some h) t)
moved-Calms h t = (refl, λ e. cc, λ x. refl)

changed-Calms :
    (id k : Txid) (h : BlockHeight) (o : Option CoordinatedTx)
    → OptionCalms o (change_at id failed (moved failed (some h)) k o)
changed-Calms id k h none = tt
changed-Calms id k h (some t) = ground (arith, moved-Calms h t, OptionCalms-refl (some t))

changed_waits :
    (id : Txid) (h : BlockHeight) (o : Option CoordinatedTx)
    → waits (change_at id failed (moved failed (some h)) id o) ≡ false
unfolding can_transition_to
changed_waits id h none = refl
changed_waits id h (some t) = ground (arith, ==_refl id)

guarded_push-list :
    (id : Txid) (h : BlockHeight) (db : Db)
    → (guarded id failed (moved failed (some h)) db).speedup_list ≡ db.speedup_list
unfolding guarded add_news update_tx
guarded_push-list id h db = elim (Option-cases (lookup id db.txs)) [
  | inl e ↦ rw (e, guarded) (ground arith)
  | inr (t, e) ↦ rw (e, guarded) (ground arith)
]

guarded-Shrinks :
    (id : Txid) (h : BlockHeight) (db : Db)
    → IsKeyed db.txs
    → Shrinks db (guarded id failed (moved failed (some h)) db)
guarded-Shrinks id h db keyed = (
  guarded_push-list id h db,
  λ k.
      rw (lookup-guarded id failed (moved failed (some h)) (λ t. refl) db k keyed)
        (changed-Calms id k h (lookup k db.txs)),
)

settled-waits :
    (tx : CoordinatedTx) (h : BlockHeight) (db : Db)
    → IsKeyed db.txs
    → waits (lookup tx.txid (settled tx h db).txs) ≡ false
settled-waits tx h db keyed =
    rw
      (
        txs-push_news (dispatch_error_news tx tx.txid)
            (guarded tx.txid failed (moved failed (some h)) db),
        lookup-guarded tx.txid failed (moved failed (some h)) (λ t. refl) db tx.txid keyed,
      )
      (changed_waits tx.txid h (lookup tx.txid db.txs))

pub calm_waits : (a b : Option CoordinatedTx) → OptionCalms a b → waits a ≡ false → waits b ≡ false
calm_waits none none c e = refl
calm_waits (some s) (some t) c e = ground (arith, c.1)
calm_waits none (some t) c e = absurd c
calm_waits (some s) none c e = absurd c

unmarked-Shrinks : (tx : CoordinatedTx) (db : Db) → IsKeyed db.txs → Shrinks db (unmarked tx db)
unmarked-Shrinks tx db keyed = elim (Bool-cases (cpfp_of tx.kind)) [
  | inl e ↦ rw e (release_marks-Shrinks (funding_inputs tx) db keyed)
  | inr e ↦ rw e (Shrinks-refl db)
]

requeued-Shrinks : (tx : CoordinatedTx) (fm : Bool) (db : Db) → Shrinks db (requeued tx fm db)
requeued-Shrinks tx true db = requeue-Shrinks tx db
requeued-Shrinks tx false db = Shrinks-refl db

settled-Shrinks :
    (tx : CoordinatedTx) (h : BlockHeight) (db : Db) → IsKeyed db.txs → Shrinks db (settled tx h db)
settled-Shrinks tx h db keyed =
    Shrinks-trans db (guarded tx.txid failed (moved failed (some h)) db) (settled tx h db)
      (guarded-Shrinks tx.txid h db keyed)
      (push_news-Shrinks (dispatch_error_news tx tx.txid)
        (guarded tx.txid failed (moved failed (some h)) db))

-- What follows the settling.
released-Shrinks :
    (tx : CoordinatedTx) (h : BlockHeight) (fm : Bool) (db : Db)
    → IsKeyed db.txs
    → Shrinks (settled tx h db) (after_settle tx h fm db)
released-Shrinks tx h fm db keyed =
    let a = settled tx h db in
    let b = unmarked tx a in
    let c = release_rbf tx b in
    let keyed_a = Shrinks-IsKeyed db a (settled-Shrinks tx h db keyed) keyed in
    let step = unmarked-Shrinks tx a keyed_a in
    Shrinks-trans a b (requeued tx fm c) step (
      Shrinks-trans b c (requeued tx fm c)
        (release_rbf-Shrinks tx b (Shrinks-IsKeyed a b step keyed_a)) (requeued-Shrinks tx fm c))

pub after-Shrinks :
    (tx : CoordinatedTx) (h : BlockHeight) (fm : Bool) (db : Db)
    → IsKeyed db.txs
    → Shrinks db (after_settle tx h fm db)
      × (waits (lookup tx.txid (after_settle tx h fm db).txs) ≡ false)
after-Shrinks tx h fm db keyed =
    let rest = released-Shrinks tx h fm db keyed in
    (
      Shrinks-trans db (settled tx h db) (after_settle tx h fm db) (settled-Shrinks tx h db keyed)
          rest,
      calm_waits _ _ (rest.1 tx.txid) (settled-waits tx h db keyed),
    )
