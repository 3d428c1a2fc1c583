-- ===== src/Engine/Failure/Shrink.antt =====
-- What the steps of `settle_failed_dispatch` of src/engines/common.rs can do to the speedups that
-- wait for dispatch: none of them makes a speedup wait, or changes what a speedup depends on.
use rust_bitvmx_bitcoin.Common.{
  Bool, Bool-cases, List, Option, Option-cases, [], arith, false, if◌then◌else◌, inl, inr,
  nat_eqb_iff, none, refl, some, subst, true, ◌==◌, ◌∙◌, ◌∷◌, ◌≡◌, nat_eq, string_eq,
}
use rust_bitvmx_bitcoin.Common.Maps.{insert, lookup, lookup-insert}
use rust_bitvmx_bitcoin.Types.{
  CoordinatedTx, CoordinatorNews, OutPoint, SpeedupContext, SpeedupKind, TxKind, Txid, Utxo, cpfp,
  err, needs_speedup, normal, ok, outpoint, rbf, speedup, state_eq, outpoint_eq, news_eq,
}
use rust_bitvmx_bitcoin.Storage.Db.{Db, get_tx_by_id, update_tx}
use rust_bitvmx_bitcoin.Storage.News.{add_news, push_news}
use rust_bitvmx_bitcoin.Storage.Pending.{prepend_pending_speedup_parents, requeue_protocol_parents}
use rust_bitvmx_bitcoin.Storage.Funding.{
  get_funding_record, is_speedup, put_funding_record, set_kind_spent, set_spent,
}
use rust_bitvmx_bitcoin.Storage.Records.Transitions.{IsKeyed}
use rust_bitvmx_bitcoin.Helper.{context, context_mut, speedup_kind}
use rust_bitvmx_bitcoin.Funding.{release_marks}
use rust_bitvmx_bitcoin.Engine.Failure.{
  depends_on, is_to_dispatch, rbf_of, release_rbf, restore_replaced, set_replaced_by,
}

-- A record after a step: the same txid and dependencies, and waiting only if it waited before.
abbrev pub Calms : CoordinatedTx → CoordinatedTx → Type 0
Calms t t' =
    (t'.txid ≡ t.txid)
    × (is_to_dispatch t' ≡ true → is_to_dispatch t ≡ true)
    × ((x : CoordinatedTx) → depends_on x t' ≡ depends_on x t)

abbrev pub OptionCalms : Option CoordinatedTx → Option CoordinatedTx → Type 0
OptionCalms none none = Unit {0}
OptionCalms none (some t') = ⊥
OptionCalms (some t) none = ⊥
OptionCalms (some t) (some t') = Calms t t'

pub OptionCalms-refl : (o : Option CoordinatedTx) → OptionCalms o o
OptionCalms-refl none = tt
OptionCalms-refl (some t) = (refl, λ h. h, λ x. refl)

OptionCalms-trans :
    (a b c : Option CoordinatedTx) → OptionCalms a b → OptionCalms b c → OptionCalms a c
OptionCalms-trans none none none f g = tt
OptionCalms-trans (some r) (some s) (some t) f g = (g.0 ∙ f.0, λ h. f.1 (g.1 h), λ x. g.2 x ∙ f.2 x)
OptionCalms-trans none (some s) c f g = absurd f
OptionCalms-trans (some r) none c f g = absurd f
OptionCalms-trans none none (some t) f g = absurd g
OptionCalms-trans (some r) (some s) none f g = absurd g

-- A step of the storage that keeps the list of speedups and calms every record.
abbrev pub Shrinks : Db → Db → Type 0
Shrinks db db' =
    (db'.speedup_list ≡ db.speedup_list)
    × ((k : Txid) → OptionCalms (lookup k db.txs) (lookup k db'.txs))

pub Shrinks-refl : (db : Db) → Shrinks db db
Shrinks-refl db = (refl, λ k. OptionCalms-refl (lookup k db.txs))

pub Shrinks-trans : (a b c : Db) → Shrinks a b → Shrinks b c → Shrinks a c
Shrinks-trans a b c f g = (g.0 ∙ f.0, λ k. OptionCalms-trans _ _ _ (f.1 k) (g.1 k))

calm_key :
    (k : Txid) (o : Option CoordinatedTx) (t' : CoordinatedTx)
    → OptionCalms o (some t')
    → ((t : CoordinatedTx) → o ≡ some t → t.txid ≡ k)
    → t'.txid ≡ k
calm_key k none t' f h = absurd f
calm_key k (some t) t' f h = f.0 ∙ h t refl

pub Shrinks-IsKeyed : (db db' : Db) → Shrinks db db' → IsKeyed db.txs → IsKeyed db'.txs
Shrinks-IsKeyed db db' f keyed k t' e =
    calm_key k (lookup k db.txs) t' (subst (OptionCalms (lookup k db.txs)) e (f.1 k)) (keyed k)

same_records :
    (db db' : Db) → db'.speedup_list ≡ db.speedup_list → db'.txs ≡ db.txs → Shrinks db db'
same_records db db' l e = (l, λ k. rw e (OptionCalms-refl (lookup k db.txs)))

-- A record that is written back calmed.
update-Shrinks :
    (id : Txid) (t t' : CoordinatedTx) (db : Db)
    → IsKeyed db.txs
    → lookup id db.txs ≡ some t
    → Calms t t'
    → Shrinks db (update_tx t' db)
unfolding update_tx
update-Shrinks id t t' db keyed e calm = (refl, at)
  where
    at : (k : Txid) → OptionCalms (lookup k db.txs) (lookup k (insert t'.txid t' db.txs))
    at k = elim (Bool-cases (t'.txid == k)) [
      | inl same ↦
          (let same_id : id ≡ k = ground (arith, keyed id t e, calm.0, nat_eqb_iff t'.txid k) in
            rw (lookup-insert t'.txid k t' db.txs, same, ← same_id, e) calm)
      | inr other ↦
          rw (lookup-insert t'.txid k t' db.txs, other) (OptionCalms-refl (lookup k db.txs))
    ]

pub push_news-Shrinks : (n : CoordinatorNews) (db : Db) → Shrinks db (push_news n db)
unfolding add_news
push_news-Shrinks n db = same_records db (push_news n db) (ground arith) (ground arith)

-- The new speedup context leaves the funding inputs and the covered parents.
with_kind-Calms :
    (t : CoordinatedTx) (k : SpeedupKind) (c : SpeedupContext)
    → t.kind ≡ speedup k
    → c.funding_inputs ≡ (context k).funding_inputs
    → Calms t (record t { kind = speedup (context_mut c k) })
with_kind-Calms t (cpfp ps old) c e same = (refl, λ h. h, λ x. rw (e, same) refl)
with_kind-Calms t (rbf r i old) c e same = (refl, λ h. h, λ x. rw (e, same) refl)

pub set_spent-Shrinks :
    (op : OutPoint) (spent : Bool) (db : Db) → IsKeyed db.txs → Shrinks db (set_spent op spent db)
unfolding set_spent put_funding_record
set_spent-Shrinks op spent db keyed = elim (Option-cases (get_funding_record op db)) [
  | inr (rec, e) ↦
      rw (e, set_spent)
        (same_records db (put_funding_record op (record rec { spent = spent }) db) refl refl)
  | inl e ↦ elim (Option-cases (get_tx_by_id op.txid db)) [
    | inl gone ↦ rw (e, gone, set_spent) (Shrinks-refl db)
    | inr (tx, f) ↦ rw (e, f, set_spent) (spend tx f tx.kind refl)
  ]
]
  where
    spend :
        (tx : CoordinatedTx)
        → get_tx_by_id op.txid db ≡ some tx
        → (k : TxKind) → tx.kind ≡ k
        → Shrinks db (
            if is_speedup tx
            then update_tx (record tx { kind = set_kind_spent spent tx.kind }) db
            else db)
    spend tx f (speedup k) e = rw e (
        update-Shrinks op.txid tx _ db keyed f
          (with_kind-Calms tx k (record (context k) { spent = spent }) e refl))
    spend tx f normal e = rw e (Shrinks-refl db)
    spend tx f (needs_speedup d) e = rw e (Shrinks-refl db)

pub release_marks-Shrinks :
    (us : List Utxo) (db : Db) → IsKeyed db.txs → Shrinks db (release_marks us db)
unfolding release_marks
release_marks-Shrinks [] db keyed = Shrinks-refl db
release_marks-Shrinks (u ∷ us) db keyed =
    let spent = set_spent (outpoint u) false db in
    let step = set_spent-Shrinks (outpoint u) false db keyed in
    Shrinks-trans db spent (release_marks us spent) step
      (release_marks-Shrinks us spent (Shrinks-IsKeyed db spent step keyed))

-- The predecessor of a failed RBF is no longer replaced.
restore-Shrinks :
    (replaces : Txid) (db : Db) → IsKeyed db.txs → Shrinks db (restore_replaced replaces db)
unfolding restore_replaced
restore-Shrinks replaces db keyed = elim (Option-cases (get_tx_by_id replaces db)) [
  | inl gone ↦ rw (gone, restore_replaced) (Shrinks-refl db)
  | inr (t, e) ↦ rw (e, restore_replaced) (restore t e t.kind refl)
]
  where
    restore :
        (t : CoordinatedTx)
        → get_tx_by_id replaces db ≡ some t
        → (kind : TxKind) → t.kind ≡ kind
        → Shrinks db (elim (speedup_kind t) [
          | err e ↦ db
          | ok k ↦ update_tx (record t { kind = set_replaced_by none k }) db
        ])
    restore t f (speedup k) e = rw e (
        update-Shrinks replaces t _ db keyed f
          (with_kind-Calms t k (record (context k) { replaced_by = none }) e refl))
    restore t f normal e = rw e (Shrinks-refl db)
    restore t f (needs_speedup d) e = rw e (Shrinks-refl db)

pub release_rbf-Shrinks :
    (tx : CoordinatedTx) (db : Db) → IsKeyed db.txs → Shrinks db (release_rbf tx db)
unfolding release_rbf
release_rbf-Shrinks tx db keyed = elim (Option-cases (rbf_of tx.kind)) [
  | inl other ↦ rw (other, release_rbf) (Shrinks-refl db)
  | inr ((replaces, inputs), e) ↦
      rw (e, release_rbf)
        (let released = release_marks inputs db in
          let step = release_marks-Shrinks inputs db keyed in
          Shrinks-trans db released (restore_replaced replaces released) step
            (restore-Shrinks replaces released (Shrinks-IsKeyed db released step keyed)))
]

pub requeue-Shrinks : (tx : CoordinatedTx) (db : Db) → Shrinks db (requeue_protocol_parents tx db)
unfolding requeue_protocol_parents prepend_pending_speedup_parents
requeue-Shrinks tx db = same_records db (requeue_protocol_parents tx db) refl refl
