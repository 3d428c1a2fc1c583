-- ===== src/Storage/WellFormed/Operations.antt =====
-- The storage operations that the engines call keep the state well formed, and put no txid on the
-- list of speedups.
use rust_bitvmx_bitcoin.Common.{
  Bool, Bool-cases, IsUnique, List, Option-cases, arith, contains, contains-remove_all, false,
  filter, inl, inr, none, refl, some, true, ◌==◌, ◌≡◌, nat_eq, string_eq,
}
use rust_bitvmx_bitcoin.Common.Maps.{lookup}
use rust_bitvmx_bitcoin.Types.{
  BlockHeight, CoordinatedTx, CoordinatorNews, TransactionState, TxKind, Txid, cpfp,
  funding_not_available, invalid_state_transition, needs_speedup, normal, rbf, speedup,
  tx_not_found, state_eq, outpoint_eq, news_eq,
}
use rust_bitvmx_bitcoin.Storage.Db.{Db, StoredNewsItem, insert_tx, is_terminal, update_tx}
use rust_bitvmx_bitcoin.Storage.News.{
  ack_news, add_news, cleanup_news, is_pending, news_of, push_news,
}
use rust_bitvmx_bitcoin.Storage.News.Inbox.{
  ack-pending, news_unique, pending-cleanup, pending-push_news,
}
use rust_bitvmx_bitcoin.Storage.Pending.{cpfp_parents}
use rust_bitvmx_bitcoin.Storage.Funding.{is_speedup, set_kind_spent}
use rust_bitvmx_bitcoin.Storage.Records.{
  guarded, mark_as_retry, moved, remove_tx, requeue_not_found, settle_tx, update_tx_state,
  update_tx_state_impl,
}
use rust_bitvmx_bitcoin.Helper.{can_transition_to}
use rust_bitvmx_bitcoin.Storage.WellFormed.{
  IsWellFormed, insert_tx-IsWellFormed, news-IsWellFormed, remove_tx-IsWellFormed, revised-Fits,
}

pub push_news_lem :
    (n : CoordinatorNews) (db : Db) → push_news n db ≡ record db { news = (push_news n db).news }
unfolding add_news
push_news_lem n db = ground arith

-- The kinds that a write of the spent flag keeps.
pub set_kind_spent-kind :
    (b : Bool) (t : CoordinatedTx)
    → (cpfp_parents (record t { kind = set_kind_spent b t.kind }) ≡ cpfp_parents t)
      × (is_speedup (record t { kind = set_kind_spent b t.kind }) ≡ is_speedup t)
set_kind_spent-kind b t = by_kind t.kind refl
  where
    by_kind :
        (k : TxKind)
        → t.kind ≡ k
        → (cpfp_parents (record t { kind = set_kind_spent b t.kind }) ≡ cpfp_parents t)
          × (is_speedup (record t { kind = set_kind_spent b t.kind }) ≡ is_speedup t)
    by_kind normal e = rw e (refl, refl)
    by_kind (needs_speedup d) e = rw e (refl, refl)
    by_kind (speedup (cpfp ps c)) e = rw e (refl, refl)
    by_kind (speedup (rbf r i c)) e = rw e (refl, refl)

-- What else stays while a round of a tick runs: which txids may be listed as speedups, and which
-- news items the client has not acknowledged.
pub record Frame : Type 1 where
  pub listed : Txid → Type 0
  pub promised : CoordinatorNews → Type 0

-- The list of speedups and the stored news, against the frame.
pub record Stays (L : Frame) (speedups : List Txid) (items : List StoredNewsItem) : Type 0 where
  pub in_list : (k : Txid) → contains speedups k ≡ true → L.listed k
  pub in_news :
      (n : CoordinatorNews) → L.promised n → contains (news_of (filter is_pending items)) n ≡ true

module _ (L : Frame) where
  abbrev pub Within : Db → Type 0
  Within db = IsWellFormed db × Stays L db.speedup_list db.news

  -- A record, perhaps read earlier, that may be written at any time of the round.
  abbrev pub IsSafe : CoordinatedTx → Type 0
  IsSafe tx = IsUnique (cpfp_parents tx) × (L.listed tx.txid → is_speedup tx ≡ true)

  pub update_tx-Within :
      (tx : CoordinatedTx) (db : Db) → IsSafe tx → Within db → Within (update_tx tx db)
  unfolding update_tx insert_tx
  update_tx-Within tx db (once, kind) (wf, sub) =
      (insert_tx-IsWellFormed tx db (once, λ c. kind (sub.in_list tx.txid c)) wf, sub)

  pub revise-Within :
      (id : Txid) (t t' : CoordinatedTx) (db : Db)
      → lookup id db.txs ≡ some t
      → t'.txid ≡ t.txid
      → cpfp_parents t' ≡ cpfp_parents t
      → is_speedup t' ≡ is_speedup t
      → Within db
      → Within (update_tx t' db)
  unfolding update_tx insert_tx
  revise-Within id t t' db e same_id same_parents same_kind (wf, sub) = (
    insert_tx-IsWellFormed t' db (revised-Fits id t t' db e same_id same_parents same_kind wf) wf,
    sub,
  )

  pub push_news-Within : (n : CoordinatorNews) (db : Db) → Within db → Within (push_news n db)
  push_news-Within n db (wf, sub) =
      let once = (news_unique n 0 db wf.news_once).0 in
      let stay : Stays L db.speedup_list (push_news n db).news = record {
        in_list = sub.in_list;
        in_news = λ m p. pending-push_news n m db (sub.in_news m p);
      } in
      rw (push_news_lem n db) (news-IsWellFormed _ db once wf, stay)

  pub guarded-Within :
      (id : Txid) (s : TransactionState) (change : CoordinatedTx → CoordinatedTx)
      → ((t : CoordinatedTx) → ((change t).txid ≡ t.txid) × ((change t).kind ≡ t.kind))
      → (db : Db) → Within db
      → Within (guarded id s change db)
  unfolding guarded
  guarded-Within id s change keeps db in_db = elim (Option-cases (lookup id db.txs)) [
    | inl e ↦ rw (e, guarded) (push_news-Within (tx_not_found id) db in_db)
    | inr (t, e) ↦ elim (Bool-cases (can_transition_to t.state s)) [
      | inl may ↦
          rw (e, guarded, may)
            (revise-Within id t (change t) db e (keeps t).0 (rw (keeps t).1 refl)
              (rw (keeps t).1 refl) in_db)
      | inr not_ ↦
          rw (e, guarded, not_) (push_news-Within (invalid_state_transition id t.state s) db in_db)
    ]
  ]

  pub update_tx_state-Within :
      (id : Txid) (s : TransactionState) (db : Db) → Within db → Within (update_tx_state id s db).1
  unfolding update_tx_state update_tx_state_impl
  update_tx_state-Within id s db in_db = elim (Bool-cases (is_terminal s)) [
    | inl e ↦ rw (e, update_tx_state_impl) in_db
    | inr e ↦
        rw (e, update_tx_state_impl)
          (guarded-Within id s (moved s none) (λ t. (refl, refl)) db in_db)
  ]

  pub settle_tx-Within :
      (id : Txid) (s : TransactionState) (h : BlockHeight) (db : Db)
      → Within db
      → Within (settle_tx id s h db).1
  unfolding settle_tx update_tx_state_impl
  settle_tx-Within id s h db in_db = elim (Bool-cases (is_terminal s)) [
    | inl e ↦
        rw (e, settle_tx, update_tx_state_impl)
          (guarded-Within id s (moved s (some h)) (λ t. (refl, refl)) db in_db)
    | inr e ↦ rw (e, settle_tx) in_db
  ]

  pub requeue_not_found-Within :
      (id : Txid) (h : BlockHeight) (db : Db) → Within db → Within (requeue_not_found id h db)
  unfolding requeue_not_found
  requeue_not_found-Within id h = guarded-Within id _ _ (λ t. (refl, refl))

  pub mark_as_retry-Within : (id : Txid) (db : Db) → Within db → Within (mark_as_retry id db)
  unfolding mark_as_retry
  mark_as_retry-Within id = guarded-Within id _ _ (λ t. (refl, refl))

  pub remove_tx-Within : (id : Txid) (db : Db) → Within db → Within (remove_tx id db)
  unfolding remove_tx
  remove_tx-Within id db (wf, sub) = (
    remove_tx-IsWellFormed id db wf,
    record {
      in_list = λ k c. sub.in_list k (ground (arith, contains-remove_all id k db.speedup_list));
      in_news = sub.in_news;
    },
  )

  pub cleanup_news-Within : (h : BlockHeight) (db : Db) → Within db → Within (cleanup_news h db)
  unfolding cleanup_news
  cleanup_news-Within h db (wf, sub) = (
    news-IsWellFormed _ db ((news_unique funding_not_available h db wf.news_once).2) wf,
    record {
      in_list = sub.in_list;
      in_news = λ m p. rw (pending-cleanup h db.news) (sub.in_news m p);
    },
  )

  pub ack_news-Within :
      (n : CoordinatorNews) (h : BlockHeight) (db : Db)
      → ((m : CoordinatorNews) → L.promised m → (n == m) ≡ false)
      → Within db
      → Within (ack_news n h db)
  unfolding ack_news
  ack_news-Within n h db others (wf, sub) = (
    news-IsWellFormed _ db ((news_unique n h db wf.news_once).1) wf,
    record {
      in_list = sub.in_list;
      in_news = λ m p.
          rw
            (
              ack-pending n h db.news wf.news_once,
              contains-remove_all n m (news_of (filter is_pending db.news)),
              others m p,
            )
            (sub.in_news m p);
    },
  )
