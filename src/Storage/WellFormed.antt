-- ===== src/Storage/WellFormed.antt =====
-- What holds of the persisted state of src/core/storage.rs between any two calls, and the storage
-- operations on records and lists that keep it.
pub mod Operations
pub mod Funds
use rust_bitvmx_bitcoin.Common.{
  Bool, Bool-cases, IsUnique, List, Option, Option-cases, [], ap, arith, contains,
  contains-remove_all, false, if◌then◌else◌, inl, inr, none, push_new-IsUnique, refl,
  remove_all-IsUnique, some, subst, sym, true, ◌==◌, ◌∙◌, ◌∷◌, ◌≡◌, nat_eq, nat_eqb_iff, string_eq,
}
use rust_bitvmx_bitcoin.Common.Maps.{delete, insert, lookup, lookup-delete, lookup-insert}
use rust_bitvmx_bitcoin.Types.{
  CoordinatedTx, FundingData, OutPoint, Txid, state_eq, outpoint_eq, news_eq,
}
use rust_bitvmx_bitcoin.Storage.Db.{Db, StoredNewsItem, insert_tx}
use rust_bitvmx_bitcoin.Storage.News.Inbox.{HasUniqueNews}
use rust_bitvmx_bitcoin.Storage.Pending.{cpfp_parents}
use rust_bitvmx_bitcoin.Storage.Pending.Queue.{HasUniquePending}
use rust_bitvmx_bitcoin.Storage.Funding.{is_speedup}
use rust_bitvmx_bitcoin.Storage.Records.{remove_tx}
use rust_bitvmx_bitcoin.Storage.Evict.Exact.{IsStored}
use rust_bitvmx_bitcoin.Storage.Stored.{delete-IsStored, insert-IsStored, stored-IsKeyed}
use rust_bitvmx_bitcoin.Funding.Sound.{IsSound}

-- There is one record for each txid, under that txid, and no CPFP covers a parent twice; no txid is listed twice,
-- neither as pending nor as a speedup, and every listed speedup has a record, of that kind; the
-- funding records are sound, and no news item is stored twice.
pub record IsWellFormed (db : Db) : Type 0 where
  pub stored : IsStored db.txs
  pub parents_once :
      (k : Txid) (t : CoordinatedTx) → lookup k db.txs ≡ some t → IsUnique (cpfp_parents t)
  pub pending_once : HasUniquePending db
  pub listed_once : IsUnique db.speedup_list
  pub listed_stored :
      (k : Txid)
      → contains db.speedup_list k ≡ true
      → (t : CoordinatedTx) × (lookup k db.txs ≡ some t) × (is_speedup t ≡ true)
  pub funding_sound : IsSound db
  pub news_once : HasUniqueNews db

some_inj : {a b : CoordinatedTx} → some a ≡ some b → a ≡ b
some_inj e = ground arith

-- A record that may be written: the parents are distinct, and what is listed is a speedup.
abbrev pub Fits : CoordinatedTx → Db → Type 0
Fits tx db =
    IsUnique (cpfp_parents tx) × (contains db.speedup_list tx.txid ≡ true → is_speedup tx ≡ true)

-- A property of the records, after a write.
written :
    (P : Txid → CoordinatedTx → Type 0) (tx : CoordinatedTx) (m : List (Txid × CoordinatedTx))
    → P tx.txid tx
    → ((k : Txid) (t : CoordinatedTx) → lookup k m ≡ some t → P k t)
    → (k : Txid) (t : CoordinatedTx) → lookup k (insert tx.txid tx m) ≡ some t
    → P k t
written P tx m new old k t e = elim (Bool-cases (tx.txid == k)) [
  | inl hit ↦
      (let same = (nat_eqb_iff tx.txid k).0 hit in
        let at : some tx ≡ some t = sym (rw (lookup-insert tx.txid k tx m, hit) refl) ∙ e in
        subst (λ x. P k x) (some_inj at) (subst (λ x. P x tx) same new))
  | inr miss ↦ old k t (sym (rw (lookup-insert tx.txid k tx m, miss) refl) ∙ e)
]

pub insert_tx-IsWellFormed :
    (tx : CoordinatedTx) (db : Db) → Fits tx db → IsWellFormed db → IsWellFormed (insert_tx tx db)
unfolding insert_tx
insert_tx-IsWellFormed tx db (once, speeds) wf = record {
  stored = insert-IsStored tx db.txs wf.stored;
  parents_once = written (λ k t. IsUnique (cpfp_parents t)) tx db.txs once wf.parents_once;
  pending_once = wf.pending_once;
  listed_once = wf.listed_once;
  listed_stored = λ k c. elim (Bool-cases (tx.txid == k)) [
    | inl hit ↦
        (let same = (nat_eqb_iff tx.txid k).0 hit in
          (
            tx,
            rw (lookup-insert tx.txid k tx db.txs, hit) refl,
            speeds (subst (λ x. contains db.speedup_list x ≡ true) (sym same) c),
          ))
    | inr miss ↦
        (let (t, at, kind) = wf.listed_stored k c in
          (t, rw (lookup-insert tx.txid k tx db.txs, miss) at, kind))
  ];
  funding_sound = wf.funding_sound;
  news_once = wf.news_once;
}

-- A record that is written in place of a stored one, whose kind and parents it has.
pub revised-Fits :
    (id : Txid) (t t' : CoordinatedTx) (db : Db)
    → lookup id db.txs ≡ some t
    → t'.txid ≡ t.txid
    → cpfp_parents t' ≡ cpfp_parents t
    → is_speedup t' ≡ is_speedup t
    → IsWellFormed db
    → Fits t' db
revised-Fits id t t' db e same_id same_parents same_kind wf = (
  subst IsUnique (sym same_parents) (wf.parents_once id t e),
  λ c.
      (let (u, at, kind) = wf.listed_stored t'.txid c in
        let own : t'.txid ≡ id = same_id ∙ stored-IsKeyed db.txs wf.stored id t e in
        let here : some u ≡ some t = sym at ∙ (ap (λ x. lookup x db.txs) own ∙ e) in
        same_kind ∙ (ap is_speedup (sym (some_inj here)) ∙ kind)),
)

-- The parts of the state that stand apart from the records.
pub news-IsWellFormed :
    (l : List StoredNewsItem) (db : Db)
    → HasUniqueNews (record db { news = l })
    → IsWellFormed db
    → IsWellFormed (record db { news = l })
news-IsWellFormed l db once wf = record {
  stored = wf.stored;
  parents_once = wf.parents_once;
  pending_once = wf.pending_once;
  listed_once = wf.listed_once;
  listed_stored = wf.listed_stored;
  funding_sound = wf.funding_sound;
  news_once = once;
}

pub pending-IsWellFormed :
    (l : List Txid) (db : Db)
    → IsUnique l
    → IsWellFormed db
    → IsWellFormed (record db { pending_speedup_parents = l })
pending-IsWellFormed l db once wf = record {
  stored = wf.stored;
  parents_once = wf.parents_once;
  pending_once = once;
  listed_once = wf.listed_once;
  listed_stored = wf.listed_stored;
  funding_sound = wf.funding_sound;
  news_once = wf.news_once;
}

-- The funding fields, and a shorter list of speedups.
pub funding-IsWellFormed :
    (l : List OutPoint) (m : List (OutPoint × FundingData)) (speedups : List Txid) (db : Db)
    → IsSound (record db { funding_list = l; funding = m })
    → IsUnique speedups
    → ((k : Txid) → contains speedups k ≡ true → contains db.speedup_list k ≡ true)
    → IsWellFormed db
    → IsWellFormed (record db { funding_list = l; funding = m; speedup_list = speedups })
funding-IsWellFormed l m speedups db sound once fewer wf = record {
  stored = wf.stored;
  parents_once = wf.parents_once;
  pending_once = wf.pending_once;
  listed_once = once;
  listed_stored = λ k c. wf.listed_stored k (fewer k c);
  funding_sound = sound;
  news_once = wf.news_once;
}

pub remove_tx-IsWellFormed :
    (id : Txid) (db : Db) → IsWellFormed db → IsWellFormed (remove_tx id db)
unfolding remove_tx
remove_tx-IsWellFormed id db wf = record {
  stored = delete-IsStored id db.txs wf.stored;
  parents_once = λ k t e. wf.parents_once k t (still k t e);
  pending_once = wf.pending_once;
  listed_once = remove_all-IsUnique id db.speedup_list wf.listed_once;
  listed_stored = λ k c. elim (Bool-cases (id == k)) [
    | inl hit ↦
        absurd (false_true (sym (rw (contains-remove_all id k db.speedup_list, hit) refl) ∙ c))
    | inr miss ↦
        (let (t, at, kind) =
            wf.listed_stored k
              (sym (rw (contains-remove_all id k db.speedup_list, miss) refl) ∙ c) in
          (t, rw (lookup-delete id k db.txs, miss) at, kind))
  ];
  funding_sound = wf.funding_sound;
  news_once = wf.news_once;
}
  where
    false_true : false ≡ true → ⊥
    false_true e = ground arith

    still :
        (k : Txid) (t : CoordinatedTx)
        → lookup k (delete id db.txs) ≡ some t
        → lookup k db.txs ≡ some t
    still k t e = ground (arith, lookup-delete id k db.txs)
