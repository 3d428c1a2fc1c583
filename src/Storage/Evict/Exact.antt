-- ===== src/Storage/Evict/Exact.antt =====
-- Which records `evict_stale_txs` of src/core/storage.rs removes.
use rust_bitvmx_bitcoin.Common.{
  Bool, List, Option, [], any, arith, contains, contains-append, false, filter, if◌then◌else◌, leb,
  none, not, refl, some, ℕ, ◌&&◌, ◌-◌, ◌==◌, ◌||◌, ◌∙◌, ◌∷◌, ◌≡◌, nat_eq, string_eq,
}
use rust_bitvmx_bitcoin.Common.Maps.{contains-keys, keys, lookup, lookup-delete, values}
use rust_bitvmx_bitcoin.Types.{
  BlockHeight, CoordinatedTx, Txid, failed, finalized, state_eq, outpoint_eq, news_eq,
}
use rust_bitvmx_bitcoin.Config.{CoordinatorStorageSettings}
use rust_bitvmx_bitcoin.Storage.Db.{Db, Scan, get_all_txs, get_settled_txs, is_terminal}
use rust_bitvmx_bitcoin.Storage.News.{add_news}
use rust_bitvmx_bitcoin.Storage.Records.{remove_tx}
use rust_bitvmx_bitcoin.Storage.Speedups.{get_speedups_ordered}
use rust_bitvmx_bitcoin.Storage.Pending.{cpfp_parents, is_needs_speedup}
use rust_bitvmx_bitcoin.Storage.Evict.{
  evict_loop, evict_one, evict_stale_txs, is_protected, is_stale, live_covered,
}

-- One record for each txid, stored under it.
abbrev pub IsStored : List (Txid × CoordinatedTx) → Type 0
IsStored [] = Unit {0}
IsStored ((k, t) ∷ m) = (t.txid ≡ k) × (contains (keys m) k ≡ false) × IsStored m

-- The backend's scan returns the stored records and no others, in some order.
abbrev pub ScansAll : Scan → Type 0
ScansAll scan = (p : CoordinatedTx → Bool) (l : List CoordinatedTx) → any p (scan l) ≡ any p l

abbrev evictable : ℕ → BlockHeight → List Txid → List Txid → CoordinatedTx → Bool
evictable max_tracking current psp covered tx =
    is_stale max_tracking current tx && not (is_protected psp covered tx)

abbrev has_txid : Txid → CoordinatedTx → Bool
has_txid k tx = tx.txid == k

lookup-evict_one :
    (tx : CoordinatedTx) (db : Db) (k : Txid)
    → lookup k (evict_one tx db).txs ≡ (if tx.txid == k then none else lookup k db.txs)
unfolding add_news remove_tx
lookup-evict_one tx db k = ground (arith, lookup-delete tx.txid k db.txs)

lookup-evict_loop :
    (n : ℕ) (h : BlockHeight) (psp covered : List Txid) (txs : List CoordinatedTx) (db : Db)
    (k : Txid)
    → lookup k (evict_loop n h psp covered txs db).txs ≡ (
        if any (λ (t : CoordinatedTx). evictable n h psp covered t && has_txid k t) txs
        then none
        else lookup k db.txs)
unfolding evict_loop
lookup-evict_loop n h psp covered [] db k = refl
lookup-evict_loop n h psp covered (tx ∷ txs) db k =
    lookup-evict_loop n h psp covered txs _ k ∙ ground (arith, lookup-evict_one tx db k)

any-filter :
    {A : Type 0} (p q r : A → Bool) (l : List A)
    → any (λ x. q x && p x) (filter r l) ≡ any (λ x. (r x && q x) && p x) l
any-filter p q r [] = refl
any-filter p q r (x ∷ l) = ground (arith, any-filter p q r l)

-- Among the stored records only the one under `k` has that txid.
any-stored :
    (q : CoordinatedTx → Bool) (k : Txid) (m : List (Txid × CoordinatedTx))
    → IsStored m
    → any (λ t. q t && has_txid k t) (values m)
      ≡ (elim (lookup k m) [ none ↦ false | some t ↦ q t ])
unfolding lookup
any-stored q k [] st = refl
any-stored q k ((j, t) ∷ m) st =
    ground (arith, any-stored q k m, contains-keys k m, contains-keys j m)

choose :
    (q : CoordinatedTx → Bool) (o : Option CoordinatedTx)
    → (if elim o [ none ↦ false | some t ↦ q t ] then none else o)
      ≡ (elim o [ none ↦ none | some t ↦ if q t then none else some t ])
choose q none = refl
choose q (some t) = refl

abbrev late : CoordinatorStorageSettings → BlockHeight → Db → CoordinatedTx → Bool
late s h db =
    evictable s.max_tracking_confirmations h db.pending_speedup_parents
      (live_covered (get_speedups_ordered db))

abbrev verdict : CoordinatorStorageSettings → BlockHeight → Db → CoordinatedTx → Bool
verdict s h db t = is_terminal t.state && late s h db t

-- A CPFP that is neither Failed nor Finalized and has the transaction among its parents.
abbrev pub covers : CoordinatedTx → CoordinatedTx → Bool
covers t s =
    not (s.state == failed) && not (s.state == finalized) && contains (cpfp_parents s) t.txid

abbrev settled_for : CoordinatedTx → BlockHeight → Option ℕ
settled_for t h = elim t.settled_block_height [ none ↦ none | some at ↦ some (h - at) ]

-- The specification: Finalized or Failed, settled for at least the tracking window, and not a
-- `NeedsSpeedup` parent that is listed as pending or that a live speedup covers.
abbrev pub is_evicted : CoordinatorStorageSettings → BlockHeight → Db → CoordinatedTx → Bool
is_evicted s h db t =
    (t.state == finalized || t.state == failed)
    && (elim (settled_for t h) [ none ↦ false | some n ↦ leb s.max_tracking_confirmations n ])
    && not (
        is_needs_speedup t
        && (contains db.pending_speedup_parents t.txid || any (covers t) (get_speedups_ordered db)))

covered_lem :
    (t : CoordinatedTx) (ss : List CoordinatedTx)
    → contains (live_covered ss) t.txid ≡ any (covers t) ss
covered_lem t [] = refl
covered_lem t (s ∷ ss) =
    ground (arith, covered_lem t ss, contains-append (cpfp_parents s) (live_covered ss) t.txid)

verdict_lem :
    (s : CoordinatorStorageSettings) (h : BlockHeight) (db : Db) (t : CoordinatedTx)
    → verdict s h db t ≡ is_evicted s h db t
verdict_lem s h db t = ground (arith, covered_lem t (get_speedups_ordered db))

agreeing :
    (s : CoordinatorStorageSettings) (h : BlockHeight) (db : Db) (o : Option CoordinatedTx)
    → (elim o [ none ↦ none | some t ↦ if verdict s h db t then none else some t ])
      ≡ (elim o [ none ↦ none | some t ↦ if is_evicted s h db t then none else some t ])
agreeing s h db none = refl
agreeing s h db (some t) = rw (verdict_lem s h db t) refl

-- With a scan that returns exactly the stored records, `evict_stale_txs` removes a record exactly
-- when it is Finalized or Failed, settled at least `max_tracking_confirmations` blocks ago, and not a
-- `NeedsSpeedup` parent that is listed as pending or covered by a live CPFP; all others are kept as
-- they are.
pub evict_stale_txs_exact :
    (scan : Scan) (s : CoordinatorStorageSettings) (h : BlockHeight) (db : Db)
    → ScansAll scan
    → IsStored db.txs
    → (k : Txid)
    → lookup k (evict_stale_txs scan s h db).txs ≡ (elim (lookup k db.txs) [
      | none ↦ none
      | some t ↦ if is_evicted s h db t then none else some t
    ])
unfolding evict_stale_txs
evict_stale_txs_exact scan s h db scans stored k =
    lookup-evict_loop _ h _ _ (get_settled_txs scan db) db k
    ∙ rw
        (
          any-filter (has_txid k) (late s h db) (λ t. is_terminal t.state) (get_all_txs scan db),
          scans (λ t. verdict s h db t && has_txid k t) (values db.txs),
          any-stored (verdict s h db) k db.txs stored,
        )
        (choose (verdict s h db) (lookup k db.txs) ∙ agreeing s h db (lookup k db.txs))
