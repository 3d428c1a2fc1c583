-- ===== src/Invariant/Snapshot.antt =====
-- The records that a step of a tick reads first, and writes back later (src/engines): each may be
-- written at any time of the step, since no txid joins the list of speedups meanwhile.
use rust_bitvmx_bitcoin.Common.{
  All, All-map, Bool, Bool-cases, List, Option-cases, [], arith, contains, filter, find, inl, inr,
  none, not, refl, some, subst, sym, true, ◌&&◌, ◌||◌, ◌↔◌, ◌∙◌, ◌∷◌, ◌≡◌, nat_eq, string_eq,
}
use rust_bitvmx_bitcoin.Common.Maps.{lookup, values}
use rust_bitvmx_bitcoin.Types.{CoordinatedTx, CoordinatorNews, Txid, state_eq, outpoint_eq, news_eq}
use rust_bitvmx_bitcoin.Storage.Db.{Db, Scan, get_active_txs, get_all_txs, is_active}
use rust_bitvmx_bitcoin.Storage.News.{is_pending, news_of}
use rust_bitvmx_bitcoin.Storage.Pending.{cpfp_parents}
use rust_bitvmx_bitcoin.Storage.Speedups.{resolve}
use rust_bitvmx_bitcoin.Storage.Funding.{is_speedup}
use rust_bitvmx_bitcoin.Storage.Evict.Exact.{ScansAll}
use rust_bitvmx_bitcoin.Storage.Stored.{all_once, all_once_iff, scan-All, values-All}
use rust_bitvmx_bitcoin.Storage.WellFormed.{IsWellFormed, revised-Fits}
use rust_bitvmx_bitcoin.Storage.WellFormed.Operations.{Frame, IsSafe, Within}
use rust_bitvmx_bitcoin.World.{M, reads, ◌>>=◌}
use rust_bitvmx_bitcoin.World.Keeps.{Keeps}

-- The items that the client has not acknowledged are all still there for it to read.
abbrev pub Kept : (CoordinatorNews → Type 0) → Db → Type 0
Kept N db =
    IsWellFormed db
    × ((n : CoordinatorNews) → N n → contains (news_of (filter is_pending db.news)) n ≡ true)

-- The txids that are listed as speedups when a step begins.
abbrev pub Listed : (CoordinatorNews → Type 0) → Db → Frame
Listed N db = record { listed = λ k. contains db.speedup_list k ≡ true; promised = N }

pub Keeps-step :
    {N : CoordinatorNews → Type 0} {A B : Type 0} (f : Db → A) (k : A → M B)
    → ((db : Db) → IsWellFormed db → Keeps (Within (Listed N db)) (k (f db)))
    → Keeps (Kept N) (reads f >>= k)
Keeps-step f k kf = record {
  at = λ w kept.
      let (wf, stay) =
        (kf w.db kept.0).at w (kept.0, record { in_list = λ x c. c; in_news = kept.1 }) in
      (wf, stay.in_news);
}

-- A part of a tick to which it does not matter what is listed.
abbrev pub Anything : (CoordinatorNews → Type 0) → Frame
Anything N = record { listed = λ k. Unit {0}; promised = N }

pub Keeps-anyhow :
    {N : CoordinatorNews → Type 0} {A : Type 0} (m : M A)
    → Keeps (Within (Anything N)) m
    → Keeps (Kept N) m
Keeps-anyhow m k = record {
  at = λ w kept.
      let (wf, stay) = k.at w (kept.0, record { in_list = λ x c. tt; in_news = kept.1 }) in
      (wf, stay.in_news);
}

pub All-sub {ℓ} :
    {A : Type ℓ} (P : A → Type 0) (p : A → Bool) (xs : List A) → All P xs → All P (filter p xs)
All-sub P p [] all = tt
All-sub P p (x ∷ xs) all = elim (Bool-cases (p x)) [
  | inl on ↦ rw on (all.0, All-sub P p xs all.1)
  | inr off ↦ rw off (All-sub P p xs all.1)
]

some_inj {ℓ} : {A : Type ℓ} {a b : A} → some a ≡ some b → a ≡ b
some_inj e = ground arith

pub find-All {ℓ} :
    {A : Type ℓ} (P : A → Type 0) (p : A → Bool) (xs : List A) (t : A)
    → All P xs
    → find p xs ≡ some t
    → P t
find-All P p [] t all e = absurd (none_some e)
  where
    none_some : none ≡ some t → ⊥
    none_some e = ground arith
find-All P p (x ∷ xs) t all e = elim (Bool-cases (p x)) [
  | inl on ↦ subst P (some_inj (sym (rw on refl) ∙ e)) all.0
  | inr off ↦ find-All P p xs t all.1 (sym (rw off refl) ∙ e)
]

pub resolve-IsSafe :
    (N : CoordinatorNews → Type 0) (db : Db) (ids : List Txid)
    → IsWellFormed db
    → All (IsSafe (Listed N db)) (resolve db ids)
resolve-IsSafe N db [] wf = tt
resolve-IsSafe N db (id ∷ ids) wf = elim (Option-cases (lookup id db.txs)) [
  | inl e ↦ rw (e, resolve) (resolve-IsSafe N db ids wf)
  | inr (t, e) ↦
      rw (e, resolve) (revised-Fits id t t db e refl refl refl wf, resolve-IsSafe N db ids wf)
]

-- The same as a test, for what the scan returns.
abbrev safe_test : Db → CoordinatedTx → Bool
safe_test db t =
    all_once (cpfp_parents t) && (not (contains db.speedup_list t.txid) || is_speedup t)

IsSafe-iff :
    (N : CoordinatorNews → Type 0) (db : Db) (t : CoordinatedTx)
    → (safe_test db t ≡ true) ↔ IsSafe (Listed N db) t
IsSafe-iff N db t = (
  λ e. ((all_once_iff (cpfp_parents t)).0 (ground arith), λ c. ground arith),
  λ s. ground (arith, (all_once_iff (cpfp_parents t)).1 s.0, s.1),
)

pub active-IsSafe :
    (N : CoordinatorNews → Type 0) (scan : Scan) (db : Db)
    → ScansAll scan
    → IsWellFormed db
    → All (IsSafe (Listed N db)) (get_active_txs scan db)
unfolding get_active_txs
active-IsSafe N scan db scans wf = All-sub (IsSafe (Listed N db)) is_active (get_all_txs scan db) (
    All-map (λ t. (IsSafe-iff N db t).0) (scan (values db.txs))
      (scan-All scan (safe_test db) (values db.txs) scans (
        values-All (λ t. safe_test db t ≡ true) db.txs wf.stored
          (λ k t e. (IsSafe-iff N db t).1 (revised-Fits k t t db e refl refl refl wf)))))
