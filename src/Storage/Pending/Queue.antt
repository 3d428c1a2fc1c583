-- ===== src/Storage/Pending/Queue.antt =====
-- The pending speedup parents of src/core/storage.rs: no duplicates, and what the scan returns.
use rust_bitvmx_bitcoin.Common.{
  All, Bool, Bool-cases, IsUnique, List, Option, [], ap, append-nil, append_assoc, arith, contains,
  contains-append, false, filter, fun_ext, if◌then◌else◌, inl, inr, nat_eqb_iff, none, not,
  push_new-IsUnique, refl, remove_all, remove_all-IsUnique, some, sym, true, ◌&&◌, ◌++◌, ◌==◌, ◌∙◌,
  ◌∷◌, ◌≡◌, nat_eq, string_eq,
}
use rust_bitvmx_bitcoin.Types.{CoordinatedTx, Txid, failed, state_eq, outpoint_eq, news_eq}
use rust_bitvmx_bitcoin.Storage.Db.{Db, get_tx_by_id}
use rust_bitvmx_bitcoin.Storage.Pending.{
  add_pending_speedup_parent, cpfp_parents, get_pending_speedup_parents, is_broadcast,
  prepend_pending_speedup_parents, remove_pending_speedup_parent, requeue_protocol_parents,
  visit_all_pending, visit_pending,
}

contains-filter :
    (p : Txid → Bool) (a : Txid) (l : List Txid) → contains (filter p l) a ≡ (contains l a && p a)
contains-filter p a [] = refl
contains-filter p a (x ∷ l) = ground (arith, contains-filter p a l, nat_eqb_iff x a)

pub IsUnique-filter : (p : Txid → Bool) (l : List Txid) → IsUnique l → IsUnique (filter p l)
IsUnique-filter p [] u = tt
IsUnique-filter p (x ∷ l) u = ground (arith, IsUnique-filter p l, contains-filter p x l)

-- New entries in front of a list.
pub fresh-IsUnique :
    (old xs : List Txid)
    → IsUnique old
    → IsUnique xs
    → IsUnique (filter (λ id. not (contains old id)) xs ++ old)
fresh-IsUnique old [] o u = o
fresh-IsUnique old (x ∷ xs) o u = ground (
  arith,
  fresh-IsUnique old xs o u.1,
  contains-append (filter (λ id. not (contains old id)) xs) old x,
  contains-filter (λ id. not (contains old id)) x xs,
)

abbrev pub HasUniquePending : Db → Type 0
HasUniquePending db = IsUnique db.pending_speedup_parents

abbrev prunable : Option CoordinatedTx → Bool
prunable none = true
prunable (some tx) = not (is_broadcast tx.state) && tx.state == failed

-- A listed parent that has no record or has Failed.
abbrev pub is_pruned : Db → Txid → Bool
is_pruned db txid = prunable (get_tx_by_id txid db)

abbrev broadcast_record : Option CoordinatedTx → List CoordinatedTx → List CoordinatedTx
broadcast_record none rest = rest
broadcast_record (some tx) rest = if is_broadcast tx.state then tx ∷ rest else rest

-- The records of the listed parents that are in the mempool, confirmed or finalized, in order.
abbrev pub broadcast_parents : Db → List Txid → List CoordinatedTx
broadcast_parents db [] = []
broadcast_parents db (txid ∷ txids) =
    broadcast_record (get_tx_by_id txid db) (broadcast_parents db txids)

abbrev kept_after : Db → List Txid → List Txid → List Txid
kept_after db ids = filter λ id. not (contains ids id && is_pruned db id)

remove_all-filter :
    (p q : Txid → Bool) (a : Txid) (l : List Txid)
    → ((x : Txid) → p x ≡ (if a == x then false else q x))
    → filter q (remove_all a l) ≡ filter p l
remove_all-filter p q a [] h = refl
remove_all-filter p q a (x ∷ l) h =
    ground (arith, remove_all-filter p q a l h, h x, nat_eqb_iff x a)

-- What the scan leaves of a list of pending parents.
abbrev prune : Db → List Txid → List Txid → List Txid
prune db [] pending = pending
prune db (id ∷ ids) pending =
    prune db ids (if is_pruned db id then remove_all id pending else pending)

visit_pending_lem :
    (id : Txid) (o : Option CoordinatedTx) (live : List CoordinatedTx) (db : Db)
    → visit_pending id o (live, db) ≡ (
      live ++ broadcast_record o [],
      record db {
        pending_speedup_parents =
            if prunable o
            then remove_all id db.pending_speedup_parents
            else db.pending_speedup_parents;
      },
    )
unfolding remove_pending_speedup_parent
visit_pending_lem id none live db = ground (arith, append-nil live)
visit_pending_lem id (some tx) live db = ground (arith, append-nil live)

broadcast_record-append :
    (o : Option CoordinatedTx) (live rest : List CoordinatedTx)
    → (live ++ broadcast_record o []) ++ rest ≡ live ++ broadcast_record o rest
broadcast_record-append none live rest = rw (append-nil live)
broadcast_record-append (some tx) live rest =
    ground (arith, append-nil live, append_assoc live (tx ∷ []) rest)

visit_all_lem :
    (ids : List Txid) (live : List CoordinatedTx) (db : Db) (pending : List Txid)
    → visit_all_pending ids (live, record db { pending_speedup_parents = pending }) ≡ (
      live ++ broadcast_parents db ids,
      record db { pending_speedup_parents = prune db ids pending },
    )
visit_all_lem [] live db pending = ground (arith, append-nil live)
visit_all_lem (id ∷ ids) live db pending =
    rw
      (visit_pending_lem id (get_tx_by_id id db) live
        (record db { pending_speedup_parents = pending }))
      (visit_all_lem ids _ db _
        ∙ rw (broadcast_record-append (get_tx_by_id id db) live (broadcast_parents db ids)))

kept_after_none : (db : Db) (pending : List Txid) → pending ≡ kept_after db [] pending
kept_after_none db [] = refl
kept_after_none db (x ∷ pending) = ap (λ (l : List Txid). x ∷ l) (kept_after_none db pending)

prune-filter :
    (db : Db) (ids pending : List Txid) → prune db ids pending ≡ kept_after db ids pending
prune-filter db [] pending = kept_after_none db pending
prune-filter db (id ∷ ids) pending = elim (Bool-cases (is_pruned db id)) [
  | inl dead ↦ rw dead (
      prune-filter db ids (remove_all id pending)
      ∙ remove_all-filter _ _ id pending (λ x. ground (arith, nat_eqb_iff id x)))
  | inr alive ↦ rw alive (
      prune-filter db ids pending
      ∙ ap (λ (p : Txid → Bool). filter p pending)
          (fun_ext (λ x. ground (arith, nat_eqb_iff id x))))
]

filter_listed :
    (q : Txid → Bool) (l ys : List Txid)
    → All (λ y. contains l y ≡ true) ys
    → filter (λ id. not (contains l id && q id)) ys ≡ filter (λ id. not (q id)) ys
filter_listed q l [] h = refl
filter_listed q l (y ∷ ys) h = ground (arith, filter_listed q l ys)

pub All-listed : (l pre ys : List Txid) → l ≡ pre ++ ys → All (λ y. contains l y ≡ true) ys
All-listed l pre [] e = tt
All-listed l pre (y ∷ ys) e = (
  rw e (ground (arith, contains-append pre (y ∷ ys) y, nat_eqb_iff y y)),
  All-listed l (pre ++ y ∷ []) ys (e ∙ sym (append_assoc pre (y ∷ []) ys)),
)

-- `get_pending_speedup_parents` returns, in the list's order, the records of the pending parents that
-- are in the mempool, confirmed or finalized. It takes out of the list exactly the parents that have
-- Failed or have no record, and changes nothing else; parents that wait for dispatch stay listed.
pub get_pending_speedup_parents_exact :
    (db : Db)
    → get_pending_speedup_parents db ≡ (
      broadcast_parents db db.pending_speedup_parents,
      record db {
        pending_speedup_parents = filter (λ id. not (is_pruned db id)) db.pending_speedup_parents;
      },
    )
unfolding get_pending_speedup_parents
get_pending_speedup_parents_exact db =
    visit_all_lem db.pending_speedup_parents [] db db.pending_speedup_parents
    ∙ ap
        (λ (l : List Txid). (
          broadcast_parents db db.pending_speedup_parents,
          record db { pending_speedup_parents = l },
        ))
        (prune-filter db db.pending_speedup_parents db.pending_speedup_parents
          ∙ filter_listed (is_pruned db) db.pending_speedup_parents db.pending_speedup_parents
              (All-listed db.pending_speedup_parents [] db.pending_speedup_parents refl))

-- No txid is ever listed twice as pending: registering a parent, putting distinct parents in front,
-- removing one, re-queuing the parents of a failed CPFP whose parents are distinct, and the scan all
-- keep the pending list free of duplicates.
pub pending_unique :
    (txid : Txid) (txids : List Txid) (tx : CoordinatedTx) (db : Db)
    → HasUniquePending db
    → IsUnique txids
    → IsUnique (cpfp_parents tx)
    → HasUniquePending (add_pending_speedup_parent txid db)
      × HasUniquePending (prepend_pending_speedup_parents txids db)
      × HasUniquePending (remove_pending_speedup_parent txid db)
      × HasUniquePending (requeue_protocol_parents tx db)
      × HasUniquePending (get_pending_speedup_parents db).1
unfolding add_pending_speedup_parent remove_pending_speedup_parent requeue_protocol_parents
pending_unique txid txids tx db u ux ut = (
  push_new-IsUnique db.pending_speedup_parents txid u,
  fresh-IsUnique db.pending_speedup_parents txids u ux,
  remove_all-IsUnique txid db.pending_speedup_parents u,
  fresh-IsUnique db.pending_speedup_parents _ u (IsUnique-filter _ (cpfp_parents tx) ut),
  rw (get_pending_speedup_parents_exact db) (IsUnique-filter _ db.pending_speedup_parents u),
)
