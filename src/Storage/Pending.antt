-- ===== src/Storage/Pending.antt =====
-- The pending speedup parents of src/core/storage.rs.
pub mod Queue
use rust_bitvmx_bitcoin.Common.{
  Bool, List, Option, [], contains, false, filter, if◌then◌else◌, none, not, push_new, remove_all,
  some, true, ◌++◌, ◌==◌, ◌||◌, ◌∷◌, nat_eq, string_eq,
}
use rust_bitvmx_bitcoin.Types.{
  CoordinatedTx, TransactionState, TxKind, Txid, confirmed, cpfp, failed, finalized, in_mempool,
  needs_speedup, normal, rbf, speedup, state_eq, outpoint_eq, news_eq,
}
use rust_bitvmx_bitcoin.Storage.Db.{Db, get_tx_by_id}

unfoldable pub add_pending_speedup_parent : Txid → Db → Db
add_pending_speedup_parent txid db = record db {
  pending_speedup_parents = push_new db.pending_speedup_parents txid;
}

-- With nothing new to insert the list is not written, which leaves it as it is.
unfoldable pub prepend_pending_speedup_parents : List Txid → Db → Db
prepend_pending_speedup_parents txids db = record db {
  pending_speedup_parents =
      filter (λ id. not (contains db.pending_speedup_parents id)) txids
      ++ db.pending_speedup_parents;
}

unfoldable pub remove_pending_speedup_parent : Txid → Db → Db
remove_pending_speedup_parent txid db = record db {
  pending_speedup_parents = remove_all txid db.pending_speedup_parents;
}

-- The states whose parents `get_pending_speedup_parents` returns.
abbrev pub is_broadcast : TransactionState → Bool
is_broadcast s = s == in_mempool || s == confirmed || s == finalized

-- One round of its loop, on the record of the listed txid.
abbrev pub visit_pending :
    Txid → Option CoordinatedTx → List CoordinatedTx × Db → List CoordinatedTx × Db
visit_pending txid none (live, db) = (live, remove_pending_speedup_parent txid db)
visit_pending txid (some tx) (live, db) =
    if is_broadcast tx.state
    then (live ++ tx ∷ [], db)
    else if tx.state == failed
    then (live, remove_pending_speedup_parent txid db)
    else (live, db)

abbrev pub visit_all_pending : List Txid → List CoordinatedTx × Db → List CoordinatedTx × Db
visit_all_pending [] acc = acc
visit_all_pending (txid ∷ txids) (live, db) =
    visit_all_pending txids (visit_pending txid (get_tx_by_id txid db) (live, db))

-- The scan removes what it prunes, so the new state comes back with the parents.
unfoldable pub get_pending_speedup_parents : Db → List CoordinatedTx × Db
unfolding remove_pending_speedup_parent
get_pending_speedup_parents db = visit_all_pending db.pending_speedup_parents ([], db)

abbrev is_needs_speedup_kind : TxKind → Bool
is_needs_speedup_kind (needs_speedup d) = true
is_needs_speedup_kind normal = false
is_needs_speedup_kind (speedup k) = false

-- `matches!(tx.kind, TxKind::NeedsSpeedup(_))`
abbrev pub is_needs_speedup : CoordinatedTx → Bool
is_needs_speedup tx = is_needs_speedup_kind tx.kind

abbrev cpfp_kind_parents : TxKind → List Txid
cpfp_kind_parents (speedup (cpfp ps c)) = ps
cpfp_kind_parents (speedup (rbf r i c)) = []
cpfp_kind_parents normal = []
cpfp_kind_parents (needs_speedup d) = []

-- The parents of `TxKind::Speedup(SpeedupKind::CPFP { parents, .. })`.
abbrev pub cpfp_parents : CoordinatedTx → List Txid
cpfp_parents tx = cpfp_kind_parents tx.kind

-- The listed txids whose records are `NeedsSpeedup`.
abbrev pub needing_speedup : Db → List Txid → List Txid
needing_speedup db =
    filter λ p. elim (get_tx_by_id p db) [ none ↦ false | some parent ↦ is_needs_speedup parent ]

unfoldable pub requeue_protocol_parents : CoordinatedTx → Db → Db
unfolding prepend_pending_speedup_parents
requeue_protocol_parents failed_cpfp db =
    prepend_pending_speedup_parents (needing_speedup db (cpfp_parents failed_cpfp)) db
