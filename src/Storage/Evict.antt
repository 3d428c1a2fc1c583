-- ===== src/Storage/Evict.antt =====
-- `evict_stale_txs` of src/core/storage.rs.
pub mod Exact
use rust_bitvmx_bitcoin.Common.{
  Bool, List, [], contains, false, if◌then◌else◌, leb, none, not, saturating_sub, some, ℕ, ◌&&◌,
  ◌++◌, ◌==◌, ◌||◌, ◌∷◌, nat_eq, string_eq,
}
use rust_bitvmx_bitcoin.Types.{
  BlockHeight, CoordinatedTx, Txid, failed, finalized, transaction_evicted, state_eq, outpoint_eq,
  news_eq,
}
use rust_bitvmx_bitcoin.Config.{CoordinatorStorageSettings}
use rust_bitvmx_bitcoin.Storage.Db.{Db, Scan, get_settled_txs}
use rust_bitvmx_bitcoin.Storage.News.{add_news, push_news}
use rust_bitvmx_bitcoin.Storage.Speedups.{get_speedups_ordered}
use rust_bitvmx_bitcoin.Storage.Records.{remove_tx}
use rust_bitvmx_bitcoin.Storage.Pending.{cpfp_parents, is_needs_speedup}

-- The parents that a speedup which is neither Failed nor Finalized covers.
abbrev pub live_covered : List CoordinatedTx → List Txid
live_covered [] = []
live_covered (s ∷ ss) =
    let rest = live_covered ss in
    if s.state == failed || s.state == finalized then rest else cpfp_parents s ++ rest

abbrev pub is_protected : List Txid → List Txid → CoordinatedTx → Bool
is_protected psp covered tx =
    is_needs_speedup tx && (contains psp tx.txid || contains covered tx.txid)

-- Settled for at least `max_tracking` blocks.
abbrev pub is_stale : ℕ → BlockHeight → CoordinatedTx → Bool
is_stale max_tracking current tx = elim tx.settled_block_height [
  | none ↦ false
  | some h ↦ leb max_tracking (saturating_sub current h)
]

abbrev pub evict_one : CoordinatedTx → Db → Db
evict_one tx db = push_news (transaction_evicted tx.txid tx.context) (remove_tx tx.txid db)

unfoldable pub evict_loop : ℕ → BlockHeight → List Txid → List Txid → List CoordinatedTx → Db → Db
evict_loop max_tracking current psp covered [] db = db
evict_loop max_tracking current psp covered (tx ∷ txs) db =
    evict_loop max_tracking current psp covered txs (
      if is_stale max_tracking current tx && not (is_protected psp covered tx)
      then evict_one tx db
      else db)

unfoldable pub evict_stale_txs : Scan → CoordinatorStorageSettings → BlockHeight → Db → Db
unfolding get_settled_txs get_speedups_ordered evict_loop
evict_stale_txs scan settings current_height db =
    evict_loop settings.max_tracking_confirmations current_height db.pending_speedup_parents
      (live_covered (get_speedups_ordered db)) (get_settled_txs scan db) db
