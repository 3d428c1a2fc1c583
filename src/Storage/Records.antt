-- ===== src/Storage/Records.antt =====
-- Removal and the guarded state transitions of src/core/storage.rs. A call that is refused stores a
-- news item and returns normally; only a wrong use of the terminal states is an error.
pub mod Transitions
use rust_bitvmx_bitcoin.Common.{
  Option, add32, if◌then◌else◌, is_some, none, not, some, ℕ, ◌&&◌, nat_eq, string_eq,
}
use rust_bitvmx_bitcoin.Common.Maps.{delete}
use rust_bitvmx_bitcoin.Types.{
  BlockHeight, CoordinatedTx, Result, TransactionState, Txid, err, internal,
  invalid_state_transition, ok, to_dispatch, tx_not_found, state_eq, outpoint_eq, news_eq,
}
use rust_bitvmx_bitcoin.Storage.Db.{Db, get_tx_by_id, is_terminal, update_tx}
use rust_bitvmx_bitcoin.Storage.News.{add_news, push_news}
use rust_bitvmx_bitcoin.Storage.Speedups.{remove_speedup_from_list}
use rust_bitvmx_bitcoin.Helper.{can_transition_to}

unfoldable pub remove_tx : Txid → Db → Db
unfolding remove_speedup_from_list
remove_tx tx_id db = remove_speedup_from_list tx_id (record db { txs = delete tx_id db.txs })

-- The lookup and the transition test that the operations below share.
unfoldable pub guarded : Txid → TransactionState → (CoordinatedTx → CoordinatedTx) → Db → Db
unfolding update_tx add_news can_transition_to
guarded tx_id new_state change db = elim (get_tx_by_id tx_id db) [
  | none ↦ push_news (tx_not_found tx_id) db
  | some tx ↦
      if can_transition_to tx.state new_state
      then update_tx (change tx) db
      else push_news (invalid_state_transition tx_id tx.state new_state) db
]

abbrev pub moved : TransactionState → Option BlockHeight → CoordinatedTx → CoordinatedTx
moved new_state block_height tx = record tx {
  state = new_state;
  settled_block_height = if is_terminal new_state then block_height else tx.settled_block_height;
}

unfoldable pub update_tx_state_impl :
    Txid → TransactionState → Option BlockHeight → Db → Result (Unit {0}) × Db
unfolding guarded
update_tx_state_impl tx_id new_state block_height db =
    if is_terminal new_state && not (is_some block_height)
    then (err (internal "settle_tx must be used for terminal states (Finalized/Failed)"), db)
    else (ok tt, guarded tx_id new_state (moved new_state block_height) db)

unfoldable pub update_tx_state : Txid → TransactionState → Db → Result (Unit {0}) × Db
unfolding update_tx_state_impl
update_tx_state tx_id new_state = update_tx_state_impl tx_id new_state none

-- `get_or_insert`
abbrev pub get_or_insert : Option ℕ → ℕ → Option ℕ
get_or_insert none n = some n
get_or_insert (some m) n = some m

unfoldable pub requeue_not_found : Txid → BlockHeight → Db → Db
unfolding guarded
requeue_not_found tx_id guard_deadline = guarded tx_id to_dispatch λ tx. record tx {
  state = to_dispatch;
  fail_guard_until = get_or_insert tx.fail_guard_until guard_deadline;
}

unfoldable pub settle_tx : Txid → TransactionState → BlockHeight → Db → Result (Unit {0}) × Db
unfolding update_tx_state_impl
settle_tx tx_id new_state block_height db =
    if not (is_terminal new_state)
    then (err (internal "settle_tx must only be called with Finalized or Failed"), db)
    else update_tx_state_impl tx_id new_state (some block_height) db

unfoldable pub mark_as_retry : Txid → Db → Db
unfolding guarded
mark_as_retry tx_id =
    guarded tx_id to_dispatch
      λ tx. record tx { state = to_dispatch; retry_count = add32 tx.retry_count 1 }
