-- ===== src/Storage/Db.antt =====
-- The persisted state of src/core/storage.rs, one field for each `StoreKey`. A key that was never
-- set reads as the empty list, which is what `unwrap_or_default` gives.
use rust_bitvmx_bitcoin.Common.{
  Bool, List, Option, [], filter, is_some, ◌==◌, ◌||◌, ◌∷◌, nat_eq, string_eq,
}
use rust_bitvmx_bitcoin.Common.Maps.{insert, lookup, values}
use rust_bitvmx_bitcoin.Types.{
  BlockHeight, CoordinatedTx, CoordinatorNews, FundingData, OutPoint, TransactionState, Txid,
  confirmed, failed, finalized, in_mempool, to_dispatch, state_eq, outpoint_eq, news_eq,
}

pub record StoredNewsItem : Type 0 where
  pub news : CoordinatorNews
  pub acked_at_block : Option BlockHeight

pub record Db : Type 0 where
  pub txs : List (Txid × CoordinatedTx)
  pub news : List StoredNewsItem
  pub speedup_list : List Txid
  pub pending_speedup_parents : List Txid
  pub funding_list : List OutPoint
  pub funding : List (OutPoint × FundingData)

abbrev pub empty_db : Db
empty_db = record {
  txs = [];
  news = [];
  speedup_list = [];
  pending_speedup_parents = [];
  funding_list = [];
  funding = [];
}

-- The order in which the backend's prefix scan returns records.
abbrev pub Scan : Type 0
Scan = List CoordinatedTx → List CoordinatedTx

unfoldable pub insert_tx : CoordinatedTx → Db → Db
insert_tx tx db = record db { txs = insert tx.txid tx db.txs }

unfoldable pub insert_txs : List CoordinatedTx → Db → Db
insert_txs [] db = db
insert_txs (tx ∷ txs) db = insert_txs txs (insert_tx tx db)

unfoldable pub update_tx : CoordinatedTx → Db → Db
update_tx tx db = record db { txs = insert tx.txid tx db.txs }

abbrev pub get_tx_by_id : Txid → Db → Option CoordinatedTx
get_tx_by_id tx_id db = lookup tx_id db.txs

abbrev pub exists : Txid → Db → Bool
exists tx_id db = is_some (get_tx_by_id tx_id db)

abbrev pub is_active : CoordinatedTx → Bool
is_active tx = tx.state == to_dispatch || tx.state == in_mempool || tx.state == confirmed

abbrev pub is_terminal : TransactionState → Bool
is_terminal s = s == finalized || s == failed

module _ (scan : Scan) where
  unfoldable pub get_all_txs : Db → List CoordinatedTx
  get_all_txs db = scan (values db.txs)

  unfoldable pub get_by_state : TransactionState → Db → List CoordinatedTx
  unfolding get_all_txs
  get_by_state state db = filter (λ (tx : CoordinatedTx). tx.state == state) (get_all_txs db)

  unfoldable pub get_active_txs : Db → List CoordinatedTx
  unfolding get_all_txs
  get_active_txs db = filter is_active (get_all_txs db)

  unfoldable pub get_settled_txs : Db → List CoordinatedTx
  unfolding get_all_txs
  get_settled_txs db = filter (λ (tx : CoordinatedTx). is_terminal tx.state) (get_all_txs db)
