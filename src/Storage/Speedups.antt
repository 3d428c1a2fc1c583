-- ===== src/Storage/Speedups.antt =====
-- The ordered list of speedups of src/core/storage.rs.
use rust_bitvmx_bitcoin.Common.{List, [], none, push_new, remove_all, some, ◌∷◌, nat_eq, string_eq}
use rust_bitvmx_bitcoin.Types.{CoordinatedTx, Txid, state_eq, outpoint_eq, news_eq}
use rust_bitvmx_bitcoin.Storage.Db.{Db, get_tx_by_id, insert_tx}

unfoldable pub insert_speedup : CoordinatedTx → Db → Db
unfolding insert_tx
insert_speedup tx db =
    let db' = insert_tx tx db in record db' { speedup_list = push_new db'.speedup_list tx.txid }

-- The records of the listed txids, in the list's order; a txid with no record is skipped.
abbrev pub resolve : Db → List Txid → List CoordinatedTx
resolve db [] = []
resolve db (txid ∷ txids) =
    let rest = resolve db txids in elim (get_tx_by_id txid db) [ none ↦ rest | some tx ↦ tx ∷ rest ]

unfoldable pub get_speedups_ordered : Db → List CoordinatedTx
get_speedups_ordered db = resolve db db.speedup_list

unfoldable pub remove_speedup_from_list : Txid → Db → Db
remove_speedup_from_list txid db = record db { speedup_list = remove_all txid db.speedup_list }
