-- ===== src/Storage/News.antt =====
-- The news list of src/core/storage.rs.
pub mod Inbox
pub mod Refines
use rust_bitvmx_bitcoin.Common.{
  Bool, List, [], any, false, filter, if◌then◌else◌, is_some, leb, none, not, some, true, ◌&&◌,
  ◌++◌, ◌==◌, ◌∷◌, nat_eq, string_eq,
}
use rust_bitvmx_bitcoin.Types.{BlockHeight, CoordinatorNews, state_eq, outpoint_eq, news_eq}
use rust_bitvmx_bitcoin.Storage.Db.{Db, StoredNewsItem}

abbrev pub has_news : CoordinatorNews → List StoredNewsItem → Bool
has_news news = any (λ (item : StoredNewsItem). item.news == news)

-- The stored item is new exactly when the answer is true.
unfoldable pub add_news : CoordinatorNews → Db → Bool × Db
add_news news db =
    if has_news news db.news
    then (false, db)
    else (true, record db { news = db.news ++ record { news = news; acked_at_block = none } ∷ [] })

-- `add_news(..)?` as a statement.
abbrev pub push_news : CoordinatorNews → Db → Db
push_news news db = (add_news news db).1

abbrev pub is_pending : StoredNewsItem → Bool
is_pending item = not (is_some item.acked_at_block)

abbrev pub news_of : List StoredNewsItem → List CoordinatorNews
news_of [] = []
news_of (item ∷ items) = item.news ∷ news_of items

unfoldable pub get_news : Db → List CoordinatorNews
get_news db = news_of (filter is_pending db.news)

-- The loop of `ack_news`, up to its `break`.
abbrev pub ack_first : CoordinatorNews → BlockHeight → List StoredNewsItem → List StoredNewsItem
ack_first news h [] = []
ack_first news h (item ∷ items) =
    let rest = ack_first news h items in
    if is_pending item && item.news == news
    then record item { acked_at_block = some h } ∷ items
    else item ∷ rest

unfoldable pub ack_news : CoordinatorNews → BlockHeight → Db → Db
ack_news news current_height db = record db { news = ack_first news current_height db.news }

-- `item.acked_at_block.is_none_or(|h| h >= current_height)`
abbrev pub keeps_at : BlockHeight → StoredNewsItem → Bool
keeps_at current item = elim item.acked_at_block [ none ↦ true | some h ↦ leb current h ]

unfoldable pub cleanup_news : BlockHeight → Db → Db
cleanup_news current_height db = record db { news = filter (keeps_at current_height) db.news }
