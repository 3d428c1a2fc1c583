-- ===== src/Storage/News/Inbox.antt =====
-- The client's view of the news list of src/core/storage.rs through add, ack and cleanup.
use rust_bitvmx_bitcoin.Common.{
  Bool, IsUnique, IsUnique-push, List, [], ap, arith, contains, contains-append, false, filter,
  if◌then◌else◌, leb, none, not, refl, remove_all, remove_all_absent, true, ◌++◌, ◌==◌, ◌||◌, ◌∙◌,
  ◌∷◌, ◌≡◌, nat_eq, string_eq,
}
use rust_bitvmx_bitcoin.Types.{BlockHeight, CoordinatorNews, news_eq, state_eq, outpoint_eq}
use rust_bitvmx_bitcoin.Storage.Db.{Db, StoredNewsItem}
use rust_bitvmx_bitcoin.Storage.News.{
  ack_first, ack_news, add_news, cleanup_news, get_news, has_news, is_pending, keeps_at, news_of,
  push_news,
}

-- No news item is stored twice.
abbrev pub HasUniqueNews : Db → Type 0
HasUniqueNews db = IsUnique (news_of db.news)

pub contains-news_of :
    (n : CoordinatorNews) (l : List StoredNewsItem) → contains (news_of l) n ≡ has_news n l
contains-news_of n [] = refl
contains-news_of n (x ∷ l) = ap (λ b. x.news == n || b) (contains-news_of n l)

news_of-append : (l r : List StoredNewsItem) → news_of (l ++ r) ≡ news_of l ++ news_of r
news_of-append [] r = refl
news_of-append (x ∷ l) r = ap (λ t. x.news ∷ t) (news_of-append l r)

-- Acknowledging a list item by item keeps what is stored.
news_of-ack :
    (n : CoordinatorNews) (h : BlockHeight) (l : List StoredNewsItem)
    → news_of (ack_first n h l) ≡ news_of l
news_of-ack n h [] = refl
news_of-ack n h (x ∷ l) = ground (arith, news_of-ack n h l)

pub contains-filter :
    (p : StoredNewsItem → Bool) (n : CoordinatorNews) (l : List StoredNewsItem)
    → contains (news_of l) n ≡ false
    → contains (news_of (filter p l)) n ≡ false
contains-filter p n [] h = refl
contains-filter p n (x ∷ l) h = ground (arith, contains-filter p n l)

IsUnique-filter :
    (p : StoredNewsItem → Bool) (l : List StoredNewsItem)
    → IsUnique (news_of l)
    → IsUnique (news_of (filter p l))
IsUnique-filter p [] h = tt
IsUnique-filter p (x ∷ l) h = ground (arith, IsUnique-filter p l, contains-filter p x.news l)

add_news-HasUniqueNews :
    (n : CoordinatorNews) (db : Db) → HasUniqueNews db → HasUniqueNews (push_news n db)
unfolding add_news
add_news-HasUniqueNews n db h = ground (
  arith,
  news_of-append db.news (record { news = n; acked_at_block = none } ∷ []),
  IsUnique-push n (news_of db.news),
  contains-news_of n db.news,
)

-- The invariant is kept by every operation on the news list, and `add_news` returns true exactly
-- when the item was not stored.
pub news_unique :
    (n : CoordinatorNews) (h : BlockHeight) (db : Db)
    → HasUniqueNews db
    → HasUniqueNews (push_news n db)
      × HasUniqueNews (ack_news n h db)
      × HasUniqueNews (cleanup_news h db)
      × ((add_news n db).0 ≡ not (has_news n db.news))
unfolding add_news ack_news cleanup_news
news_unique n h db u = (
  add_news-HasUniqueNews n db u,
  rw (news_of-ack n h db.news) u,
  IsUnique-filter (keeps_at h) db.news u,
  ground arith,
)

pub get_news-append :
    (l : List StoredNewsItem) (n : CoordinatorNews)
    → news_of (filter is_pending (l ++ record { news = n; acked_at_block = none } ∷ []))
      ≡ news_of (filter is_pending l) ++ n ∷ []
get_news-append [] n = refl
get_news-append (x ∷ l) n = ground (arith, get_news-append l n)

-- A new item appears last in what the client reads; an item that is stored already, acknowledged or
-- not, changes nothing.
pub get_news-add_news :
    (n : CoordinatorNews) (db : Db)
    → get_news (push_news n db)
      ≡ (if has_news n db.news then get_news db else get_news db ++ n ∷ [])
unfolding add_news get_news
get_news-add_news n db = ground (arith, get_news-append db.news n)

-- What is reported later takes no pending item away.
pub pending-push_news :
    (n m : CoordinatorNews) (db : Db)
    → contains (news_of (filter is_pending db.news)) m ≡ true
    → contains (news_of (filter is_pending (push_news n db).news)) m ≡ true
unfolding add_news
pending-push_news n m db c = ground (
  arith,
  get_news-append db.news n,
  contains-append (news_of (filter is_pending db.news)) (n ∷ []) m,
)

pub pending-cleanup :
    (h : BlockHeight) (l : List StoredNewsItem)
    → filter is_pending (filter (keeps_at h) l) ≡ filter is_pending l
pending-cleanup h [] = refl
pending-cleanup h (x ∷ l) = ground (arith, pending-cleanup h l)

-- Cleanup never changes what the client reads.
pub get_news-cleanup_news : (h : BlockHeight) (db : Db) → get_news (cleanup_news h db) ≡ get_news db
unfolding cleanup_news get_news
get_news-cleanup_news h db = ap news_of (pending-cleanup h db.news)

pub ack-pending :
    (n : CoordinatorNews) (h : BlockHeight) (l : List StoredNewsItem)
    → IsUnique (news_of l)
    → news_of (filter is_pending (ack_first n h l)) ≡ remove_all n (news_of (filter is_pending l))
ack-pending n h [] u = refl
ack-pending n h (x ∷ l) u = ground (
  arith,
  ack-pending n h l,
  contains-filter is_pending n l,
  remove_all_absent n (news_of (filter is_pending l)),
  news_eq.tests_equality x.news n,
)

-- Acknowledging takes exactly that item out of what the client reads.
pub get_news-ack_news :
    (n : CoordinatorNews) (h : BlockHeight) (db : Db)
    → HasUniqueNews db
    → get_news (ack_news n h db) ≡ remove_all n (get_news db)
unfolding ack_news get_news
get_news-ack_news n h db u = ack-pending n h db.news u

has_news-filter :
    (p : StoredNewsItem → Bool) (n : CoordinatorNews) (l : List StoredNewsItem)
    → has_news n l ≡ false
    → has_news n (filter p l) ≡ false
has_news-filter p n [] h = refl
has_news-filter p n (x ∷ l) h = ground (arith, has_news-filter p n l)

pending-stored :
    (n : CoordinatorNews) (l : List StoredNewsItem)
    → contains (news_of (filter is_pending l)) n ≡ true
    → has_news n l ≡ true
pending-stored n [] h = h
pending-stored n (x ∷ l) h = ground (arith, pending-stored n l)

-- Once acknowledged, an item survives the cleanups up to that block and no later one.
acked_until :
    (n : CoordinatorNews) (h k : BlockHeight) (l : List StoredNewsItem)
    → IsUnique (news_of l)
    → contains (news_of (filter is_pending l)) n ≡ true
    → has_news n (filter (keeps_at k) (ack_first n h l)) ≡ leb k h
acked_until n h k [] u c = cc
acked_until n h k (x ∷ l) u c = ground (
  arith,
  acked_until n h k l,
  has_news-filter (keeps_at k) n l,
  contains-news_of n l,
  pending-stored n l,
  news_eq.tests_equality x.news n,
)

stored_after_ack :
    (n : CoordinatorNews) (h k : BlockHeight) (db : Db)
    → HasUniqueNews db
    → contains (get_news db) n ≡ true
    → has_news n (cleanup_news k (ack_news n h db)).news ≡ leb k h
unfolding cleanup_news ack_news get_news
stored_after_ack n h k db u c = acked_until n h k db.news u c

-- A client that acknowledged an item at block `h` does not see it again while cleanups run for
-- blocks up to `h`, even if it is reported again; after a cleanup for a later block a new report of
-- it is shown, last. All other items are shown as before.
pub readd_after_ack :
    (n : CoordinatorNews) (h k : BlockHeight) (db : Db)
    → HasUniqueNews db
    → contains (get_news db) n ≡ true
    → get_news (push_news n (cleanup_news k (ack_news n h db)))
      ≡ (if leb k h then remove_all n (get_news db) else remove_all n (get_news db) ++ n ∷ [])
readd_after_ack n h k db u c =
    get_news-add_news n (cleanup_news k (ack_news n h db))
    ∙ rw (
      stored_after_ack n h k db u c,
      get_news-cleanup_news k (ack_news n h db),
      get_news-ack_news n h db u,
    )
