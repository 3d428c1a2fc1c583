-- ===== src/Storage/News/Refines.antt =====
-- The news list of src/core/storage.rs as an implementation of an inbox: items that are shown, in the
-- order of their reports, and items that are hidden until some block.
use rust_bitvmx_bitcoin.Common.{
  Bool, Bool-cases, IsUnique, List, Option, [], ap, arith, contains, false, filter, fun_ext,
  if◌then◌else◌, inl, inr, is_some, leb, none, refl, remove_all, remove_all_absent, some, sym, true,
  ◌&&◌, ◌++◌, ◌==◌, ◌||◌, ◌∙◌, ◌∷◌, ◌≡◌, nat_eq, string_eq,
}
use rust_bitvmx_bitcoin.Types.{
  BlockHeight, CoordinatorNews, funding_not_available, news_eq, state_eq, outpoint_eq,
}
use rust_bitvmx_bitcoin.Storage.Db.{Db, StoredNewsItem}
use rust_bitvmx_bitcoin.Storage.News.{
  ack_first, ack_news, add_news, cleanup_news, has_news, is_pending, keeps_at, news_of, push_news,
}
use rust_bitvmx_bitcoin.Storage.News.Inbox.{
  HasUniqueNews, ack-pending, contains-filter, contains-news_of, get_news-append, news_unique,
  pending-cleanup,
}

-- What a client may rely on, without the list behind it.
pub record Inbox : Type 0 where
  pub shown : List CoordinatorNews
  pub hidden : CoordinatorNews → Option BlockHeight

pub data InboxCall : Type 0 where
  report : CoordinatorNews → InboxCall
  acknowledge : CoordinatorNews → BlockHeight → InboxCall
  clean : BlockHeight → InboxCall

-- A report of an item that is shown or hidden changes nothing, any other is shown last. An
-- acknowledgement hides a shown item, at its block. A cleanup forgets what was hidden before its block.
abbrev pub does : InboxCall → Inbox → Inbox
does (report n) box =
    if contains box.shown n || is_some (box.hidden n)
    then box
    else record box { shown = box.shown ++ n ∷ [] }
does (acknowledge n h) box =
    if contains box.shown n
    then record {
      shown = remove_all n box.shown;
      hidden = λ m. if n == m then some h else box.hidden m;
    }
    else box
does (clean h) box = record box {
  hidden = λ m. elim (box.hidden m) [ none ↦ none | some k ↦ if leb h k then some k else none ];
}

abbrev pub performs : InboxCall → Db → Db
performs (report n) db = push_news n db
performs (acknowledge n h) db = ack_news n h db
performs (clean h) db = cleanup_news h db

-- The block of the acknowledgement, where there is one.
abbrev pub hidden_in : List StoredNewsItem → CoordinatorNews → Option BlockHeight
hidden_in [] n = none
hidden_in (item ∷ items) n =
    let rest = hidden_in items n in if item.news == n then item.acked_at_block else rest

-- The inbox that the stored list stands for.
abbrev pub inbox_of : Db → Inbox
inbox_of db = record { shown = news_of (filter is_pending db.news); hidden = hidden_in db.news }

abbrev pub all_do : List InboxCall → Inbox → Inbox
all_do [] box = box
all_do (c ∷ cs) box = all_do cs (does c box)

abbrev pub all_perform : List InboxCall → Db → Db
all_perform [] db = db
all_perform (c ∷ cs) db = all_perform cs (performs c db)

-- Stored is shown or hidden.
has_news_split :
    (n : CoordinatorNews) (l : List StoredNewsItem)
    → IsUnique (news_of l)
    → has_news n l ≡ (contains (news_of (filter is_pending l)) n || is_some (hidden_in l n))
has_news_split n [] u = refl
has_news_split n (x ∷ l) u = ground (
  arith,
  has_news_split n l u.1,
  contains-news_of n l,
  contains-filter is_pending n l,
  news_eq.tests_equality x.news n,
)

hidden_in-append :
    (n m : CoordinatorNews) (l : List StoredNewsItem)
    → hidden_in (l ++ record { news = n; acked_at_block = none } ∷ []) m ≡ hidden_in l m
hidden_in-append n m [] = ground arith
hidden_in-append n m (x ∷ l) = ground (arith, hidden_in-append n m l)

hidden_in_new :
    (n : CoordinatorNews) (l : List StoredNewsItem)
    → contains (news_of l) n ≡ false
    → hidden_in l n ≡ none
hidden_in_new n [] e = refl
hidden_in_new n (x ∷ l) e = ground (arith, hidden_in_new n l)

hidden_in-ack :
    (n m : CoordinatorNews) (h : BlockHeight) (l : List StoredNewsItem)
    → IsUnique (news_of l)
    → hidden_in (ack_first n h l) m
      ≡ (if contains (news_of (filter is_pending l)) n && n == m then some h else hidden_in l m)
hidden_in-ack n m h [] u = refl
hidden_in-ack n m h (x ∷ l) u = ground (
  arith,
  hidden_in-ack n m h l u.1,
  contains-filter is_pending n l,
  contains-news_of n l,
  news_eq.tests_equality x.news n,
  news_eq.tests_equality x.news m,
  news_eq.tests_equality n m,
)

hidden_in-cleanup :
    (m : CoordinatorNews) (h : BlockHeight) (l : List StoredNewsItem)
    → IsUnique (news_of l)
    → hidden_in (filter (keeps_at h) l) m
      ≡ elim (hidden_in l m) [ none ↦ none | some k ↦ if leb h k then some k else none ]
hidden_in-cleanup m h [] u = refl
hidden_in-cleanup m h (x ∷ l) u = ground (
  arith,
  hidden_in-cleanup m h l u.1,
  hidden_in_new m l,
  contains-filter (keeps_at h) m l,
  news_eq.tests_equality x.news m,
)

inbox_ext :
    (a b : Inbox) → a.shown ≡ b.shown → ((n : CoordinatorNews) → a.hidden n ≡ b.hidden n) → a ≡ b
inbox_ext a b shown hidden =
    ap (λ s. record { shown = s; hidden = a.hidden }) shown
    ∙ ap (λ f. record { shown = b.shown; hidden = f }) (fun_ext hidden)

reported :
    (n : CoordinatorNews) (db : Db)
    → HasUniqueNews db
    → inbox_of (push_news n db) ≡ does (report n) (inbox_of db)
unfolding add_news
reported n db once = by_test (has_news n db.news) (has_news_split n db.news once)
  where
    -- The two tests agree.
    by_test :
        (b : Bool)
        → b ≡ (contains (news_of (filter is_pending db.news)) n || is_some (hidden_in db.news n))
        → (let added : Bool × Db = if b then (false, db) else (
          true,
          record db { news = db.news ++ record { news = n; acked_at_block = none } ∷ [] },
        ) in
            inbox_of added.1 ≡ does (report n) (inbox_of db))
    by_test true e = rw (sym e) refl
    by_test false e =
        rw (sym e) (inbox_ext _ _ (get_news-append db.news n) (λ m. hidden_in-append n m db.news))

acknowledged :
    (n : CoordinatorNews) (h : BlockHeight) (db : Db)
    → HasUniqueNews db
    → inbox_of (ack_news n h db) ≡ does (acknowledge n h) (inbox_of db)
unfolding ack_news
acknowledged n h db once = elim (Bool-cases (contains (news_of (filter is_pending db.news)) n)) [
  | inl shown ↦ rw shown (
      inbox_ext _ _ (ack-pending n h db.news once)
        (λ m. hidden_in-ack n m h db.news once ∙ rw shown refl))
  | inr gone ↦ rw gone (
      inbox_ext _ _
        (ack-pending n h db.news once
          ∙ remove_all_absent n (news_of (filter is_pending db.news)) gone)
        (λ m. hidden_in-ack n m h db.news once ∙ rw gone refl))
]

cleaned :
    (h : BlockHeight) (db : Db)
    → HasUniqueNews db
    → inbox_of (cleanup_news h db) ≡ does (clean h) (inbox_of db)
unfolding cleanup_news
cleaned h db once =
    inbox_ext _ _ (ap news_of (pending-cleanup h db.news)) (λ m. hidden_in-cleanup m h db.news once)

step_refined :
    (c : InboxCall) (db : Db)
    → HasUniqueNews db
    → (inbox_of (performs c db) ≡ does c (inbox_of db)) × HasUniqueNews (performs c db)
step_refined (report n) db once = (reported n db once, (news_unique n 0 db once).0)
step_refined (acknowledge n h) db once = (acknowledged n h db once, (news_unique n h db once).1)
step_refined (clean h) db once =
    (cleaned h db once, (news_unique funding_not_available h db once).2)

-- The stored list does what an inbox does: after any sequence of reports, acknowledgements and
-- cleanups, in any order, on a list without duplicates, what it shows, in order, and what it hides
-- until which block, is what the inbox that it stood for at first shows and hides after the same sequence.
pub inbox_refined :
    (calls : List InboxCall) (db : Db)
    → HasUniqueNews db
    → inbox_of (all_perform calls db) ≡ all_do calls (inbox_of db)
inbox_refined [] db once = refl
inbox_refined (c ∷ cs) db once =
    let (same, kept) = step_refined c db once in
    inbox_refined cs (performs c db) kept ∙ ap (all_do cs) same
