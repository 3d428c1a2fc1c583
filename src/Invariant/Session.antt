-- ===== src/Invariant/Session.antt =====
-- Sessions: the calls of a client of src/coordinator.rs, in any order and number, the restarts of
-- the process among them.
use rust_bitvmx_bitcoin.Common.{
  Bool, List, Option, String, [], any, arith, contains, false, filter, none, refl, some, subst, sym,
  true, ℕ, ◌∷◌, ◌≡◌, nat_eq, string_eq,
}
use rust_bitvmx_bitcoin.Common.Maps.{lookup}
use rust_bitvmx_bitcoin.Types.{
  BlockHeight, CoordinatedTx, CoordinatorNews, FundingData, SpeedupData, Transaction, Txid, Utxo,
  ok, state_eq, outpoint_eq, news_eq,
}
use rust_bitvmx_bitcoin.Storage.Db.{empty_db}
use rust_bitvmx_bitcoin.Storage.Evict.Exact.{ScansAll}
use rust_bitvmx_bitcoin.Storage.WellFormed.{IsWellFormed}
use rust_bitvmx_bitcoin.Outside.{TypesToMonitor}
use rust_bitvmx_bitcoin.World.{M, World, pure, ◌>>=◌}
use rust_bitvmx_bitcoin.World.Keeps.{Keeps, keeps_rules}
use rust_bitvmx_bitcoin.Engine.Common.{EngineContext}
use rust_bitvmx_bitcoin.Coordinator.{
  AckNews, add_funding, coordinator_ack_news, coordinator_cancel, coordinator_dispatch,
  coordinator_monitor, coordinator_news, dispatch_with_speedup, dispatch_without_speedup,
  get_transaction, tick,
}
use rust_bitvmx_bitcoin.Invariant.Tick.{tick-Keeps}
use rust_bitvmx_bitcoin.Invariant.Api.{
  add_funding-Keeps, coordinator_ack_news-Keeps, coordinator_cancel-Keeps,
  coordinator_dispatch-Keeps, dispatch_with_speedup-Keeps, dispatch_without_speedup-Keeps,
  is_ack_of,
}
use rust_bitvmx_bitcoin.Storage.News.{get_news, is_pending, news_of}
use rust_bitvmx_bitcoin.Invariant.Snapshot.{Kept}

-- The public methods with their arguments; `ticked` has the fuel of the `loop` of `build_speedup`.
pub data ApiCall : Type 0 where
  ticked : ℕ → ApiCall
  dispatched_plain : Transaction → String → Option BlockHeight → Option ℕ → Option ℕ → ApiCall
  dispatched_speedup : Transaction → SpeedupData → String → Option BlockHeight → Option ℕ → ApiCall
  dispatched : Transaction → Option SpeedupData → String → Option BlockHeight → Option ℕ → ApiCall
  cancelled_all : TypesToMonitor → ApiCall
  funded : Utxo → ApiCall
  asked_transaction : Txid → ApiCall
  asked_news : ApiCall
  acked_news : AckNews → ApiCall
  watched : TypesToMonitor → ApiCall
  restarted : ApiCall

module _ (ctx : EngineContext) where
  -- A call, of whose result only whether it is an error matters here.
  unfoldable pub serve : ApiCall → M (Unit {0})
  serve (ticked fuel) = tick ctx fuel
  serve (dispatched_plain tx context target trigger stuck) =
      dispatch_without_speedup ctx tx context target trigger stuck
  serve (dispatched_speedup tx d context target trigger) =
      dispatch_with_speedup ctx tx d context target trigger
  serve (dispatched tx d context target trigger) =
      coordinator_dispatch ctx tx d context target trigger
  serve (cancelled_all what) = coordinator_cancel ctx what
  serve (funded utxo) = add_funding ctx utxo
  serve (asked_transaction txid) = get_transaction ctx txid >>= λ status. pure tt
  serve asked_news = coordinator_news ctx >>= λ news. pure tt
  serve (acked_news a) = coordinator_ack_news ctx a
  serve (watched what) = coordinator_monitor ctx what
  -- The field `last_retry_at` is not persisted.
  serve restarted = λ w. (ok tt, record w { last_retry_at = none })

  -- The world after the calls; one that raises leaves what it wrote before.
  unfoldable pub after : List ApiCall → World → World
  unfolding serve
  after [] w = w
  after (c ∷ cs) w = after cs (serve c w).1

-- A call that acknowledges the item.
abbrev pub acks : CoordinatorNews → ApiCall → Bool
acks n (ticked fuel) = false
acks n (dispatched_plain tx context target trigger stuck) = false
acks n (dispatched_speedup tx d context target trigger) = false
acks n (dispatched tx d context target trigger) = false
acks n (cancelled_all what) = false
acks n (funded utxo) = false
acks n (asked_transaction txid) = false
acks n asked_news = false
acks n (acked_news a) = is_ack_of n a
acks n (watched what) = false
acks n restarted = false

module _ (ctx : EngineContext) (N : CoordinatorNews → Type 0)
    (scans : ScansAll ctx.outside.scan) where
  read_news-Keeps : Keeps (Kept N) (coordinator_news ctx >>= λ news. pure tt)
  unfolding coordinator_news
  read_news-Keeps = search keeps_rules depth 12

  serve-Keeps :
      (c : ApiCall)
      → ((n : CoordinatorNews) → N n → acks n c ≡ false)
      → Keeps (Kept N) (serve ctx c)
  unfolding serve
  serve-Keeps (ticked fuel) others = tick-Keeps ctx N scans fuel
  serve-Keeps (dispatched_plain tx context target trigger stuck) others =
      dispatch_without_speedup-Keeps ctx N tx context target trigger stuck
  serve-Keeps (dispatched_speedup tx d context target trigger) others =
      dispatch_with_speedup-Keeps ctx N tx d context target trigger
  serve-Keeps (dispatched tx d context target trigger) others =
      coordinator_dispatch-Keeps ctx N tx d context target trigger
  serve-Keeps (cancelled_all what) others = coordinator_cancel-Keeps ctx N what
  serve-Keeps (funded utxo) others = add_funding-Keeps ctx N utxo
  serve-Keeps (asked_transaction txid) others = search keeps_rules
  serve-Keeps asked_news others = read_news-Keeps
  serve-Keeps (acked_news a) others = coordinator_ack_news-Keeps ctx N a others
  serve-Keeps (watched what) others = search keeps_rules
  serve-Keeps restarted others = record { at = λ w kept. kept }

  after-Kept :
      (calls : List ApiCall) (w : World)
      → ((n : CoordinatorNews) → N n → any (acks n) calls ≡ false)
      → Kept N w.db
      → Kept N (after ctx calls w).db
  unfolding after
  after-Kept [] w others kept = kept
  after-Kept (c ∷ cs) w others kept =
      after-Kept cs (serve ctx c w).1 (λ n p. ground (arith, others n p))
        ((serve-Keeps c (λ n p. ground (arith, others n p))).at w kept)

-- A new store is well formed.
pub empty_db-IsWellFormed : IsWellFormed empty_db
unfolding lookup
empty_db-IsWellFormed = record {
  stored = tt;
  parents_once = λ k t e. absurd (none_some e);
  pending_once = tt;
  listed_once = tt;
  listed_stored = λ k c. absurd (false_true c);
  funding_sound = (λ op r e. absurd (nothing e), λ op c. absurd (false_true c));
  news_once = tt;
}
  where
    none_some : {t : CoordinatedTx} → none ≡ some t → ⊥
    none_some e = ground arith

    nothing : {r : FundingData} → none ≡ some r → ⊥
    nothing e = ground arith

    false_true : false ≡ true → ⊥
    false_true e = ground arith

-- From a state that is well formed every sequence of calls leads to one that is: the public methods
-- with any arguments, ticks with any fuel, and restarts, whatever the node, the monitor and the
-- protocol builder answer and whether the calls return or raise, provided that the backend's scan
-- returns the stored records and no others.
pub session-IsWellFormed :
    (ctx : EngineContext) (calls : List ApiCall) (w : World)
    → ScansAll ctx.outside.scan
    → IsWellFormed w.db
    → IsWellFormed (after ctx calls w).db
session-IsWellFormed ctx calls w scans wf =
    (after-Kept ctx (λ n. ⊥) scans calls w (λ n p. absurd p) (wf, λ n p. absurd p)).0

-- A news item of the coordinator that the client can read stays readable until the client
-- acknowledges it: no sequence of calls without that acknowledgement takes it away, whatever else is
-- acknowledged or reported in between and whether the calls return or raise, from a well-formed
-- state and with a scan that returns the stored records and no others.
pub unacknowledged_news_stays :
    (ctx : EngineContext) (calls : List ApiCall) (w : World) (n : CoordinatorNews)
    → ScansAll ctx.outside.scan
    → IsWellFormed w.db
    → contains (get_news w.db) n ≡ true
    → any (acks n) calls ≡ false
    → contains (get_news (after ctx calls w).db) n ≡ true
unfolding get_news
unacknowledged_news_stays ctx calls w n scans wf shown spared =
    (after-Kept ctx (λ m. m ≡ n) scans calls w
        (λ m e. subst (λ x. any (acks x) calls ≡ false) (sym e) spared)
        (
          wf,
          λ m e.
              subst (λ x. contains (news_of (filter is_pending w.db.news)) x ≡ true) (sym e) shown,
        )).1
      n refl
