-- ===== src/Tests/Sessions.antt =====
-- Sessions from a new store.
use rust_bitvmx_bitcoin.Common.{
  List, [], contains, derived_eqb, false, none, refl, some, true, ◌∷◌, ◌≡◌, nat_eq, string_eq,
}
use rust_bitvmx_bitcoin.Common.Maps.{lookup}
use rust_bitvmx_bitcoin.Types.{
  ℕ_discrete, CoordinatorNews, CoordinatorNews-discrete, Utxo, err, funding_not_available,
  invalid_funding_utxo, monitor_error, state_eq, outpoint_eq, news_eq,
}
use rust_bitvmx_bitcoin.Storage.Db.{empty_db}
use rust_bitvmx_bitcoin.Storage.WellFormed.{IsWellFormed}
use rust_bitvmx_bitcoin.World.{World}
use rust_bitvmx_bitcoin.Tests.Data.{coin, engine, outside, seen, signing, spending, store, world}
use rust_bitvmx_bitcoin.Tests.Storing.{scans_all, store_news}
use rust_bitvmx_bitcoin.Invariant.Session.{
  ApiCall, acked_news, after, dispatched, empty_db-IsWellFormed, funded, restarted, serve,
  session-IsWellFormed, ticked, unacknowledged_news_stays,
}
use rust_bitvmx_bitcoin.Storage.Speedups.{get_speedups_ordered}
use rust_bitvmx_bitcoin.Engine.Speedup.{any_to_dispatch, boost_if_stale, create_cpfp_batch}
use rust_bitvmx_bitcoin.Invariant.Growth.{GrowsByOne}
use rust_bitvmx_bitcoin.Invariant.Single.{one_speedup_at_a_time}
use rust_bitvmx_bitcoin.Coordinator.{add_funding, coordinator_ack, coordinator_dispatch}
use rust_bitvmx_bitcoin.Funding.{set_funding}
use rust_bitvmx_bitcoin.Storage.News.{add_news, get_news}
use rust_bitvmx_bitcoin.Engine.Common.{EngineContext, network_fee_rate}
use rust_bitvmx_bitcoin.Invariant.Errors.{HasBooksOf, failed_calls_leave}
use rust_bitvmx_bitcoin.Storage.News.Refines.{
  InboxCall, acknowledge, all_do, all_perform, clean, inbox_of, inbox_refined, report,
}

abbrev pub new_world : World
new_world = record { db = empty_db; last_retry_at = none; log = [] }

-- A funded parent that needs a speedup is registered and sent, and covered by a CPFP.
abbrev a_session : List ApiCall
a_session =
    funded (coin 50)
    ∷ dispatched (spending 1 400) (some signing) "test" none none
    ∷ ticked 4
    ∷ restarted
    ∷ ticked 4
    ∷ []

session-IsWellFormed_example : IsWellFormed (after engine a_session new_world).db
session-IsWellFormed_example =
    session-IsWellFormed engine a_session new_world scans_all empty_db-IsWellFormed

-- A registered parent that has no CPFP yet.
abbrev uncovered : World
uncovered =
    after engine
      (funded (coin 50) ∷ dispatched (spending 1 400) (some signing) "test" none none ∷ [])
      new_world

one_speedup_at_a_time_example :
    GrowsByOne uncovered.db.speedup_list (boost_if_stale engine 4 false uncovered).1.db.speedup_list
    × GrowsByOne uncovered.db.speedup_list (create_cpfp_batch engine 4 uncovered).1.db.speedup_list
    × (any_to_dispatch (get_speedups_ordered uncovered.db) ≡ true
        → ((boost_if_stale engine 4 false uncovered).1 ≡ uncovered)
          × ((create_cpfp_batch engine 4 uncovered).1.db.speedup_list ≡ uncovered.db.speedup_list))
one_speedup_at_a_time_example = one_speedup_at_a_time engine 4 false uncovered (
    session-IsWellFormed engine
      (funded (coin 50) ∷ dispatched (spending 1 400) (some signing) "test" none none ∷ [])
      new_world scans_all empty_db-IsWellFormed)

-- A deposit below the minimum is reported.
abbrev dust : Utxo
dust = record (coin 60) { amount = 1 }

abbrev dust_news : CoordinatorNews
dust_news = invalid_funding_utxo 1 10_000

abbrev noted : World
noted = after engine (funded dust ∷ []) new_world

dust_shown : contains (get_news noted.db) dust_news ≡ true
unfolding after add_funding set_funding add_news get_news derived_eqb CoordinatorNews-discrete
    ℕ_discrete
dust_shown = refl

unacknowledged_news_stays_example :
    contains
      (get_news
        (after engine (acked_news (coordinator_ack funding_not_available) ∷ a_session) noted).db)
      dust_news
    ≡ true
unfolding derived_eqb CoordinatorNews-discrete
unacknowledged_news_stays_example =
    unacknowledged_news_stays engine
      (acked_news (coordinator_ack funding_not_available) ∷ a_session) noted dust_news scans_all
      (session-IsWellFormed engine (funded dust ∷ []) new_world scans_all empty_db-IsWellFormed)
      dust_shown refl

-- A monitor that follows nothing.
abbrev deaf_engine : EngineContext
deaf_engine = record engine {
  outside = record outside { monitor = λ log what search. err (monitor_error "down") };
}

abbrev a_registration : ApiCall
a_registration = dispatched (spending 1 400) (some signing) "test" none none

failed_calls_leave_example :
    HasBooksOf store (serve deaf_engine a_registration world).1.db
    × (false ≡ false → (serve deaf_engine a_registration world).1.db ≡ store)
unfolding serve coordinator_dispatch lookup network_fee_rate
failed_calls_leave_example =
    failed_calls_leave deaf_engine a_registration world (monitor_error "down") refl refl

-- The item that was hidden until block 90 is reported again: it is not shown before a cleanup.
abbrev news_calls : List InboxCall
news_calls =
    report funding_not_available
    ∷ acknowledge seen 110
    ∷ clean 111
    ∷ report funding_not_available
    ∷ []

inbox_refined_example : inbox_of (all_perform news_calls store) ≡ all_do news_calls (inbox_of store)
inbox_refined_example = inbox_refined news_calls store store_news
