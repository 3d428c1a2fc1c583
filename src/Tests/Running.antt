-- ===== src/Tests/Running.antt =====
-- Runs of the dispatcher, the engines and the coordinator.
use rust_bitvmx_bitcoin.Common.{
  All, [], arith, false, none, refl, subst, ◌&&◌, ◌+◌, ◌/◌, ◌==◌, ◌||◌, ◌∷◌, ◌≡◌, ◌≤◌, nat_eq,
  string_eq,
}
use rust_bitvmx_bitcoin.Common.Maps.{lookup}
use rust_bitvmx_bitcoin.Types.{
  Error, Transaction, Txid, err, ok, out_of_fuel, state_eq, outpoint_eq, news_eq,
}
use rust_bitvmx_bitcoin.Config.{default_dispatcher_settings}
use rust_bitvmx_bitcoin.Tests.Data.{
  change_of, child_tx, coin, engine, heavy, outside, parent_tx, request, sizes, store, world,
}
use rust_bitvmx_bitcoin.Storage.Speedups.{get_speedups_ordered}
use rust_bitvmx_bitcoin.Storage.Records.Transitions.{IsKeyed}
use rust_bitvmx_bitcoin.Fee.{compute_speedup_fee}
use rust_bitvmx_bitcoin.Dispatcher.{dispatch, fatal, success, validate_txs}
use rust_bitvmx_bitcoin.Dispatcher.Sends.{Sent, dispatch_sends, validate_txs_partition}
use rust_bitvmx_bitcoin.Dispatcher.Answers.{Names, dispatch_answers}
use rust_bitvmx_bitcoin.Engine.Failure.{cascade, depends_on, is_to_dispatch}
use rust_bitvmx_bitcoin.Engine.Failure.Shrink.{Shrinks}
use rust_bitvmx_bitcoin.Engine.Failure.Cascade.{cascade_complete}
use rust_bitvmx_bitcoin.Engine.Build.{SpeedupBuildResult, build_loop}
use rust_bitvmx_bitcoin.Engine.Build.Paid.{Pays, build_loop-Pays}
use rust_bitvmx_bitcoin.Engine.Build.Ends.{IsBounded}
use rust_bitvmx_bitcoin.Engine.Build.Fueled.{HasOwnErrors, build_loop_ends}
use rust_bitvmx_bitcoin.Coordinator.{cancel_transactions}
use rust_bitvmx_bitcoin.Coordinator.Cancel.{after_cancel, cancel_exact}

store-IsKeyed : IsKeyed store.txs
unfolding lookup
store-IsKeyed k t h = ground arith

cascade_complete_example :
    let r = cascade parent_tx 110 false world in
    (r.0 ≡ ok tt)
    × Shrinks store (r.1).db
    × All
        (λ s. (is_to_dispatch s && (s.txid == 7 || depends_on parent_tx s)) ≡ false)
        (get_speedups_ordered (r.1).db)
cascade_complete_example = cascade_complete parent_tx 110 false world store-IsKeyed

dispatch_sends_example :
    Sent outside default_dispatcher_settings world
      (dispatch outside default_dispatcher_settings (parent_tx ∷ child_tx ∷ []) world).1
dispatch_sends_example =
    dispatch_sends outside default_dispatcher_settings (parent_tx ∷ child_tx ∷ []) world

dispatch_answers_example :
    All (Names (parent_tx ∷ child_tx ∷ [])) ((7, success) ∷ (9, success) ∷ [])
unfolding dispatch lookup
dispatch_answers_example =
    dispatch_answers outside default_dispatcher_settings (parent_tx ∷ child_tx ∷ []) world
      ((7, success) ∷ (9, success) ∷ []) refl

validate_txs_partition_example :
    validate_txs sizes default_dispatcher_settings (parent_tx ∷ heavy ∷ [])
    ≡ (parent_tx ∷ [], (30, fatal "transaction weight exceeds max") ∷ [])
validate_txs_partition_example =
    validate_txs_partition sizes default_dispatcher_settings (parent_tx ∷ heavy ∷ [])

cancel_exact_example :
    let r = cancel_transactions engine (7 ∷ 8 ∷ 9 ∷ []) "ctx" none world in
    (r.0 ≡ ok tt
      → (k : Txid) → lookup k (r.1).db.txs ≡ after_cancel (7 ∷ 8 ∷ 9 ∷ []) k (lookup k store.txs))
    × ((e : Error) → r.0 ≡ err e → (r.1).db.txs ≡ store.txs)
cancel_exact_example = cancel_exact engine (7 ∷ 8 ∷ 9 ∷ []) "ctx" none world

abbrev built : SpeedupBuildResult
built = record {
  tx = change_of (coin 51 ∷ []) 1150;
  fee = 1150;
  capped = false;
  funding_inputs = coin 51 ∷ [];
}

build_loop-Pays_example : Pays engine request built
unfolding build_loop compute_speedup_fee
build_loop-Pays_example = build_loop-Pays engine 3 request (coin 51 ∷ []) 0 world built refl

outside-IsBounded : IsBounded engine 150
outside-IsBounded ds us key fee tx e =
    let same : change_of us fee ≡ tx = ground arith in
    subst (λ (t : Transaction). t.body / 4 ≤ 150) same (omega arith)

outside-HasOwnErrors : HasOwnErrors engine
outside-HasOwnErrors ds us key fee e = ground arith

build_loop_ends_example :
    ¬ ((build_loop engine 302 request (coin 51 ∷ []) 0 world).0 ≡ err out_of_fuel)
    × (build_loop engine (40 + 302) request (coin 51 ∷ []) 0 world
        ≡ build_loop engine 302 request (coin 51 ∷ []) 0 world)
build_loop_ends_example =
    build_loop_ends engine 150 request 302 40 (coin 51 ∷ []) 0 world outside-IsBounded
      outside-HasOwnErrors (omega arith, λ one. omega arith, omega arith)
