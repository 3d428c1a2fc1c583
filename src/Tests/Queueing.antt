-- ===== src/Tests/Queueing.antt =====
-- Runs of the pacing of retries, of the batches, of the funding queue and of the speedup engine.
use rust_bitvmx_bitcoin.Common.{
  All, List, Option, String, [], any, arith, false, filter, is_empty, length, none, not, refl, some,
  true, ℕ, ◌++◌, ◌+◌, ◌<◌, ◌∷◌, ◌≡◌, ◌≤◌, ◌⊎◌, nat_eq, string_eq,
}
use rust_bitvmx_bitcoin.Common.Maps.{insert, lookup}
use rust_bitvmx_bitcoin.Types.{
  BlockHeight, CoordinatedTx, OutPoint, Transaction, TxKind, needs_speedup, ok, outpoint, state_eq,
  outpoint_eq, news_eq,
}
use rust_bitvmx_bitcoin.Config.{default_dispatcher_settings, default_settings}
use rust_bitvmx_bitcoin.Tests.Data.{
  child_context, child_tx, coin, engine, heavy, parent_tx, signing, sizes, spending, store, world,
}
use rust_bitvmx_bitcoin.Storage.Db.{Db}
use rust_bitvmx_bitcoin.Storage.Funding.{finalize_change, read_funding_records, set_spent}
use rust_bitvmx_bitcoin.Storage.Funding.Finalize.{finalize_change_exact, record_after}
use rust_bitvmx_bitcoin.World.{World}
use rust_bitvmx_bitcoin.Dispatcher.{batch_by_weight}
use rust_bitvmx_bitcoin.Dispatcher.Packing.{IsPacked}
use rust_bitvmx_bitcoin.Dispatcher.Batches.{IsLight, batches_hold, concat}
use rust_bitvmx_bitcoin.Engine.Common.{apply_retry_rate_limit, is_retry, network_fee_rate}
use rust_bitvmx_bitcoin.Engine.Common.Pacing.{has_elapsed, retry_pacing}
use rust_bitvmx_bitcoin.Funding.{clear_funding, get_combine_funding, queue_funding}
use rust_bitvmx_bitcoin.Funding.Once.{IsFundingKeyed, combined, funding_handed_out_once, primary}
use rust_bitvmx_bitcoin.Coordinator.{register_tx}
use rust_bitvmx_bitcoin.Coordinator.Register.{Registered, registration_sticks}
use rust_bitvmx_bitcoin.Funding.Sound.{IsSound}
use rust_bitvmx_bitcoin.Funding.Calls.{
  FundingCall, after_calls, combining, funded, funding_queue_holds, released, replaced,
}

abbrev two_coins : Db
two_coins = record store {
  funding =
      (outpoint (coin 50), record { utxo = coin 50; spent = false; from_speedup = false })
      ∷ (outpoint (coin 51), record { utxo = coin 51; spent = false; from_speedup = false })
      ∷ [];
}

-- A first attempt and a retry.
abbrev attempts : List CoordinatedTx
attempts = parent_tx ∷ record child_tx { retry_count = 1 } ∷ []

retry_pacing_example :
    let r = apply_retry_rate_limit engine attempts world in
    (r.0 ≡ ok attempts)
    × ((r.1).db ≡ store)
    × ((r.1).last_retry_at ≡ some 1000)
    × ((next : List CoordinatedTx) (later : World)
        → any (is_retry engine) attempts ≡ true
        → has_elapsed engine world ≡ true
        → later.last_retry_at ≡ (r.1).last_retry_at
        → engine.outside.now_secs later.log
          < 1000 + engine.settings.coordinator.retry_interval_seconds
        → 0 < engine.settings.coordinator.retry_interval_seconds
        → (apply_retry_rate_limit engine next later).0
          ≡ ok (filter (λ t. not (is_retry engine t)) next))
retry_pacing_example = retry_pacing engine attempts world

batches_hold_example :
    let batches = batch_by_weight sizes default_dispatcher_settings (parent_tx ∷ heavy ∷ []) 1 in
    ((rest : List CoordinatedTx) × (concat batches ++ rest ≡ parent_tx ∷ heavy ∷ [])
      × ((is_empty rest ≡ true) ⊎ (length batches ≡ 1)))
    × (length batches ≤ 1)
    × All (IsLight sizes default_dispatcher_settings.max_tx_weight 1) batches
    × IsPacked sizes default_dispatcher_settings.max_tx_weight batches
batches_hold_example = batches_hold sizes default_dispatcher_settings (parent_tx ∷ heavy ∷ []) 1

finalize_change_exact_example :
    let r = finalize_change child_tx child_context (coin 9) store in
    (r.funding_list ≡ outpoint (coin 9) ∷ outpoint (coin 51) ∷ [])
    × ((op : OutPoint) → lookup op r.funding ≡ record_after child_context (coin 9) store op)
finalize_change_exact_example = finalize_change_exact child_tx child_context (coin 9) store

two_coins-IsFundingKeyed : IsFundingKeyed two_coins
unfolding lookup
two_coins-IsFundingKeyed op rec h = ground arith

funding_handed_out_once_example : ¬ (outpoint (coin 50) ≡ outpoint (coin 51))
unfolding queue_funding get_combine_funding set_spent read_funding_records lookup insert
funding_handed_out_once_example =
    funding_handed_out_once primary combined two_coins (coin 50) (coin 51) two_coins-IsFundingKeyed
      refl refl

abbrev fresh_tx : Transaction
fresh_tx = spending 1 480

registration_sticks_example :
    let kind = needs_speedup signing in
    let w' = (register_tx engine fresh_tx kind "ctx" none (some 3) none world).1 in
    Registered engine fresh_tx kind w'.db
    × ((kind' : TxKind) (context' : String) (target' : Option BlockHeight)
          (trigger' stuck' : Option ℕ)
        → register_tx engine fresh_tx kind' context' target' trigger' stuck' w' ≡ (ok tt, w'))
unfolding lookup register_tx network_fee_rate
registration_sticks_example =
    registration_sticks engine fresh_tx (needs_speedup signing) "ctx" none (some 3) none world refl
      refl

store-IsSound : IsSound store
unfolding lookup
store-IsSound = (λ op rec h. ground arith, λ op h. ground arith)

abbrev some_calls : List FundingCall
some_calls =
    combining ∷ funded default_settings.funding (coin 60) ∷ replaced 9 ∷ released child_tx ∷ []

funding_queue_holds_example :
    IsSound (after_calls some_calls store)
    × ((op : OutPoint) → lookup op (clear_funding (after_calls some_calls store)).funding ≡ none)
funding_queue_holds_example = funding_queue_holds some_calls store store-IsSound
