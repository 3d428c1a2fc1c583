-- ===== src/Tests/Funds.antt =====
-- Builds that give up.
use rust_bitvmx_bitcoin.Common.{
  All, List, [], arith, false, none, refl, reverse, true, ◌++◌, ◌∷◌, ◌≡◌, ◌⊎◌, nat_eq, string_eq,
}
use rust_bitvmx_bitcoin.Common.Maps.{insert, lookup}
use rust_bitvmx_bitcoin.Types.{CoordinatedTx, in_mempool, ok, state_eq, outpoint_eq, news_eq}
use rust_bitvmx_bitcoin.Config.{f64_one}
use rust_bitvmx_bitcoin.Storage.Funding.{append_funding, read_funding_records}
use rust_bitvmx_bitcoin.Storage.Speedups.{get_speedups_ordered}
use rust_bitvmx_bitcoin.World.{World}
use rust_bitvmx_bitcoin.Fee.{compute_speedup_fee}
use rust_bitvmx_bitcoin.Tests.Data.{child_tx, coin, engine, signing}
use rust_bitvmx_bitcoin.Tests.Storing.{scans_all}
use rust_bitvmx_bitcoin.Tests.Sessions.{new_world}
use rust_bitvmx_bitcoin.Engine.Build.{build_speedup, emit_insufficient_funds}
use rust_bitvmx_bitcoin.Engine.Build.Released.{build_gives_back}
use rust_bitvmx_bitcoin.Funding.{chain_tip, get_funding, queue_funding, set_funding}
use rust_bitvmx_bitcoin.Funding.Handed.{HasOwnFunding}
use rust_bitvmx_bitcoin.Funding.Newest.{IsNoTip, get_funding_newest, is_tip, tip_funding}
use rust_bitvmx_bitcoin.Coordinator.{add_funding}
use rust_bitvmx_bitcoin.Invariant.Session.{
  after, empty_db-IsWellFormed, funded, session-IsWellFormed,
}

-- A deposit that is too small for the fee.
abbrev small_world : World
small_world = after engine (funded (record (coin 50) { amount = 20_000 }) ∷ []) new_world

small-HasOwnFunding : HasOwnFunding small_world.db
unfolding after add_funding set_funding append_funding
small-HasOwnFunding op c = absurd (false_true c)
  where
    false_true : false ≡ true → ⊥
    false_true e = ground arith

build_gives_back_example :
    let r = build_speedup engine 3 ((signing, 100) ∷ []) none f64_one 5 1_000_000 small_world in
    r.1.db ≡ record small_world.db { news = r.1.db.news }
unfolding build_speedup after add_funding set_funding append_funding get_funding chain_tip
    get_speedups_ordered queue_funding read_funding_records lookup insert compute_speedup_fee
    emit_insufficient_funds
build_gives_back_example =
    build_gives_back engine 3 ((signing, 100) ∷ []) none f64_one 5 1_000_000 small_world
      (session-IsWellFormed engine (funded (record (coin 50) { amount = 20_000 }) ∷ []) new_world
        scans_all empty_db-IsWellFormed)
      small-HasOwnFunding refl

-- A CPFP in the mempool, and a younger one that waits for dispatch.
abbrev chain : List CoordinatedTx
chain = record child_tx { state = in_mempool } ∷ record child_tx { txid = 10 } ∷ []

get_funding_newest_example :
    (All (IsNoTip chain) (reverse chain)
      × (get_funding chain small_world.db
          ≡ (ok (queue_funding small_world.db).0, (queue_funding small_world.db).1)))
    ⊎ ((newer : List CoordinatedTx) × (tx : CoordinatedTx) × (older : List CoordinatedTx) × (reverse
            chain
          ≡ newer ++ tx ∷ older)
        × (is_tip chain tx ≡ true)
        × All (IsNoTip chain) newer
        × (get_funding chain small_world.db ≡ tip_funding tx small_world.db))
get_funding_newest_example = get_funding_newest chain small_world.db
