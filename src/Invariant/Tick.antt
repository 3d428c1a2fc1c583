-- ===== src/Invariant/Tick.antt =====
-- A whole tick (src/coordinator.rs) keeps the state well formed, whether it returns or raises.
use rust_bitvmx_bitcoin.Common.{ℕ, nat_eq, string_eq}
use rust_bitvmx_bitcoin.Types.{BlockHeight, CoordinatorNews, state_eq, outpoint_eq, news_eq}
use rust_bitvmx_bitcoin.Storage.News.{cleanup_news}
use rust_bitvmx_bitcoin.Storage.Evict.Exact.{ScansAll}
use rust_bitvmx_bitcoin.Storage.WellFormed.Operations.{cleanup_news-Within}
use rust_bitvmx_bitcoin.World.{modify}
use rust_bitvmx_bitcoin.World.Keeps.{Keeps, Keeps-modify, keeps_rules}
use rust_bitvmx_bitcoin.Engine.Common.{EngineContext}
use rust_bitvmx_bitcoin.Invariant.Snapshot.{Anything, Keeps-anyhow, Kept}
use rust_bitvmx_bitcoin.Coordinator.{tick, tick_steps}
use rust_bitvmx_bitcoin.Invariant.Review.{review_active-Keeps, review_speedups-Keeps}
use rust_bitvmx_bitcoin.Invariant.Sending.{dispatch_pending-Keeps, dispatch_pending_speedups-Keeps}
use rust_bitvmx_bitcoin.Invariant.Build.{boost_if_stale-Keeps}
use rust_bitvmx_bitcoin.Invariant.Batch.{create_cpfp_batch-Keeps}

module _ (ctx : EngineContext) (N : CoordinatorNews → Type 0)
    (scans : ScansAll ctx.outside.scan) where
  open ctx use {outside as o, settings}

  cleaned-Keeps : (h : BlockHeight) → Keeps (Kept N) (modify (cleanup_news h))
  cleaned-Keeps h =
      Keeps-anyhow (modify (cleanup_news h))
        (Keeps-modify (cleanup_news h) (cleanup_news-Within (Anything N) h))

  tick_steps-Keeps : (fuel : ℕ) → Keeps (Kept N) (tick_steps ctx fuel)
  unfolding tick_steps
  tick_steps-Keeps fuel =
      search
        (
          keeps_rules, cleaned-Keeps, review_active-Keeps, review_speedups-Keeps,
          dispatch_pending-Keeps, dispatch_pending_speedups-Keeps, boost_if_stale-Keeps,
          create_cpfp_batch-Keeps, scans,
        )
        depth 20

  pub tick-Keeps : (fuel : ℕ) → Keeps (Kept N) (tick ctx fuel)
  unfolding tick
  tick-Keeps fuel = search (keeps_rules, tick_steps-Keeps) depth 12
