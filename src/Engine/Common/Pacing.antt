-- ===== src/Engine/Common/Pacing.antt =====
-- Retry pacing: `apply_retry_rate_limit` of src/engines/common.rs.
use rust_bitvmx_bitcoin.Common.{
  Bool, Bool-cases, List, Option, [], any, ap, arith, false, filter, if◌then◌else◌, inl, inr, last,
  leb, none, not, refl, saturating_sub, some, true, ℕ, ◌&&◌, ◌+◌, ◌<◌, ◌∙◌, ◌∷◌, ◌≡◌, nat_eq,
  string_eq,
}
use rust_bitvmx_bitcoin.Types.{CoordinatedTx, ok, state_eq, outpoint_eq, news_eq}
use rust_bitvmx_bitcoin.Storage.Db.{Db}
use rust_bitvmx_bitcoin.World.{World}
use rust_bitvmx_bitcoin.Outside.{Log, clock_read}
use rust_bitvmx_bitcoin.Engine.Common.{
  EngineContext, apply_retry_rate_limit, is_retry, pace, retry_ready,
}

module _ (ctx : EngineContext) where
  open ctx use {outside as o, settings}

  -- Whether the retry interval has passed since the last retry.
  abbrev pub has_elapsed : World → Bool
  has_elapsed w = elim w.last_retry_at [
    | none ↦ true
    | some last ↦
        leb settings.coordinator.retry_interval_seconds (saturating_sub (o.now_secs w.log) last)
  ]

  -- The world after the first look at the clock, which is taken where a retry was made before.
  abbrev pub after_look : World → World
  after_look w = elim w.last_retry_at [
    | none ↦ w
    | some last ↦ record w { log = clock_read ∷ w.log }
  ]

  ready_at :
      (db : Db) (since : Option ℕ) (log : Log)
      → let w : World = record { db = db; last_retry_at = since; log = log } in
        (retry_ready ctx w ≡ (ok (has_elapsed w), after_look w))
        × ((after_look w).db ≡ db)
        × ((after_look w).last_retry_at ≡ since)
  unfolding retry_ready
  ready_at db none log = (refl, refl, refl)
  ready_at db (some at) log = (refl, refl, refl)

  ready_lem :
      (w : World)
      → (retry_ready ctx w ≡ (ok (has_elapsed w), after_look w))
        × ((after_look w).db ≡ w.db)
        × ((after_look w).last_retry_at ≡ w.last_retry_at)
  ready_lem w = ready_at w.db w.last_retry_at w.log

  abbrev paced : List CoordinatedTx → Bool → World → World
  paced txs ready w =
      if any (is_retry ctx) txs && ready
      then record w { last_retry_at = some (o.now_secs w.log); log = clock_read ∷ w.log }
      else w

  pace_lem :
      (txs : List CoordinatedTx) (ready : Bool) (w : World)
      → pace ctx txs ready w
        ≡ (ok (filter (λ t. if is_retry ctx t then ready else true) txs), paced txs ready w)
  pace_lem txs ready w = elim (Bool-cases (any (is_retry ctx) txs && ready)) [
    | inl e ↦ rw e refl
    | inr e ↦ rw e refl
  ]

  passing :
      (ready : Bool) (txs : List CoordinatedTx)
      → filter (λ t. if is_retry ctx t then ready else true) txs
        ≡ (if ready then txs else filter (λ t. not (is_retry ctx t)) txs)
  passing true [] = refl
  passing false [] = refl
  passing true (t ∷ txs) = ground (arith, passing true txs)
  passing false (t ∷ txs) = ground (arith, passing false txs)

  pacing_lem :
      (txs : List CoordinatedTx) (w : World)
      → apply_retry_rate_limit ctx txs w ≡ (
        ok (if has_elapsed w then txs else filter (λ t. not (is_retry ctx t)) txs),
        paced txs (has_elapsed w) (after_look w),
      )
  unfolding apply_retry_rate_limit
  pacing_lem txs w =
      rw (ready_lem w).0
        (pace_lem txs (has_elapsed w) (after_look w) ∙ rw (passing (has_elapsed w) txs) refl)

  -- The retry clock after the pacing: the clock's answer at the moment of the second look, where
  -- retries pass, and else what it was.
  abbrev pub retry_clock : List CoordinatedTx → World → Option ℕ
  retry_clock txs w =
      if any (is_retry ctx) txs && has_elapsed w
      then some (o.now_secs (after_look w).log)
      else w.last_retry_at

  retries_paced :
      (txs : List CoordinatedTx) (w : World)
      → ((paced txs (has_elapsed w) (after_look w)).db ≡ w.db)
        × ((paced txs (has_elapsed w) (after_look w)).last_retry_at ≡ retry_clock txs w)
  retries_paced txs w = elim (Bool-cases (any (is_retry ctx) txs && has_elapsed w)) [
    | inl e ↦ rw e ((ready_lem w).1, refl)
    | inr e ↦ rw e ((ready_lem w).1, (ready_lem w).2)
  ]

  -- Whether the interval has passed, over the parts of a world.
  abbrev elapsed_since : Option ℕ → ℕ → Bool
  elapsed_since none now = true
  elapsed_since (some last) now =
      leb settings.coordinator.retry_interval_seconds (saturating_sub now last)

  has_elapsed_lem : (w : World) → has_elapsed w ≡ elapsed_since w.last_retry_at (o.now_secs w.log)
  has_elapsed_lem w = ground arith

  -- A retry that was just made closes the gate until the interval is over.
  too_soon :
      (txs : List CoordinatedTx) (w later : World)
      → any (is_retry ctx) txs ≡ true
      → has_elapsed w ≡ true
      → later.last_retry_at ≡ retry_clock txs w
      → o.now_secs later.log
        < o.now_secs (after_look w).log + settings.coordinator.retry_interval_seconds
      → 0 < settings.coordinator.retry_interval_seconds
      → has_elapsed later ≡ false
  too_soon txs w later retries open_gate same soon some_gap =
      let set : later.last_retry_at ≡ some (o.now_secs (after_look w).log) =
        same ∙ rw (retries, open_gate) refl in
      has_elapsed_lem later
      ∙ ap (λ since. elapsed_since since (o.now_secs later.log)) set
      ∙ closed (o.now_secs later.log) (o.now_secs (after_look w).log)
          settings.coordinator.retry_interval_seconds soon some_gap
    where
      closed : (now at gap : ℕ) → now < at + gap → 0 < gap → leb gap (saturating_sub now at) ≡ false
      closed now at gap h some_gap = ground arith

  -- The pacing never fails and changes no stored record. First attempts always pass. Retries pass
  -- all together, in their order among the others, when the retry interval has passed, and otherwise
  -- none passes. The retry clock is set to the time read exactly when retries pass, so that the next
  -- pacing, of any transactions, lets no retry pass while the clock has not moved on by the interval,
  -- where that is not 0.
  pub retry_pacing :
      (txs : List CoordinatedTx) (w : World)
      → let r = apply_retry_rate_limit ctx txs w in
        (r.0 ≡ ok (if has_elapsed w then txs else filter (λ t. not (is_retry ctx t)) txs))
        × ((r.1).db ≡ w.db)
        × ((r.1).last_retry_at ≡ retry_clock txs w)
        × ((next : List CoordinatedTx) (later : World)
            → any (is_retry ctx) txs ≡ true
            → has_elapsed w ≡ true
            → later.last_retry_at ≡ (r.1).last_retry_at
            → o.now_secs later.log
              < o.now_secs (after_look w).log + settings.coordinator.retry_interval_seconds
            → 0 < settings.coordinator.retry_interval_seconds
            → (apply_retry_rate_limit ctx next later).0
              ≡ ok (filter (λ t. not (is_retry ctx t)) next))
  retry_pacing txs w = rw (pacing_lem txs w) (
    refl,
    (retries_paced txs w).0,
    (retries_paced txs w).1,
    λ next later retries open_gate same soon some_gap.
        ap (λ r. r.0) (pacing_lem next later)
        ∙ rw (too_soon txs w later retries open_gate (same ∙ (retries_paced txs w).1) soon some_gap)
            refl,
  )
