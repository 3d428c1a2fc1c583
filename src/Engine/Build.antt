-- ===== src/Engine/Build.antt =====
-- `build_speedup` of src/engines/speedup_engine.rs and its helpers. The `loop` takes fuel.
pub mod Paid
pub mod Ends
pub mod Fueled
pub mod Restores
pub mod Released
use rust_bitvmx_bitcoin.Common.{
  Bool, List, Option, String, [], add64, drop, false, first, if◌then◌else◌, leb, length, ltb, map,
  nat_eqb, none, not, saturating_sub, some, suc, true, zero, ℕ, ◌&&◌, ◌++◌, ◌==◌, ◌∷◌, nat_eq,
  string_eq,
}
use rust_bitvmx_bitcoin.Types.{
  BlockHeight, CoordinatedTx, F64, FeeInfo, SpeedupContext, SpeedupData, SpeedupKind, Transaction,
  Utxo, cpfp, funding_not_available, in_mempool, insufficient_funds, out_of_fuel, outpoint, rbf,
  speedup, to_dispatch, state_eq, outpoint_eq, news_eq,
}
use rust_bitvmx_bitcoin.Storage.Db.{Db}
use rust_bitvmx_bitcoin.Storage.News.{push_news}
use rust_bitvmx_bitcoin.Storage.Speedups.{get_speedups_ordered, insert_speedup}
use rust_bitvmx_bitcoin.Storage.Funding.{is_speedup_derived}
use rust_bitvmx_bitcoin.Helper.{first_input, has_live_replacement}
use rust_bitvmx_bitcoin.Outside.{transactions}
use rust_bitvmx_bitcoin.World.{
  M, branch, lift, modify, pure, raise, reads, tries, updates, ◌>>=◌, ◌>>◌,
}
use rust_bitvmx_bitcoin.Fee.{compute_speedup_fee, sum64}
use rust_bitvmx_bitcoin.Funding.{get_combine_funding, get_funding, release_marks}
use rust_bitvmx_bitcoin.Engine.Common.{EngineContext, monitor_call}

pub record SpeedupBuildResult : Type 0 where
  pub tx : Transaction
  pub fee : ℕ
  pub capped : Bool
  pub funding_inputs : List Utxo

-- A parent's signing data and its virtual size.
abbrev pub ParentEntry : Type 0
ParentEntry = SpeedupData × ℕ

-- What one call of `build_speedup` is given.
pub record BuildRequest : Type 0 where
  pub parent_entries : List ParentEntry
  pub bump_fee : F64
  pub fee_rate : ℕ
  pub chain_diff_fee : ℕ
  pub is_rbf : Bool
  pub inherited_count : ℕ
  pub primary_is_speedup : Bool

abbrev pub amount_from_speedup_data : SpeedupData → ℕ
amount_from_speedup_data d = elim d.utxo [
  | some u ↦ u.amount
  | none ↦ elim d.partial_utxo [ none ↦ 0 | some p ↦ p.2 ]
]

unfoldable pub make_speedup_context : List Utxo → F64 → List ParentEntry → SpeedupContext
make_speedup_context inputs bump_fee parent_entries = record {
  funding_inputs = inputs;
  replaced_by = none;
  bump_fee_used = bump_fee;
  parent_data = map (λ (e : ParentEntry). (e.0, amount_from_speedup_data e.0, e.1)) parent_entries;
  spent = false;
}

abbrev pub ctx_for_kind : SpeedupKind → String
ctx_for_kind (rbf r i c) = "RBF_TRANSACTION"
ctx_for_kind (cpfp ps c) = "CPFP_TRANSACTION"

-- A speedup that waits in the mempool and is not being replaced.
abbrev pub is_live_in_mempool : List CoordinatedTx → CoordinatedTx → Bool
is_live_in_mempool all_speedups tx =
    tx.state == in_mempool && not (has_live_replacement tx all_speedups)

abbrev pub entries_vbytes : List ParentEntry → ℕ
entries_vbytes es = sum64 (map (λ (e : ParentEntry). e.1) es)

abbrev pub total_amount : List Utxo → ℕ
total_amount us = sum64 (map (λ (u : Utxo). u.amount) us)

module _ (ctx : EngineContext) where
  open ctx use {outside as o, settings}

  abbrev pub build_tx : List ParentEntry → List Utxo → ℕ → M Transaction
  build_tx entries inputs fee = do
    input ← lift (first_input inputs)
    lift (o.speedup_transactions (map (λ (e : ParentEntry). e.0) entries) inputs input.pub_key fee)

  unfoldable pub emit_insufficient_funds : ℕ → ℕ → M (Unit {0})
  emit_insufficient_funds available required =
      modify (push_news (insufficient_funds available required))

  unfoldable pub emit_funding_not_available : M (Unit {0})
  emit_funding_not_available = modify (push_news funding_not_available)

  abbrev pub speedup_fee : BuildRequest → ℕ → ℕ × Bool
  speedup_fee r child_vsize =
      compute_speedup_fee o.floats settings.fee (map (λ (e : ParentEntry). e.1) r.parent_entries)
        child_vsize r.bump_fee r.fee_rate r.is_rbf r.chain_diff_fee

  -- The extra input of a combine, where one is allowed.
  abbrev pub combine : BuildRequest → List Utxo → M (Option Utxo)
  combine r inputs =
      branch (nat_eqb (length inputs) 1 && r.primary_is_speedup) (updates get_combine_funding)
        (pure none)

  abbrev pub give_up : BuildRequest → List Utxo → ℕ → M (Option SpeedupBuildResult)
  give_up r inputs fee = do
    modify (release_marks (drop r.inherited_count inputs))
    emit_insufficient_funds (total_amount inputs) (add64 fee o.max_dust_limit)
    pure none

  -- A round of the `loop` of `build_speedup`, in parts; `again` is the next round, over the two
  -- variables `funding_inputs` and `child_vsize`.
  abbrev pub after_combine :
      (List Utxo → ℕ → M (Option SpeedupBuildResult))
      → BuildRequest
      → List Utxo
      → ℕ
      → Option Utxo
      → M (Option SpeedupBuildResult)
  after_combine again r inputs fee none = give_up r inputs fee
  after_combine again r inputs fee (some u) = again (inputs ++ u ∷ []) 0

  abbrev pub finish :
      (List Utxo → ℕ → M (Option SpeedupBuildResult))
      → List Utxo
      → ℕ
      → ℕ × Bool
      → Transaction
      → M (Option SpeedupBuildResult)
  finish again inputs child_vsize quote final_tx =
      branch (leb (o.bitcoin.vsize final_tx) child_vsize)
        (pure (
          some
            (record { tx = final_tx; fee = quote.0; capped = quote.1; funding_inputs = inputs })))
        (again inputs (o.bitcoin.vsize final_tx))

  abbrev pub sized :
      (List Utxo → ℕ → M (Option SpeedupBuildResult))
      → BuildRequest
      → List Utxo
      → ℕ
      → M (Option SpeedupBuildResult)
  sized again r inputs child_vsize =
      let quote = speedup_fee r child_vsize in
      branch (ltb (saturating_sub (total_amount inputs) quote.0) o.max_dust_limit)
        (combine r inputs >>= after_combine again r inputs quote.0)
        (build_tx r.parent_entries inputs quote.0 >>= finish again inputs child_vsize quote)

  -- The size that a round starts from: the dummy's, where none was measured.
  abbrev pub measured : ℕ → Transaction → ℕ
  measured size dummy = if nat_eqb size 0 then o.bitcoin.vsize dummy else size

  abbrev pub round :
      (List Utxo → ℕ → M (Option SpeedupBuildResult))
      → BuildRequest
      → List Utxo
      → ℕ
      → M (Option SpeedupBuildResult)
  round again r inputs size =
      build_tx r.parent_entries inputs 1 >>= λ dummy. sized again r inputs (measured size dummy)

  unfoldable pub build_loop : ℕ → BuildRequest → List Utxo → ℕ → M (Option SpeedupBuildResult)
  build_loop zero r inputs size = raise out_of_fuel
  build_loop (suc fuel) r inputs size = round (build_loop fuel r) r inputs size

  -- The primary input of an RBF is speedup-derived as the store says.
  abbrev pub is_primary_speedup : List Utxo → Db → Bool
  is_primary_speedup inputs db = elim (first inputs) [
    | none ↦ false
    | some fi ↦ is_speedup_derived (outpoint fi) db
  ]

  unfoldable pub build_speedup :
      ℕ → List ParentEntry → Option (List Utxo) → F64 → ℕ → ℕ → M (Option SpeedupBuildResult)
  unfolding build_loop
  build_speedup fuel entries (some inputs) bump_fee fee_rate chain_diff_fee = do
    primary ← reads (is_primary_speedup inputs)
    build_loop fuel
        (record {
          parent_entries = entries;
          bump_fee = bump_fee;
          fee_rate = fee_rate;
          chain_diff_fee = chain_diff_fee;
          is_rbf = true;
          inherited_count = length inputs;
          primary_is_speedup = primary;
        })
        inputs 0
  build_speedup fuel entries none bump_fee fee_rate chain_diff_fee = do
    all_speedups ← reads get_speedups_ordered
    found ← tries (get_funding all_speedups)
    elim found [
      | none ↦ do emit_funding_not_available; pure none
      | some (utxo, is_speedup_kind) ↦
          build_loop fuel
            (record {
              parent_entries = entries;
              bump_fee = bump_fee;
              fee_rate = fee_rate;
              chain_diff_fee = chain_diff_fee;
              is_rbf = false;
              inherited_count = 0;
              primary_is_speedup = is_speedup_kind;
            })
            (utxo ∷ []) 0
    ]

  abbrev pub speedup_record : Transaction → FeeInfo → SpeedupKind → BlockHeight → CoordinatedTx
  speedup_record tx fee_info kind current_height = record {
    txid = o.bitcoin.compute_txid tx;
    tx = tx;
    kind = speedup kind;
    state = to_dispatch;
    target_block_height = current_height;
    confirmation_trigger = none;
    stuck_in_mempool_blocks = none;
    settled_block_height = none;
    broadcast_block_height = none;
    fail_guard_until = none;
    retry_count = 0;
    fee_info = fee_info;
    context = ctx_for_kind kind;
  }

  unfoldable pub save_speedup : Transaction → FeeInfo → SpeedupKind → BlockHeight → M (Unit {0})
  save_speedup tx fee_info kind current_height = do
    modify (insert_speedup (speedup_record tx fee_info kind current_height))
    monitor_call ctx (transactions (o.bitcoin.compute_txid tx ∷ []) (ctx_for_kind kind) none) false
