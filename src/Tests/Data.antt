-- ===== src/Tests/Data.antt =====
-- Values that the concrete runs share: transactions in several states, a store and the settings.
use rust_bitvmx_bitcoin.Common.{
  List, [], false, map, none, some, true, ℕ, ◌-◌, ◌/◌, ◌∷◌, nat_eq, string_eq,
}
use rust_bitvmx_bitcoin.Types.{
  BlockHeight, CoordinatedTx, CoordinatorNews, FeeInfo, SpeedupContext, SpeedupData, Transaction,
  TransactionState, TxKind, Txid, Utxo, cpfp, failed, funding_not_available, in_mempool,
  insufficient_funds, needs_speedup, normal, ok, outpoint, speedup, to_dispatch, state_eq,
  outpoint_eq, news_eq,
}
use rust_bitvmx_bitcoin.Config.{default_settings, f64_one}
use rust_bitvmx_bitcoin.Storage.Db.{Db}
use rust_bitvmx_bitcoin.Outside.{FloatFunctions, Outside, TransactionStatus, TxFunctions}
use rust_bitvmx_bitcoin.Fee.{sum64}
use rust_bitvmx_bitcoin.World.{World}
use rust_bitvmx_bitcoin.Engine.Common.{EngineContext}
use rust_bitvmx_bitcoin.Engine.Build.{BuildRequest}

abbrev pub coin : ℕ → Utxo
coin n = record { txid = n; vout = 0; amount = 50_000; pub_key = 1 }

abbrev pub spending : Txid → ℕ → Transaction
spending parent weight = record {
  input = record { txid = parent; vout = 0 } ∷ [];
  output = record { value = 40_000 } ∷ [];
  body = weight;
}

abbrev pub no_fee : FeeInfo
no_fee = record { fee = 0; fee_rate = 0; package_fee_rate = 3; weight = 0 }

abbrev pub signing : SpeedupData
signing = record { utxo = some (coin 1); partial_utxo = none; body = 0 }

abbrev pub tracked : Txid → TxKind → TransactionState → CoordinatedTx
tracked id kind state = record {
  txid = id;
  tx = spending 1 400;
  kind = kind;
  state = state;
  target_block_height = 100;
  confirmation_trigger = none;
  stuck_in_mempool_blocks = none;
  settled_block_height = none;
  broadcast_block_height = some 100;
  fail_guard_until = none;
  retry_count = 0;
  fee_info = no_fee;
  context = "test";
}

abbrev pub settled_at : BlockHeight → CoordinatedTx → CoordinatedTx
settled_at h tx = record tx { settled_block_height = some h }

abbrev pub child_context : SpeedupContext
child_context = record {
  funding_inputs = coin 50 ∷ [];
  replaced_by = none;
  bump_fee_used = f64_one;
  parent_data = (signing, 30, 100) ∷ [];
  spent = false;
}

-- 7 waits for a speedup and is in the mempool, 8 is a plain transaction that failed long ago, 9 is a
-- CPFP for 7 that waits for dispatch.
abbrev pub parent_tx : CoordinatedTx
parent_tx = tracked 7 (needs_speedup signing) in_mempool

abbrev pub failed_tx : CoordinatedTx
failed_tx = settled_at 100 (tracked 8 normal failed)

abbrev pub child_tx : CoordinatedTx
child_tx = tracked 9 (speedup (cpfp (7 ∷ []) child_context)) to_dispatch

abbrev pub seen : CoordinatorNews
seen = insufficient_funds 3 4

abbrev pub store : Db
store = record {
  txs = (7, parent_tx) ∷ (8, failed_tx) ∷ (9, child_tx) ∷ [];
  news =
      record { news = seen; acked_at_block = none }
      ∷ record { news = funding_not_available; acked_at_block = some 90 }
      ∷ [];
  speedup_list = 9 ∷ [];
  pending_speedup_parents = 8 ∷ 7 ∷ 11 ∷ [];
  funding_list = outpoint (coin 50) ∷ outpoint (coin 51) ∷ [];
  funding =
      (outpoint (coin 50), record { utxo = coin 50; spent = true; from_speedup = false })
      ∷ (outpoint (coin 51), record { utxo = coin 51; spent = false; from_speedup = false })
      ∷ [];
}

-- A transaction's virtual size and weight are read off its `body`.
abbrev pub sizes : TxFunctions
sizes = record { compute_txid = λ tx. tx.body; vsize = λ tx. tx.body / 4; weight = λ tx. tx.body }

-- Multipliers that are 1, on bit patterns that stand for their integer.
abbrev pub whole : FloatFunctions
whole = record { of_u64 = λ n. n; mul = λ n m. n; ceil = λ n. n; to_u64 = λ n. n }

-- A node and a monitor that accept everything: 7 is in the mempool, all else is unknown to them. The
-- builder spends what it is given into one output.
abbrev pub in_pool : TransactionStatus
in_pool = record {
  is_in_mempool = true;
  is_not_found = false;
  is_confirmed = false;
  is_orphan = false;
  is_finalized = λ n. false;
}

abbrev pub change_of : List Utxo → ℕ → Transaction
change_of us fee = record {
  input = map outpoint us;
  output = record { value = sum64 (map (λ (u : Utxo). u.amount) us) - fee } ∷ [];
  body = 600;
}

abbrev pub outside : Outside
outside = record {
  bitcoin = sizes;
  floats = whole;
  scan = λ l. l;
  max_monitoring_confirmations = 6;
  monitor_tick = λ log. ok tt;
  is_ready = λ log. ok true;
  get_monitor_height = λ log. ok 110;
  get_tx_status = λ log id search. ok in_pool;
  get_estimated_fee_rate = λ log. ok 5;
  get_tx_confirmations = λ log id. ok none;
  is_utxo_unspent_rpc = λ log id vout mempool. ok true;
  monitor = λ log what search. ok tt;
  cancel = λ log what. ok tt;
  get_news = λ log. ok [];
  ack_news = λ log n. ok tt;
  now_secs = λ log. 1000;
  send_transaction = λ log tx. ok tt;
  contains_text = λ a b. false;
  max_dust_limit = 546;
  speedup_transactions = λ ds us key fee. ok (change_of us fee);
}

abbrev pub engine : EngineContext
engine = record { outside = outside; settings = default_settings }

abbrev pub world : World
world = record { db = store; last_retry_at = none; log = [] }

abbrev pub request : BuildRequest
request = record {
  parent_entries = (signing, 100) ∷ [];
  bump_fee = f64_one;
  fee_rate = 5;
  chain_diff_fee = 0;
  is_rbf = false;
  inherited_count = 0;
  primary_is_speedup = false;
}

abbrev pub heavy : CoordinatedTx
heavy = record (tracked 30 normal to_dispatch) { tx = spending 1 500_000 }
