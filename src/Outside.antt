-- ===== src/Outside.antt =====
-- What the coordinator calls and does not implement: the `bitcoin` crate, f64 arithmetic, the
-- transaction monitor, the node's RPC client and the protocol builder. Each is a field of `Outside`,
-- an argument of the definitions that use it. An answer may depend on the log of the
-- calls that change something outside and of the looks at the clock.
use rust_bitvmx_bitcoin.Common.{Bool, List, Option, String, ℕ, nat_eq, string_eq}
use rust_bitvmx_bitcoin.Types.{
  BlockHeight, CoordinatedTx, F64, Result, SpeedupData, Transaction, Txid, Utxo, state_eq,
  outpoint_eq, news_eq,
}

-- The answers of the methods of the monitor's `TransactionStatus`.
pub record TransactionStatus : Type 0 where
  pub is_in_mempool : Bool
  pub is_not_found : Bool
  pub is_confirmed : Bool
  pub is_orphan : Bool
  pub is_finalized : ℕ → Bool

-- `other` stands for the patterns, the spent outputs and the new blocks.
pub data TypesToMonitor : Type 0 where
  transactions : List Txid → String → Option ℕ → TypesToMonitor
  other : ℕ → TypesToMonitor

pub data MonitorNews : Type 0 where
  transaction : Txid → String → MonitorNews
  other_news : ℕ → MonitorNews

-- The calls that can change what is outside, newest first in a log.
pub data Call : Type 0 where
  monitor_ticked clock_read : Call
  sent : Transaction → Call
  monitored : TypesToMonitor → Bool → Call
  cancelled : TypesToMonitor → Call
  acked : ℕ → Call

abbrev pub Log : Type 0
Log = List Call

-- The `bitcoin` crate's functions of a transaction.
pub record TxFunctions : Type 0 where
  pub compute_txid : Transaction → Txid
  pub vsize : Transaction → ℕ
  pub weight : Transaction → ℕ

pub record FloatFunctions : Type 0 where
  pub of_u64 : ℕ → F64
  pub mul : F64 → F64 → F64
  pub ceil : F64 → F64
  pub to_u64 : F64 → ℕ

pub record Outside : Type 0 where
  pub bitcoin : TxFunctions
  pub floats : FloatFunctions
  pub scan : List CoordinatedTx → List CoordinatedTx
  pub max_monitoring_confirmations : ℕ
  pub monitor_tick : Log → Result (Unit {0})
  pub is_ready : Log → Result Bool
  pub get_monitor_height : Log → Result BlockHeight
  pub get_tx_status : Log → Txid → Bool → Result TransactionStatus
  pub get_estimated_fee_rate : Log → Result ℕ
  pub get_tx_confirmations : Log → Txid → Result (Option ℕ)
  pub is_utxo_unspent_rpc : Log → Txid → ℕ → Bool → Result Bool
  pub monitor : Log → TypesToMonitor → Bool → Result (Unit {0})
  pub cancel : Log → TypesToMonitor → Result (Unit {0})
  pub get_news : Log → Result (List MonitorNews)
  pub ack_news : Log → ℕ → Result (Unit {0})
  pub now_secs : Log → ℕ
  pub send_transaction : Log → Transaction → Result (Unit {0})
  pub contains_text : String → String → Bool
  pub max_dust_limit : ℕ
  pub speedup_transactions : List SpeedupData → List Utxo → ℕ → ℕ → Result Transaction
