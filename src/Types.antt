-- ===== src/Types.antt =====
-- src/types.rs and src/errors.rs: the records that the coordinator keeps and the news it reports.
-- A `Txid` and a public key are numbers that are only compared; an f64 is its 64-bit pattern.
-- Of `bitcoin::Transaction` and of the protocol builder's types the fields are those that this
-- repository reads; `body` stands for the rest (scripts, witnesses, version, lock time).
use rust_bitvmx_bitcoin.Common.{
  ℕ, String, Bool, true, Option, List, ◌≡◌, ◌↔◌, Eq, derived, nat_eqb, ◌&&◌, arith, String-discrete,
}
unfoldable pub use native.Mathlib.Decide.{ℕ_discrete}

abbrev pub Txid : Type 0
Txid = ℕ

abbrev pub BlockHeight : Type 0
BlockHeight = ℕ

abbrev pub F64 : Type 0
F64 = ℕ

pub record OutPoint : Type 0 where
  pub txid : Txid
  pub vout : ℕ

pub record Utxo : Type 0 where
  pub txid : Txid
  pub vout : ℕ
  pub amount : ℕ
  pub pub_key : ℕ

-- `OutPoint::new(utxo.txid, utxo.vout)`
abbrev pub outpoint : Utxo → OutPoint
outpoint u = record { txid = u.txid; vout = u.vout }

pub record TxOut : Type 0 where
  pub value : ℕ

pub record Transaction : Type 0 where
  pub input : List OutPoint
  pub output : List TxOut
  pub body : ℕ

-- `partial_utxo` is `(txid, vout, amount)`.
pub record SpeedupData : Type 0 where
  pub utxo : Option Utxo
  pub partial_utxo : Option (Txid × ℕ × ℕ)
  pub body : ℕ

pub data TransactionState : Type 0 where
  to_dispatch in_mempool confirmed finalized failed : TransactionState

pub record FeeInfo : Type 0 where
  pub fee : ℕ
  pub fee_rate : ℕ
  pub package_fee_rate : ℕ
  pub weight : ℕ

pub record SpeedupContext : Type 0 where
  pub funding_inputs : List Utxo
  pub replaced_by : Option Txid
  pub bump_fee_used : F64
  pub parent_data : List (SpeedupData × ℕ × ℕ)
  pub spent : Bool

pub data SpeedupKind : Type 0 where
  cpfp : List Txid → SpeedupContext → SpeedupKind
  rbf : Txid → List Utxo → SpeedupContext → SpeedupKind

pub data TxKind : Type 0 where
  normal : TxKind
  needs_speedup : SpeedupData → TxKind
  speedup : SpeedupKind → TxKind

pub record CoordinatedTx : Type 0 where
  pub txid : Txid
  pub tx : Transaction
  pub kind : TxKind
  pub state : TransactionState
  pub target_block_height : BlockHeight
  pub confirmation_trigger : Option ℕ
  pub stuck_in_mempool_blocks : Option ℕ
  pub settled_block_height : Option BlockHeight
  pub broadcast_block_height : Option BlockHeight
  pub fail_guard_until : Option BlockHeight
  pub retry_count : ℕ
  pub fee_info : FeeInfo
  pub context : String

pub record FundingData : Type 0 where
  pub utxo : Utxo
  pub spent : Bool
  pub from_speedup : Bool

-- The texts that `classify_cancel_request` writes, with the values that they show.
pub data CancelReason : Type 0 where
  not_in_storage : CancelReason
  kind_not_cancellable : TxKind → CancelReason
  already_dispatched : TransactionState → CancelReason

pub data CoordinatorNews : Type 0 where
  tx_not_found : Txid → CoordinatorNews
  invalid_state_transition : Txid → TransactionState → TransactionState → CoordinatorNews
  estimate_feerate_too_high : ℕ → ℕ → CoordinatorNews
  invalid_funding_utxo : ℕ → ℕ → CoordinatorNews
  funding_not_available : CoordinatorNews
  transaction_stuck_in_mempool : Txid → String → CoordinatorNews
  dispatch_error : Txid → String → CoordinatorNews
  transaction_evicted : Txid → String → CoordinatorNews
  insufficient_funds : ℕ → ℕ → CoordinatorNews
  speedup_dispatch_error : Txid → String → CoordinatorNews
  max_fee_rate_reached : Txid → ℕ → String → CoordinatorNews
  invalid_cancel : Txid → CancelReason → CoordinatorNews

-- The messages that `format!` fills in are kept by their fixed text. `panicked` is an index out of
-- range; `out_of_fuel` is no error of the program: it stands for a loop that has not ended.
pub data Error : Type 0 where
  invalid_configuration monitor_error storage_backend_error bitcoin_client_error : String → Error
  protocol_builder_error key_manager_error internal invariant_violation : String → Error
  panicked out_of_fuel : Error

pub data Result {ℓ} (A : Type ℓ) : Type ℓ where
  ok : A → Result A
  err : Error → Result A

abbrev pub rank : TransactionState → ℕ
rank to_dispatch = 0
rank in_mempool = 1
rank confirmed = 2
rank finalized = 3
rank failed = 4

abbrev pub state_eqb : TransactionState → TransactionState → Bool
state_eqb a b = nat_eqb (rank a) (rank b)

pub state_eqb_iff : (a b : TransactionState) → (state_eqb a b ≡ true) ↔ (a ≡ b)
state_eqb_iff a b = ground arith

abbrev pub outpoint_eqb : OutPoint → OutPoint → Bool
outpoint_eqb a b = nat_eqb a.txid b.txid && nat_eqb a.vout b.vout

pub outpoint_eqb_iff : (a b : OutPoint) → (outpoint_eqb a b ≡ true) ↔ (a ≡ b)
outpoint_eqb_iff a b = ground arith

unfoldable pub CoordinatorNews-discrete : Discrete CoordinatorNews
CoordinatorNews-discrete = hlevel (ℕ_discrete, String-discrete)

instance abbrev pub state_eq : Eq TransactionState
state_eq = record { test = state_eqb; tests_equality = state_eqb_iff }

instance abbrev pub outpoint_eq : Eq OutPoint
outpoint_eq = record { test = outpoint_eqb; tests_equality = outpoint_eqb_iff }

instance abbrev pub news_eq : Eq CoordinatorNews
news_eq = derived CoordinatorNews-discrete
