-- ===== src/Dispatcher.antt =====
-- src/core/dispatcher.rs: batching by weight, the checks before a broadcast, and the broadcast.
pub mod Sends
pub mod Answers
pub mod Packing
pub mod Batches
use rust_bitvmx_bitcoin.Common.{
  Bool, List, Option, String, [], add64, false, find, if◌then◌else◌, is_empty, leb, length, ltb,
  none, not, some, true, ℕ, ◌&&◌, ◌++◌, ◌||◌, ◌∷◌, nat_eq, string_eq,
}
use rust_bitvmx_bitcoin.Types.{
  CoordinatedTx, Error, OutPoint, Result, Txid, err, internal, ok, state_eq, outpoint_eq, news_eq,
}
use rust_bitvmx_bitcoin.Config.{DispatcherSettings}
use rust_bitvmx_bitcoin.Storage.Db.{Db}
use rust_bitvmx_bitcoin.Storage.Funding.{is_tx_failed, is_tx_known}
use rust_bitvmx_bitcoin.Helper.{parents}
use rust_bitvmx_bitcoin.Outside.{Outside, TxFunctions, sent}
use rust_bitvmx_bitcoin.World.{M, ask, attempt, branch, call, pure, reads, ◌>>=◌, ◌>>◌}

pub data DispatchOutcome : Type 0 where
  success : DispatchOutcome
  fatal : String → DispatchOutcome
  parent_failed : Txid → DispatchOutcome
  broadcast_error : Error → DispatchOutcome

-- The loop of `batch_by_weight` over its three variables. A batch is flushed before the parent that
-- would make it too heavy.
unfoldable pub batch_loop :
    TxFunctions
    → ℕ
    → ℕ
    → List CoordinatedTx
    → List (List CoordinatedTx)
    → List CoordinatedTx
    → ℕ
    → List (List CoordinatedTx) × List CoordinatedTx
batch_loop b max_tx_weight max_batches [] batches current current_weight = (batches, current)
batch_loop b max_tx_weight max_batches (parent ∷ rest) batches current current_weight =
    let weight = b.weight parent.tx in
    let flush = not (is_empty current) && ltb max_tx_weight (add64 current_weight weight) in
    let next =
      batch_loop b max_tx_weight max_batches rest
        (if flush then batches ++ current ∷ [] else batches)
        ((if flush then [] else current) ++ parent ∷ [])
        (add64 (if flush then 0 else current_weight) weight) in
    if leb max_batches (length batches) then (batches, current) else next

unfoldable pub batch_by_weight :
    TxFunctions → DispatcherSettings → List CoordinatedTx → ℕ → List (List CoordinatedTx)
unfolding batch_loop
batch_by_weight b s parents max_batches =
    let (batches, current) = batch_loop b s.max_tx_weight max_batches parents [] [] 0 in
    if not (is_empty current) && ltb (length batches) max_batches
    then batches ++ current ∷ []
    else batches

-- `validate`, one transaction at a time: a failure, or none for a valid one.
abbrev pub check : TxFunctions → DispatcherSettings → CoordinatedTx → Option DispatchOutcome
check b s tx =
    if is_empty tx.tx.input
    then some (fatal "transaction has no inputs")
    else if ltb s.max_tx_weight (b.weight tx.tx)
    then some (fatal "transaction weight exceeds max")
    else none

abbrev pub Results : Type 0
Results = List (Txid × DispatchOutcome)

unfoldable pub validate_txs :
    TxFunctions → DispatcherSettings → List CoordinatedTx → List CoordinatedTx × Results
validate_txs b s [] = ([], [])
validate_txs b s (tx ∷ txs) =
    let (valid, failures) = validate_txs b s txs in
    elim (check b s tx) [
      | none ↦ (tx ∷ valid, failures)
      | some outcome ↦ (valid, (tx.txid, outcome) ∷ failures)
    ]

abbrev pub is_failed_parent : Db → OutPoint → Bool
is_failed_parent db input = is_tx_known input.txid db && is_tx_failed input.txid db

unfoldable pub failed_parent : CoordinatedTx → Db → Option Txid
failed_parent tx db = elim (find (is_failed_parent db) tx.tx.input) [
  | none ↦ none
  | some input ↦ some input.txid
]

-- `map_err(|e| Internal(e.to_string()))`
abbrev pub as_internal : {A : Type 0} → Result A → Result A
as_internal (ok a) = ok a
as_internal (err e) = err (internal "monitor status")

abbrev pub outcome_of : Result (Unit {0}) → DispatchOutcome
outcome_of (ok u) = success
outcome_of (err e) = broadcast_error e

abbrev pub prepend : Option (Txid × DispatchOutcome) → Results → Results
prepend none rs = rs
prepend (some r) rs = r ∷ rs

module _ (o : Outside) where
  -- One round of the loop of `parents_ready`.
  abbrev pub input_ready : OutPoint → Bool → M Bool
  input_ready input false = pure true
  input_ready input true = do
    status ← ask (λ log. as_internal (o.get_tx_status log input.txid true))
    pure (
        status.is_in_mempool
        || status.is_confirmed
        || status.is_finalized o.max_monitoring_confirmations)

  unfoldable pub inputs_ready : List OutPoint → M Bool
  inputs_ready [] = pure true
  inputs_ready (input ∷ inputs) = do
    known ← reads (is_tx_known input.txid)
    ready ← input_ready input known
    branch ready (inputs_ready inputs) (pure false)

  unfoldable pub parents_ready : CoordinatedTx → M Bool
  unfolding inputs_ready
  parents_ready tx = inputs_ready tx.tx.input

  unfoldable pub broadcast : CoordinatedTx → M (Option (Txid × DispatchOutcome))
  broadcast tx = do
    r ← attempt (call (sent tx.tx) (λ log. o.send_transaction log tx.tx))
    pure (some (tx.txid, outcome_of r))

  -- The rest of a round of the loop of `dispatch`, after the search for a failed parent.
  abbrev pub send_unless : CoordinatedTx → Option Txid → M (Option (Txid × DispatchOutcome))
  send_unless tx (some parent) = pure (some (tx.txid, parent_failed parent))
  send_unless tx none = do ready ← parents_ready tx; branch ready (broadcast tx) (pure none)

  -- One round of the loop of `dispatch`; `none` is a deferred transaction.
  unfoldable pub dispatch_one : CoordinatedTx → M (Option (Txid × DispatchOutcome))
  unfolding failed_parent parents_ready broadcast
  dispatch_one tx = do dead ← reads (failed_parent tx); send_unless tx dead

  unfoldable pub dispatch_loop : List CoordinatedTx → M Results
  unfolding dispatch_one
  dispatch_loop [] = pure []
  dispatch_loop (tx ∷ txs) = do
    one ← dispatch_one tx
    rest ← dispatch_loop txs
    pure (prepend one rest)

  unfoldable pub dispatch : DispatcherSettings → List CoordinatedTx → M Results
  unfolding dispatch_loop validate_txs
  dispatch s txs = do
    let split = validate_txs o.bitcoin s txs
    rest ← dispatch_loop split.0
    pure (split.1 ++ rest)
