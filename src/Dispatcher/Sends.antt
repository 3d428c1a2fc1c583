-- ===== src/Dispatcher/Sends.antt =====
-- What `dispatch` of src/core/dispatcher.rs sends, and for which transactions it answers.
use rust_bitvmx_bitcoin.Common.{
  All, All-filter, Bool, List, Option-cases, [], any, ap, arith, false, filter, if◌then◌else◌, inl,
  inr, is_empty, leb, map, none, not, refl, subst, true, ◌&&◌, ◌==◌, ◌∙◌, ◌∷◌, ◌≡◌, nat_eq,
  string_eq,
}
use rust_bitvmx_bitcoin.Types.{CoordinatedTx, OutPoint, Txid, state_eq, outpoint_eq, news_eq}
use rust_bitvmx_bitcoin.Config.{DispatcherSettings}
use rust_bitvmx_bitcoin.Storage.Funding.{is_tx_known}
use rust_bitvmx_bitcoin.Outside.{Log, Outside, TxFunctions, sent}
use rust_bitvmx_bitcoin.World.{World, branch, pure}
use rust_bitvmx_bitcoin.World.Rules.{bind_keeps, branch_keeps, continue_keeps}
use rust_bitvmx_bitcoin.Dispatcher.{
  DispatchOutcome, as_internal, broadcast, dispatch, dispatch_loop, dispatch_one, failed_parent,
  fatal, input_ready, inputs_ready, parents_ready, validate_txs,
}

abbrev pub txids : List CoordinatedTx → List Txid
txids = map λ (t : CoordinatedTx). t.txid

abbrev pub listed_in : List CoordinatedTx → Txid → Bool
listed_in txs id = any (λ (t : CoordinatedTx). t.txid == id) txs

-- Transactions that were sent, the latest first.
abbrev pub sent_log : List CoordinatedTx → Log → Log
sent_log [] log = log
sent_log (t ∷ ts) log = sent t.tx ∷ sent_log ts log

abbrev pub is_valid : TxFunctions → DispatcherSettings → CoordinatedTx → Bool
is_valid b s tx = not (is_empty tx.tx.input) && leb (b.weight tx.tx) s.max_tx_weight

abbrev weight_failure : TxFunctions → DispatcherSettings → CoordinatedTx → DispatchOutcome
weight_failure b s tx =
    if is_empty tx.tx.input
    then fatal "transaction has no inputs"
    else fatal "transaction weight exceeds max"

-- Validation keeps, in order, exactly the transactions with an input and a weight within the limit,
-- and answers every other one, in order, with the fatal outcome that names its fault.
pub validate_txs_partition :
    (b : TxFunctions) (s : DispatcherSettings) (txs : List CoordinatedTx)
    → validate_txs b s txs ≡ (
      filter (is_valid b s) txs,
      map
          (λ (t : CoordinatedTx). (t.txid, weight_failure b s t))
          (filter (λ t. not (is_valid b s t)) txs),
    )
unfolding validate_txs
validate_txs_partition b s [] = refl
validate_txs_partition b s (t ∷ txs) = ground (arith, validate_txs_partition b s txs)

module _ (o : Outside) where
  answer_keeps : (i : OutPoint) (known : Bool) (w : World) → (input_ready o i known w).1 ≡ w
  answer_keeps i true w =
      continue_keeps (λ w'. w' ≡ w) (as_internal (o.get_tx_status w.log i.txid true)) _ w refl
        (λ a e. refl)
  answer_keeps i false w = refl

  -- Looking at the inputs asks the monitor and changes nothing.
  inputs_keep : (ins : List OutPoint) (w : World) → (inputs_ready o ins w).1 ≡ w
  unfolding inputs_ready
  inputs_keep [] w = refl
  inputs_keep (i ∷ ins) w =
      let first = input_ready o i (is_tx_known i.txid w.db) in
      let same = answer_keeps i (is_tx_known i.txid w.db) w in
      bind_keeps (λ w'. w' ≡ w) first (λ ready. branch ready (inputs_ready o ins) (pure false)) w
        same
        (λ ready e.
          branch_keeps (λ w'. w' ≡ w) ready (inputs_ready o ins) (pure false) (first w).1
            (λ _. inputs_keep ins (first w).1 ∙ same) (λ _. same))

  module _ (s : DispatcherSettings) (start : World) where
    -- A transaction that may be sent: valid, with no failed parent.
    abbrev pub Sendable : CoordinatedTx → Type 0
    Sendable t = (is_valid o.bitcoin s t ≡ true) × (failed_parent t start.db ≡ none)

    -- Since the start only such transactions were sent, and nothing else was changed.
    abbrev pub Sent : World → Type 0
    Sent w =
        (w.db ≡ start.db)
        × (w.last_retry_at ≡ start.last_retry_at)
        × ((ts : List CoordinatedTx) × (w.log ≡ sent_log ts start.log) × All Sendable ts)

    broadcast-Sent :
        (t : CoordinatedTx) (w : World) → Sendable t → Sent w → Sent (broadcast o t w).1
    unfolding broadcast
    broadcast-Sent t w may before =
        let (ts, e, all) = before.2 in
        (before.0, before.1, (t ∷ ts, ap (λ l. sent t.tx ∷ l) e, (may, all)))

    dispatch_one-Sent :
        (t : CoordinatedTx) (w : World)
        → is_valid o.bitcoin s t ≡ true
        → Sent w
        → Sent (dispatch_one o t w).1
    unfolding dispatch_one parents_ready
    dispatch_one-Sent t w valid before = elim (Option-cases (failed_parent t w.db)) [
      | inr (parent, e) ↦ rw e before
      | inl alive ↦ rw alive (
          bind_keeps Sent (parents_ready o t) (λ ready. branch ready (broadcast o t) (pure none)) w
            (rw (inputs_keep t.tx.input w) before)
            (λ ready e.
              let asked = (parents_ready o t w).1 in
              let still : Sent asked = rw (inputs_keep t.tx.input w) before in
              branch_keeps Sent ready (broadcast o t) (pure none) asked
                (λ _.
                  broadcast-Sent t asked
                    (valid, subst (λ db. failed_parent t db ≡ none) (before.0) alive) still)
                (λ _. still)))
    ]

    dispatch_loop-Sent :
        (ts : List CoordinatedTx) (w : World)
        → All (λ t. is_valid o.bitcoin s t ≡ true) ts
        → Sent w
        → Sent (dispatch_loop o ts w).1
    unfolding dispatch_loop
    dispatch_loop-Sent [] w valid before = before
    dispatch_loop-Sent (t ∷ ts) w valid before =
        bind_keeps Sent (dispatch_one o t) _ w (dispatch_one-Sent t w valid.0 before) (λ one e.
          bind_keeps Sent (dispatch_loop o ts) _ (dispatch_one o t w).1
            (dispatch_loop-Sent ts (dispatch_one o t w).1 valid.1
              (dispatch_one-Sent t w valid.0 before))
            (λ rest f.
              dispatch_loop-Sent ts (dispatch_one o t w).1 valid.1
                (dispatch_one-Sent t w valid.0 before)))

  all-Sent :
      (s : DispatcherSettings) (txs : List CoordinatedTx) (w : World)
      → Sent s w (dispatch_loop o (validate_txs o.bitcoin s txs).0 w).1
  all-Sent s txs w =
      dispatch_loop-Sent s w (validate_txs o.bitcoin s txs).0 w
        (rw (validate_txs_partition o.bitcoin s txs) (All-filter (is_valid o.bitcoin s) txs))
        (refl, refl, ([], refl, tt))

  -- Whatever the node and the monitor answer, `dispatch` changes no stored record, and the only calls
  -- it makes that change something outside are sends, each of a transaction that has an input, keeps
  -- the weight limit, and spends from no tracked transaction that has Failed.
  pub dispatch_sends :
      (s : DispatcherSettings) (txs : List CoordinatedTx) (w : World)
      → Sent s w (dispatch o s txs w).1
  unfolding dispatch
  dispatch_sends s txs w =
      bind_keeps (Sent s w) (dispatch_loop o (validate_txs o.bitcoin s txs).0) _ w
        (all-Sent s txs w) (λ rest e. all-Sent s txs w)
