-- ===== src/Dispatcher/Answers.antt =====
-- For which transactions `dispatch` of src/core/dispatcher.rs answers: the lookup of each answer in
-- the batch, `find_tx_in_batch` of src/helper.rs, cannot fail.
use rust_bitvmx_bitcoin.Common.{
  ==_refl, All, All-append, All-map, Bool, Bool-cases, List, Option, Option-cases, [], ap, arith,
  false, inl, inr, nat_eqb_iff, none, refl, some, subst, true, ◌++◌, ◌==◌, ◌∙◌, ◌∷◌, ◌≡◌, nat_eq,
  string_eq,
}
use rust_bitvmx_bitcoin.Types.{CoordinatedTx, Txid, ok, state_eq, outpoint_eq, news_eq}
use rust_bitvmx_bitcoin.Config.{DispatcherSettings}
use rust_bitvmx_bitcoin.Helper.{find_tx_in_batch}
use rust_bitvmx_bitcoin.Outside.{Outside}
use rust_bitvmx_bitcoin.World.{World, branch, pure}
use rust_bitvmx_bitcoin.World.Rules.{bind_returns}
use rust_bitvmx_bitcoin.Dispatcher.{
  DispatchOutcome, Results, broadcast, check, dispatch, dispatch_loop, dispatch_one, failed_parent,
  parents_ready, prepend, send_unless, validate_txs,
}
use rust_bitvmx_bitcoin.Dispatcher.Sends.{listed_in}

-- An answer names a transaction of the batch.
abbrev pub Names : List CoordinatedTx → Txid × DispatchOutcome → Type 0
Names txs r = (t : CoordinatedTx) × (find_tx_in_batch txs r.0 ≡ ok t) × (t.txid ≡ r.0)

find_listed :
    (txs : List CoordinatedTx) (r : Txid × DispatchOutcome) → listed_in txs r.0 ≡ true → Names txs r
unfolding find_tx_in_batch
find_listed [] r e = cc
find_listed (t ∷ txs) r e = elim (Bool-cases (t.txid == r.0)) [
  | inl same ↦ (t, rw (same, find_tx_in_batch) refl, (nat_eqb_iff t.txid r.0).0 same)
  | inr differ ↦
      (let (u, f, eq) = find_listed txs r (ground arith) in
        (u, rw (differ, find_tx_in_batch) f, eq))
]

module _ (o : Outside) where
  sent_names :
      (t : CoordinatedTx) (ready : Bool) (w : World) (r : Txid × DispatchOutcome)
      → (branch ready (broadcast o t) (pure none) w).0 ≡ ok (some r)
      → r.0 ≡ t.txid
  unfolding broadcast
  sent_names t true w r e = ground arith
  sent_names t false w r e = cc

  unless_names :
      (t : CoordinatedTx) (dead : Option Txid) (w : World) (r : Txid × DispatchOutcome)
      → (send_unless o t dead w).0 ≡ ok (some r)
      → r.0 ≡ t.txid
  unless_names t (some parent) w r e = ground arith
  unless_names t none w r e =
      let (ready, f, g) =
        bind_returns (parents_ready o t) (λ ready. branch ready (broadcast o t) (pure none)) w
          (some r) e in
      sent_names t ready (parents_ready o t w).1 r g

  one_names :
      (t : CoordinatedTx) (w : World) (r : Txid × DispatchOutcome)
      → (dispatch_one o t w).0 ≡ ok (some r)
      → r.0 ≡ t.txid
  unfolding dispatch_one
  one_names t w r e = unless_names t (failed_parent t w.db) w r e

  abbrev Listed : List CoordinatedTx → Results → Type 0
  Listed ts rs = All (λ r. listed_in ts r.0 ≡ true) rs

  longer :
      (t : CoordinatedTx) (ts : List CoordinatedTx) (rs : Results)
      → Listed ts rs
      → Listed (t ∷ ts) rs
  longer t ts rs l = All-map (λ r h. ground arith) rs l

  prepended :
      (t : CoordinatedTx) (ts : List CoordinatedTx) (one : Option (Txid × DispatchOutcome))
      (rs : Results)
      → ((r : Txid × DispatchOutcome) → one ≡ some r → r.0 ≡ t.txid)
      → Listed ts rs
      → Listed (t ∷ ts) (prepend one rs)
  prepended t ts none rs h l = longer t ts rs l
  prepended t ts (some r) rs h l =
      (ground (arith, h r refl, nat_eqb_iff t.txid r.0), longer t ts rs l)

  loop_names :
      (ts : List CoordinatedTx) (w : World) (rs : Results)
      → (dispatch_loop o ts w).0 ≡ ok rs
      → Listed ts rs
  unfolding dispatch_loop
  loop_names [] w rs e = let same : [] ≡ rs = ground arith in subst (Listed []) same tt
  loop_names (t ∷ ts) w rs e =
      let (one, f, g) = bind_returns (dispatch_one o t) _ w rs e in
      let w' = (dispatch_one o t w).1 in
      let (rest, f', g') =
        bind_returns (dispatch_loop o ts) (λ rest. pure (prepend one rest)) w' rs g in
      subst (Listed (t ∷ ts)) (ground arith)
        (prepended t ts one rest (λ r e. one_names t w r (f ∙ ap ok e)) (loop_names ts w' rest f'))

  failures_names :
      (s : DispatcherSettings) (txs all : List CoordinatedTx)
      → ((id : Txid) → listed_in txs id ≡ true → listed_in all id ≡ true)
      → Listed all (validate_txs o.bitcoin s txs).1
  unfolding validate_txs
  failures_names s [] all sub = tt
  failures_names s (t ∷ txs) all sub =
      let rest = failures_names s txs all (λ id h. sub id (ground arith)) in
      elim (Option-cases (check o.bitcoin s t)) [
        | inl fine ↦ rw (fine, validate_txs) rest
        | inr (outcome, e) ↦ rw (e, validate_txs) (sub t.txid (rw (==_refl t.txid) refl), rest)
      ]

  valid_sub :
      (s : DispatcherSettings) (txs : List CoordinatedTx) (id : Txid)
      → listed_in (validate_txs o.bitcoin s txs).0 id ≡ true
      → listed_in txs id ≡ true
  unfolding validate_txs
  valid_sub s [] id e = e
  valid_sub s (t ∷ txs) id e = ground (arith, valid_sub s txs id)

  -- Every answer that `dispatch` returns is for a transaction of the batch it was given, so that the
  -- lookup of the answer in the batch succeeds, with the transaction that has the answer's txid.
  pub dispatch_answers :
      (s : DispatcherSettings) (txs : List CoordinatedTx) (w : World) (rs : Results)
      → (dispatch o s txs w).0 ≡ ok rs
      → All (Names txs) rs
  unfolding dispatch
  dispatch_answers s txs w rs e =
      let split = validate_txs o.bitcoin s txs in
      let (rest, f, g) =
        bind_returns (dispatch_loop o split.0) (λ rest. pure (split.1 ++ rest)) w rs e in
      let same : split.1 ++ rest ≡ rs = ground arith in
      All-map (find_listed txs) rs (
        subst (Listed txs) same (
          All-append (λ r. listed_in txs r.0 ≡ true) split.1 rest
            (failures_names s txs txs (λ id h. h))
            (All-map (λ r. valid_sub s txs r.0) rest (loop_names split.0 w rest f))))
