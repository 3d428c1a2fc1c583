-- ===== src/Engine/Review/Settles.antt =====
-- The walk of `remove_replaced_rbf` of src/engines/speedup_engine.rs ends, and settles what it visits.
use rust_bitvmx_bitcoin.Common.{
  Bool-cases, List, Option, Option-cases, [], ap, arith, contains, false, filter, first, inl, inr,
  leb, length, length-filter-le, nat_eqb_iff, none, refl, some, subst, suc, sym, true, zero, ℕ, ◌<◌,
  ◌==◌, ◌∙◌, ◌∷◌, ◌≡◌, ◌≤◌, ◌⊎◌, nat_eq, string_eq,
}
use rust_bitvmx_bitcoin.Common.Maps.{contains-keys, keys, lookup}
use rust_bitvmx_bitcoin.Types.{
  BlockHeight, CoordinatedTx, Result, Txid, Utxo, failed, ok, state_eq, outpoint_eq, news_eq,
}
use rust_bitvmx_bitcoin.Storage.Db.{Db}
use rust_bitvmx_bitcoin.Storage.Records.{settle_tx, update_tx_state_impl}
use rust_bitvmx_bitcoin.Storage.Records.Transitions.{IsKeyed}
use rust_bitvmx_bitcoin.Helper.{can_transition_to}
use rust_bitvmx_bitcoin.Outside.{Log, TypesToMonitor, cancelled, transactions}
use rust_bitvmx_bitcoin.World.{M, World, pure}
use rust_bitvmx_bitcoin.Engine.Common.{EngineContext}
use rust_bitvmx_bitcoin.Engine.Failure.{rbf_of}
use rust_bitvmx_bitcoin.Engine.Review.{remove_chain, remove_replaced_rbf}
use rust_bitvmx_bitcoin.Engine.Review.Chain.{remove_chain-Keeps}
use rust_bitvmx_bitcoin.Engine.Review.Failing.{
  HasFailed, IsOlder, Replaced, failing, failing-HasFailed, failing-IsKeyed, failing-IsOlder,
  failing-Replaced, first_one, keys-failing, lookup-failing, older_one, own-HasFailed,
}

abbrev below : (Txid → ℕ) → ℕ → List Txid → ℕ
below age x ids = length (filter (λ k. leb (age k) x) ids)

below-le : (age : Txid → ℕ) (x y : ℕ) (ids : List Txid) → x ≤ y → below age x ids ≤ below age y ids
below-le age x y [] le = omega arith
below-le age x y (k ∷ ids) le = ground (arith, below-le age x y ids le)

below-lt :
    (age : Txid → ℕ) (x : ℕ) (id : Txid) (ids : List Txid)
    → contains ids id ≡ true
    → x < age id
    → below age x ids < below age (age id) ids
below-lt age x id [] c lt = ground arith
below-lt age x id (k ∷ ids) c lt =
    ground (arith, below-lt age x id ids, below-le age x (age id) ids, nat_eqb_iff k id)

module _ (ctx : EngineContext) (age : Txid → ℕ) (tx : CoordinatedTx) (h : BlockHeight)
    (answers : (log : Log) (what : TypesToMonitor) → ctx.outside.cancel log what ≡ ok tt) where
  -- The world after the first link was dropped.
  abbrev unlinked : Txid → World → World
  unlinked id w = record w {
    db = failing id h w.db;
    log = cancelled (transactions (id ∷ []) tx.context none) ∷ w.log;
  }

  abbrev walk_on : ℕ → Option CoordinatedTx → M (Unit {0})
  walk_on fuel prev = elim prev [
    | none ↦ pure tt
    | some p ↦ elim (rbf_of p.kind) [
      | none ↦ pure tt
      | some (older, inputs) ↦ remove_chain ctx fuel tx older h
    ]
  ]

  chain_step :
      (fuel : ℕ) (id : Txid) (w : World)
      → remove_chain ctx (suc fuel) tx id h w ≡ walk_on fuel (lookup id w.db.txs) (unlinked id w)
  unfolding remove_chain settle_tx update_tx_state_impl
  chain_step fuel id w = rw (answers w.log (transactions (id ∷ []) tx.context none)) refl

  -- The walk from `id` has ended, and what it leads to has failed.
  abbrev Walked : Txid → Db → Result (Unit {0}) × World → Type 0
  Walked id db r =
      (r.0 ≡ ok tt)
      × ((k : Txid) (t : CoordinatedTx)
          → Replaced db id k
          → lookup k db.txs ≡ some t
          → can_transition_to t.state failed ≡ true
          → HasFailed k r.1.db)

  -- Its first link, or the chain of its predecessor.
  abbrev FromNext : Txid → Txid → Db → Type 0
  FromNext id k db =
      (p : CoordinatedTx) × (older : Txid) × (inputs : List Utxo) × (lookup id db.txs ≡ some p)
      × (rbf_of p.kind ≡ some (older, inputs))
      × Replaced db older k

  first_or_next : (db : Db) (id k : Txid) → Replaced db id k → (id ≡ k) ⊎ FromNext id k db
  first_or_next db _ _ (first_one i) = inl refl
  first_or_next db _ _ (older_one i older k p inputs at r rest) =
      inr (p, older, inputs, at, r, rest)

  -- Where the walk has no further link.
  ended :
      (id : Txid) (w : World)
      → IsKeyed w.db.txs
      → ((k : Txid) → FromNext id k w.db → ⊥)
      → Walked id w.db (ok tt, unlinked id w)
  ended id w keyed last_one = (
    refl,
    λ k t chain at may. elim (first_or_next w.db id k chain) [
      | inl same ↦
          subst (λ x. HasFailed x (failing id h w.db)) same
            (own-HasFailed id h w.db t keyed (ap (λ x. lookup x w.db.txs) same ∙ at) may)
      | inr further ↦ absurd (last_one k further)
    ],
  )

  -- What has failed stays so through the rest of the walk.
  still-HasFailed :
      (fuel : ℕ) (older k : Txid) (w : World)
      → IsKeyed w.db.txs
      → HasFailed k w.db
      → HasFailed k (remove_chain ctx fuel tx older h w).1.db
  still-HasFailed fuel older k w keyed done =
      ((remove_chain-Keeps ctx {R = λ db. IsKeyed db.txs × HasFailed k db} fuel tx older h
          (λ i db both.
            (failing-IsKeyed i h db both.0, failing-HasFailed i h k db both.0 both.1))).at
        w (keyed, done)).1

  -- Where it goes on.
  went_on :
      (fuel : ℕ) (id : Txid) (w : World) (p : CoordinatedTx) (older : Txid) (inputs : List Utxo)
      → IsKeyed w.db.txs
      → lookup id w.db.txs ≡ some p
      → rbf_of p.kind ≡ some (older, inputs)
      → Walked older (failing id h w.db) (remove_chain ctx fuel tx older h (unlinked id w))
      → Walked id w.db (remove_chain ctx fuel tx older h (unlinked id w))
  went_on fuel id w p older inputs keyed at r rest = (
    rest.0,
    λ k t chain there may. elim (Bool-cases (id == k)) [
      | inl same ↦
          (let own = (nat_eqb_iff id k).0 same in
            still-HasFailed fuel older k (unlinked id w) (failing-IsKeyed id h w.db keyed) (
              subst (λ x. HasFailed x (failing id h w.db)) own
                (own-HasFailed id h w.db t keyed (ap (λ x. lookup x w.db.txs) own ∙ there) may)))
      | inr apart ↦ elim (first_or_next w.db id k chain) [
        | inl same ↦ absurd (false_true (sym apart ∙ (nat_eqb_iff id k).1 same))
        | inr (p', older', inputs', at', r', further) ↦
            (let same_older : older' ≡ older = ground arith in
              rest.1 k t
                (failing-Replaced id h w.db older k keyed
                  (subst (λ x. Replaced w.db x k) same_older further))
                (lookup-failing id h w.db k keyed ∙ rw (there, apart) refl) may)
      ]
    ],
  )
    where
      false_true : false ≡ true → ⊥
      false_true e = ground arith

  -- One round, given what the next one does.
  round-Walked :
      (fuel : ℕ) (id : Txid) (w : World)
      → IsKeyed w.db.txs
      → IsOlder age w.db
      → below age (age id) (keys w.db.txs) < suc fuel
      → ((older : Txid)
          → below age (age older) (keys (failing id h w.db).txs) < fuel
          → Walked older (failing id h w.db) (remove_chain ctx fuel tx older h (unlinked id w)))
      → Walked id w.db (walk_on fuel (lookup id w.db.txs) (unlinked id w))
  round-Walked fuel id w keyed old enough again = elim (Option-cases (lookup id w.db.txs)) [
    | inl e ↦
        rw (e, walk_on)
          (ended id w keyed (λ k (p, older, inputs, at, r, rest). none_some (sym e ∙ at)))
    | inr (p, at) ↦ elim (Option-cases (rbf_of p.kind)) [
      | inl f ↦
          rw (at, f, walk_on)
            (ended id w keyed
              (λ k (p', older, inputs, at', r, rest). no_link p p' older inputs (sym at ∙ at') f r))
      | inr ((older, inputs), f) ↦
          rw (at, f, walk_on)
            (went_on fuel id w p older inputs keyed at f (
              again older (
                rw (keys-failing id h w.db keyed) (
                  let less =
                    below-lt age (age older) id (keys w.db.txs)
                      (contains-keys id w.db.txs ∙ rw at refl) (old id older p inputs at f) in
                  omega (arith, less, enough)))))
    ]
  ]
    where
      none_some : {t : CoordinatedTx} → none ≡ some t → ⊥
      none_some e = ground arith

      no_link :
          (p p' : CoordinatedTx) (older : Txid) (inputs : List Utxo)
          → some p ≡ some p'
          → rbf_of p.kind ≡ none
          → rbf_of p'.kind ≡ some (older, inputs)
          → ⊥
      no_link p p' older inputs same f r = ground arith

  chain-Walked :
      (fuel : ℕ) (id : Txid) (w : World)
      → IsKeyed w.db.txs
      → IsOlder age w.db
      → below age (age id) (keys w.db.txs) < fuel
      → Walked id w.db (remove_chain ctx fuel tx id h w)
  chain-Walked zero id w keyed old enough = absurd (omega (arith, enough))
  chain-Walked (suc fuel) id w keyed old enough =
      subst (Walked id w.db) (sym (chain_step fuel id w)) (
        round-Walked fuel id w keyed old enough (λ older less.
          chain-Walked fuel older (unlinked id w) (failing-IsKeyed id h w.db keyed)
            (failing-IsOlder id h age w.db keyed old) less))

length-keys : (m : List (Txid × CoordinatedTx)) → length (keys m) ≡ length m
length-keys [] = refl
length-keys ((k, t) ∷ m) = ap suc (length-keys m)

-- When a replacement finalizes, the walk along what it replaced comes to an end without an error,
-- and every speedup that the chain of replacements leads to has been settled as Failed, unless its
-- state could not move there; provided that the records stand under their own txids, that whatever
-- replaces is younger by some measure of age, and that the monitor's cancel does not fail.
pub rbf_chain_settles :
    (ctx : EngineContext) (age : Txid → ℕ) (tx : CoordinatedTx) (h : BlockHeight) (w : World)
    (first : Txid) (inputs : List Utxo)
    → ((log : Log) (what : TypesToMonitor) → ctx.outside.cancel log what ≡ ok tt)
    → IsKeyed w.db.txs
    → IsOlder age w.db
    → rbf_of tx.kind ≡ some (first, inputs)
    → let r = remove_replaced_rbf ctx tx h w in
      (r.0 ≡ ok tt)
      × ((k : Txid) (t : CoordinatedTx)
          → Replaced w.db first k
          → lookup k w.db.txs ≡ some t
          → can_transition_to t.state failed ≡ true
          → HasFailed k r.1.db)
unfolding remove_replaced_rbf
rbf_chain_settles ctx age tx h w first inputs answers keyed old e =
    rw (e, remove_replaced_rbf)
      (chain-Walked ctx age tx h answers (suc (length w.db.txs)) first w keyed old (
        let most = length-filter-le (λ k. leb (age k) (age first)) (keys w.db.txs) in
        let same = length-keys w.db.txs in omega (arith, most, same)))
