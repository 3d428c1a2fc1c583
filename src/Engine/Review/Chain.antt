-- ===== src/Engine/Review/Chain.antt =====
-- The walk of `remove_replaced_rbf` of src/engines/speedup_engine.rs along the replaced speedups, and
-- what each of its settlements keeps.
use rust_bitvmx_bitcoin.Common.{
  Option, Option-cases, [], inl, inr, none, some, suc, zero, ℕ, ◌∷◌, nat_eq, string_eq,
}
use rust_bitvmx_bitcoin.Types.{
  BlockHeight, CoordinatedTx, Txid, failed, state_eq, outpoint_eq, news_eq,
}
use rust_bitvmx_bitcoin.Storage.Db.{Db, get_tx_by_id}
use rust_bitvmx_bitcoin.Storage.Records.{settle_tx}
use rust_bitvmx_bitcoin.Outside.{transactions}
use rust_bitvmx_bitcoin.World.{M, pure, tries}
use rust_bitvmx_bitcoin.World.Keeps.{Keeps, Keeps-bind, Keeps-tries, keeps_rules}
use rust_bitvmx_bitcoin.Engine.Common.{EngineContext, cancel_call}
use rust_bitvmx_bitcoin.Engine.Failure.{rbf_of}
use rust_bitvmx_bitcoin.Engine.Review.{remove_chain}

module _ (ctx : EngineContext) {R : Db → Type 0} where
  -- The next link of the chain, where there is one.
  next_link-Keeps :
      (rest : Txid → M (Unit {0})) (prev : Option CoordinatedTx)
      → ((id : Txid) → Keeps R (rest id))
      → Keeps R (elim prev [
        | none ↦ pure tt
        | some p ↦ elim (rbf_of p.kind) [ none ↦ pure tt | some (older, inputs) ↦ rest older ]
      ])
  next_link-Keeps rest none kept = search keeps_rules
  next_link-Keeps rest (some p) kept = elim (Option-cases (rbf_of p.kind)) [
    | inl e ↦ rw e (search keeps_rules)
    | inr (r, e) ↦ rw e (kept r.0)
  ]

  pub remove_chain-Keeps :
      (fuel : ℕ) (tx : CoordinatedTx) (id : Txid) (h : BlockHeight)
      → ((k : Txid) (db : Db) → R db → R (settle_tx k failed h db).1)
      → Keeps R (remove_chain ctx fuel tx id h)
  unfolding remove_chain
  remove_chain-Keeps zero tx id h settled = search keeps_rules
  remove_chain-Keeps (suc fuel) tx id h settled = record {
    at = λ w kept.
        (Keeps-bind (cancel_call ctx (transactions (id ∷ []) tx.context none)) _
            (search keeps_rules)
            (λ _.
              Keeps-bind (tries (settle_tx id failed h)) _
                (Keeps-tries (settle_tx id failed h) (settled id))
                (λ _.
                  next_link-Keeps (λ older. remove_chain ctx fuel tx older h) (get_tx_by_id id w.db)
                    (λ older. remove_chain-Keeps fuel tx older h settled)))).at
          w kept;
  }
