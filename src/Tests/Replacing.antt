-- ===== src/Tests/Replacing.antt =====
-- A chain of replacements of which the newest finalizes.
use rust_bitvmx_bitcoin.Common.{[], arith, none, refl, ◌∷◌, nat_eq, string_eq}
use rust_bitvmx_bitcoin.Common.Maps.{lookup}
use rust_bitvmx_bitcoin.Types.{
  CoordinatedTx, TransactionState, Txid, cpfp, finalized, in_mempool, rbf, speedup, state_eq,
  outpoint_eq, news_eq,
}
use rust_bitvmx_bitcoin.Storage.Records.Transitions.{IsKeyed}
use rust_bitvmx_bitcoin.Helper.{can_transition_to}
use rust_bitvmx_bitcoin.World.{World}
use rust_bitvmx_bitcoin.Tests.Data.{child_context, engine, store, tracked}
use rust_bitvmx_bitcoin.Engine.Review.{remove_replaced_rbf}
use rust_bitvmx_bitcoin.Engine.Review.Failing.{HasFailed, IsOlder, first_one, older_one}
use rust_bitvmx_bitcoin.Engine.Review.Settles.{rbf_chain_settles}

abbrev replacing : Txid → Txid → TransactionState → CoordinatedTx
replacing id old state = tracked id (speedup (rbf old [] child_context)) state

abbrev oldest : CoordinatedTx
oldest = tracked 19 (speedup (cpfp (7 ∷ []) child_context)) in_mempool

abbrev chain_world : World
chain_world = record {
  db = record store {
    txs = (19, oldest) ∷ (20, replacing 20 19 in_mempool) ∷ (21, replacing 21 20 finalized) ∷ [];
  };
  last_retry_at = none;
  log = [];
}

chain-IsKeyed : IsKeyed chain_world.db.txs
unfolding lookup
chain-IsKeyed k t h = ground arith

chain-IsOlder : IsOlder (λ k. k) chain_world.db
unfolding lookup
chain-IsOlder id older p inputs at r = ground arith

rbf_chain_settles_example :
    HasFailed 19 (remove_replaced_rbf engine (replacing 21 20 finalized) 110 chain_world).1.db
unfolding lookup can_transition_to
rbf_chain_settles_example =
    (rbf_chain_settles engine (λ k. k) (replacing 21 20 finalized) 110 chain_world 20 []
        (λ log what. refl) chain-IsKeyed chain-IsOlder refl).1
      19 oldest (older_one 20 19 19 (replacing 20 19 in_mempool) [] refl refl (first_one 19)) refl
      refl
