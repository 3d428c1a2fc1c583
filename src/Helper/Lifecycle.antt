-- ===== src/Helper/Lifecycle.antt =====
-- The lifecycle diagram of docs/architecture.md against `can_transition_to` of src/helper.rs.
use rust_bitvmx_bitcoin.Common.{
  List, [], arith, refl, subst, sym, true, ◌↔◌, ◌∙◌, ◌∷◌, ◌≡◌, nat_eq, string_eq,
}
use rust_bitvmx_bitcoin.Types.{
  TransactionState, confirmed, failed, finalized, in_mempool, to_dispatch, state_eq, outpoint_eq,
  news_eq,
}
use rust_bitvmx_bitcoin.Helper.{can_transition_to}

-- The arrows of the diagram.
pub data Arrow : TransactionState → TransactionState → Type 0 where
  broadcasted : Arrow to_dispatch in_mempool
  mined : Arrow in_mempool confirmed
  confirmations_reached : Arrow confirmed finalized
  eviction : Arrow in_mempool to_dispatch
  reorg : Arrow confirmed in_mempool
  deep_reorg : Arrow confirmed to_dispatch
  fatal : Arrow to_dispatch failed
  replaced : Arrow in_mempool failed
  recovered_confirmed : Arrow to_dispatch confirmed
  recovered_finalized : Arrow to_dispatch finalized
  confirmed_in_one_tick : Arrow in_mempool finalized

-- One arrow, or none.
pub data Step (s t : TransactionState) : Type 0 where
  stay : s ≡ t → Step s t
  go : Arrow s t → Step s t

pub can_transition-Step : (s t : TransactionState) → can_transition_to s t ≡ true → Step s t
unfolding can_transition_to
can_transition-Step to_dispatch to_dispatch h = stay refl
can_transition-Step to_dispatch in_mempool h = go broadcasted
can_transition-Step to_dispatch confirmed h = go recovered_confirmed
can_transition-Step to_dispatch finalized h = go recovered_finalized
can_transition-Step to_dispatch failed h = go fatal
can_transition-Step in_mempool to_dispatch h = go eviction
can_transition-Step in_mempool in_mempool h = stay refl
can_transition-Step in_mempool confirmed h = go mined
can_transition-Step in_mempool finalized h = go confirmed_in_one_tick
can_transition-Step in_mempool failed h = go replaced
can_transition-Step confirmed to_dispatch h = go deep_reorg
can_transition-Step confirmed in_mempool h = go reorg
can_transition-Step confirmed confirmed h = stay refl
can_transition-Step confirmed finalized h = go confirmations_reached
can_transition-Step confirmed failed h = cc
can_transition-Step finalized finalized h = stay refl
can_transition-Step failed failed h = stay refl
can_transition-Step finalized t h = stay (ground arith)
can_transition-Step failed t h = stay (ground arith)

Step-can_transition : (s t : TransactionState) → Step s t → can_transition_to s t ≡ true
unfolding can_transition_to
Step-can_transition s t (go broadcasted) = refl
Step-can_transition s t (go mined) = refl
Step-can_transition s t (go confirmations_reached) = refl
Step-can_transition s t (go eviction) = refl
Step-can_transition s t (go reorg) = refl
Step-can_transition s t (go deep_reorg) = refl
Step-can_transition s t (go fatal) = refl
Step-can_transition s t (go replaced) = refl
Step-can_transition s t (go recovered_confirmed) = refl
Step-can_transition s t (go recovered_finalized) = refl
Step-can_transition s t (go confirmed_in_one_tick) = refl
Step-can_transition s t (stay e) = ground arith

-- `can_transition_to` accepts exactly the arrows of the lifecycle diagram and the steps that stay.
pub can_transition_iff : (s t : TransactionState) → (can_transition_to s t ≡ true) ↔ Step s t
can_transition_iff s t = (can_transition-Step s t, Step-can_transition s t)

abbrev pub Accepts : TransactionState → List TransactionState → Type 0
Accepts s [] = Unit {0}
Accepts s (t ∷ ts) = (can_transition_to s t ≡ true) × Accepts t ts

abbrev pub final_state : TransactionState → List TransactionState → TransactionState
final_state s [] = s
final_state s (t ∷ ts) = final_state t ts

abbrev pub IsTerminal : TransactionState → Type 0
IsTerminal to_dispatch = ⊥
IsTerminal in_mempool = ⊥
IsTerminal confirmed = ⊥
IsTerminal finalized = Unit {0}
IsTerminal failed = Unit {0}

terminal_stays : (s t : TransactionState) → IsTerminal s → can_transition_to s t ≡ true → s ≡ t
unfolding can_transition_to
terminal_stays finalized t k h = ground arith
terminal_stays failed t k h = ground arith
terminal_stays to_dispatch t k h = absurd k
terminal_stays in_mempool t k h = absurd k
terminal_stays confirmed t k h = absurd k

-- No sequence of accepted transitions leaves `Finalized` or `Failed`.
pub terminal_forever :
    (s : TransactionState) (ts : List TransactionState)
    → IsTerminal s
    → Accepts s ts
    → final_state s ts ≡ s
terminal_forever s [] k h = refl
terminal_forever s (t ∷ ts) k h =
    let e = terminal_stays s t k h.0 in terminal_forever t ts (subst IsTerminal e k) h.1 ∙ sym e
