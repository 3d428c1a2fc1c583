-- ===== src/Dispatcher/Packing.antt =====
-- The weights that `batch_by_weight` of src/core/dispatcher.rs compares.
use rust_bitvmx_bitcoin.Common.{List, [], add64, refl, ℕ, ◌++◌, ◌<◌, ◌∷◌, ◌≡◌, nat_eq, string_eq}
use rust_bitvmx_bitcoin.Types.{CoordinatedTx, state_eq, outpoint_eq, news_eq}
use rust_bitvmx_bitcoin.Outside.{TxFunctions}

module _ (b : TxFunctions) (limit : ℕ) where
  -- The weight of a batch as the u64 sum that the code keeps, from the first to the last.
  abbrev pub weigh : ℕ → List CoordinatedTx → ℕ
  weigh acc [] = acc
  weigh acc (t ∷ ts) = weigh (add64 acc (b.weight t.tx)) ts

  pub weigh-append :
      (acc : ℕ) (l : List CoordinatedTx) (t : CoordinatedTx)
      → weigh acc (l ++ t ∷ []) ≡ add64 (weigh acc l) (b.weight t.tx)
  weigh-append acc [] t = refl
  weigh-append acc (x ∷ l) t = weigh-append (add64 acc (b.weight x.tx)) l t

  -- The first of a batch did not fit into the one before.
  abbrev pub Refused : List CoordinatedTx → List CoordinatedTx → Type 0
  Refused l [] = ⊥
  Refused l (t ∷ ts) = limit < weigh 0 (l ++ t ∷ [])

  -- No batch was closed while the next parent fitted into it.
  abbrev pub IsPacked : List (List CoordinatedTx) → Type 0
  IsPacked [] = Unit {0}
  IsPacked (l ∷ []) = Unit {0}
  IsPacked (l ∷ m ∷ ms) = Refused l m × IsPacked (m ∷ ms)

  pub IsPacked-close :
      (ls : List (List CoordinatedTx)) (c m : List CoordinatedTx)
      → IsPacked (ls ++ c ∷ [])
      → Refused c m
      → IsPacked ((ls ++ c ∷ []) ++ m ∷ [])
  IsPacked-close [] c m packed over = (over, tt)
  IsPacked-close (l ∷ []) c m packed over = (packed.0, (over, tt))
  IsPacked-close (l ∷ k ∷ ls) c m packed over =
      (packed.0, IsPacked-close (k ∷ ls) c m packed.1 over)

  Refused-grow :
      (l c : List CoordinatedTx) (p : CoordinatedTx) → Refused l c → Refused l (c ++ p ∷ [])
  Refused-grow l [] p over = absurd over
  Refused-grow l (t ∷ ts) p over = over

  pub IsPacked-grow :
      (ls : List (List CoordinatedTx)) (c : List CoordinatedTx) (p : CoordinatedTx)
      → IsPacked (ls ++ c ∷ [])
      → IsPacked (ls ++ (c ++ p ∷ []) ∷ [])
  IsPacked-grow [] c p packed = tt
  IsPacked-grow (l ∷ []) c p packed = (Refused-grow l c p packed.0, tt)
  IsPacked-grow (l ∷ k ∷ ls) c p packed = (packed.0, IsPacked-grow (k ∷ ls) c p packed.1)

  pub IsPacked-open :
      (ls : List (List CoordinatedTx)) (c : List CoordinatedTx)
      → IsPacked (ls ++ c ∷ [])
      → IsPacked ls
  IsPacked-open [] c packed = tt
  IsPacked-open (l ∷ []) c packed = tt
  IsPacked-open (l ∷ k ∷ ls) c packed = (packed.0, IsPacked-open (k ∷ ls) c packed.1)
