-- ===== src/World/Rules.antt =====
-- Reasoning about the monad of World.antt: what holds between the state before and after a chain of
-- calls, and what holds of a returned value.
use rust_bitvmx_bitcoin.Common.{
  Bool, List, [], arith, false, inl, inr, none, refl, some, true, ◌∷◌, ◌≡◌, ◌⊎◌, nat_eq, string_eq,
}
use rust_bitvmx_bitcoin.Types.{Error, Result, err, ok, state_eq, outpoint_eq, news_eq}
use rust_bitvmx_bitcoin.World.{M, World, branch, continue, for_each, modify, ◌>>=◌}
use rust_bitvmx_bitcoin.Storage.Db.{Db}

-- A relation to a fixed start that each call keeps.
module _ (R : World → Type 0) where
  pub continue_keeps :
      {A B : Type 0} (r : Result A) (f : A → M B) (w : World)
      → R w
      → ((a : A) → r ≡ ok a → R (f a w).1)
      → R (continue r f w).1
  continue_keeps (ok a) f w before after = after a refl
  continue_keeps (err e) f w before after = before

  pub bind_keeps :
      {A B : Type 0} (m : M A) (f : A → M B) (w : World)
      → R (m w).1
      → ((a : A) → (m w).0 ≡ ok a → R (f a (m w).1).1)
      → R ((m >>= f) w).1
  bind_keeps m f w before after = continue_keeps (m w).0 f (m w).1 before after

  pub branch_keeps :
      {A : Type 0} (b : Bool) (m n : M A) (w : World)
      → (b ≡ true → R (m w).1)
      → (b ≡ false → R (n w).1)
      → R (branch b m n w).1
  branch_keeps true m n w f g = f refl
  branch_keeps false m n w f g = g refl

-- A chain that returns a value has returned one at its first step.
pub continue_returns :
    {A B : Type 0} (r : Result A) (f : A → M B) (w : World) (b : B)
    → (continue r f w).0 ≡ ok b
    → (a : A) × (r ≡ ok a) × ((f a w).0 ≡ ok b)
continue_returns (ok a) f w b e = (a, refl, e)
continue_returns (err x) f w b e = cc

pub bind_returns :
    {A B : Type 0} (m : M A) (f : A → M B) (w : World) (b : B)
    → ((m >>= f) w).0 ≡ ok b
    → (a : A) × ((m w).0 ≡ ok a) × ((f a (m w).1).0 ≡ ok b)
bind_returns m f w b e = continue_returns (m w).0 f (m w).1 b e

pub Result-cases :
    {A : Type 0} (r : Result A) → ((a : A) × (r ≡ ok a)) ⊎ ((e : Error) × (r ≡ err e))
Result-cases (ok a) = inl (a, refl)
Result-cases (err e) = inr (e, refl)

-- A loop of writes is a fold over the storage.
abbrev pub write_all : {A : Type 0} → (A → Db → Db) → List A → Db → Db
write_all f [] db = db
write_all f (x ∷ xs) db = write_all f xs (f x db)

pub for_each-modify :
    {A : Type 0} (f : A → Db → Db) (xs : List A) (w : World)
    → for_each xs (λ x. modify (f x)) w ≡ (ok tt, record w { db = write_all f xs w.db })
for_each-modify f [] w = refl
for_each-modify f (x ∷ xs) w = for_each-modify f xs (record w { db = f x w.db })

pub branch_returns :
    {A : Type 0} (b : Bool) (m n : M A) (w : World) (a : A)
    → (branch b m n w).0 ≡ ok a
    → ((b ≡ true) × ((m w).0 ≡ ok a)) ⊎ ((b ≡ false) × ((n w).0 ≡ ok a))
branch_returns true m n w a e = inl (refl, e)
branch_returns false m n w a e = inr (refl, e)

pub none_not_some : {A : Type 0} (a : A) → ok none ≡ ok (some a) → ⊥
none_not_some a e = ground arith

pub err_not_ok : {A : Type 0} {x : Error} {a : A} → err x ≡ ok a → ⊥
err_not_ok e = ground arith

-- Two chains that agree after their common first step.
pub continue_same :
    {A B : Type 0} (r : Result A) (f g : A → M B) (w : World)
    → ((a : A) → r ≡ ok a → f a w ≡ g a w)
    → continue r f w ≡ continue r g w
continue_same (ok a) f g w same = same a refl
continue_same (err e) f g w same = refl

pub bind_same :
    {A B : Type 0} (m : M A) (f g : A → M B) (w : World)
    → ((a : A) → (m w).0 ≡ ok a → f a (m w).1 ≡ g a (m w).1)
    → (m >>= f) w ≡ (m >>= g) w
bind_same m f g w same = continue_same (m w).0 f g (m w).1 same

pub branch_same :
    {A : Type 0} (b : Bool) (m n m' n' : M A) (w : World)
    → (b ≡ true → m w ≡ m' w)
    → (b ≡ false → n w ≡ n' w)
    → branch b m n w ≡ branch b m' n' w
branch_same true m n m' n' w f g = f refl
branch_same false m n m' n' w f g = g refl

-- What holds at the end of a chain that returns a value.
continue_ends :
    {A B : Type 0} (Q : World → Type 0) (r : Result A) (f : A → M B) (w : World) (b : B)
    → (continue r f w).0 ≡ ok b
    → ((a : A) → r ≡ ok a → (f a w).0 ≡ ok b → Q (f a w).1)
    → Q (continue r f w).1
continue_ends Q (ok a) f w b e h = h a refl e
continue_ends Q (err x) f w b e h = absurd (err_not_ok e)

pub bind_ends :
    {A B : Type 0} (Q : World → Type 0) (m : M A) (f : A → M B) (w : World) (b : B)
    → ((m >>= f) w).0 ≡ ok b
    → ((a : A) → (m w).0 ≡ ok a → (f a (m w).1).0 ≡ ok b → Q (f a (m w).1).1)
    → Q ((m >>= f) w).1
bind_ends Q m f w b e h = continue_ends Q (m w).0 f (m w).1 b e h
