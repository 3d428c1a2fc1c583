-- ===== src/Common/Lists.antt =====
-- Lists under the names that Rust's slices and iterators have.
use Prim.Native.Nat.{ℕ, zero, suc, ◌+◌, ◌≤◌}
use mathlib.Core.Path.{◌≡◌, refl}
use mathlib.Core.Logic.{inl, inr}
use mathlib.Core.Bool.{Bool, true, false, ◌||◌}
use mathlib.Core.List.{List, [], ◌∷◌, ◌++◌}
use mathlib.Core.Option.{Option, none, some}
use native.Mathlib.Omega.{arith}
use rust_bitvmx_bitcoin.Common.Tests.{if◌then◌else◌, Bool-cases}
use rust_bitvmx_bitcoin.Common.Equality.{Eq, ◌==◌}

module _ {ℓ} {A : Type ℓ} where
  abbrev pub length : List A → ℕ
  length [] = 0
  length (x ∷ xs) = suc (length xs)

  abbrev pub is_empty : List A → Bool
  is_empty [] = true
  is_empty (x ∷ xs) = false

  abbrev pub first : List A → Option A
  first [] = none
  first (x ∷ xs) = some x

  abbrev pub last : List A → Option A
  last [] = none
  last (x ∷ []) = some x
  last (x ∷ y ∷ ys) = last (y ∷ ys)

  abbrev pub drop : ℕ → List A → List A
  drop zero xs = xs
  drop (suc n) [] = []
  drop (suc n) (x ∷ xs) = drop n xs

  abbrev pub take : ℕ → List A → List A
  take zero xs = []
  take (suc n) [] = []
  take (suc n) (x ∷ xs) = x ∷ take n xs

  -- `iter().filter(p)`
  abbrev pub filter : (A → Bool) → List A → List A
  filter p [] = []
  filter p (x ∷ xs) = let rest = filter p xs in if p x then x ∷ rest else rest

  abbrev pub any : (A → Bool) → List A → Bool
  any p [] = false
  any p (x ∷ xs) = p x || any p xs

  abbrev pub find : (A → Bool) → List A → Option A
  find p [] = none
  find p (x ∷ xs) = let rest = find p xs in if p x then some x else rest

  abbrev pub All {κ} : (A → Type κ) → List A → Type κ
  All P [] = Unit
  All P (x ∷ xs) = P x × All P xs

  pub length-append : (xs ys : List A) → length (xs ++ ys) ≡ length xs + length ys
  length-append [] ys = omega arith
  length-append (x ∷ xs) ys = omega (arith, length-append xs ys)

  pub length-filter-le : (p : A → Bool) (xs : List A) → length (filter p xs) ≤ length xs
  length-filter-le p [] = omega arith
  length-filter-le p (x ∷ xs) = ground (arith, length-filter-le p xs)

  pub All-append {κ} : (P : A → Type κ) (xs ys : List A) → All P xs → All P ys → All P (xs ++ ys)
  All-append P [] ys left right = right
  All-append P (x ∷ xs) ys left right = (left.0, All-append P xs ys left.1 right)

  pub All-map {κ λ'} :
      {P : A → Type κ} {Q : A → Type λ'} (f : (x : A) → P x → Q x) (xs : List A)
      → All P xs
      → All Q xs
  All-map f [] h = tt
  All-map f (x ∷ xs) h = (f x h.0, All-map f xs h.1)

  pub All-filter : (p : A → Bool) (xs : List A) → All (λ x. p x ≡ true) (filter p xs)
  All-filter p [] = tt
  All-filter p (x ∷ xs) = elim (Bool-cases (p x)) [
    | inl h ↦ rw h (h, All-filter p xs)
    | inr h ↦ rw h (All-filter p xs)
  ]

  pub any-append : (p : A → Bool) (xs ys : List A) → any p (xs ++ ys) ≡ (any p xs || any p ys)
  any-append p [] ys = refl
  any-append p (x ∷ xs) ys = ground (arith, any-append p xs ys)

  pub filter-append :
      (p : A → Bool) (xs ys : List A) → filter p (xs ++ ys) ≡ filter p xs ++ filter p ys
  filter-append p [] ys = refl
  filter-append p (x ∷ xs) ys = ground (arith, filter-append p xs ys)

module _ {ℓ} {A : Type ℓ} ⦃e : Eq A⦄ where
  abbrev pub contains : List A → A → Bool
  contains [] a = false
  contains (x ∷ xs) a = x == a || contains xs a

  -- `list.retain(|id| id != &a)`
  abbrev pub remove_all : A → List A → List A
  remove_all a [] = []
  remove_all a (x ∷ xs) = let rest = remove_all a xs in if x == a then rest else x ∷ rest

  -- No entry occurs twice.
  abbrev pub IsUnique : List A → Type 0
  IsUnique [] = Unit {0}
  IsUnique (x ∷ xs) = (contains xs x ≡ false) × IsUnique xs

  -- `if !list.contains(&a) { list.push(a) }`
  abbrev pub push_new : List A → A → List A
  push_new xs a = if contains xs a then xs else xs ++ a ∷ []

module _ {ℓ} {A : Type ℓ} ⦃e : Eq A⦄ where
  pub contains-append :
      (xs ys : List A) (a : A) → contains (xs ++ ys) a ≡ (contains xs a || contains ys a)
  contains-append [] ys a = refl
  contains-append (x ∷ xs) ys a = ground (arith, contains-append xs ys a)

  pub IsUnique-push :
      (a : A) (xs : List A) → contains xs a ≡ false → IsUnique xs → IsUnique (xs ++ a ∷ [])
  IsUnique-push a [] h u = (refl, tt)
  IsUnique-push a (x ∷ xs) h u = ground (
    arith,
    IsUnique-push a xs,
    contains-append xs (a ∷ []) x,
    e.tests_equality a x,
    e.tests_equality x a,
  )

  pub push_new-IsUnique : (xs : List A) (a : A) → IsUnique xs → IsUnique (push_new xs a)
  push_new-IsUnique xs a u = elim (Bool-cases (contains xs a)) [
    | inl old ↦ rw old u
    | inr new ↦ rw new (IsUnique-push a xs new u)
  ]

  pub contains-remove_all :
      (a b : A) (xs : List A)
      → contains (remove_all a xs) b ≡ (if a == b then false else contains xs b)
  contains-remove_all a b [] = ground arith
  contains-remove_all a b (x ∷ xs) = ground (
    arith,
    contains-remove_all a b xs,
    e.tests_equality x a,
    e.tests_equality x b,
    e.tests_equality a b,
  )

  pub remove_all-IsUnique : (a : A) (xs : List A) → IsUnique xs → IsUnique (remove_all a xs)
  remove_all-IsUnique a [] u = tt
  remove_all-IsUnique a (x ∷ xs) u =
      ground (arith, remove_all-IsUnique a xs, contains-remove_all a x xs)

  pub remove_all_absent : (a : A) (xs : List A) → contains xs a ≡ false → remove_all a xs ≡ xs
  remove_all_absent a [] h = refl
  remove_all_absent a (x ∷ xs) h = ground (arith, remove_all_absent a xs)
