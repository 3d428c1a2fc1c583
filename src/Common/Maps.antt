-- ===== src/Common/Maps.antt =====
-- A key-value map as an association list with one entry for each key.
use mathlib.Core.Path.{◌≡◌, refl}
use mathlib.Core.List.{List, [], ◌∷◌}
use mathlib.Core.Bool.{false, true}
use mathlib.Core.Option.{Option, none, some}
use native.Mathlib.Omega.{arith}
use rust_bitvmx_bitcoin.Common.Tests.{if◌then◌else◌, is_some}
use rust_bitvmx_bitcoin.Common.Equality.{Eq, ◌==◌, ==_refl}
use rust_bitvmx_bitcoin.Common.Lists.{contains}

module _ {ℓ κ} {K : Type ℓ} {V : Type κ} ⦃e : Eq K⦄ where
  unfoldable pub delete : K → List (K × V) → List (K × V)
  delete key [] = []
  delete key ((i, w) ∷ l) = let rest = delete key l in if i == key then rest else (i, w) ∷ rest

  unfoldable pub lookup : K → List (K × V) → Option V
  lookup key [] = none
  lookup key ((i, w) ∷ l) = let rest = lookup key l in if i == key then some w else rest

  unfoldable pub insert : K → V → List (K × V) → List (K × V)
  insert key val [] = (key, val) ∷ []
  insert key val ((i, w) ∷ l) =
      let rest = insert key val l in if i == key then (i, val) ∷ l else (i, w) ∷ rest

  abbrev pub keys : List (K × V) → List K
  keys [] = []
  keys ((k, v) ∷ m) = k ∷ keys m

  abbrev pub values : List (K × V) → List V
  values [] = []
  values ((k, v) ∷ m) = v ∷ values m

  pub lookup-insert :
      (put key : K) (val : V) (l : List (K × V))
      → lookup key (insert put val l) ≡ (if put == key then some val else lookup key l)
  unfolding lookup insert
  lookup-insert put key val [] = refl
  lookup-insert put key val ((i, w) ∷ l) = ground (
    arith,
    lookup-insert put key val l,
    e.tests_equality i put,
    e.tests_equality i key,
    e.tests_equality put key,
  )

  pub lookup-delete :
      (k j : K) (m : List (K × V)) → lookup j (delete k m) ≡ (if k == j then none else lookup j m)
  unfolding lookup delete
  lookup-delete k j [] = ground arith
  lookup-delete k j ((i, w) ∷ m) =
      ground (
        arith,
        e.tests_equality k j,
        e.tests_equality i k,
        e.tests_equality i j,
        lookup-delete k j m,
      )

  pub lookup-insert_self : (k : K) (v : V) (m : List (K × V)) → lookup k (insert k v m) ≡ some v
  lookup-insert_self k v m = rw (lookup-insert k k v m, ==_refl k)

  pub contains-keys : (k : K) (m : List (K × V)) → contains (keys m) k ≡ is_some (lookup k m)
  unfolding lookup
  contains-keys k [] = refl
  contains-keys k ((i, w) ∷ m) =
      ground (arith, contains-keys k m, e.tests_equality i k, e.tests_equality k i)

  pub keys-insert_present :
      (k : K) (v : V) (m : List (K × V))
      → is_some (lookup k m) ≡ true
      → keys (insert k v m) ≡ keys m
  unfolding lookup insert
  keys-insert_present k v [] at = ground arith
  keys-insert_present k v ((i, u) ∷ l) at = ground (arith, keys-insert_present k v l)

  -- Writing back what was there.
  pub insert_undo :
      (k : K) (v w : V) (m : List (K × V)) → lookup k m ≡ some v → insert k v (insert k w m) ≡ m
  unfolding lookup insert
  insert_undo k v w [] at = ground arith
  insert_undo k v w ((i, u) ∷ l) at = ground (arith, insert_undo k v w l)

  -- Writes in place under two keys commute.
  pub insert_comm :
      (j k : K) (v w : V) (m : List (K × V))
      → (j == k) ≡ false
      → is_some (lookup j m) ≡ true
      → is_some (lookup k m) ≡ true
      → insert j v (insert k w m) ≡ insert k w (insert j v m)
  unfolding lookup insert
  insert_comm j k v w [] apart at_j at_k = ground arith
  insert_comm j k v w ((i, u) ∷ l) apart at_j at_k = ground (
    arith,
    insert_comm j k v w l,
    e.tests_equality i j,
    e.tests_equality i k,
    e.tests_equality j k,
  )

pub ruleset map_laws = (lookup-insert, lookup-delete)
