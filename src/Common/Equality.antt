-- ===== src/Common/Equality.antt =====
-- `==` on the program's keys and values, as an instance argument.
use Prim.Native.Nat.{ℕ}
use Prim.Native.String.{String}
use mathlib.Core.Path.{◌≡◌, refl}
use mathlib.Core.Logic.{◌↔◌, inl, inr}
use mathlib.Core.Bool.{Bool, true, false}
use text.Mathlib.Text.{◌==◌ as text_eqb}
use text.Mathlib.TextEquality.{eq_iff}
use rust_bitvmx_bitcoin.Common.Tests.{Bool-cases, nat_eqb, nat_eqb_iff}

-- Rust's `PartialEq`, where the test decides equality.
pub record Eq {ℓ} (A : Type ℓ) : Type ℓ where
  pub test : A → A → Bool
  pub tests_equality : (x y : A) → (test x y ≡ true) ↔ (x ≡ y)

of_dec {ℓ} : {P : Type ℓ} → Dec P → Bool
of_dec (yes p) = true
of_dec (no n) = false

of_dec_iff {ℓ} : {P : Type ℓ} (d : Dec P) → (of_dec d ≡ true) ↔ P
unfolding of_dec
of_dec_iff (yes p) = (λ _. p, λ _. refl)
of_dec_iff (no n) = (λ h. cc, λ p. absurd (n p))

-- `derive(PartialEq)`: the structural test.
unfoldable pub derived_eqb {ℓ} : {A : Type ℓ} → Discrete A → A → A → Bool
unfolding of_dec
derived_eqb d a b = of_dec (d a b)

pub derived_eqb_iff {ℓ} :
    {A : Type ℓ} (d : Discrete A) (a b : A) → (derived_eqb d a b ≡ true) ↔ (a ≡ b)
unfolding derived_eqb
derived_eqb_iff d a b = of_dec_iff (d a b)

abbrev pub derived {ℓ} : {A : Type ℓ} → Discrete A → Eq A
derived d = record { test = derived_eqb d; tests_equality = derived_eqb_iff d }

instance abbrev pub string_eq : Eq String
string_eq = record { test = text_eqb; tests_equality = eq_iff }

infix 50 ◌==◌
abbrev pub ◌==◌ {ℓ} : {A : Type ℓ} ⦃e : Eq A⦄ → A → A → Bool
◌==◌ ⦃e⦄ = e.test

instance abbrev pub nat_eq : Eq ℕ
nat_eq = record { test = nat_eqb; tests_equality = nat_eqb_iff }

pub ==_refl {ℓ} : {A : Type ℓ} ⦃e : Eq A⦄ (a : A) → (a == a) ≡ true
==_refl ⦃e⦄ a = (e.tests_equality a a).1 refl

pub String-discrete : Discrete String
String-discrete s t = elim (Bool-cases (text_eqb s t)) [
  | inl same ↦ yes ((eq_iff s t).0 same)
  | inr differ ↦ no (λ p. cc ((eq_iff s t).1 p))
]
