-- ===== src/World/Fails.antt =====
-- Errors through the monad of World.antt: what a method that raises has left, and which methods
-- never raise.
use rust_bitvmx_bitcoin.Common.{
  Bool, List, [], arith, false, refl, true, ◌∷◌, ◌≡◌, nat_eq, string_eq,
}
use rust_bitvmx_bitcoin.Types.{Error, Result, err, ok, state_eq, outpoint_eq, news_eq}
use rust_bitvmx_bitcoin.Storage.Db.{Db}
use rust_bitvmx_bitcoin.World.{M, World, continue, for_each, modify, pure, updates, when, ◌>>=◌}
use rust_bitvmx_bitcoin.World.Keeps.{Keeps, keeps_rules}

-- `m` never raises.
pub record IsSure {A : Type 0} (m : M A) : Type 0 where
  pub never : (w : World) (e : Error) → (m w).0 ≡ err e → ⊥

-- Where `m` raises, `R` still holds of the persisted state.
pub record Fails {A : Type 0} (R : Db → Type 0) (m : M A) : Type 0 where
  pub at : (w : World) (e : Error) → R w.db → (m w).0 ≡ err e → R (m w).1.db

ok_err : {A : Type 0} {a : A} {e : Error} → ok a ≡ err e → ⊥
ok_err h = ground arith

pub IsSure-modify : (f : Db → Db) → IsSure (modify f)
IsSure-modify f = record { never = λ w e h. ok_err h }

module _ {A : Type 0} where
  pub IsSure-pure : (a : A) → IsSure (pure a)
  IsSure-pure a = record { never = λ w e h. ok_err h }

  pub IsSure-updates : (f : Db → A × Db) → IsSure (updates f)
  IsSure-updates f = record { never = λ w e h. ok_err h }

pub IsSure-when : (b : Bool) (m : M (Unit {0})) → IsSure m → IsSure (when b m)
IsSure-when true m s = s
IsSure-when false m s = IsSure-pure tt

module _ {A B : Type 0} where
  continue_sure :
      (r : Result A) (f : A → M B) (w : World) (e : Error)
      → ((e' : Error) → r ≡ err e' → ⊥)
      → ((a : A) → IsSure (f a))
      → (continue r f w).0 ≡ err e
      → ⊥
  continue_sure (ok a) f w e never fs h = (fs a).never w e h
  continue_sure (err x) f w e never fs h = never x refl

  pub IsSure-bind : (m : M A) (f : A → M B) → IsSure m → ((a : A) → IsSure (f a)) → IsSure (m >>= f)
  IsSure-bind m f ms fs = record {
    never = λ w e h. continue_sure (m w).0 f (m w).1 e (ms.never w) fs h;
  }

pub IsSure-for_each :
    {A : Type 0} (xs : List A) (f : A → M (Unit {0}))
    → ((a : A) → IsSure (f a))
    → IsSure (for_each xs f)
IsSure-for_each [] f fs = IsSure-pure tt
IsSure-for_each (x ∷ xs) f fs =
    IsSure-bind (f x) (λ _. for_each xs f) (fs x) (λ _. IsSure-for_each xs f fs)

module _ {R : Db → Type 0} {A : Type 0} where
  pub Fails-IsSure : (m : M A) → IsSure m → Fails R m
  Fails-IsSure m s = record { at = λ w e r h. absurd (s.never w e h) }

  pub Fails-Keeps : (m : M A) → Keeps R m → Fails R m
  Fails-Keeps m k = record { at = λ w e r h. k.at w r }

pub Fails-when : {R : Db → Type 0} (b : Bool) (m : M (Unit {0})) → Fails R m → Fails R (when b m)
Fails-when true m s = s
Fails-when false m s = Fails-IsSure (pure tt) (IsSure-pure tt)

module _ {R : Db → Type 0} {A B : Type 0} where
  continue_fails :
      (r : Result A) (f : A → M B) (w : World) (e : Error)
      → R w.db
      → ((a : A) → Fails R (f a))
      → (continue r f w).0 ≡ err e
      → R (continue r f w).1.db
  continue_fails (ok a) f w e kept fs h = (fs a).at w e kept h
  continue_fails (err x) f w e kept fs h = kept

  -- The first step keeps `R`, so that only what follows matters.
  pub Fails-bind :
      (m : M A) (f : A → M B) → Keeps R m → ((a : A) → Fails R (f a)) → Fails R (m >>= f)
  Fails-bind m f mk fs = record {
    at = λ w e kept h. continue_fails (m w).0 f (m w).1 e (mk.at w kept) fs h;
  }

pub ruleset sure_rules =
    (IsSure-pure, IsSure-modify, IsSure-updates, IsSure-when, IsSure-for_each, IsSure-bind)

pub ruleset fails_rules = (keeps_rules, sure_rules, Fails-when, Fails-bind)
