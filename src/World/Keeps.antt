-- ===== src/World/Keeps.antt =====
-- Invariants of the persisted state through the monad of World.antt: one rule for each way in which
-- the methods of the engines are put together.
use rust_bitvmx_bitcoin.Common.{All, Bool, List, [], false, refl, true, ◌∷◌, ◌≡◌, nat_eq, string_eq}
use rust_bitvmx_bitcoin.Types.{Error, Result, err, ok, state_eq, outpoint_eq, news_eq}
use rust_bitvmx_bitcoin.Storage.Db.{Db}
use rust_bitvmx_bitcoin.Outside.{Call, Log}
use rust_bitvmx_bitcoin.World.{
  M, World, ask, attempt, branch, call, continue, for_each, lift, modify, pure, raise, reads, tries,
  updates, when, ◌>>=◌,
}

-- `m` keeps `R` of the persisted state, whether it returns or raises.
pub record Keeps {A : Type 0} (R : Db → Type 0) (m : M A) : Type 0 where
  pub at : (w : World) → R w.db → R (m w).1.db

module _ {R : Db → Type 0} where
  pub Keeps-when : (b : Bool) (m : M (Unit {0})) → Keeps R m → Keeps R (when b m)
  Keeps-when true m k = k
  Keeps-when false m k = record { at = λ w h. h }

  pub Keeps-modify : (f : Db → Db) → ((db : Db) → R db → R (f db)) → Keeps R (modify f)
  Keeps-modify f keep = record { at = λ w h. keep w.db h }

module _ {R : Db → Type 0} {A : Type 0} where
  pub Keeps-pure : (a : A) → Keeps R (pure a)
  Keeps-pure a = record { at = λ w h. h }

  pub Keeps-raise : (e : Error) → Keeps R (raise {A = A} e)
  Keeps-raise e = record { at = λ w h. h }

  pub Keeps-lift : (r : Result A) → Keeps R (lift r)
  Keeps-lift r = record { at = λ w h. h }

  pub Keeps-reads : (f : Db → A) → Keeps R (reads f)
  Keeps-reads f = record { at = λ w h. h }

  pub Keeps-ask : (f : Log → Result A) → Keeps R (ask f)
  Keeps-ask f = record { at = λ w h. h }

  pub Keeps-call : (c : Call) (f : Log → Result A) → Keeps R (call c f)
  Keeps-call c f = record { at = λ w h. h }

  pub Keeps-attempt : (m : M A) → Keeps R m → Keeps R (attempt m)
  Keeps-attempt m k = record { at = λ w h. k.at w h }

  pub Keeps-updates : (f : Db → A × Db) → ((db : Db) → R db → R (f db).1) → Keeps R (updates f)
  Keeps-updates f keep = record { at = λ w h. keep w.db h }

  pub Keeps-tries : (f : Db → Result A × Db) → ((db : Db) → R db → R (f db).1) → Keeps R (tries f)
  Keeps-tries f keep = record { at = λ w h. keep w.db h }

  pub Keeps-branch : (b : Bool) (m n : M A) → Keeps R m → Keeps R n → Keeps R (branch b m n)
  Keeps-branch true m n km kn = km
  Keeps-branch false m n km kn = kn

module _ {R : Db → Type 0} {A B : Type 0} where
  continue_keeps :
      (r : Result A) (f : A → M B) (w : World)
      → ((a : A) → Keeps R (f a))
      → R w.db
      → R (continue r f w).1.db
  continue_keeps (ok a) f w kf h = (kf a).at w h
  continue_keeps (err e) f w kf h = h

  pub Keeps-bind :
      (m : M A) (f : A → M B) → Keeps R m → ((a : A) → Keeps R (f a)) → Keeps R (m >>= f)
  Keeps-bind m f km kf = record { at = λ w h. continue_keeps (m w).0 f (m w).1 kf (km.at w h) }

module _ {R : Db → Type 0} {A : Type 0} where
  pub Keeps-for_each :
      (xs : List A) (f : A → M (Unit {0})) → ((a : A) → Keeps R (f a)) → Keeps R (for_each xs f)
  Keeps-for_each [] f kf = record { at = λ w h. h }
  Keeps-for_each (x ∷ xs) f kf =
      Keeps-bind (f x) (λ _. for_each xs f) (kf x) (λ _. Keeps-for_each xs f kf)

  -- The loop over values of which something is known.
  pub Keeps-for_each-All :
      (P : A → Type 0) (xs : List A) (f : A → M (Unit {0}))
      → All P xs
      → ((a : A) → P a → Keeps R (f a))
      → Keeps R (for_each xs f)
  Keeps-for_each-All P [] f all kf = record { at = λ w h. h }
  Keeps-for_each-All P (x ∷ xs) f all kf =
      Keeps-bind (f x) (λ _. for_each xs f) (kf x all.0) (λ _. Keeps-for_each-All P xs f all.1 kf)

module _ {R : Db → Type 0} {A B : Type 0} where
  -- A first step that also ensures something of what it returns.
  pub Keeps-ensured :
      (Q : A → Type 0) (m : M A) (f : A → M B)
      → ((w : World) → R w.db → R (m w).1.db × ((a : A) → (m w).0 ≡ ok a → Q a))
      → ((a : A) → Q a → Keeps R (f a))
      → Keeps R (m >>= f)
  Keeps-ensured Q m f first kf = record {
    at = λ w h. let (kept, ensured) = first w h in rest (m w).0 (m w).1 kept ensured;
  }
    where
      rest :
          (r : Result A) (w : World) → R w.db → ((a : A) → r ≡ ok a → Q a) → R (continue r f w).1.db
      rest (ok a) w h q = (kf a (q a refl)).at w h
      rest (err e) w h q = h

  -- What is read of a state in which `R` holds.
  pub Keeps-read :
      (f : Db → A) (k : A → M B) → ((db : Db) → R db → Keeps R (k (f db))) → Keeps R (reads f >>= k)
  Keeps-read f k kf = record { at = λ w h. (kf w.db h).at w h }

pub ruleset keeps_rules = (
  Keeps-pure, Keeps-raise, Keeps-lift, Keeps-reads, Keeps-ask, Keeps-call, Keeps-attempt,
  Keeps-when, Keeps-branch, Keeps-for_each, Keeps-bind,
)
