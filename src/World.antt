-- ===== src/World.antt =====
-- Methods that change the shared state and may fail. The state is what the coordinator persists, the
-- retry clock of `EngineContext`, and the log of the calls made outside. What was written before an
-- error stays written, so the state comes back beside the error too.
pub mod Rules
pub mod Keeps
pub mod Fails
use rust_bitvmx_bitcoin.Common.{Bool, List, Option, [], false, true, ℕ, ◌∷◌, nat_eq, string_eq}
use rust_bitvmx_bitcoin.Types.{Error, Result, err, ok, state_eq, outpoint_eq, news_eq}
use rust_bitvmx_bitcoin.Storage.Db.{Db}
use rust_bitvmx_bitcoin.Outside.{Call, Log}

pub record World : Type 0 where
  pub db : Db
  pub last_retry_at : Option ℕ
  pub log : Log

abbrev pub M : Type 0 → Type 0
M A = World → Result A × World

abbrev pub pure : {A : Type 0} → A → M A
pure a w = (ok a, w)

abbrev pub raise : {A : Type 0} → Error → M A
raise e w = (err e, w)

abbrev pub lift : {A : Type 0} → Result A → M A
lift r w = (r, w)

abbrev pub continue : {A B : Type 0} → Result A → (A → M B) → M B
continue (ok a) f w = f a w
continue (err e) f w = (err e, w)

infixl 5 ◌>>=◌ ◌>>◌
abbrev pub ◌>>=◌ : {A B : Type 0} → M A → (A → M B) → M B
◌>>=◌ m f w = let (r, w') = m w in continue r f w'

abbrev pub ◌>>◌ : {A B : Type 0} → M A → M B → M B
m >> n = m >>= λ _. n

-- A read of the persisted state.
abbrev pub reads : {A : Type 0} → (Db → A) → M A
reads f w = (ok (f w.db), w)

abbrev pub modify : (Db → Db) → M (Unit {0})
modify f w = (ok tt, record w { db = f w.db })

abbrev pub updates : {A : Type 0} → (Db → A × Db) → M A
updates f w = let (a, db') = f w.db in (ok a, record w { db = db' })

abbrev pub tries : {A : Type 0} → (Db → Result A × Db) → M A
tries f w = let (r, db') = f w.db in (r, record w { db = db' })

-- A question to the outside, and a call that is logged.
abbrev pub ask : {A : Type 0} → (Log → Result A) → M A
ask f w = (f w.log, w)

abbrev pub call : {A : Type 0} → Call → (Log → Result A) → M A
call c f w = (f w.log, record w { log = c ∷ w.log })

-- `match m { r => .. }` on the result itself.
abbrev pub attempt : {A : Type 0} → M A → M (Result A)
attempt m w = let (r, w') = m w in (ok r, w')

abbrev pub when : Bool → M (Unit {0}) → M (Unit {0})
when b m = elim b [ true ↦ m | false ↦ pure tt ]

abbrev pub branch : {A : Type 0} → Bool → M A → M A → M A
branch true m n = m
branch false m n = n

abbrev pub for_each : {A : Type 0} → List A → (A → M (Unit {0})) → M (Unit {0})
for_each [] f = pure tt
for_each (x ∷ xs) f = do f x; for_each xs f
