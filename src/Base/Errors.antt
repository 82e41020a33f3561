-- ===== src/Base/Errors.antt =====
-- The errors of shared/errors/AppError.ts, and the methods that throw them: an action on a state
-- returns a result and the state that it has reached, since what was written before a throw stays.
use Prim.Native.Nat.{ℕ}
use Prim.Native.String.{String}
use mathlib.Core.Bool.{Bool, true, false}
use mathlib.Core.Option.{Option, none, some}
use gcdr.Base.Tests.{if◌then◌else◌}

-- A message: a fixed text, or one with a text or a number put in (the part that varies is kept).
pub data Message : Type 0 where
  text : String → Message
  naming : String → String → Message
  counting : String → ℕ → Message

-- `plain` is `new Error(…)`; `app` is `new AppError(code, message, status)`.
pub data AppError : Type 0 where
  not_found validation unauthorized forbidden conflict plain : Message → AppError
  app : String → Message → ℕ → AppError

-- `statusCode`; the handler for errors answers 500 to a plain `Error`.
pub status_code : AppError → ℕ
status_code (not_found _) = 404
status_code (validation _) = 400
status_code (unauthorized _) = 401
status_code (forbidden _) = 403
status_code (conflict _) = 409
status_code (plain _) = 500
status_code (app _ _ status) = status

pub data Result {ℓ} (A : Type ℓ) : Type ℓ where
  ok : A → Result A
  err : AppError → Result A

abbrev pub is_ok {ℓ} : {A : Type ℓ} → Result A → Bool
is_ok (ok _) = true
is_ok (err _) = false

abbrev pub Action : Type 0 → Type 0 → Type 0
Action S A = S → Result A × S

module _ {S A : Type 0} where
  abbrev pub pure : A → Action S A
  pure a s = (ok a, s)

  abbrev pub throw : AppError → Action S A
  throw e s = (err e, s)

  abbrev pub gets : (S → A) → Action S A
  gets f s = (ok (f s), s)

  -- The value of an `Option`, or a throw where it is null.
  abbrev pub or_throw : Option A → AppError → Action S A
  or_throw none e = throw e
  or_throw (some a) _ = pure a

module _ {S : Type 0} where
  abbrev pub throw_some : Option AppError → Action S (Unit {0})
  throw_some none s = (ok tt, s)
  throw_some (some e) s = (err e, s)

  abbrev pub throw_if : Bool → AppError → Action S (Unit {0})
  throw_if c e s = (if c then err e else ok tt, s)

  abbrev pub modify : (S → S) → Action S (Unit {0})
  modify f s = (ok tt, f s)

infixl 5 ◌>>=◌ ◌>>◌
abbrev pub ◌>>=◌ : {S A B : Type 0} → Action S A → (A → Action S B) → Action S B
◌>>=◌ m f s = let (r, s') = m s in elim r [ ok a ↦ f a s' | err e ↦ (err e, s') ]

abbrev pub ◌>>◌ : {S A B : Type 0} → Action S A → Action S B → Action S B
m >> k = m >>= λ _. k
