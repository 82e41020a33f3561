-- ===== src/Base/Actions.antt =====
-- A small program logic for actions: a property of the state that holds however a call ends.
use mathlib.Core.Path.{◌≡◌, refl, ap}
use mathlib.Core.Bool.{Bool, true, false}
use mathlib.Core.Option.{Option, none, some}
use gcdr.Base.Errors.{Action, AppError, Result, ok, err, ◌>>=◌, or_throw, throw_if}
use gcdr.Base.Tests.{if◌then◌else◌}

-- What holds of the value and the state where a call returns, and of the state where it throws.
abbrev pub Ends : {S A : Type 0} → (A → S → Type 0) → (S → Type 0) → Result A × S → Type 0
Ends good bad (ok a, s) = good a s
Ends good bad (err e, s) = bad s

-- A call that never throws.
pub Ends-returned :
    {S A : Type 0} (good : S → Type 0) (r : Result A × S) → Ends (λ _. good) (λ _. ⊥) r → good r.1
Ends-returned good (ok a, s) h = h
Ends-returned good (err e, s) h = absurd h

pub Ends-value :
    {S A : Type 0} (v : A) (r : Result A × S) → Ends (λ a _. a ≡ v) (λ _. ⊥) r → r.0 ≡ ok v
Ends-value v (ok a, s) h = ap (λ x. ok x) h
Ends-value v (err e, s) h = absurd h

-- What follows a call that returned.
pub bind-ok :
    {S A B : Type 0} (m : Action S A) (k : A → Action S B) (s : S) {a : A} {s' : S}
    → m s ≡ (ok a, s')
    → (m >>= k) s ≡ k a s'
bind-ok {S} {A} {B} m k s e = ap (λ (r : Result A × S). ((λ (_ : S). r) >>= k) s) e

module _ {S A B : Type 0} (goal : S → Type 0) where
  pub bind_rule :
      (middle : A → S → Type 0) (m : Action S A) (k : A → Action S B) (s : S)
      → Ends middle goal (m s)
      → ((a : A) (s' : S) → middle a s' → goal (k a s').1)
      → goal ((m >>= k) s).1
  bind_rule middle m k s = on_result (m s)
    where
      on_result :
          (r : Result A × S)
          → Ends middle goal r
          → ((a : A) (s' : S) → middle a s' → goal (k a s').1)
          → goal (((λ (_ : S). r) >>= k) s).1
      on_result (ok a, s') h next = next a s' h
      on_result (err e, s') h next = h

  pub or_throw_rule :
      (o : Option A) (e : AppError) (k : A → Action S B) (s : S)
      → goal s
      → ((a : A) → o ≡ some a → goal (k a s).1)
      → goal ((or_throw o e >>= k) s).1
  or_throw_rule none e k s h next = h
  or_throw_rule (some a) e k s h next = next a refl

module _ {S B : Type 0} (goal : S → Type 0) where
  pub throw_if_rule :
      (c : Bool) (e : AppError) (k : Unit {0} → Action S B) (s : S)
      → goal s
      → (c ≡ false → goal (k tt s).1)
      → goal ((throw_if c e >>= k) s).1
  throw_if_rule true e k s h next = h
  throw_if_rule false e k s h next = next refl

  pub if_rule :
      (c : Bool) (m n : Action S B) (s : S)
      → (c ≡ true → goal (m s).1)
      → (c ≡ false → goal (n s).1)
      → goal ((if c then m else n) s).1
  if_rule true m n s on_true _ = on_true refl
  if_rule false m n s _ on_false = on_false refl

-- The rule for a call in the middle of another, whose own result matters.
module _ {S A B : Type 0} (good : B → S → Type 0) (bad : S → Type 0) where
  pub bind-Ends :
      (middle : A → S → Type 0) (m : Action S A) (k : A → Action S B) (s : S)
      → Ends middle bad (m s)
      → ((a : A) (s' : S) → middle a s' → Ends good bad (k a s'))
      → Ends good bad ((m >>= k) s)
  bind-Ends middle m k s = on_result (m s)
    where
      on_result :
          (r : Result A × S)
          → Ends middle bad r
          → ((a : A) (s' : S) → middle a s' → Ends good bad (k a s'))
          → Ends good bad (((λ (_ : S). r) >>= k) s)
      on_result (ok a, s') h next = next a s' h
      on_result (err e, s') h next = h
