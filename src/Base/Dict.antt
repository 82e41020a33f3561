-- ===== src/Base/Dict.antt =====
-- A JavaScript `Map` or `Record` keyed by strings, in order of insertion: `set` on a key that is
-- there keeps the key's place.
use gcdr.Base.Tests.{if◌then◌else◌}
use Prim.Native.String.{String}
use mathlib.Core.Path.{◌≡◌, refl}
use mathlib.Core.Logic.{◌≢◌}
use mathlib.Core.Option.{Option, none, some}
use mathlib.Core.List.{List, [], ◌∷◌}
use native.Mathlib.Omega.{arith}
use text.Mathlib.Text.{◌==◌}
use text.Mathlib.TextEquality.{eq_iff}

abbrev pub Dict {ℓ} : Type ℓ → Type ℓ
Dict V = List (String × V)

module _ {ℓ} {V : Type ℓ} where
  unfoldable pub insert : String → V → Dict V → Dict V
  insert key new [] = (key, new) ∷ []
  insert key new ((k, old) ∷ rest) =
      let later = insert key new rest in if k == key then (k, new) ∷ rest else (k, old) ∷ later

  -- A `Map` has a key at most once, so that at most one entry goes.
  unfoldable pub erase : String → Dict V → Dict V
  erase key [] = []
  erase key ((k, old) ∷ rest) =
      let others = erase key rest in if k == key then others else (k, old) ∷ others

  unfoldable pub lookup : String → Dict V → Option V
  lookup key [] = none
  lookup key ((k, value) ∷ rest) = if k == key then some value else lookup key rest

  pub lookup-insert :
      (key other : String) (new : V) (m : Dict V)
      → lookup other (insert key new m) ≡ (if key == other then some new else lookup other m)
  unfolding lookup insert
  lookup-insert key other new [] = refl
  lookup-insert key other new ((k, old) ∷ rest) =
      ground
        (lookup-insert key other new rest, eq_iff k other, eq_iff k key, eq_iff key other, arith)

  pub lookup-insert_self :
      (key : String) (new : V) (m : Dict V) → lookup key (insert key new m) ≡ some new
  lookup-insert_self key new m = ground (lookup-insert key key new m, eq_iff key key, arith)

  pub lookup-insert_ne :
      (key other : String) (new : V) (m : Dict V)
      → key ≢ other
      → lookup other (insert key new m) ≡ lookup other m
  lookup-insert_ne key other new m ne =
      ground (lookup-insert key other new m, eq_iff key other, arith)

  pub lookup-erase_ne :
      (key other : String) (m : Dict V) → key ≢ other → lookup other (erase key m) ≡ lookup other m
  unfolding lookup erase
  lookup-erase_ne key other [] ne = refl
  lookup-erase_ne key other ((k, old) ∷ rest) ne =
      ground
        (lookup-erase_ne key other rest ne, eq_iff k other, eq_iff k key, eq_iff key other, arith)

  pub lookup-erase_self : (key : String) (m : Dict V) → lookup key (erase key m) ≡ none
  unfolding lookup erase
  lookup-erase_self key [] = refl
  lookup-erase_self key ((k, old) ∷ rest) = ground (lookup-erase_self key rest, eq_iff k key, arith)
