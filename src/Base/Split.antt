-- ===== src/Base/Split.antt =====
-- `s.split(c)` at a one-character separator, which is given by its code point.
use Prim.Native.Nat.{ℕ}
use Prim.Native.Char.{Char, code}
use Prim.Native.String
use Prim.Native.String.{String}
use mathlib.Core.Path.{◌≡◌, refl}
use mathlib.Core.Logic.{◌≢◌}
use mathlib.Core.List.{List, [], ◌∷◌}
use native.Mathlib.Omega.{arith}
use text.Mathlib.TextLemmas.{nil-append, cons-append}
use gcdr.Base.Tests.{if◌then◌else◌, eqb}

push_front : Char → List String → List String
push_front c [] = String.◌∷◌ c String.[] ∷ []
push_front c (w ∷ ws) = String.◌∷◌ c w ∷ ws

unfoldable pub split : ℕ → String → List String
unfolding push_front
split sep String.[] = "" ∷ []
split sep (String.◌∷◌ c s) =
    let rest = split sep s in if eqb (code c) sep then "" ∷ rest else push_front c rest

-- No character of the text has this code point.
abbrev pub Lacks : ℕ → String → Type 0
Lacks sep String.[] = Unit
Lacks sep (String.◌∷◌ c s) = (code c ≢ sep) × Lacks sep s

pub split-Lacks : (sep : ℕ) (w : String) → Lacks sep w → split sep w ≡ w ∷ []
unfolding split
split-Lacks sep String.[] h = refl
split-Lacks sep (String.◌∷◌ c s) (n, h) = rw (split-Lacks sep s h) (ground arith)

pub append-Lacks :
    (sep : ℕ) (s t : String) → Lacks sep s → Lacks sep t → Lacks sep (String.◌++◌ s t)
append-Lacks sep String.[] t h k = rw nil-append k
append-Lacks sep (String.◌∷◌ c s) t (h, hs) k = rw cons-append (h, append-Lacks sep s t hs k)

-- Up to its first separator a text gives one part.
pub split-append :
    (sep : ℕ) (w : String) (c : Char) (s : String)
    → Lacks sep w
    → code c ≡ sep
    → split sep (String.◌++◌ w (String.◌∷◌ c s)) ≡ w ∷ split sep s
unfolding split
split-append sep String.[] c s h e = rw nil-append (ground arith)
split-append sep (String.◌∷◌ d w) c s (n, h) e =
    rw cons-append (rw (split-append sep w c s h e) (ground arith))

-- The same where the separator stands as a text of its own.
pub split-separated :
    (sep : ℕ) (w : String) (c : Char) (s : String)
    → Lacks sep w
    → code c ≡ sep
    → split sep (String.◌++◌ w (String.◌++◌ (String.◌∷◌ c String.[]) s)) ≡ w ∷ split sep s
split-separated sep w c s h e = rw (cons-append, nil-append) (split-append sep w c s h e)

split_test : split b'.' "energy.settings.read" ≡ "energy" ∷ "settings" ∷ "read" ∷ []
unfolding split
split_test = refl
