-- ===== src/Base/Text.antt =====
-- The operations on strings that the source calls (`split`, `endsWith`, `slice(0, -1)`,
-- `startsWith`), over the native `String`, character by character. The separators and suffixes
-- are ASCII, so JavaScript's UTF-16 units and the characters here agree on them.
use Prim.Native.Nat.{ℕ, zero, suc, ◌-◌, ◌/◌, ◌%◌}
use Prim.Native.Char.{Char, code}
use Prim.Native.String.{String, [], ◌∷◌, ◌++◌}
use mathlib.Core.Path.{◌≡◌, refl, sym, ap}
use mathlib.Core.Logic.{inl, inr}
use mathlib.Core.Bool.{Bool, true, ◌&&◌, ◌||◌}
use native.Mathlib.Omega.{arith}
use text.Mathlib.Text.{◌==◌, starts_with as lib_starts_with}
use text.Mathlib.TextEquality.{eq_iff, starts_with_iff}
use text.Mathlib.TextLemmas.{nil-append, cons-append}
use gcdr.Base.Tests.{Bool-cases, if◌then◌else◌, leb, ltb}

-- `s.startsWith(p)`
unfoldable pub starts_with : String → String → Bool
starts_with s p = lib_starts_with s p

pub starts_with_sound : (s p : String) → starts_with s p ≡ true → (t : String) × (s ≡ p ++ t)
unfolding starts_with
starts_with_sound s p h = let (t, e) = (starts_with_iff s p).0 h in (t, sym e)

pub starts_with_complete : (s p t : String) → s ≡ p ++ t → starts_with s p ≡ true
unfolding starts_with
starts_with_complete s p t e = (starts_with_iff s p).1 (t, sym e)

-- `s.endsWith(p)`
unfoldable pub ends_with : String → String → Bool
ends_with [] p = [] == p
ends_with (c ∷ s) p = (c ∷ s) == p || ends_with s p

pub ends_with_sound : (s p : String) → ends_with s p ≡ true → (t : String) × (s ≡ t ++ p)
unfolding ends_with
ends_with_sound [] p h = ([], rw nil-append ((eq_iff [] p).0 h))
ends_with_sound (c ∷ s) p h = elim (Bool-cases ((c ∷ s) == p)) [
  | inl e ↦ ([], rw nil-append ((eq_iff (c ∷ s) p).0 e))
  | inr e ↦
      let (t, q) = ends_with_sound s p (rw e at h) in (c ∷ t, rw cons-append (ap (λ r. c ∷ r) q))
]

pub ends_with_complete : (t p : String) → ends_with (t ++ p) p ≡ true
unfolding ends_with
ends_with_complete [] p = rw nil-append (ends_with_self p)
  where
    ends_with_self : (p : String) → ends_with p p ≡ true
    ends_with_self [] = refl
    ends_with_self (c ∷ s) = rw ((eq_iff (c ∷ s) (c ∷ s)).1 refl)
ends_with_complete (c ∷ t) p =
    rw cons-append (rw (ends_with_complete t p) (or_true ((c ∷ (t ++ p)) == p)))
  where
    or_true : (b : Bool) → (b || true) ≡ true
    or_true b = ground arith

-- `s.slice(0, -1)`
unfoldable pub drop_last : String → String
drop_last [] = []
drop_last (c ∷ []) = []
drop_last (c ∷ (d ∷ s)) = c ∷ drop_last (d ∷ s)

pub drop_last-append : (t : String) (c : Char) → drop_last (t ++ c ∷ []) ≡ t
unfolding drop_last
drop_last-append [] c = rw nil-append
drop_last-append (d ∷ []) c = simp (cons-append, nil-append)
drop_last-append (d ∷ (e ∷ t)) c =
    rw (cons-append, cons-append) (ap (λ r. d ∷ r) (rw cons-append at (drop_last-append (e ∷ t) c)))

abbrev char_of : ℕ → String → Char
char_of n [] = "?"
char_of zero (c ∷ s) = c
char_of (suc n) (c ∷ s) = char_of n s

lower_char : Char → Char
lower_char c =
    if leb b'A' (code c) && leb (code c) b'Z'
    then char_of (code c - b'A') "abcdefghijklmnopqrstuvwxyz"
    else c

-- `s.toLowerCase()` on ASCII letters; a letter outside ASCII stays as it is.
unfoldable pub lower_case : String → String
unfolding lower_char
lower_case [] = []
lower_case (c ∷ s) = lower_char c ∷ lower_case s

-- `n.toString()` in at most `digits` digits, put before a text.
unfoldable pub decimal : ℕ → ℕ → String → String
decimal zero n s = s
decimal (suc digits) n s =
    let last = char_of (n % 10) "0123456789" ∷ s in
    let more = decimal digits (n / 10) last in if ltb n 10 then last else more

unfoldable pub text_length : String → ℕ
text_length [] = 0
text_length (c ∷ s) = suc (text_length s)

zeros : ℕ → String → String
zeros zero s = s
zeros (suc n) s = "0" ∷ zeros n s

-- `s.padStart(width, '0')`
unfoldable pub pad_start : ℕ → String → String
unfolding zeros text_length
pad_start width s = zeros (width - text_length s) s

upper_char : Char → Char
upper_char c =
    if leb b'a' (code c) && leb (code c) b'z'
    then char_of (code c - b'a') "ABCDEFGHIJKLMNOPQRSTUVWXYZ"
    else c

-- `s.toUpperCase()` on ASCII letters, likewise.
unfoldable pub upper_case : String → String
unfolding upper_char
upper_case [] = []
upper_case (c ∷ s) = upper_char c ∷ upper_case s
