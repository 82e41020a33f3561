-- ===== src/Base/Rows.antt =====
-- The rows of a table under `update … where`, and queries after it.
use gcdr.Base.{◌&&◌, false}
use mathlib.Core.Path.{◌≡◌, refl, ap}
use mathlib.Core.Logic.{inl, inr}
use mathlib.Core.Bool.{Bool}
use mathlib.Core.Option.{Option, none, some}
use mathlib.Core.List.{List, [], ◌∷◌, ◌++◌}
use native.Mathlib.Omega.{arith}
use gcdr.Base.Tests.{if◌then◌else◌}
use gcdr.Base.Lists.{Elem, find}

-- Rewrites the rows that pass the test.
unfoldable pub update_where : {A : Type 0} → (A → Bool) → (A → A) → List A → List A
update_where test f [] = []
update_where test f (x ∷ xs) = (if test x then f x else x) ∷ update_where test f xs

pub Elem-update_where_inv :
    {A : Type 0} (test : A → Bool) (f : A → A) (y : A) (xs : List A)
    → Elem y (update_where test f xs)
    → (x : A) × Elem x xs × (y ≡ (if test x then f x else x))
unfolding update_where
Elem-update_where_inv test f y [] m = absurd m
Elem-update_where_inv test f y (x ∷ xs) m = elim m [
  | inl e ↦ (x, inl refl, e)
  | inr later ↦ let (z, n, e) = Elem-update_where_inv test f y xs later in (z, inr n, e)
]

pub Elem-update_where :
    {A : Type 0} (test : A → Bool) (f : A → A) (x : A) (xs : List A)
    → Elem x xs
    → Elem (if test x then f x else x) (update_where test f xs)
unfolding update_where
Elem-update_where test f x [] m = absurd m
Elem-update_where test f x (z ∷ xs) m = elim m [
  | inl e ↦ inl (ap (λ w. if test w then f w else w) e)
  | inr later ↦ inr (Elem-update_where test f x xs later)
]

abbrev pub rewrite : {A : Type 0} → (A → Bool) → (A → A) → A → A
rewrite test f x = if test x then f x else x

abbrev pub option_map : {A B : Type 0} → (A → B) → Option A → Option B
option_map f none = none
option_map f (some a) = some (f a)

-- A query whose test the rewriting does not touch finds the same row, rewritten.
pub find-update_where :
    {A : Type 0} (p test : A → Bool) (f : A → A) (xs : List A)
    → ((x : A) → p (f x) ≡ p x)
    → find p (update_where test f xs) ≡ option_map (rewrite test f) (find p xs)
unfolding update_where find
find-update_where p test f [] kept = refl
find-update_where p test f (x ∷ xs) kept =
    ground (arith, kept x, find-update_where p test f xs kept)

pub find-update_none :
    {A : Type 0} (p test : A → Bool) (f : A → A) (xs : List A)
    → ((x : A) → p (rewrite test f x) ≡ false)
    → find p (update_where test f xs) ≡ none
unfolding update_where find
find-update_none p test f [] missed = refl
find-update_none p test f (x ∷ xs) missed = rw (missed x) (find-update_none p test f xs missed)

-- The same where no row passed before, and the rewriting lets none pass.
pub find-update_still_none :
    {A : Type 0} (p test : A → Bool) (f : A → A) (xs : List A)
    → ((x : A) → p (f x) ≡ false)
    → find p xs ≡ none
    → find p (update_where test f xs) ≡ none
unfolding update_where find
find-update_still_none p test f [] missed h = refl
find-update_still_none p test f (x ∷ xs) missed h =
    ground (arith, missed x, find-update_still_none p test f xs missed)

pub update_where-append :
    {A : Type 0} (test : A → Bool) (f : A → A) (xs ys : List A)
    → update_where test f (xs ++ ys) ≡ update_where test f xs ++ update_where test f ys
unfolding update_where
update_where-append test f [] ys = refl
update_where-append test f (x ∷ xs) ys =
    ap (λ r. (if test x then f x else x) ∷ r) (update_where-append test f xs ys)

pub find-append_found :
    {A : Type 0} (p : A → Bool) (xs ys : List A) (a : A)
    → find p xs ≡ some a
    → find p (xs ++ ys) ≡ some a
unfolding find
find-append_found p [] ys a h = absurd (cc)
find-append_found p (x ∷ xs) ys a h = ground (arith, find-append_found p xs ys a)

pub find-append_missing :
    {A : Type 0} (p : A → Bool) (xs ys : List A) → find p xs ≡ none → find p (xs ++ ys) ≡ find p ys
unfolding find
find-append_missing p [] ys h = refl
find-append_missing p (x ∷ xs) ys h = ground (arith, find-append_missing p xs ys)

pub find-and :
    {A : Type 0} (p q : A → Bool) (xs : List A)
    → find p xs ≡ none
    → find (λ x. p x && q x) xs ≡ none
unfolding find
find-and p q [] h = refl
find-and p q (x ∷ xs) h = ground (find-and p q xs, arith)

-- Two writes on the same rows are one.
pub update_where-twice :
    {A : Type 0} (test : A → Bool) (f g : A → A) (xs : List A)
    → ((x : A) → test (f x) ≡ test x)
    → update_where test g (update_where test f xs) ≡ update_where test (λ x. g (f x)) xs
unfolding update_where
update_where-twice test f g [] kept = refl
update_where-twice test f g (x ∷ xs) kept =
    ground (arith, kept x, update_where-twice test f g xs kept)
