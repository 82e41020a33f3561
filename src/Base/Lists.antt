-- ===== src/Base/Lists.antt =====
-- Lists with Boolean tests, as the code's `filter`, `some`, `every`, `find` and `includes` run.
use Prim.Native.Nat.{ℕ, zero, suc, ◌≤◌}
use Prim.Native.String.{String}
use mathlib.Core.Path.{◌≡◌, refl, ap, subst}
use mathlib.Core.Logic.{◌↔◌, ◌⊎◌, inl, inr}
use mathlib.Core.Bool.{Bool, true, false, ◌&&◌, ◌||◌}
use mathlib.Core.Option.{Option, none, some}
use mathlib.Core.List.{List, [], ◌∷◌, ◌++◌, map}
use native.Mathlib.Omega.{arith}
use text.Mathlib.Text.{◌==◌}
use text.Mathlib.TextEquality.{eq_iff}
use gcdr.Base.Tests.{if◌then◌else◌, Bool-cases}

module _ {ℓ} {A : Type ℓ} where
  abbrev pub length : List A → ℕ
  length [] = 0
  length (_ ∷ xs) = suc (length xs)

  abbrev pub take : ℕ → List A → List A
  take zero _ = []
  take (suc n) [] = []
  take (suc n) (x ∷ xs) = x ∷ take n xs

  abbrev pub drop : ℕ → List A → List A
  drop zero xs = xs
  drop (suc n) [] = []
  drop (suc n) (_ ∷ xs) = drop n xs

  abbrev pub head? : List A → Option A
  head? [] = none
  head? (x ∷ _) = some x

  abbrev pub get_elem? : List A → ℕ → Option A
  get_elem? [] _ = none
  get_elem? (x ∷ _) zero = some x
  get_elem? (_ ∷ xs) (suc i) = get_elem? xs i

  abbrev pub is_empty : List A → Bool
  is_empty [] = true
  is_empty (_ ∷ _) = false

  unfoldable pub filter : (A → Bool) → List A → List A
  filter p [] = []
  filter p (x ∷ xs) = let rest = filter p xs in if p x then x ∷ rest else rest

  unfoldable pub any : (A → Bool) → List A → Bool
  any p [] = false
  any p (x ∷ xs) = p x || any p xs

  unfoldable pub all : (A → Bool) → List A → Bool
  all p [] = true
  all p (x ∷ xs) = p x && all p xs

  unfoldable pub find : (A → Bool) → List A → Option A
  find p [] = none
  find p (x ∷ xs) = if p x then some x else find p xs

module _ {A : Type 0} where
  -- Membership by recursion: it computes to sums, which the tactics take apart.
  abbrev pub Elem : A → List A → Type 0
  Elem a [] = ⊥
  Elem a (x ∷ xs) = (a ≡ x) ⊎ Elem a xs

  pub Elem-filter_sound :
      (p : A → Bool) (a : A) (xs : List A) → Elem a (filter p xs) → Elem a xs × (p a ≡ true)
  unfolding filter
  Elem-filter_sound p a [] h = absurd h
  Elem-filter_sound p a (x ∷ xs) h = elim (Bool-cases (p x)) [
    | inl keep ↦ ground (arith, Elem-filter_sound p a xs)
    | inr drop ↦ ground (arith, Elem-filter_sound p a xs)
  ]

  pub Elem-filter_complete :
      (p : A → Bool) (a : A) (xs : List A) → Elem a xs → p a ≡ true → Elem a (filter p xs)
  unfolding filter
  Elem-filter_complete p a [] h e = absurd h
  Elem-filter_complete p a (x ∷ xs) h e = ground (arith, Elem-filter_complete p a xs)

  pub any_sound :
      (p : A → Bool) (xs : List A) → any p xs ≡ true → (a : A) × Elem a xs × (p a ≡ true)
  unfolding any
  any_sound p [] h = absurd (cc)
  any_sound p (x ∷ xs) h = elim (Bool-cases (p x)) [
    | inl e ↦ (x, inl refl, e)
    | inr e ↦ let (a, m, q) = any_sound p xs (rw e at h) in (a, inr m, q)
  ]

  pub any_complete : (p : A → Bool) (a : A) (xs : List A) → Elem a xs → p a ≡ true → any p xs ≡ true
  unfolding any
  any_complete p a [] h e = absurd h
  any_complete p a (x ∷ xs) h e = ground (arith, any_complete p a xs)

  pub all_sound : (p : A → Bool) (a : A) (xs : List A) → all p xs ≡ true → Elem a xs → p a ≡ true
  unfolding all
  all_sound p a [] h m = absurd m
  all_sound p a (x ∷ xs) h m = ground (arith, all_sound p a xs)

  pub all_complete :
      (p : A → Bool) (xs : List A) → ((a : A) → Elem a xs → p a ≡ true) → all p xs ≡ true
  unfolding all
  all_complete p [] h = refl
  all_complete p (x ∷ xs) h = ground (arith, h x (inl refl), all_complete p xs (λ a m. h a (inr m)))

  pub find_sound :
      (p : A → Bool) (xs : List A) {a : A} → find p xs ≡ some a → Elem a xs × (p a ≡ true)
  unfolding find
  find_sound p [] h = absurd (cc)
  find_sound p (x ∷ xs) {a} h = ground (arith, find_sound p xs {a = a})

  pub find-none : (p : A → Bool) (a : A) (xs : List A) → find p xs ≡ none → Elem a xs → p a ≡ false
  unfolding find
  find-none p a [] h m = absurd m
  find-none p a (x ∷ xs) h m = ground (arith, find-none p a xs)

  pub Elem-append_left : (a : A) (xs ys : List A) → Elem a xs → Elem a (xs ++ ys)
  Elem-append_left a [] ys h = absurd h
  Elem-append_left a (x ∷ xs) ys h = ground (arith, Elem-append_left a xs ys)

  pub Elem-append_right : (a : A) (xs ys : List A) → Elem a ys → Elem a (xs ++ ys)
  Elem-append_right a [] ys h = h
  Elem-append_right a (x ∷ xs) ys h = inr (Elem-append_right a xs ys h)

  pub Elem-append_cases : (a : A) (xs ys : List A) → Elem a (xs ++ ys) → Elem a xs ⊎ Elem a ys
  Elem-append_cases a [] ys h = inr h
  Elem-append_cases a (x ∷ xs) ys h = ground (arith, Elem-append_cases a xs ys)

  pub nonempty_of_Elem : (a : A) (xs : List A) → Elem a xs → is_empty xs ≡ false
  nonempty_of_Elem a [] h = absurd h
  nonempty_of_Elem a (x ∷ xs) h = refl

  pub Elem-take : (a : A) (n : ℕ) (xs : List A) → Elem a (take n xs) → Elem a xs
  Elem-take a zero xs h = absurd h
  Elem-take a (suc n) [] h = absurd h
  Elem-take a (suc n) (x ∷ xs) h = ground (arith, Elem-take a n xs)

  pub take_all : (n : ℕ) (xs : List A) → length xs ≤ n → take n xs ≡ xs
  take_all zero [] h = refl
  take_all zero (x ∷ xs) h = absurd (omega arith)
  take_all (suc n) [] h = refl
  take_all (suc n) (x ∷ xs) h = ap (λ r. x ∷ r) (take_all n xs (omega arith))

module _ {A B : Type 0} (f : A → B) where
  pub Elem-map : (a : A) (xs : List A) → Elem a xs → Elem (f a) (map f xs)
  Elem-map a [] h = absurd h
  Elem-map a (x ∷ xs) h = elim h [ inl e ↦ inl (ap f e) | inr m ↦ inr (Elem-map a xs m) ]

  pub Elem-map_inv : (b : B) (xs : List A) → Elem b (map f xs) → (a : A) × Elem a xs × (b ≡ f a)
  Elem-map_inv b [] h = absurd h
  Elem-map_inv b (x ∷ xs) h = elim h [
    | inl e ↦ (x, inl refl, e)
    | inr m ↦ let (a, k, e) = Elem-map_inv b xs m in (a, inr k, e)
  ]

-- `xs.includes(t)`
unfoldable pub includes : List String → String → Bool
unfolding any
includes xs t = any (λ x. x == t) xs

pub includes_sound : (xs : List String) (t : String) → includes xs t ≡ true → Elem t xs
unfolding includes
includes_sound xs t h =
    let (a, m, e) = any_sound (λ x. x == t) xs h in subst (λ x. Elem x xs) ((eq_iff a t).0 e) m

pub includes_complete : (xs : List String) (t : String) → Elem t xs → includes xs t ≡ true
unfolding includes
includes_complete xs t m = any_complete (λ x. x == t) t xs m ((eq_iff t t).1 refl)

pub includes-append :
    (xs : List String) (new t : String) → includes (xs ++ new ∷ []) t ≡ (includes xs t || new == t)
unfolding includes any
includes-append [] new t = ground arith
includes-append (x ∷ xs) new t = ground (includes-append xs new t, arith)

-- `[...new Set(xs)]`: the first of each text, in order of insertion.
dedup_from : List String → List String → List String
dedup_from seen [] = []
dedup_from seen (x ∷ xs) = elim (includes seen x) [
  | true ↦ dedup_from seen xs
  | false ↦ x ∷ dedup_from (x ∷ seen) xs
]

unfoldable pub dedup : List String → List String
unfolding dedup_from includes
dedup xs = dedup_from [] xs

dedup_from_complete :
    (t : String) (seen xs : List String) → Elem t xs → Elem t seen ⊎ Elem t (dedup_from seen xs)
unfolding dedup_from
dedup_from_complete t seen [] m = absurd m
dedup_from_complete t seen (x ∷ xs) m = ground (
  arith,
  includes_sound seen x,
  dedup_from_complete t seen xs,
  dedup_from_complete t (x ∷ seen) xs,
)

dedup_from_sound : (t : String) (seen xs : List String) → Elem t (dedup_from seen xs) → Elem t xs
unfolding dedup_from
dedup_from_sound t seen [] m = m
dedup_from_sound t seen (x ∷ xs) m =
    ground (arith, dedup_from_sound t seen xs, dedup_from_sound t (x ∷ seen) xs)

pub Elem-dedup : (t : String) (xs : List String) → Elem t (dedup xs) ↔ Elem t xs
unfolding dedup
Elem-dedup t xs = (dedup_from_sound t [] xs, λ m. ground (arith, dedup_from_complete t [] xs m))
