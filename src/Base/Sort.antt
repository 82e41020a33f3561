-- ===== src/Base/Sort.antt =====
-- `orderBy`: a stable sort, for a test whether one row comes before another.
use gcdr.Base.Tests.{if◌then◌else◌, if_either}
use gcdr.Base.Lists.{Elem}
use mathlib.Core.Path.{◌≡◌, refl, subst, sym}
use mathlib.Core.Logic.{◌⊎◌, inl, inr}
use mathlib.Core.Bool.{Bool}
use mathlib.Core.List.{List, [], ◌∷◌}

module _ {A : Type 0} (before : A → A → Bool) where
  unfoldable pub put_in_order : A → List A → List A
  put_in_order x [] = x ∷ []
  put_in_order x (y ∷ ys) =
      let later = put_in_order x ys in if before y x then y ∷ later else x ∷ y ∷ ys

  unfoldable pub sort : List A → List A
  sort [] = []
  sort (x ∷ xs) = put_in_order x (sort xs)

  Elem-put_first : (x : A) (ys : List A) → Elem x (put_in_order x ys)
  unfolding put_in_order
  Elem-put_first x [] = inl refl
  Elem-put_first x (y ∷ ys) =
      if_either (Elem x) (before y x) (λ _. inr (Elem-put_first x ys)) λ _. inl refl

  Elem-put_later : (a x : A) (ys : List A) → Elem a ys → Elem a (put_in_order x ys)
  unfolding put_in_order
  Elem-put_later a x [] m = absurd m
  Elem-put_later a x (y ∷ ys) (inl e) =
      if_either (Elem a) (before y x) (λ _. inl e) λ _. inr (inl e)
  Elem-put_later a x (y ∷ ys) (inr m) =
      if_either (Elem a) (before y x) (λ _. inr (Elem-put_later a x ys m)) λ _. inr (inr m)

  -- Sorting loses no row.
  pub Elem-sort : (a : A) (xs : List A) → Elem a xs → Elem a (sort xs)
  unfolding sort
  Elem-sort a [] m = absurd m
  Elem-sort a (x ∷ xs) (inl e) =
      subst (λ b. Elem b (put_in_order x (sort xs))) (sym e) (Elem-put_first x (sort xs))
  Elem-sort a (x ∷ xs) (inr m) = Elem-put_later a x (sort xs) (Elem-sort a xs m)

  Elem-put_inv : (a x : A) (ys : List A) → Elem a (put_in_order x ys) → (a ≡ x) ⊎ Elem a ys
  unfolding put_in_order
  Elem-put_inv a x [] m = m
  Elem-put_inv a x (y ∷ ys) m =
      if_either (λ l. Elem a l → (a ≡ x) ⊎ Elem a (y ∷ ys)) (before y x)
        (λ _ n. elim n [
          | inl e ↦ inr (inl e)
          | inr later ↦ elim (Elem-put_inv a x ys later) [ inl e ↦ inl e | inr n ↦ inr (inr n) ]
        ])
        (λ _ n. n) m

  -- Nor does it add one.
  pub Elem-sort_inv : (a : A) (xs : List A) → Elem a (sort xs) → Elem a xs
  unfolding sort
  Elem-sort_inv a [] m = m
  Elem-sort_inv a (x ∷ xs) m = elim (Elem-put_inv a x (sort xs) m) [
    | inl e ↦ inl e
    | inr n ↦ inr (Elem-sort_inv a xs n)
  ]
