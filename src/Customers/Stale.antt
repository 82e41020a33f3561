-- ===== src/Customers/Stale.antt =====
-- A move writes the new path of the customer before it looks for the customers below the old one.
use text.Mathlib.TextLemmas.{append_cancel_right}
use gcdr.Base.{
  false, subst, ◌≢◌, ◌⊎◌, ℕ, ◌≡◌, refl, sym, ap, ◌∙◌, String, true, Option, none, some, List, [],
  ◌∷◌, filter, if◌then◌else◌, ◌==◌, eq_iff, eq_refl, Elem, Elem-filter_sound, Bool-cases, inl, inr,
  &&_iff,
}
use package.text.Mathlib.TextLemmas.{
  nil≢cons, cons-append, append_assoc, append-nil, append_cancel_left,
}
use gcdr.Base.Text.{starts_with, starts_with_sound}
use gcdr.Base.Rows.{
  Elem-update_where, update_where, rewrite, option_map, Elem-update_where_inv, find-update_where,
  update_where-twice,
}
use gcdr.Base.Sort.{sort, Elem-sort_inv}
use gcdr.Customers.Data.{Customer, CustomerEnv}
use gcdr.Customers.Rows.{
  ◌+++◌, has_key, get_by_id, get_descendants, descendants_of, is_under, within_depth, by_depth_name,
}
use gcdr.Customers.Places.{has_key_iff, IsTree, found_key}
use gcdr.Customers.Descendants.{path_of_child}
use gcdr.Customers.Moves.{
  put_path, put_parent, relocate, rewrite_descendants, rewrite_found, move_to,
}

no_slash : (t : String) → "" ≡ "/" +++ t → ⊥
no_slash t e = nil≢cons (e ∙ cons-append _ String.[] t)

-- A path is not below itself.
not_under_itself : (path : String) → starts_with path (path +++ "/") ≡ true → ⊥
not_under_itself path h =
    let (t, e) = starts_with_sound path (path +++ "/") h in
    no_slash t
      (append_cancel_left path "" ("/" +++ t) (append-nil path ∙ e ∙ append_assoc path "/" t))

nothing_in : {A : Type 0} (xs : List A) → ((a : A) → Elem a xs → ⊥) → xs ≡ []
nothing_in [] h = refl
nothing_in (x ∷ xs) h = absurd (h x (inl refl))

-- The two writes on the key of the row that moves.
abbrev pub moved : CustomerEnv → Option String → String → ℕ → Customer → Customer
moved env parent path depth c = put_parent env parent (put_path env path depth c)

module _ (env : CustomerEnv) (parent : Option String) (c : Customer) (path : String) (depth : ℕ)
    (rows : List Customer) where
  abbrev after : List Customer
  after = update_where (has_key env.tenant_id c.id) (moved env parent path depth) rows

  relocate_lem : relocate env parent c.id path depth rows ≡ after
  relocate_lem =
      update_where-twice (has_key env.tenant_id c.id) (put_path env path depth)
        (put_parent env parent) rows (λ x. refl)

  -- A row that is below the new path afterwards was so before.
  below_before :
      (x : Customer)
      → Elem x after
      → is_under env path x ≡ true
      → (y : Customer) × Elem y rows × (is_under env path y ≡ true)
  below_before x m u =
      let (y, n, e) =
        Elem-update_where_inv (has_key env.tenant_id c.id) (moved env parent path depth) x rows m in
      elim (Bool-cases (has_key env.tenant_id c.id y)) [
        | inl k ↦ absurd (
            not_under_itself path (
              ap (λ (z : Customer). starts_with z.path (path +++ "/"))
                (sym (e ∙ ap (λ b. if b then moved env parent path depth y else y) k))
              ∙ ((&&_iff (x.tenant_id == env.tenant_id) (starts_with x.path (path +++ "/"))).0
                  u).1))
        | inr k ↦ (
          y,
          n,
          ap (is_under env path)
                (sym (e ∙ ap (λ b. if b then moved env parent path depth y else y) k))
              ∙ u,
        )
      ]

  found_after :
      get_by_id env c.id rows ≡ some c
      → get_by_id env c.id after ≡ some (moved env parent path depth c)
  found_after h =
      let (m, t, i) = found_key env c.id rows c h in
      find-update_where (has_key env.tenant_id c.id) (has_key env.tenant_id c.id)
        (moved env parent path depth) rows (λ x. refl)
      ∙ ap (option_map (rewrite (has_key env.tenant_id c.id) (moved env parent path depth))) h
      ∙ ap (λ b. some (if b then moved env parent path depth c else c))
          ((&&_iff _ _).1 ((eq_iff c.tenant_id env.tenant_id).1 t, eq_refl c.id))

  -- Nobody below the new path: the loop has nothing to rewrite.
  move_to_only :
      get_by_id env c.id rows ≡ some c
      → ((y : Customer) → Elem y rows → is_under env path y ≡ true → ⊥)
      → (move_to env parent c path depth rows).1 ≡ after
  unfolding move_to get_descendants rewrite_descendants
  move_to_only h free =
      ap (λ r. (rewrite_found env c.path path c.depth depth (get_descendants env c.id none r) r).1)
        relocate_lem
      ∙ ap
          (λ o.
            (rewrite_found env c.path path c.depth depth (descendants_of env none after o) after).1)
          (found_after h)
      ∙ ap (λ ds. rewrite_descendants env c.path path c.depth depth ds after) none_below
    where
      none_below :
          filter
            (within_depth none depth)
            (sort (by_depth_name env) (filter (is_under env path) after))
          ≡ []
      none_below = nothing_in _ (λ x m.
          let (n, _) =
            Elem-filter_sound (within_depth none depth) x
              (sort (by_depth_name env) (filter (is_under env path) after)) m in
          let (k, u) =
            Elem-filter_sound (is_under env path) x after
              (Elem-sort_inv (by_depth_name env) x (filter (is_under env path) after) n) in
          let (y, i, w) = below_before x k u in free y i w)

  child_stays : (d : Customer) → Elem d rows → d.id ≢ c.id → Elem d after
  child_stays d m other =
      subst (λ x. Elem x after)
        (ap (λ b. if b then moved env parent path depth d else d)
          (not_key (Bool-cases (has_key env.tenant_id c.id d))))
        (Elem-update_where (has_key env.tenant_id c.id) (moved env parent path depth) d rows m)
    where
      not_key :
          (has_key env.tenant_id c.id d ≡ true) ⊎ (has_key env.tenant_id c.id d ≡ false)
          → has_key env.tenant_id c.id d ≡ false
      not_key (inl k) = absurd (other (has_key_iff env.tenant_id c.id d k).1)
      not_key (inr k) = k

  not_a_tree :
      (d : Customer)
      → IsTree rows
      → get_by_id env c.id rows ≡ some c
      → Elem d rows
      → d.parent_customer_id ≡ some c.id
      → d.id ≢ c.id
      → path ≢ c.path
      → IsTree after
      → ⊥
  not_a_tree d v h m p other new w =
      let (n, t, i) = found_key env c.id rows c h in
      let (n_after, _, _) =
        found_key env c.id after (moved env parent path depth c) (found_after h) in
      new (
        append_cancel_right path c.path ("/" +++ d.id) (
          sym (
            path_of_child after w (moved env parent path depth c) d n_after (child_stays d m other)
              p)
          ∙ path_of_child rows v c d n m p))

  -- Moving a customer that has a child to a new path, below which nobody stands, writes the customer's own
  -- row and leaves every other row of the table as it was: the child keeps its old path, and the paths
  -- are no longer those of a hierarchy.
  pub move_to-IsTree_lost :
      (d : Customer)
      → IsTree rows
      → get_by_id env c.id rows ≡ some c
      → Elem d rows
      → d.parent_customer_id ≡ some c.id
      → d.id ≢ c.id
      → path ≢ c.path
      → ((y : Customer) → Elem y rows → is_under env path y ≡ true → ⊥)
      → ((move_to env parent c path depth rows).1
          ≡ update_where (has_key env.tenant_id c.id) (moved env parent path depth) rows)
        × Elem d (move_to env parent c path depth rows).1
        × ¬ IsTree (move_to env parent c path depth rows).1
  move_to-IsTree_lost d v h m p other new free = (
    move_to_only h free,
    subst (Elem d) (sym (move_to_only h free)) (child_stays d m other),
    λ w. not_a_tree d v h m p other new (subst IsTree (move_to_only h free) w),
  )
