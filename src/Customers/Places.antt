-- ===== src/Customers/Places.antt =====
-- The place that a parent gives to a customer, and rows that keep every customer in its place.
use gcdr.Base.{
  ℕ, ◌+◌, ◌≡◌, ◌≢◌, refl, sym, ap, subst, ◌∙◌, String, true, false, Option, none, some, List, [],
  ◌∷◌, ◌++◌, any, find_sound, any_complete, ◌==◌, eq_iff, Elem, Elem-append_left, Elem-append_cases,
  arith, inl, inr, &&_iff,
}
use gcdr.Customers.Data.{Customer, CreateCustomer, CustomerEnv}
use gcdr.Customers.Rows.{under, root_path, has_key, get_by_id}
use gcdr.Customers.Service.{placed_under, new_customer, clashes}

-- The place that a customer with this parent has.
abbrev pub PlacedBy : Option String → List Customer → Customer → Type 0
PlacedBy none rows c = (c.path ≡ root_path c.tenant_id c.id) × (c.depth ≡ 0)
PlacedBy (some p) rows c =
    (q : Customer) × Elem q rows
    × (q.tenant_id ≡ c.tenant_id)
    × (q.id ≡ p)
    × (c.path ≡ under q.path c.id)
    × (c.depth ≡ q.depth + 1)

pub record IsTree (rows : List Customer) : Type 0 where
  pub placed : (c : Customer) → Elem c rows → PlacedBy c.parent_customer_id rows c
  pub unique : (a b : Customer) → Elem a rows → Elem b rows → a.id ≡ b.id → a ≡ b

-- The same customer in the same place.
pub record SameSpot (c d : Customer) : Type 0 where
  pub id : d.id ≡ c.id
  pub tenant : d.tenant_id ≡ c.tenant_id
  pub parent : d.parent_customer_id ≡ c.parent_customer_id
  pub path : d.path ≡ c.path
  pub depth : d.depth ≡ c.depth

abbrev pub stays : (c : Customer) → SameSpot c c
stays c = record { id = refl; tenant = refl; parent = refl; path = refl; depth = refl }

pub PlacedBy-carried :
    (o : Option String) (rows new_rows : List Customer) (c d : Customer)
    → SameSpot c d
    → ((q : Customer)
        → Elem q rows
        → q.tenant_id ≡ c.tenant_id
        → o ≡ some q.id
        → (r : Customer) × Elem r new_rows × SameSpot q r)
    → PlacedBy o rows c
    → PlacedBy o new_rows d
PlacedBy-carried none rows new_rows c d s carry (p, h) =
    (s.path ∙ p ∙ (rw (s.id, s.tenant) refl), s.depth ∙ h)
PlacedBy-carried (some i) rows new_rows c d s carry (q, m, t, e, p, h) =
    let (r, n, k) = carry q m t (ap some (sym e)) in
    (
      r,
      n,
      k.tenant ∙ t ∙ sym s.tenant,
      k.id ∙ e,
      s.path ∙ p ∙ (rw (s.id, k.path) refl),
      s.depth ∙ h ∙ (rw k.depth refl),
    )

pub has_key_iff :
    (tenant id : String) (c : Customer)
    → has_key tenant id c ≡ true
    → (c.tenant_id ≡ tenant) × (c.id ≡ id)
has_key_iff tenant id c h =
    let (t, i) = (&&_iff (c.tenant_id == tenant) (c.id == id)).0 h in
    ((eq_iff c.tenant_id tenant).0 t, (eq_iff c.id id).0 i)

pub found_key :
    (env : CustomerEnv) (id : String) (rows : List Customer) (c : Customer)
    → get_by_id env id rows ≡ some c
    → Elem c rows × (c.tenant_id ≡ env.tenant_id) × (c.id ≡ id)
found_key env id rows c h =
    let (m, k) = find_sound (has_key env.tenant_id id) rows h in
    let (t, i) = has_key_iff env.tenant_id id c k in (m, t, i)

pub Elem-single : {A : Type 0} (a x : A) → Elem a (x ∷ []) → a ≡ x
Elem-single a x (inl e) = e
Elem-single a x (inr m) = absurd m

pub no_clash :
    (rows : List Customer) (new c : Customer)
    → any (clashes new) rows ≡ false
    → Elem c rows
    → c.id ≢ new.id
no_clash rows new c fresh m e =
    ground (arith, any_complete (clashes new) c rows m, eq_iff c.id new.id)

pub append-IsTree :
    (rows : List Customer) (new : Customer)
    → IsTree rows
    → any (clashes new) rows ≡ false
    → PlacedBy new.parent_customer_id rows new
    → IsTree (rows ++ (new ∷ []))
append-IsTree rows new v fresh p = record {
  placed = λ c m. elim (Elem-append_cases c rows (new ∷ []) m) [
    | inl old ↦ kept c (v.placed c old)
    | inr last ↦
        subst (λ (d : Customer). PlacedBy d.parent_customer_id (rows ++ (new ∷ [])) d)
          (sym (Elem-single c new last)) (kept new p)
  ];
  unique = λ a b m n e. elim (Elem-append_cases a rows (new ∷ []) m) [
    | inl old_a ↦ elim (Elem-append_cases b rows (new ∷ []) n) [
      | inl old_b ↦ v.unique a b old_a old_b e
      | inr new_b ↦ absurd (
          no_clash rows new a fresh old_a
            (e ∙ ap (λ (d : Customer). d.id) (Elem-single b new new_b)))
    ]
    | inr new_a ↦ elim (Elem-append_cases b rows (new ∷ []) n) [
      | inl old_b ↦ absurd (
          no_clash rows new b fresh old_b
            (sym e ∙ ap (λ (d : Customer). d.id) (Elem-single a new new_a)))
      | inr new_b ↦ Elem-single a new new_a ∙ sym (Elem-single b new new_b)
    ]
  ];
}
  where
    kept :
        (c : Customer)
        → PlacedBy c.parent_customer_id rows c
        → PlacedBy c.parent_customer_id (rows ++ (new ∷ [])) c
    kept c =
        PlacedBy-carried c.parent_customer_id rows (rows ++ (new ∷ [])) c c (stays c)
          (λ q n t e. (q, Elem-append_left q rows (new ∷ []) n, stays q))

-- A parent that was looked up gives its child a place.
pub found-PlacedBy :
    (env : CustomerEnv) (body : CreateCustomer) (p path : String) (depth : ℕ) (rows : List Customer)
    (o : Option Customer)
    → get_by_id env p rows ≡ o
    → placed_under env.new_id o ≡ some (path, depth)
    → PlacedBy (some p) rows (new_customer env body path depth)
found-PlacedBy env body p path depth rows none h e = absurd (cc)
found-PlacedBy env body p path depth rows (some q) h e =
    let (m, t, i) = found_key env p rows q h in (q, m, t, i, ground arith, ground arith)
