-- ===== src/Customers/Descendants.antt =====
-- The query by the prefix of a path finds what stands below a customer, and no customer is moved there.
use gcdr.Base.{
  ◌≢◌, ◌≡◌, ◌⊎◌, refl, sym, ap, subst, ◌∙◌, String, true, false, Option, none, some, List, filter,
  any_complete, ◌==◌, eq_iff, Elem, Elem-filter_complete, arith, Bool-cases, inl, inr, &&_iff,
}
use package.text.Mathlib.TextLemmas.{append_assoc}
use gcdr.Base.Text.{starts_with_complete}
use gcdr.Base.Sort.{sort, Elem-sort}
use gcdr.Base.Errors.{Result, ok, is_ok, AppError, validation, text}
use gcdr.Customers.Data.{Customer, CustomerDb, CustomerEnv}
use gcdr.Customers.Rows.{
  ◌+++◌, under, get_by_id, get_descendants, descendants_of, is_under, within_depth, by_depth_name,
}
use gcdr.Customers.Places.{PlacedBy, IsTree, found_key}
use gcdr.Customers.Moves.{move, move_found, move_checked, check_move, check_parent, among}
use gcdr.Customers.Service.{given}

-- `d` is a child of `a`, or of a customer below it.
pub data Below (rows : List Customer) (a : Customer) : Customer → Type 0 where
  child :
      (d : Customer)
      → Elem d rows
      → d.tenant_id ≡ a.tenant_id
      → d.parent_customer_id ≡ some a.id
      → Below rows a d
  deeper :
      (m d : Customer)
      → Below rows a m
      → Elem d rows
      → d.tenant_id ≡ m.tenant_id
      → d.parent_customer_id ≡ some m.id
      → Below rows a d

module _ (rows : List Customer) (v : IsTree rows) where
  pub path_of_child :
      (a d : Customer)
      → Elem a rows
      → Elem d rows
      → d.parent_customer_id ≡ some a.id
      → d.path ≡ under a.path d.id
  path_of_child a d m n p =
      let (q, i, t, e, h, k) = subst (λ o. PlacedBy o rows d) p (v.placed d n) in
      h ∙ ap (λ (x : Customer). under x.path d.id) (v.unique q a i m e)

  abbrev UnderPath : Customer → Customer → Type 0
  UnderPath a d =
      Elem d rows × (d.tenant_id ≡ a.tenant_id) × ((t : String) × (d.path ≡ (a.path +++ "/") +++ t))

  Below-UnderPath : (a d : Customer) → Elem a rows → Below rows a d → UnderPath a d
  Below-UnderPath a d m (child _ n t p) =
      (n, t, (d.id, path_of_child a d m n p ∙ sym (append_assoc a.path "/" d.id)))
  Below-UnderPath a d m (deeper b _ h n t p) =
      let (i, u, (s, e)) = Below-UnderPath a b m h in
      (
        n,
        t ∙ u,
        (
          s +++ ("/" +++ d.id),
          path_of_child b d i n p
              ∙ ap (λ x. under x d.id) e
              ∙ append_assoc (a.path +++ "/") s ("/" +++ d.id),
        ),
      )

  listed :
      (env : CustomerEnv) (a d : Customer)
      → Elem a rows
      → a.tenant_id ≡ env.tenant_id
      → Below rows a d
      → Elem d (
          filter
            (within_depth none a.depth)
            (sort (by_depth_name env) (filter (is_under env a.path) rows)))
  listed env a d m t h =
      let (n, u, (s, e)) = Below-UnderPath a d m h in
      Elem-filter_complete (within_depth none a.depth) d
        (sort (by_depth_name env) (filter (is_under env a.path) rows))
        (Elem-sort (by_depth_name env) d (filter (is_under env a.path) rows) (
          Elem-filter_complete (is_under env a.path) d rows n (
            (&&_iff _ _).1 (
              (eq_iff d.tenant_id env.tenant_id).1 (u ∙ t),
              starts_with_complete d.path (a.path +++ "/") s e,
            ))))
        refl

  -- In a hierarchy whose paths are in order, the descendants of a customer that is there include every
  -- customer below it, at any depth.
  pub get_descendants_complete :
      (env : CustomerEnv) (id : String) (a d : Customer)
      → get_by_id env id rows ≡ some a
      → Below rows a d
      → (ds : List Customer) × (get_descendants env id none rows ≡ ok ds) × Elem d ds
  unfolding get_descendants
  get_descendants_complete env id a d found h =
      let (m, t, _) = found_key env id rows a found in
      (
        filter (within_depth none a.depth)
            (sort (by_depth_name env) (filter (is_under env a.path) rows)),
        ap (descendants_of env none rows) found,
        listed env a d m t h,
      )

  is_among :
      (env : CustomerEnv) (id p : String) (a q : Customer)
      → get_by_id env id rows ≡ some a
      → q.id ≡ p
      → Below rows a q
      → among p (get_descendants env id none rows) ≡ true
  is_among env id p a q found i h =
      let (ds, e, m) = get_descendants_complete env id a q found h in
      ap (among p) e ∙ any_complete (λ (d : Customer). d.id == p) q ds m ((eq_iff q.id p).1 i)

abbrev Refused : Result (Unit {0}) × CustomerDb → CustomerDb → Type 0
Refused r db = (is_ok r.0 ≡ false) × (r.1 ≡ db)

given_lem : (p : String) → p ≢ "" → given (some p) ≡ some p
given_lem p h = ground (arith, eq_iff p "")

check_parent_refuses :
    (env : CustomerEnv) (id p : String) (rows : List Customer) (o : Option Customer) (q : Customer)
    → o ≡ some q
    → ((p == id) ≡ true) ⊎ (among p (get_descendants env id none rows) ≡ true)
    → (e : AppError) × (check_parent env id p o rows ≡ some e)
check_parent_refuses env id p rows none q t h = absurd (cc)
check_parent_refuses env id p rows (some r) q t h = elim (Bool-cases (p == id)) [
  | inl same ↦ (validation (text "Cannot move customer to itself"), rw same refl)
  | inr other ↦ elim h [
    | inl same ↦ absurd (cc)
    | inr below ↦
        (validation (text "Cannot move customer under its own descendant"), rw (other, below) refl)
  ]
]

-- A customer is never moved under itself or under a customer below it: the call fails and changes
-- nothing, in a hierarchy whose paths are in order, for an id that is not empty.
pub move-Below :
    (env : CustomerEnv) (db : CustomerDb) (id p : String) (a q : Customer)
    → p ≢ ""
    → IsTree db.customers
    → get_by_id env id db.customers ≡ some a
    → get_by_id env p db.customers ≡ some q
    → (q ≡ a) ⊎ Below db.customers a q
    → (is_ok (move env id (some p) db).0 ≡ false) × ((move env id (some p) db).1 ≡ db)
unfolding move
move-Below env db id p a q full v found target h =
    let (e, refusal) =
      check_parent_refuses env id p db.customers (get_by_id env p db.customers) q target
        (reason h) in
    subst (λ r. Refused r db)
      (sym (
        ap (λ o. move_found env id (some p) o db) found
        ∙ ap (λ g. move_checked env g a (check_move env id g db.customers) db) (given_lem p full)
        ∙ ap (λ c. move_checked env (some p) a c db) refusal))
      (refl, refl)
  where
    i : q.id ≡ p
    i = (found_key env p db.customers q target).2

    reason :
        (q ≡ a) ⊎ Below db.customers a q
        → ((p == id) ≡ true) ⊎ (among p (get_descendants env id none db.customers) ≡ true)
    reason (inl e) = inl (
        (eq_iff p id).1
          (sym i ∙ ap (λ (c : Customer). c.id) e ∙ (found_key env id db.customers a found).2))
    reason (inr b) = inr (is_among db.customers v env id p a q found i b)
