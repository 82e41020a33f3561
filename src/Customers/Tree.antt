-- ===== src/Customers/Tree.antt =====
-- Paths and depths of a hierarchy agree with its parents, and creating, updating and deleting keep
-- them so.
use gcdr.Base.{
  ℕ, ◌≡◌, ◌≢◌, refl, sym, ap, subst, ◌∙◌, String, Bool, true, not, ◌&&◌, Option, none, some, List,
  [], ◌∷◌, filter, any, is_empty, ◌==◌, eq_iff, Elem, Elem-filter_sound, Elem-filter_complete,
  arith, Bool-cases, inl, inr, if_either, &&_iff, text_is_iff,
}
use gcdr.Base.Rows.{update_where, rewrite, Elem-update_where, Elem-update_where_inv}
use gcdr.Base.Sort.{sort, Elem-sort}
use gcdr.Base.Errors.{Result}
use gcdr.Customers.Data.{Customer, CreateCustomer, UpdateCustomer, CustomerDb, CustomerEnv}
use gcdr.Customers.Rows.{has_key, get_by_id, get_children, has_parent, by_name}
use gcdr.Customers.Service.{
  given, placement, new_customer, clashes, create_placed, create, changed, update_found, update,
  delete_found, delete, code_taken,
}
use gcdr.Customers.Places.{
  PlacedBy, IsTree, SameSpot, stays, PlacedBy-carried, has_key_iff, append-IsTree, found-PlacedBy,
}

placement-PlacedBy :
    (env : CustomerEnv) (body : CreateCustomer) (o : Option String) (path : String) (depth : ℕ)
    (rows : List Customer)
    → placement env o rows ≡ some (path, depth)
    → PlacedBy o rows (new_customer env body path depth)
placement-PlacedBy env body none path depth rows e = (ground arith, ground arith)
placement-PlacedBy env body (some p) path depth rows e =
    found-PlacedBy env body p path depth rows (get_by_id env p rows) refl e

create_placed-IsTree :
    (env : CustomerEnv) (body : CreateCustomer) (o : Option (String × ℕ)) (db : CustomerDb)
    → placement env (given body.parent_customer_id) db.customers ≡ o
    → IsTree db.customers
    → IsTree (create_placed env body o db).1.customers
create_placed-IsTree env body none db h v = v
create_placed-IsTree env body (some (path, depth)) db h v =
    let new = new_customer env body path depth in
    if_either (λ (r : Result Customer × CustomerDb). IsTree r.1.customers)
      (any (clashes new) db.customers) (λ _. v)
      λ fresh.
        append-IsTree db.customers new v fresh
          (placement-PlacedBy env body (given body.parent_customer_id) path depth db.customers h)

create-IsTree :
    (env : CustomerEnv) (body : CreateCustomer) (db : CustomerDb)
    → IsTree db.customers
    → IsTree (create env body db).1.customers
unfolding create
create-IsTree env body db v =
    if_either (λ (r : Result Customer × CustomerDb). IsTree r.1.customers)
      (code_taken env (given body.code) (λ _. true) db.customers) (λ _. v)
      λ _.
        create_placed-IsTree env body (placement env (given body.parent_customer_id) db.customers)
          db refl v

-- A rewriting that moves nobody.
update_where-IsTree :
    (test : Customer → Bool) (f : Customer → Customer) (rows : List Customer)
    → ((c : Customer) → SameSpot c (f c))
    → IsTree rows
    → IsTree (update_where test f rows)
update_where-IsTree test f rows still v = record {
  placed = λ c m.
      let (x, n, e) = Elem-update_where_inv test f c rows m in
      subst (λ (d : Customer). PlacedBy d.parent_customer_id (update_where test f rows) d) (sym e)
        (kept x n);
  unique = λ a b m n e.
      let (x, i, p) = Elem-update_where_inv test f a rows m in
      let (y, j, q) = Elem-update_where_inv test f b rows n in
      p
      ∙ ap (rewrite test f) (
          v.unique x y i j (
            sym (same x).id
            ∙ ap (λ (d : Customer). d.id) (sym p)
            ∙ e
            ∙ ap (λ (d : Customer). d.id) q
            ∙ (same y).id))
      ∙ sym q;
}
  where
    same : (c : Customer) → SameSpot c (rewrite test f c)
    same c = if_either (SameSpot c) (test c) (λ _. still c) λ _. stays c

    kept :
        (c : Customer)
        → Elem c rows
        → PlacedBy
            (rewrite test f c).parent_customer_id
            (update_where test f rows)
            (rewrite test f c)
    kept c m =
        subst (λ o. PlacedBy o (update_where test f rows) (rewrite test f c)) (sym (same c).parent)
          (PlacedBy-carried c.parent_customer_id rows (update_where test f rows) c
            (rewrite test f c) (same c)
            (λ q n t e. (rewrite test f q, Elem-update_where test f q rows n, same q))
            (v.placed c m))

update-IsTree :
    (env : CustomerEnv) (id : String) (d : UpdateCustomer) (db : CustomerDb)
    → IsTree db.customers
    → IsTree (update env id d db).1.customers
unfolding update
update-IsTree env id d db v = found (get_by_id env id db.customers)
  where
    found : (o : Option Customer) → IsTree (update_found env id d o db).1.customers
    found none = v
    found (some c) =
        if_either (λ (r : Result Customer × CustomerDb). IsTree r.1.customers)
          (code_taken env (given d.code) (λ other. not (other.id == id)) db.customers) (λ _. v)
          λ _.
            update_where-IsTree (has_key env.tenant_id id) (changed env d) db.customers
              (λ x. record { id = refl; tenant = refl; parent = refl; path = refl; depth = refl }) v

childless :
    (env : CustomerEnv) (id : String) (rows : List Customer) (c : Customer)
    → is_empty (get_children env (some id) rows) ≡ true
    → Elem c rows
    → c.tenant_id ≡ env.tenant_id
    → c.parent_customer_id ≢ some id
unfolding get_children
childless env id rows c e m t p =
    nothing_in
      (sort (by_name env)
        (filter (λ x. x.tenant_id == env.tenant_id && has_parent (some id) x) rows))
      c e
      (Elem-sort (by_name env) c _ (
        Elem-filter_complete
          (λ (x : Customer). x.tenant_id == env.tenant_id && has_parent (some id) x) c rows m
          ((&&_iff _ _).1
            ((eq_iff c.tenant_id env.tenant_id).1 t, (text_is_iff c.parent_customer_id id).1 p))))
  where
    nothing_in : (xs : List Customer) (a : Customer) → is_empty xs ≡ true → Elem a xs → ⊥
    nothing_in [] a h n = n
    nothing_in (x ∷ xs) a h n = cc

delete-IsTree :
    (env : CustomerEnv) (id : String) (db : CustomerDb)
    → IsTree db.customers
    → IsTree (delete env id db).1.customers
unfolding delete
delete-IsTree env id db v = found (get_by_id env id db.customers)
  where
    stay : Customer → Bool
    stay x = not (has_key env.tenant_id id x)

    others : List Customer
    others = filter (λ x. not (has_key env.tenant_id id x)) db.customers

    parent_stays :
        (c q : Customer)
        → is_empty (get_children env (some id) db.customers) ≡ true
        → Elem c db.customers
        → Elem q db.customers
        → q.tenant_id ≡ c.tenant_id
        → c.parent_customer_id ≡ some q.id
        → Elem q others
    parent_stays c q e m n t p = elim (Bool-cases (has_key env.tenant_id id q)) [
      | inl k ↦
          let (kt, ki) = has_key_iff env.tenant_id id q k in
          absurd (childless env id db.customers c e m (sym t ∙ kt) (p ∙ ap some ki))
      | inr k ↦
          Elem-filter_complete (λ x. not (has_key env.tenant_id id x)) q db.customers n (ap not k)
    ]

    found : (o : Option Customer) → IsTree (delete_found env id o db).1.customers
    found none = v
    found (some c) =
        if_either (λ (r : Result (Unit {0}) × CustomerDb). IsTree r.1.customers)
          (is_empty (get_children env (some id) db.customers))
          (λ e. record {
            placed = λ a m.
                let (n, _) =
                  Elem-filter_sound (λ x. not (has_key env.tenant_id id x)) a db.customers m in
                PlacedBy-carried a.parent_customer_id db.customers others a a (stays a)
                  (λ q i t p. (q, parent_stays a q e n i t p, stays q)) (v.placed a n);
            unique = λ a b m n.
                v.unique a b
                  (Elem-filter_sound (λ x. not (has_key env.tenant_id id x)) a db.customers m).0
                  (Elem-filter_sound (λ x. not (has_key env.tenant_id id x)) b db.customers n).0;
          })
          λ _. v

-- The calls that leave every customer under the parent that it was created with.
pub data Call : Type 0 where
  creates : CreateCustomer → Call
  updates : String → UpdateCustomer → Call
  deletes : String → Call

abbrev pub call : CustomerEnv → Call → CustomerDb → CustomerDb
call env (creates body) db = (create env body db).1
call env (updates id body) db = (update env id body db).1
call env (deletes id) db = (delete env id db).1

unfoldable pub calls : List (CustomerEnv × Call) → CustomerDb → CustomerDb
calls [] db = db
calls ((env, c) ∷ rest) db = calls rest (call env c db)

-- Creating, updating and deleting customers, in any order and for any tenants, keeps the hierarchy: an id
-- is used once, a customer without parent stands at the root with depth 0, and any other has a parent of
-- its tenant in the table, whose path and depth its own extend by its id and by one.
pub calls-IsTree :
    (cs : List (CustomerEnv × Call)) (db : CustomerDb)
    → IsTree db.customers
    → IsTree (calls cs db).customers
unfolding calls
calls-IsTree [] db v = v
calls-IsTree ((env, creates body) ∷ rest) db v = calls-IsTree rest _ (create-IsTree env body db v)
calls-IsTree ((env, updates id body) ∷ rest) db v =
    calls-IsTree rest _ (update-IsTree env id body db v)
calls-IsTree ((env, deletes id) ∷ rest) db v = calls-IsTree rest _ (delete-IsTree env id db v)
