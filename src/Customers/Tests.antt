-- ===== src/Customers/Tests.antt =====
-- Runs of the hierarchy of customers, and its theorems at these inputs.
use gcdr.Base.Rows.{update_where}
use gcdr.Base.{
  sym, ap, subst, ◌∙◌, ◌==◌, subst, ◌≡◌, ◌≢◌, refl, String, Bool, true, false, none, some, List, [],
  ◌∷◌, Elem, inl, inr, find, any, arith, eq_iff,
}
use gcdr.Base.Errors.{ok, is_ok}
use gcdr.Base.Text.{upper_case, starts_with}
use gcdr.Customers.Data.{Customer, CreateCustomer, CustomerDb, CustomerEnv, default_settings}
use gcdr.Customers.Rows.{
  has_key, get_descendants, generate_code, dashed, substring, ancestor_ids, is_under,
}
use gcdr.Customers.Service.{create}
use gcdr.Customers.Places.{IsTree}
use gcdr.Customers.Tree.{Call, creates, calls, calls-IsTree}
use gcdr.Customers.Moves.{move, move_to}
use gcdr.Customers.Descendants.{Below, child, get_descendants_complete, move-Below}
use gcdr.Customers.Stale.{moved, move_to-IsTree_lost}
use gcdr.Customers.Ancestors.{root, branch, ancestor_ids-Chain, IsPart}

abbrev env : CustomerEnv
env = record { tenant_id = "t"; user_id = "u"; now = 1; new_id = "a"; name_before = λ _ _. false }

abbrev body : CreateCustomer
body = record {
  name = "Acme  Sul";
  display_name = none;
  code = none;
  customer_type = "HOLDING";
  parent_customer_id = none;
  email = none;
  phone = none;
  settings = none;
}

abbrev other_body : CreateCustomer
other_body = record body { name = "Norte"; parent_customer_id = some "a" }

abbrev history : List (CustomerEnv × Call)
history = (env, creates body) ∷ (record env { new_id = "b" }, creates other_body) ∷ []

abbrev empty : CustomerDb
empty = record { customers = []; events = [] }

abbrev filled : CustomerDb
filled = calls history empty

code_runs : generate_code "Acme  Sul" ≡ "ACME-SUL"
unfolding dashed substring upper_case
code_runs = refl

empty-IsTree : IsTree []
empty-IsTree = record { placed = λ c m. absurd m; unique = λ a b m n e. absurd m }

calls-IsTree_example : IsTree filled.customers
calls-IsTree_example = calls-IsTree history empty empty-IsTree

false_is_true : ◌≡◌ {A = Bool} false true → ⊥
false_is_true e = cc

differ : (a b : String) → (a == b) ≡ false → a ≢ b
differ a b h e = false_is_true (sym h ∙ (eq_iff a b).1 e)

abbrev row_a : Customer
row_a = record {
  id = "a";
  tenant_id = "t";
  parent_customer_id = none;
  path = "/t/a";
  depth = 0;
  name = "Acme  Sul";
  display_name = "Acme  Sul";
  code = "ACME-SUL";
  customer_type = "HOLDING";
  email = none;
  phone = none;
  settings = default_settings;
  status = "ACTIVE";
  created_at = 1;
  updated_at = 1;
  created_by = some "u";
  updated_by = none;
  version = 1;
}

abbrev row_b : Customer
row_b = record row_a {
  id = "b";
  parent_customer_id = some "a";
  path = "/t/a/b";
  depth = 1;
  name = "Norte";
  display_name = "Norte";
  code = "NORTE";
}

filled_lem : filled.customers ≡ row_a ∷ row_b ∷ []
unfolding calls create any find dashed substring upper_case
filled_lem = refl

two-IsTree : IsTree (row_a ∷ row_b ∷ [])
two-IsTree = subst IsTree filled_lem calls-IsTree_example

b-Below : Below (row_a ∷ row_b ∷ []) row_a row_b
b-Below = child row_b (inr (inl refl)) refl refl

get_descendants_complete_example :
    (ds : List Customer) × (get_descendants env "a" none (row_a ∷ row_b ∷ []) ≡ ok ds)
    × Elem row_b ds
unfolding find
get_descendants_complete_example =
    get_descendants_complete (row_a ∷ row_b ∷ []) two-IsTree env "a" row_a row_b refl b-Below

abbrev two : CustomerDb
two = record { customers = row_a ∷ row_b ∷ []; events = [] }

move-Below_example :
    (is_ok (move env "a" (some "b") two).0 ≡ false) × ((move env "a" (some "b") two).1 ≡ two)
unfolding find
move-Below_example =
    move-Below env two "a" "b" row_a row_b (differ "b" "" refl) two-IsTree refl refl (inr b-Below)

nobody_under : (y : Customer) → Elem y (row_a ∷ row_b ∷ []) → is_under env "/t/x/a" y ≡ true → ⊥
unfolding starts_with
nobody_under y (inl e) u = false_is_true (sym (ap (is_under env "/t/x/a") e) ∙ u)
nobody_under y (inr (inl e)) u = false_is_true (sym (ap (is_under env "/t/x/a") e) ∙ u)
nobody_under y (inr (inr m)) u = absurd m

move_to-IsTree_lost_example :
    ((move_to env (some "x") row_a "/t/x/a" 1 (row_a ∷ row_b ∷ [])).1
      ≡ update_where (has_key "t" "a") (moved env (some "x") "/t/x/a" 1) (row_a ∷ row_b ∷ []))
    × Elem row_b (move_to env (some "x") row_a "/t/x/a" 1 (row_a ∷ row_b ∷ [])).1
    × ¬ IsTree (move_to env (some "x") row_a "/t/x/a" 1 (row_a ∷ row_b ∷ [])).1
unfolding find
move_to-IsTree_lost_example =
    move_to-IsTree_lost env (some "x") row_a "/t/x/a" 1 (row_a ∷ row_b ∷ []) row_b two-IsTree refl
      (inr (inl refl)) refl (differ "b" "a" refl) (differ "/t/x/a" "/t/a" refl) nobody_under

clean_ids : (c : Customer) → Elem c (row_a ∷ row_b ∷ []) → IsPart c.id
clean_ids c (inl e) =
    subst (λ (x : Customer). IsPart x.id) (sym e)
      (differ "a" "" refl, ((λ n. absurd (omega arith)), tt))
clean_ids c (inr (inl e)) =
    subst (λ (x : Customer). IsPart x.id) (sym e)
      (differ "b" "" refl, ((λ n. absurd (omega arith)), tt))
clean_ids c (inr (inr m)) = absurd m

ancestor_ids-Chain_example : ancestor_ids row_b.path ≡ "a" ∷ []
ancestor_ids-Chain_example =
    ancestor_ids-Chain (row_a ∷ row_b ∷ []) two-IsTree "t" row_b ("a" ∷ [])
      (differ "t" "" refl, ((λ e. absurd (omega arith)), tt)) clean_ids refl
      (branch row_a row_b [] ("a" ∷ []) (root row_a (inl refl) refl) (inr (inl refl)) refl refl)
