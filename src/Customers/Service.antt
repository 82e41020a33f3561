-- ===== src/Customers/Service.antt =====
-- services/CustomerService.ts with the writes of repositories/CustomerRepository.ts.
use gcdr.Base.{
  ℕ, ◌+◌, String, Bool, true, false, not, ◌&&◌, ◌||◌, Option, none, some, List, [], ◌∷◌, ◌++◌,
  filter, any, or_else, is_empty, if◌then◌else◌, ◌==◌,
}
use gcdr.Base.Rows.{update_where}
use gcdr.Base.Errors.{
  Result, ok, err, app, text, naming, not_found, validation, conflict, plain, AppError,
}
use gcdr.Customers.Data.{
  Settings, default_settings, Customer, CreateCustomer, UpdateCustomer, CustomerDb, CustomerEnv,
}
use gcdr.Customers.Rows.{
  under, root_path, has_key, get_by_id, get_by_code, get_children, generate_code,
}

-- A text that is given and not empty.
abbrev pub given : Option String → Option String
given none = none
given (some t) = if t == "" then none else some t

abbrev pub publish : String → String → String → CustomerDb → CustomerDb
publish event_type id action db = record db {
  events = db.events ++ (record { event_type = event_type; entity_id = id; action = action } ∷ []);
}

-- Where a new customer is put, or `none` where the parent is missing.
abbrev pub placed_under : String → Option Customer → Option (String × ℕ)
placed_under id none = none
placed_under id (some parent) = some (under parent.path id, parent.depth + 1)

abbrev pub placement : CustomerEnv → Option String → List Customer → Option (String × ℕ)
placement env none rows = some (root_path env.tenant_id env.new_id, 0)
placement env (some p) rows = placed_under env.new_id (get_by_id env p rows)

abbrev pub new_customer : CustomerEnv → CreateCustomer → String → ℕ → Customer
new_customer env body path depth = record {
  id = env.new_id;
  tenant_id = env.tenant_id;
  parent_customer_id = given body.parent_customer_id;
  path = path;
  depth = depth;
  name = body.name;
  display_name = or_else (given body.display_name) body.name;
  code = or_else (given body.code) (generate_code body.name);
  customer_type = body.customer_type;
  email = body.email;
  phone = body.phone;
  settings = or_else body.settings default_settings;
  status = "ACTIVE";
  created_at = env.now;
  updated_at = env.now;
  created_by = some env.user_id;
  updated_by = none;
  version = 1;
}

-- The primary key and the unique index on tenant and code.
abbrev pub clashes : Customer → Customer → Bool
clashes new c = c.id == new.id || c.tenant_id == new.tenant_id && c.code == new.code

abbrev pub insert_row : Customer → CustomerDb → Result Customer × CustomerDb
insert_row new db =
    if any (clashes new) db.customers then (err (plain (text "duplicate key")), db) else (
      ok new,
      publish "customer.created" new.id "created"
          (record db { customers = db.customers ++ (new ∷ []) }),
    )

abbrev pub create_placed :
    CustomerEnv → CreateCustomer → Option (String × ℕ) → CustomerDb → Result Customer × CustomerDb
create_placed env body none db =
    (err (app "PARENT_NOT_FOUND" (text "Parent customer not found") 404), db)
create_placed env body (some (path, depth)) db = insert_row (new_customer env body path depth) db

-- The check for a code that another customer has.
abbrev pub is_taken : (Customer → Bool) → Option Customer → Bool
is_taken other none = false
is_taken other (some c) = other c

abbrev pub code_taken : CustomerEnv → Option String → (Customer → Bool) → List Customer → Bool
code_taken env none other rows = false
code_taken env (some code) other rows = is_taken other (get_by_code env code rows)

abbrev pub code_error : Option String → AppError
code_error code = conflict (naming "Customer code already exists" (or_else code ""))

unfoldable pub create : CustomerEnv → CreateCustomer → CustomerDb → Result Customer × CustomerDb
create env body db =
    if code_taken env (given body.code) (λ _. true) db.customers
    then (err (code_error body.code), db)
    else create_placed env body (placement env (given body.parent_customer_id) db.customers) db

abbrev pub missing : String → AppError
missing id = not_found (naming "Customer not found" id)

abbrev pub apply_settings : Option (Settings → Settings) → Settings → Settings
apply_settings none s = s
apply_settings (some f) s = f s

abbrev pub changed : CustomerEnv → UpdateCustomer → Customer → Customer
changed env d c = record c {
  updated_at = env.now;
  updated_by = some env.user_id;
  version = c.version + 1;
  name = or_else d.name c.name;
  display_name = or_else d.display_name c.display_name;
  code = or_else d.code c.code;
  customer_type = or_else d.customer_type c.customer_type;
  email = or_else d.email c.email;
  phone = or_else d.phone c.phone;
  settings = apply_settings d.settings c.settings;
  status = or_else d.status c.status;
}

abbrev pub update_found :
    CustomerEnv
    → String
    → UpdateCustomer
    → Option Customer
    → CustomerDb
    → Result Customer × CustomerDb
update_found env id d none db = (err (missing id), db)
update_found env id d (some c) db =
    if code_taken env (given d.code) (λ other. not (other.id == id)) db.customers
    then (err (code_error d.code), db)
    else (
      ok (changed env d c),
      publish "customer.updated" id "updated" (record db {
        customers = update_where (has_key env.tenant_id id) (changed env d) db.customers;
      }),
    )

unfoldable pub update :
    CustomerEnv → String → UpdateCustomer → CustomerDb → Result Customer × CustomerDb
update env id d db = update_found env id d (get_by_id env id db.customers) db

abbrev pub delete_found :
    CustomerEnv → String → Option Customer → CustomerDb → Result (Unit {0}) × CustomerDb
delete_found env id none db = (err (missing id), db)
delete_found env id (some c) db =
    if is_empty (get_children env (some id) db.customers)
    then (
      ok tt,
      publish "customer.deleted" id "deleted"
          (record db { customers = filter (λ x. not (has_key env.tenant_id id x)) db.customers }),
    )
    else (err (validation (text "Cannot delete customer with children")), db)

unfoldable pub delete : CustomerEnv → String → CustomerDb → Result (Unit {0}) × CustomerDb
delete env id db = delete_found env id (get_by_id env id db.customers) db
