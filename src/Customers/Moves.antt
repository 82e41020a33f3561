-- ===== src/Customers/Moves.antt =====
-- The move of a customer to another parent, in services/CustomerService.ts and
-- repositories/CustomerRepository.ts.
use gcdr.Base.{
  ℕ, ◌+◌, ◌-◌, String, Bool, false, Option, none, some, List, [], ◌∷◌, any, if◌then◌else◌, ◌==◌,
}
use gcdr.Base.Text.{starts_with}
use gcdr.Base.Rows.{update_where}
use gcdr.Base.Errors.{Result, ok, err, app, text, naming, not_found, validation, AppError}
use gcdr.Customers.Data.{Customer, CustomerDb, CustomerEnv}
use gcdr.Customers.Rows.{under, root_path, has_key, get_by_id, get_descendants, replace_first}
use gcdr.Customers.Service.{given, missing, publish}

-- What `updatePath` writes.
abbrev pub put_path : CustomerEnv → String → ℕ → Customer → Customer
put_path env path depth c = record c { path = path; depth = depth; updated_at = env.now }

abbrev pub update_path : CustomerEnv → String → String → ℕ → List Customer → List Customer
update_path env id path depth rows =
    update_where (has_key env.tenant_id id) (put_path env path depth) rows

abbrev pub put_parent : CustomerEnv → Option String → Customer → Customer
put_parent env parent c = record c {
  parent_customer_id = parent;
  updated_at = env.now;
  updated_by = some env.user_id;
}

-- The loop over the descendants. A depth is not negative: what falls below 0 is put at 0.
unfoldable pub rewrite_descendants :
    CustomerEnv → String → String → ℕ → ℕ → List Customer → List Customer → List Customer
rewrite_descendants env old_path new_path old_depth new_depth [] rows = rows
rewrite_descendants env old_path new_path old_depth new_depth (d ∷ ds) rows =
    rewrite_descendants env old_path new_path old_depth new_depth ds (
      update_path env d.id (replace_first old_path new_path d.path)
        (d.depth + new_depth - old_depth) rows)

abbrev pub rewrite_found :
    CustomerEnv
    → String
    → String
    → ℕ
    → ℕ
    → Result (List Customer)
    → List Customer
    → Result (Unit {0}) × List Customer
rewrite_found env old_path new_path old_depth new_depth (err e) rows = (err e, rows)
rewrite_found env old_path new_path old_depth new_depth (ok ds) rows =
    (ok tt, rewrite_descendants env old_path new_path old_depth new_depth ds rows)

-- The row itself, with its new path first and its new parent next.
abbrev pub relocate :
    CustomerEnv → Option String → String → String → ℕ → List Customer → List Customer
relocate env parent id path depth rows =
    update_where (has_key env.tenant_id id) (put_parent env parent)
      (update_path env id path depth rows)

-- The writes of the repository: the descendants are looked up after the row has its new path.
unfoldable pub move_to :
    CustomerEnv
    → Option String
    → Customer
    → String
    → ℕ
    → List Customer
    → Result (Unit {0}) × List Customer
move_to env parent c path depth rows =
    let moved = relocate env parent c.id path depth rows in
    rewrite_found env c.path path c.depth depth (get_descendants env c.id none moved) moved

abbrev pub move_under :
    CustomerEnv
    → Option String
    → Customer
    → Option Customer
    → List Customer
    → Result (Unit {0}) × List Customer
move_under env parent c none rows =
    (err (app "PARENT_NOT_FOUND" (text "New parent customer not found") 404), rows)
move_under env parent c (some new) rows =
    if starts_with new.path c.path
    then (
      err (app "CIRCULAR_REFERENCE" (text "Cannot move customer under its own descendant") 400),
      rows,
    )
    else move_to env parent c (under new.path c.id) (new.depth + 1) rows

abbrev pub repository_move :
    CustomerEnv → Option String → Customer → List Customer → Result (Unit {0}) × List Customer
repository_move env none c rows = move_to env none c (root_path env.tenant_id c.id) 0 rows
repository_move env (some p) c rows = move_under env (some p) c (get_by_id env p rows) rows

-- The checks of the service on the new parent.
abbrev pub among : String → Result (List Customer) → Bool
among id (ok ds) = any (λ (d : Customer). d.id == id) ds
among id (err _) = false

abbrev pub check_parent :
    CustomerEnv → String → String → Option Customer → List Customer → Option AppError
check_parent env id p none rows = some (not_found (naming "New parent customer not found" p))
check_parent env id p (some new) rows =
    if p == id
    then some (validation (text "Cannot move customer to itself"))
    else if among p (get_descendants env id none rows)
    then some (validation (text "Cannot move customer under its own descendant"))
    else none

abbrev pub check_move : CustomerEnv → String → Option String → List Customer → Option AppError
check_move env id none rows = none
check_move env id (some p) rows = check_parent env id p (get_by_id env p rows) rows

abbrev pub move_done :
    String → CustomerDb → Result (Unit {0}) × List Customer → Result (Unit {0}) × CustomerDb
move_done id db (err e, rows) = (err e, record db { customers = rows })
move_done id db (ok _, rows) =
    (ok tt, publish "customer.moved" id "moved" (record db { customers = rows }))

abbrev pub move_checked :
    CustomerEnv
    → Option String
    → Customer
    → Option AppError
    → CustomerDb
    → Result (Unit {0}) × CustomerDb
move_checked env parent c (some e) db = (err e, db)
move_checked env parent c none db = move_done c.id db (repository_move env parent c db.customers)

abbrev pub move_found :
    CustomerEnv
    → String
    → Option String
    → Option Customer
    → CustomerDb
    → Result (Unit {0}) × CustomerDb
move_found env id parent none db = (err (missing id), db)
move_found env id parent (some c) db =
    move_checked env (given parent) c (check_move env id (given parent) db.customers) db

-- The moved customer is read again at the end; the result here is that the call succeeded.
unfoldable pub move :
    CustomerEnv → String → Option String → CustomerDb → Result (Unit {0}) × CustomerDb
move env id parent db = move_found env id parent (get_by_id env id db.customers) db
