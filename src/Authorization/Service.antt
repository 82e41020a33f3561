-- ===== src/Authorization/Service.antt =====
-- The operations of services/AuthorizationService.ts that change the tables. Each publishes one
-- event at its end; `eventService.publish` never throws.
pub mod Atomic
pub mod Backing
pub mod Formats
pub mod PolicyUse
use gcdr.Authorization.Data.{Role, Policy, RoleAssignment, inactive, Db, Env}
use gcdr.Authorization.Evaluation.{publish}
use gcdr.Authorization.Matching.{first_invalid}
use gcdr.Authorization.Requests.{NewRole, RoleChange, NewPolicy, PolicyChange, NewAssignment}
use gcdr.Authorization.Rows.{
  update_role_row, insert_assignment, update_policy_row, delete_role_row, insert_policy,
  delete_policy_row, update_assignment_row, insert_role,
}
use gcdr.Authorization.Tables.{
  is_active, role_by_key, assignments_by_role, assignment_by_id, policy_by_id, list_roles,
  policies_by_keys, role_by_id,
}
use gcdr.Base.{
  or_else, String, List, [], ◌∷◌, ◌++◌, map, not, Option, none, some, filter, includes, is_empty,
  if◌then◌else◌,
}
use gcdr.Base.Errors.{
  err, ok, Result, throw, Action, ◌>>=◌, ◌>>◌, gets, pure, modify, throw_if, or_throw, not_found,
  forbidden, conflict, plain, naming, text,
}

abbrev announce : String → String → String → Action Db (Unit {0})
announce event_type entity_id action =
    modify (publish (record { event_type = event_type; entity_id = entity_id; action = action }))

module _ (env : Env) where
  -- The texts of `data.policies` that no policy of the tenant has for its key.
  unfoldable pub missing_policies : List String → Db → List String
  missing_policies keys db =
      let found = map (λ (p : Policy). p.key) (policies_by_keys env keys db) in
      filter (λ k. not (includes found k)) keys

  require_policies : List String → Action Db (Unit {0})
  require_policies keys = do
    missing ← gets (missing_policies keys)
    throw_if (not (is_empty missing)) (not_found (text "Policies not found"))

  require_policies? : Option (List String) → Action Db (Unit {0})
  unfolding require_policies
  require_policies? none = pure tt
  require_policies? (some keys) = require_policies keys

  -- `validatePermissionFormat`
  validate_permission_format : List String → Action Db (Unit {0})
  validate_permission_format permissions = elim (first_invalid permissions) [
    | none ↦ pure tt
    | some perm ↦ throw (plain (naming "Invalid permission format" perm))
  ]

  unfoldable pub create_role : NewRole → String → Action Db Role
  unfolding require_policies insert_role
  create_role dto user = do
    require_policies dto.policies
    role ← insert_role env dto user
    announce "ROLE_CREATED" role.id "created"
    pure role

  get_role_by_id : String → Action Db Role
  get_role_by_id id = do
    or_throw (← gets (role_by_id env id)) (not_found (naming "Role not found" id))

  get_policy_by_id : String → Action Db Policy
  get_policy_by_id id = do
    or_throw (← gets (policy_by_id env id)) (not_found (naming "Policy not found" id))

  unfoldable pub update_role : String → RoleChange → String → Action Db Role
  unfolding require_policies? update_role_row get_role_by_id
  update_role id dto user = do
    existing ← get_role_by_id id
    throw_if existing.is_system (forbidden (text "Cannot modify system role"))
    require_policies? dto.policies
    role ← update_role_row env id dto user
    announce "ROLE_UPDATED" role.id "updated"
    pure role

  unfoldable pub delete_role : String → String → Action Db (Unit {0})
  unfolding delete_role_row get_role_by_id
  delete_role id user = do
    role ← get_role_by_id id
    throw_if role.is_system (forbidden (text "Cannot delete system role"))
    assignments ← gets (assignments_by_role env role.key)
    throw_if (not (is_empty (filter (λ (a : RoleAssignment). is_active env a.status) assignments)))
        (conflict (text "Cannot delete role with active assignments. Revoke assignments first."))
    delete_role_row env id
    announce "ROLE_DELETED" id "deleted"

  unfoldable pub create_policy : NewPolicy → String → Action Db Policy
  unfolding validate_permission_format insert_policy
  create_policy dto user = do
    validate_permission_format (dto.allow ++ dto.deny)
    policy ← insert_policy env dto user
    announce "POLICY_CREATED" policy.id "created"
    pure policy

  unfoldable pub update_policy : String → PolicyChange → String → Action Db Policy
  unfolding validate_permission_format update_policy_row get_policy_by_id
  update_policy id dto user = do
    existing ← get_policy_by_id id
    throw_if existing.is_system (forbidden (text "Cannot modify system policy"))
    validate_permission_format (or_else dto.allow [] ++ or_else dto.deny [])
    policy ← update_policy_row env id dto user
    announce "POLICY_UPDATED" policy.id "updated"
    pure policy

  -- `list(tenantId, { limit: 1000 })`, in order of creation
  unfoldable pub roles_using : String → Db → List Role
  roles_using key db = filter (λ (r : Role). includes r.policies key) (list_roles env 1000 db)

  unfoldable pub delete_policy : String → String → Action Db (Unit {0})
  unfolding delete_policy_row get_policy_by_id
  delete_policy id user = do
    policy ← get_policy_by_id id
    throw_if policy.is_system (forbidden (text "Cannot delete system policy"))
    users ← gets (roles_using policy.key)
    throw_if (not (is_empty users)) (conflict (text "Cannot delete policy used by roles"))
    delete_policy_row env id
    announce "POLICY_DELETED" id "deleted"

  unfoldable pub assign_role : NewAssignment → String → Action Db RoleAssignment
  unfolding insert_assignment
  assign_role dto granted_by = do
    role ←
        or_throw (← gets (role_by_key env dto.role_key))
          (not_found (naming "Role with key not found" dto.role_key))
    assignment ← insert_assignment env dto granted_by
    announce "ROLE_ASSIGNED" assignment.id "assigned"
    pure assignment

  unfoldable pub revoke_assignment : String → String → Action Db RoleAssignment
  unfolding update_assignment_row
  revoke_assignment id revoked_by = do
    assignment ←
        or_throw (← gets (assignment_by_id env id)) (not_found (naming "Assignment not found" id))
    updated ← update_assignment_row env id inactive revoked_by
    announce "ROLE_REVOKED" id "revoked"
    pure updated

-- The operations that change the tables, with their arguments.
pub data Op : Type 0 where
  create_role_op : NewRole → Op
  update_role_op : String → RoleChange → Op
  delete_role_op : String → Op
  create_policy_op : NewPolicy → Op
  update_policy_op : String → PolicyChange → Op
  delete_policy_op : String → Op
  assign_role_op : NewAssignment → Op
  revoke_assignment_op : String → Op

-- What a call leaves: whether it threw, and the tables.
abbrev finish : {A : Type 0} → Result A × Db → Result (Unit {0}) × Db
finish (ok _, db) = (ok tt, db)
finish (err e, db) = (err e, db)

unfoldable pub run_op : Env → String → Op → Action Db (Unit {0})
run_op env user (create_role_op dto) db = finish (create_role env dto user db)
run_op env user (update_role_op id dto) db = finish (update_role env id dto user db)
run_op env user (delete_role_op id) db = finish (delete_role env id user db)
run_op env user (create_policy_op dto) db = finish (create_policy env dto user db)
run_op env user (update_policy_op id dto) db = finish (update_policy env id dto user db)
run_op env user (delete_policy_op id) db = finish (delete_policy env id user db)
run_op env user (assign_role_op dto) db = finish (assign_role env dto user db)
run_op env user (revoke_assignment_op id) db = finish (revoke_assignment env id user db)
