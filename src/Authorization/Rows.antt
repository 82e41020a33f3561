-- ===== src/Authorization/Rows.antt =====
-- The writes of repositories/RoleRepository.ts, PolicyRepository.ts and
-- RoleAssignmentRepository.ts. An `update … where id and version` rewrites the rows that match and
-- fails when none does (optimistic locking).
use gcdr.Base.Rows.{update_where}
use gcdr.Authorization.Data.{Role, Db, Env, Policy, RoleAssignment, AssignmentStatus, active}
use gcdr.Authorization.Requests.{NewRole, RoleChange, NewPolicy, PolicyChange, NewAssignment}
use gcdr.Authorization.Tables.{
  role_by_id, role_by_key, policy_by_id, policy_by_key, assignment_by_id, assignments_by_user_scope,
  is_active,
}
use gcdr.Base.{
  ◌+◌, ◌==◌, eqb, is_some, ℕ, String, [], ◌∷◌, ◌++◌, Bool, false, not, ◌&&◌, none, some, find,
  filter, or_else, if◌then◌else◌,
}
use gcdr.Base.Errors.{
  Action, ◌>>=◌, ◌>>◌, gets, pure, modify, throw_if, or_throw, app, naming, plain, text,
}
use gcdr.Base.Records.{Entity}

-- `set(updateData)`: a field that is given replaces the row's.
abbrev pub touch : Env → String → ℕ → Entity → Entity
touch env user version e = record e {
  updated_at = env.now;
  updated_by = some user;
  version = version + 1;
}

module _ (env : Env) where
  abbrev pub fresh_entity : String → Entity
  fresh_entity user = record {
    id = env.new_id;
    tenant_id = env.tenant_id;
    created_at = env.now;
    updated_at = env.now;
    created_by = some user;
    updated_by = none;
    version = 1;
  }

  -- `where tenantId = … and id = …`
  abbrev pub is_row : String → Entity → Bool
  is_row id e = e.tenant_id == env.tenant_id && e.id == id

  -- `… and version = …`
  abbrev pub is_row_at : String → ℕ → Entity → Bool
  is_row_at id version e = is_row id e && eqb e.version version

  unfoldable pub new_role : NewRole → String → Role
  new_role dto user = record {
    entity = fresh_entity user;
    key = dto.key;
    display_name = dto.display_name;
    description = or_else dto.description "";
    policies = dto.policies;
    tags = or_else dto.tags [];
    risk_level = dto.risk_level;
    is_system = false;
  }

  -- RoleRepository.create
  unfoldable pub insert_role : NewRole → String → Action Db Role
  unfolding new_role
  insert_role dto user = do
    existing ← gets (role_by_key env dto.key)
    throw_if (is_some existing) (app "ROLE_KEY_EXISTS" (naming "Role with key" dto.key) 409)
    let role = new_role dto user
    modify (λ db. record db { roles = db.roles ++ role ∷ [] })
    pure role

  unfoldable pub change_role : RoleChange → String → ℕ → Role → Role
  change_role dto user version r = record r {
    entity = touch env user version r.entity;
    display_name = or_else dto.display_name r.display_name;
    description = or_else dto.description r.description;
    policies = or_else dto.policies r.policies;
    tags = or_else dto.tags r.tags;
    risk_level = or_else dto.risk_level r.risk_level;
  }

  -- RoleRepository.update
  unfoldable pub update_role_row : String → RoleChange → String → Action Db Role
  update_role_row id dto user = do
    existing ←
        or_throw (← gets (role_by_id env id)) (app "ROLE_NOT_FOUND" (text "Role not found") 404)
    throw_if existing.is_system (app "SYSTEM_ROLE" (text "Cannot modify system role") 403)
    row ←
        or_throw (← gets (λ db. find (λ r. is_row_at id existing.version r.entity) db.roles))
          (app "CONCURRENT_UPDATE" (text "Role was modified by another process") 409)
    modify (λ db. record db {
      roles =
          update_where (λ r. is_row_at id existing.version r.entity)
            (change_role dto user existing.version) db.roles;
    })
    pure (change_role dto user existing.version row)

  -- RoleRepository.delete
  unfoldable pub delete_role_row : String → Action Db (Unit {0})
  delete_role_row id = do
    existing ←
        or_throw (← gets (role_by_id env id)) (app "ROLE_NOT_FOUND" (text "Role not found") 404)
    throw_if existing.is_system (app "SYSTEM_ROLE" (text "Cannot delete system role") 403)
    modify (λ db. record db { roles = filter (λ r. not (is_row id r.entity)) db.roles })

  unfoldable pub new_policy : NewPolicy → String → Policy
  new_policy dto user = record {
    entity = fresh_entity user;
    key = dto.key;
    display_name = dto.display_name;
    description = or_else dto.description "";
    allow = dto.allow;
    deny = dto.deny;
    conditions = dto.conditions;
    risk_level = dto.risk_level;
    is_system = false;
  }

  -- PolicyRepository.create
  unfoldable pub insert_policy : NewPolicy → String → Action Db Policy
  unfolding new_policy
  insert_policy dto user = do
    existing ← gets (policy_by_key env dto.key)
    throw_if (is_some existing) (app "POLICY_KEY_EXISTS" (naming "Policy with key" dto.key) 409)
    let policy = new_policy dto user
    modify (λ db. record db { policies = db.policies ++ policy ∷ [] })
    pure policy

  unfoldable pub change_policy : PolicyChange → String → ℕ → Policy → Policy
  change_policy dto user version p = record p {
    entity = touch env user version p.entity;
    display_name = or_else dto.display_name p.display_name;
    description = or_else dto.description p.description;
    allow = or_else dto.allow p.allow;
    deny = or_else dto.deny p.deny;
    conditions = if is_some dto.conditions then dto.conditions else p.conditions;
    risk_level = or_else dto.risk_level p.risk_level;
  }

  -- PolicyRepository.update
  unfoldable pub update_policy_row : String → PolicyChange → String → Action Db Policy
  update_policy_row id dto user = do
    existing ←
        or_throw (← gets (policy_by_id env id))
          (app "POLICY_NOT_FOUND" (text "Policy not found") 404)
    throw_if existing.is_system (app "SYSTEM_POLICY" (text "Cannot modify system policy") 403)
    row ←
        or_throw (← gets (λ db. find (λ p. is_row_at id existing.version p.entity) db.policies))
          (app "CONCURRENT_UPDATE" (text "Policy was modified by another process") 409)
    modify (λ db. record db {
      policies =
          update_where (λ p. is_row_at id existing.version p.entity)
            (change_policy dto user existing.version) db.policies;
    })
    pure (change_policy dto user existing.version row)

  -- PolicyRepository.delete
  unfoldable pub delete_policy_row : String → Action Db (Unit {0})
  delete_policy_row id = do
    existing ←
        or_throw (← gets (policy_by_id env id))
          (app "POLICY_NOT_FOUND" (text "Policy not found") 404)
    throw_if existing.is_system (app "SYSTEM_POLICY" (text "Cannot delete system policy") 403)
    modify (λ db. record db { policies = filter (λ p. not (is_row id p.entity)) db.policies })

  unfoldable pub new_assignment : NewAssignment → String → RoleAssignment
  new_assignment dto user = record {
    entity = fresh_entity user;
    user_id = dto.user_id;
    role_key = dto.role_key;
    scope = dto.scope;
    status = active;
    expires_at = dto.expires_at;
    granted_by = user;
    granted_at = env.now;
    reason = dto.reason;
  }

  -- RoleAssignmentRepository.create. The unique index `role_assignments_unique` of the table takes a row of
  -- the same user, role and scope whatever its status, so that the insert fails beside a revoked one.
  unfoldable pub insert_assignment : NewAssignment → String → Action Db RoleAssignment
  unfolding new_assignment
  insert_assignment dto user = do
    existing ← gets (assignments_by_user_scope env dto.user_id dto.scope)
    throw_if (is_some (find (λ a. a.role_key == dto.role_key && is_active env a.status) existing))
        (app "ASSIGNMENT_EXISTS" (text "User already has this role in this scope") 409)
    throw_if (is_some (find (λ a. a.role_key == dto.role_key) existing))
        (plain (naming "duplicate key value violates unique constraint" "role_assignments_unique"))
    let assignment = new_assignment dto user
    modify (λ db. record db { assignments = db.assignments ++ assignment ∷ [] })
    pure assignment

  unfoldable pub change_status : AssignmentStatus → String → ℕ → RoleAssignment → RoleAssignment
  change_status status user version a = record a {
    entity = touch env user version a.entity;
    status = status;
  }

  -- RoleAssignmentRepository.update with a status alone, as its callers use it
  unfoldable pub update_assignment_row :
      String → AssignmentStatus → String → Action Db RoleAssignment
  update_assignment_row id status user = do
    existing ←
        or_throw (← gets (assignment_by_id env id))
          (app "ASSIGNMENT_NOT_FOUND" (text "Role assignment not found") 404)
    row ←
        or_throw (← gets (λ db. find (λ a. is_row_at id existing.version a.entity) db.assignments))
          (app "CONCURRENT_UPDATE" (text "Role assignment was modified by another process") 409)
    modify (λ db. record db {
      assignments =
          update_where (λ a. is_row_at id existing.version a.entity)
            (change_status status user existing.version) db.assignments;
    })
    pure (change_status status user existing.version row)
