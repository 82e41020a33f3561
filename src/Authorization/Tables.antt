-- ===== src/Authorization/Tables.antt =====
-- The queries of repositories/RoleRepository.ts, PolicyRepository.ts and
-- RoleAssignmentRepository.ts. A `select … where` is a filter of the rows; `limit(1)` takes the
-- first. The database leaves the order of rows open where the code gives no `orderBy`; here it is
-- the order of creation, which is what `orderBy(createdAt)` asks for elsewhere.
use gcdr.Authorization.Data.{
  Role, Policy, RoleAssignment, AssignmentStatus, active, inactive, expired, Db, Env,
}
use gcdr.Base.{
  ℕ, String, Bool, true, false, ◌&&◌, Option, none, some, List, [], ◌∷◌, filter, find, includes,
  take, ltb, ◌==◌,
}

module _ (env : Env) where
  -- RoleRepository.getById
  unfoldable pub role_by_id : String → Db → Option Role
  role_by_id id db = find (λ r. r.tenant_id == env.tenant_id && r.id == id) db.roles

  -- RoleRepository.getByKey
  unfoldable pub role_by_key : String → Db → Option Role
  role_by_key key db = find (λ r. r.tenant_id == env.tenant_id && r.key == key) db.roles

  -- RoleRepository.getByKeys
  unfoldable pub roles_by_keys : List String → Db → List Role
  roles_by_keys [] db = []
  roles_by_keys (k ∷ ks) db =
      filter (λ r. r.tenant_id == env.tenant_id && includes (k ∷ ks) r.key) db.roles

  -- RoleRepository.list with a limit and no cursor: its `items`
  unfoldable pub list_roles : ℕ → Db → List Role
  list_roles limit db = take limit (filter (λ r. r.tenant_id == env.tenant_id) db.roles)

  -- PolicyRepository.getById
  unfoldable pub policy_by_id : String → Db → Option Policy
  policy_by_id id db = find (λ p. p.tenant_id == env.tenant_id && p.id == id) db.policies

  -- PolicyRepository.getByKey
  unfoldable pub policy_by_key : String → Db → Option Policy
  policy_by_key key db = find (λ p. p.tenant_id == env.tenant_id && p.key == key) db.policies

  -- PolicyRepository.getByKeys
  unfoldable pub policies_by_keys : List String → Db → List Policy
  policies_by_keys [] db = []
  policies_by_keys (k ∷ ks) db =
      filter (λ p. p.tenant_id == env.tenant_id && includes (k ∷ ks) p.key) db.policies

  abbrev pub is_active : AssignmentStatus → Bool
  is_active active = true
  is_active inactive = false
  is_active expired = false

  -- `!a.expiresAt || a.expiresAt > currentTime`
  abbrev pub is_unexpired : Option ℕ → Bool
  is_unexpired none = true
  is_unexpired (some t) = ltb env.now t

  -- RoleAssignmentRepository.getById
  unfoldable pub assignment_by_id : String → Db → Option RoleAssignment
  assignment_by_id id db = find (λ a. a.tenant_id == env.tenant_id && a.id == id) db.assignments

  -- RoleAssignmentRepository.getActiveByUserId
  unfoldable pub active_by_user : String → Db → List RoleAssignment
  active_by_user user db =
      filter (λ a. is_unexpired a.expires_at)
        (filter (λ a. a.tenant_id == env.tenant_id && (a.user_id == user && is_active a.status))
          db.assignments)

  -- RoleAssignmentRepository.getByRoleKey
  unfoldable pub assignments_by_role : String → Db → List RoleAssignment
  assignments_by_role key db =
      filter (λ a. a.tenant_id == env.tenant_id && a.role_key == key) db.assignments

  -- RoleAssignmentRepository.getByUserIdAndScope
  unfoldable pub assignments_by_user_scope : String → String → Db → List RoleAssignment
  assignments_by_user_scope user scope db =
      filter (λ a. a.tenant_id == env.tenant_id && (a.user_id == user && a.scope == scope))
        db.assignments
