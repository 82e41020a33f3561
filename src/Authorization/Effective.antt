-- ===== src/Authorization/Effective.antt =====
-- `getEffectivePermissions` of services/AuthorizationService.ts.
pub mod Sources
pub mod Verdict
pub mod Conflict
use gcdr.Authorization.Data.{Policy, PolicyConditions, RoleAssignment, Db, Env}
use gcdr.Authorization.Evaluation.{role_policies}
use gcdr.Authorization.Matching.{scope_matches}
use gcdr.Authorization.Tables.{active_by_user, roles_by_keys, policies_by_keys}
use gcdr.Base.{
  ◌==◌, String, List, [], ◌∷◌, Bool, true, false, Option, none, some, map, dedup, filter,
  if◌then◌else◌,
}
use gcdr.Base.Dict.{Dict, lookup, insert}

pub record EffectivePermission : Type 0 where
  pub permission : String
  pub allowed : Bool
  pub source : String
  pub conditions : Option PolicyConditions

entry : Policy → String → Bool → EffectivePermission
entry policy perm allowed = record {
  permission = perm;
  allowed = allowed;
  source = policy.key;
  conditions = policy.conditions;
}

-- `!existing || !existing.allowed`
abbrev is_open : Option EffectivePermission → Bool
is_open none = true
is_open (some e) = if e.allowed then false else true

-- The inner loop over `policy.allow`.
allow_all : Policy → List String → Dict EffectivePermission → Dict EffectivePermission
allow_all policy [] m = m
allow_all policy (perm ∷ perms) m =
    allow_all policy perms
      (if is_open (lookup perm m) then insert perm (entry policy perm true) m else m)

-- The inner loop over `policy.deny`.
deny_all : Policy → List String → Dict EffectivePermission → Dict EffectivePermission
deny_all policy [] m = m
deny_all policy (perm ∷ perms) m = deny_all policy perms (insert perm (entry policy perm false) m)

-- The outer loop.
unfoldable pub merge_policies : List Policy → Dict EffectivePermission → Dict EffectivePermission
unfolding allow_all deny_all entry
merge_policies [] m = m
merge_policies (policy ∷ policies) m =
    merge_policies policies (deny_all policy policy.deny (allow_all policy policy.allow m))

-- `scope ? assignments.filter(…) : assignments`; an empty scope is no scope.
in_scope : Option String → List RoleAssignment → List RoleAssignment
in_scope none assignments = assignments
in_scope (some scope) assignments =
    if scope == "" then assignments else filter (λ a. scope_matches a.scope scope) assignments

-- The map at the end of the loops.
unfoldable pub effective_map : Env → String → Option String → Db → Dict EffectivePermission
unfolding merge_policies in_scope
effective_map env user scope db =
    let relevant = in_scope scope (active_by_user env user db) in
    let roles = roles_by_keys env (dedup (map (λ (a : RoleAssignment). a.role_key) relevant)) db in
    merge_policies (policies_by_keys env (dedup (role_policies roles)) db) []

unfoldable pub get_effective_permissions :
    Env → String → Option String → Db → List EffectivePermission
unfolding effective_map
get_effective_permissions env user scope db =
    map (λ (e : String × EffectivePermission). e.1) (effective_map env user scope db)
