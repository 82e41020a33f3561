-- ===== src/Authorization/Evaluation.antt =====
-- `checkPermission`, `evaluatePermission` and `evaluateBatch` of services/AuthorizationService.ts.
-- Within one call the clock is read once.
pub mod Loop
mod Held
pub mod Decision
pub mod Batch
use gcdr.Authorization.Data.{Role, Policy, RoleAssignment, Db, Env}
use gcdr.Authorization.Matching.{scope_matches, permission_matches}
use gcdr.Authorization.Tables.{active_by_user, roles_by_keys, policies_by_keys}
use gcdr.Base.{
  ℕ, ◌+◌, String, List, [], ◌∷◌, ◌++◌, map, Bool, true, false, filter, dedup, is_empty, length,
  if◌then◌else◌,
}
use gcdr.Base.Dict.{Dict, insert}
use gcdr.Base.Errors.{Message, text, naming}
use gcdr.Base.Records.{Event}

pub record EvaluationResult : Type 0 where
  pub allowed : Bool
  pub reason : Message
  pub matched_policies : List String
  pub evaluated_at : ℕ

-- The variables of the loop over the policies.
pub record Scan : Type 0 where
  pub is_allowed : Bool
  pub is_denied : Bool
  pub deny_reason : Message
  pub matched : List String

-- One round after the test on `deny`.
abbrev note_allow : String → Policy → Scan → Scan
note_allow permission policy s =
    if permission_matches policy.allow permission
    then record s { is_allowed = true; matched = s.matched ++ policy.key ∷ [] }
    else s

-- The loop; a match on `deny` ends it.
unfoldable pub scan_policies : String → List Policy → Scan → Scan
scan_policies permission [] s = s
scan_policies permission (policy ∷ policies) s =
    if permission_matches policy.deny permission
    then record s {
      is_denied = true;
      deny_reason = naming "Explicitly denied by policy" policy.key;
      matched = s.matched ++ policy.key ∷ [];
    }
    else scan_policies permission policies (note_allow permission policy s)

abbrev pub start : Scan
start = record { is_allowed = false; is_denied = false; deny_reason = text ""; matched = [] }

-- `roles.flatMap((r) => r.policies)`
unfoldable pub role_policies : List Role → List String
role_policies [] = []
role_policies (r ∷ rs) = r.policies ++ role_policies rs

-- The result from the variables of the loop.
conclude : Env → Scan → EvaluationResult
conclude env s =
    if s.is_denied
    then record {
      allowed = false;
      reason = s.deny_reason;
      matched_policies = s.matched;
      evaluated_at = env.now;
    }
    else if s.is_allowed
    then record {
      allowed = true;
      reason = text "Permission granted by policy";
      matched_policies = s.matched;
      evaluated_at = env.now;
    }
    else record {
      allowed = false;
      reason = text "Permission not found in any assigned policies";
      matched_policies = [];
      evaluated_at = env.now;
    }

refuse : Env → Message → EvaluationResult
refuse env why = record {
  allowed = false;
  reason = why;
  matched_policies = [];
  evaluated_at = env.now;
}

-- The assignments of a user that hold for a scope.
unfoldable pub relevant_assignments : Env → String → String → Db → List RoleAssignment
relevant_assignments env user scope db =
    filter (λ a. scope_matches a.scope scope) (active_by_user env user db)

-- The policies of the roles of those assignments.
unfoldable pub policies_of_roles : Env → List Role → Db → List Policy
policies_of_roles env roles db = policies_by_keys env (dedup (role_policies roles)) db

unfoldable pub check_permission : Env → String → String → String → Db → EvaluationResult
unfolding conclude refuse
check_permission env user permission scope db =
    let relevant = relevant_assignments env user scope db in
    if is_empty relevant
    then refuse env (text "No active role assignments found for this scope")
    else let roles = roles_by_keys env (map (λ a. a.role_key) relevant) db in
      if is_empty roles
      then refuse env (text "No roles found for assignments")
      else conclude env (scan_policies permission (policies_of_roles env roles db) start)

-- `eventService.publish`
abbrev pub publish : Event → Db → Db
publish e db = record db { events = db.events ++ e ∷ [] }

-- evaluatePermission
unfoldable pub evaluate_permission : Env → String → String → String → Db → EvaluationResult × Db
evaluate_permission env user permission scope db = (
  check_permission env user permission scope db,
  publish (record { event_type = "PERMISSION_EVALUATED"; entity_id = user; action = "evaluated" })
      db,
)

-- `summary` of BatchEvaluationResult, with its results by permission.
pub record BatchResult : Type 0 where
  pub results : Dict EvaluationResult
  pub total : ℕ
  pub allowed : ℕ
  pub denied : ℕ

-- One round: the result is stored and counted.
abbrev batch_step : (String → EvaluationResult) → String → BatchResult → BatchResult
batch_step check permission b =
    let result = check permission in
    record b {
      results = insert permission result b.results;
      allowed = if result.allowed then b.allowed + 1 else b.allowed;
      denied = if result.allowed then b.denied else b.denied + 1;
    }

-- The loop over the permissions.
batch_loop : (String → EvaluationResult) → List String → BatchResult → BatchResult
batch_loop check [] b = b
batch_loop check (permission ∷ permissions) b =
    batch_loop check permissions (batch_step check permission b)

-- evaluateBatch
unfoldable pub evaluate_batch : Env → String → List String → String → Db → BatchResult × Db
unfolding batch_loop
evaluate_batch env user permissions scope db = (
  batch_loop (λ permission. check_permission env user permission scope db) permissions
      (record { results = []; total = length permissions; allowed = 0; denied = 0 }),
  publish
      (record { event_type = "PERMISSION_EVALUATED"; entity_id = user; action = "batch_evaluated" })
      db,
)
