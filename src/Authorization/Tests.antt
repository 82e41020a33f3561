-- ===== src/Authorization/Tests.antt =====
-- Runs of the authorization model on a small tenant, and its theorems at these inputs.
use gcdr.Authorization.Data.{high, low, Policy, Role, RoleAssignment, active, Db, Env}
use gcdr.Authorization.Effective.{merge_policies}
use gcdr.Authorization.Effective.Conflict.{effective_allows_denied}
use gcdr.Authorization.Effective.Verdict.{effective-last, IsSilent, AllSilent, verdict}
use gcdr.Authorization.Evaluation.{
  role_policies, policies_of_roles, start, scan_policies, relevant_assignments, evaluate_batch,
  check_permission,
}
use gcdr.Authorization.Evaluation.Batch.{evaluate_batch_lem, count_granted}
use gcdr.Authorization.Evaluation.Decision.{check_permission_iff, IsGranted}
use gcdr.Authorization.Matching.{
  scope_matches_iff, permission_matches-dotted, is_permission_iff, IsPermission, Covers,
  SegmentCovers, dotted, is_permission, scope_matches, permission_matches,
}
use gcdr.Authorization.Requests.{NewPolicy}
use gcdr.Authorization.Rows.{new_policy}
use gcdr.Authorization.Service.{
  delete_policy, revoke_assignment_op, delete_role_op, run_op, create_policy, delete_role,
}
use gcdr.Authorization.Service.Atomic.{run_op-IsAtomic, IsAtomic}
use gcdr.Authorization.Service.Backing.Kept.{run_op-HasBacking, IsFresh}
use gcdr.Authorization.Service.Backing.Steps.{HasBacking}
use gcdr.Authorization.Service.PolicyUse.{delete_policy_in_use, create_policy_iff}
use gcdr.Authorization.Tables.{
  policies_by_keys, roles_by_keys, policy_by_key, assignments_by_role, active_by_user, role_by_id,
  policy_by_id,
}
use gcdr.Base.{
  refl, dedup, length, ◌+◌, not, arith, inr, ap, sym, Elem, ◌↔◌, ◌∙◌, filter, eq_iff, any, ◌≡◌,
  find, ◌||◌, none, inl, some, includes, String, List, [], ◌∷◌, ◌++◌, true, false,
}
use gcdr.Base.Dict.{lookup}
use gcdr.Base.Errors.{text, conflict, is_ok, err, ok}
use gcdr.Base.Records.{Entity}
use gcdr.Base.Split.{Lacks, split}
use gcdr.Base.Text.{drop_last, ends_with, starts_with}

abbrev env : Env
env = record { new_id = "id-9"; now = 1000; tenant_id = "t1" }

abbrev row : String → Entity
row id = record {
  id = id;
  tenant_id = "t1";
  created_at = 10;
  updated_at = 10;
  created_by = none;
  updated_by = none;
  version = 1;
}

abbrev operations : Policy
operations = record {
  entity = row "p1";
  key = "operations";
  display_name = "Operations";
  description = "";
  allow = "energy.*.read" ∷ "energy.settings.update" ∷ [];
  deny = "energy.billing.read" ∷ [];
  conditions = none;
  risk_level = low;
  is_system = false;
}

abbrev billing : Policy
billing = record {
  entity = row "p2";
  key = "billing";
  display_name = "Billing";
  description = "";
  allow = "energy.billing.read" ∷ [];
  deny = [];
  conditions = none;
  risk_level = high;
  is_system = false;
}

abbrev operator : Role
operator = record {
  entity = row "r1";
  key = "operator";
  display_name = "Operator";
  description = "";
  policies = "operations" ∷ [];
  tags = [];
  risk_level = low;
  is_system = false;
}

abbrev assignment : RoleAssignment
assignment = record {
  entity = row "a1";
  user_id = "u1";
  role_key = "operator";
  scope = "customer:*";
  status = active;
  expires_at = some 5000;
  granted_by = "root";
  granted_at = 10;
  reason = none;
}

abbrev db : Db
db = record {
  roles = operator ∷ [];
  policies = operations ∷ billing ∷ [];
  assignments = assignment ∷ [];
  events = [];
}

granted : (check_permission env "u1" "energy.settings.read" "customer:7" db).allowed ≡ true
unfolding check_permission relevant_assignments active_by_user filter scope_matches starts_with
    ends_with drop_last roles_by_keys includes any policies_of_roles policies_by_keys role_policies
    dedup scan_policies permission_matches split
granted = refl

denied : (check_permission env "u1" "energy.billing.read" "customer:7" db).allowed ≡ false
unfolding check_permission relevant_assignments active_by_user filter scope_matches starts_with
    ends_with drop_last roles_by_keys includes any policies_of_roles policies_by_keys role_policies
    dedup scan_policies permission_matches split
denied = refl

check_permission_iff_example :
    ((check_permission env "u1" "energy.settings.read" "customer:7" db).allowed ≡ true)
    ↔ IsGranted env db "u1" "energy.settings.read" "customer:7"
check_permission_iff_example = check_permission_iff env db "u1" "energy.settings.read" "customer:7"

db-HasBacking : HasBacking db
db-HasBacking = record {
  unique_ids = λ r s mr ms e. elim mr [
    | inl one ↦ elim ms [ inl other ↦ one ∙ sym other | inr nowhere ↦ absurd nowhere ]
    | inr nowhere ↦ absurd nowhere
  ];
  backed = λ a m live. elim m [
    | inl one ↦ (
      operator,
      inl refl,
      sym (ap (λ (b : RoleAssignment). b.tenant_id) one),
      sym (ap (λ (b : RoleAssignment). b.role_key) one),
    )
    | inr nowhere ↦ absurd nowhere
  ];
}

db-IsFresh : IsFresh env db
db-IsFresh r m = elim m [
  | inl one ↦ λ e. ids_differ (sym (ap (λ (t : Role). t.id) one) ∙ e)
  | inr nowhere ↦ absurd nowhere
]
  where
    ids_differ : ¬ (◌≡◌ {A = String} "r1" "id-9")
    ids_differ e = absurd (cc ((eq_iff "r1" "id-9").1 e))

run_op-HasBacking_example : HasBacking (run_op env "root" (delete_role_op "r1") db).1
run_op-HasBacking_example =
    run_op-HasBacking env "root" (delete_role_op "r1") db db-HasBacking db-IsFresh

-- The role is in use, so the deletion above is refused.
delete_refused : is_ok (delete_role env "r1" "root" db).0 ≡ false
unfolding delete_role role_by_id find filter assignments_by_role
delete_refused = refl

effective_allows_denied_example :
    (verdict (lookup "energy.billing.read" (merge_policies (operations ∷ billing ∷ []) []))
      ≡ some true)
    × ((scan_policies "energy.billing.read" (operations ∷ billing ∷ []) start).is_denied ≡ true)
unfolding includes any
effective_allows_denied_example =
    effective_allows_denied "energy.billing.read" (operations ∷ []) operations billing (inl refl)
      (inl refl) refl refl

effective-last_example :
    ((includes operations.allow "energy.billing.read"
          || includes operations.deny "energy.billing.read")
        ≡ true
      → verdict (lookup "energy.billing.read" (merge_policies (billing ∷ operations ∷ []) []))
        ≡ some (not (includes operations.deny "energy.billing.read")))
    × (AllSilent "energy.billing.read" (billing ∷ [])
        → IsSilent "energy.billing.read" operations
        → verdict (lookup "energy.billing.read" (merge_policies (billing ∷ operations ∷ []) []))
          ≡ none)
effective-last_example = effective-last "energy.billing.read" (billing ∷ []) [] operations tt

run_op-IsAtomic_example :
    IsAtomic "ROLE_REVOKED" db (run_op env "root" (revoke_assignment_op "a1") db)
run_op-IsAtomic_example = run_op-IsAtomic env "root" (revoke_assignment_op "a1") db

parent_scope : scope_matches "customer:parent" "customer:child" ≡ false
unfolding scope_matches ends_with starts_with drop_last
parent_scope = refl

scope_matches_iff_example :
    ((scope_matches "customer:1" "customer:1/asset:2" ≡ true)
      ↔ Covers "customer:1" "customer:1/asset:2")
    × (Lacks b'*' "customer:1"
        → Lacks b'/' "customer:1/asset:2"
        → scope_matches "customer:1" "customer:1/asset:2" ≡ true
        → ◌≡◌ {A = String} "customer:1" "customer:1/asset:2")
scope_matches_iff_example = scope_matches_iff "customer:1" "customer:1/asset:2"

permission_matches-dotted_example :
    (permission_matches (dotted "energy" "*" "read" ∷ []) (dotted "energy" "settings" "read")
      ≡ true)
    ↔ (SegmentCovers "energy" "energy" × SegmentCovers "*" "settings" × SegmentCovers "read" "read")
permission_matches-dotted_example =
    permission_matches-dotted "energy" "*" "read" "energy" "settings" "read" (omega arith)
      (omega arith) (omega arith) (omega arith) (omega arith) (omega arith)

is_permission_iff_example :
    (is_permission "dashboards.head_office.read" ≡ true)
    ↔ IsPermission "dashboards.head_office.read"
is_permission_iff_example = is_permission_iff "dashboards.head_office.read"

delete_policy_in_use_example :
    delete_policy env "p1" "root" db
    ≡ (err (conflict (text "Cannot delete policy used by roles")), db)
unfolding policy_by_id find filter
delete_policy_in_use_example =
    delete_policy_in_use env "p1" "root" db operations operator refl refl (inl refl) refl (inl refl)
      (omega arith)

abbrev reports : NewPolicy
reports = record {
  key = "reports";
  display_name = "Reports";
  description = none;
  allow = "reports.export.execute" ∷ [];
  deny = [];
  conditions = none;
  risk_level = low;
}

create_policy_iff_example :
    (((create_policy env reports "root" db).0 ≡ ok (new_policy env reports "root")) ↔ (
      ((perm : String) → Elem perm (reports.allow ++ reports.deny) → IsPermission perm)
      × (policy_by_key env reports.key db ≡ none)))
    × ((create_policy env reports "root" db).0 ≡ ok (new_policy env reports "root")
        → (create_policy env reports "root" db).1.policies
          ≡ db.policies ++ new_policy env reports "root" ∷ [])
create_policy_iff_example = create_policy_iff env reports "root" db

evaluate_batch_lem_example :
    let check = λ (permission : String). check_permission env "u1" permission "customer:7" db in
    let asked : List String = "energy.settings.read" ∷ "energy.billing.read" ∷ [] in
    let b = (evaluate_batch env "u1" asked "customer:7" db).0 in
    ((permission : String)
      → Elem permission asked
      → lookup permission b.results ≡ some (check permission))
    × (b.allowed ≡ count_granted check asked)
    × (b.allowed + b.denied ≡ b.total)
    × (b.total ≡ length asked)
evaluate_batch_lem_example =
    evaluate_batch_lem env "u1" ("energy.settings.read" ∷ "energy.billing.read" ∷ []) "customer:7"
      db
