-- ===== src/Access/Tests.antt =====
-- The access bundle on small tables.
use gcdr.Base.{find, ◌≡◌, ◌↔◌, refl, String, Bool, true, false, none, some, List, [], ◌∷◌}
use gcdr.Base.Errors.{ok}
use gcdr.Base.Records.{Entity}
use gcdr.Authorization.Data.{Policy, Role, RoleAssignment, Db, Env, low, active}
use gcdr.Authorization.Effective.{EffectivePermission}
use gcdr.Authorization.Requests.{NewPolicy}
use gcdr.Authorization.Service.{Op, create_policy_op}
use gcdr.Access.Data.{BundleEnv, BundleDb, ProfileUser, DomainPermissionKey, can_access}
use gcdr.Access.Build.{build_domain_policies}
use gcdr.Access.Service.{
  generate_bundle, refresh_bundle, check_domain_permission, permissions_of, profile_user,
}
use gcdr.Access.Grants.{build_domain_policies_iff, Grants}
use gcdr.Access.Formats.{run, run-build_domain_policies}
use gcdr.Access.Fresh.{generate-refresh, at_time, options_for, current_bundle}

abbrev env : BundleEnv
env = record {
  new_id = "b1";
  now = 1_000;
  tenant_id = "t1";
  digest = λ _ _ _ _. "0123456789abcdef";
}

abbrev later : BundleEnv
later = record env { new_id = "b2"; now = 3_000_000 }

abbrev row : String → Entity
row id = record {
  id = id;
  tenant_id = "t1";
  created_at = 10;
  updated_at = 10;
  created_by = none;
  updated_by = none;
  version = 1;
}

abbrev operator : Role
operator = record {
  entity = row "r1";
  key = "operator";
  display_name = "Operator";
  description = "";
  policies = "pumps" ∷ [];
  tags = [];
  risk_level = low;
  is_system = false;
}

abbrev assignment : RoleAssignment
assignment = record {
  entity = row "a1";
  user_id = "u1";
  role_key = "operator";
  scope = "*";
  status = active;
  expires_at = none;
  granted_by = "root";
  granted_at = 10;
  reason = none;
}

-- A policy that a script put into the table, with a key of a domain.
abbrev pumps : Policy
pumps = record {
  entity = row "p1";
  key = "pumps";
  display_name = "Pumps";
  description = "";
  allow = "energy.pump.roof:start" ∷ [];
  deny = [];
  conditions = none;
  risk_level = low;
  is_system = false;
}

abbrev tables : Db
tables = record {
  roles = operator ∷ [];
  policies = pumps ∷ [];
  assignments = assignment ∷ [];
  events = [];
}

abbrev without_policies : Db
without_policies = record tables { policies = [] }

abbrev user : ProfileUser
user = record { id = "u1"; tenant_id = "t1"; email = "ana@example.com"; customer_id = none }

abbrev db : BundleDb
db = record {
  users = user ∷ [];
  customers = [];
  group_members = [];
  groups = [];
  authorization = tables;
  cache = [];
  events = [];
}

abbrev start_pump : DomainPermissionKey
start_pump = record { domain = "energy"; equipment = "pump"; location = "roof"; action = "start" }

abbrev permission : String → Bool → EffectivePermission
permission text allowed = record {
  permission = text;
  allowed = allowed;
  source = "pumps";
  conditions = none;
}

abbrev permissions : List EffectivePermission
permissions =
    permission "energy.pump.roof:start" true
    ∷ permission "energy.pump.roof.stop" true
    ∷ permission "energy.pump.cellar:start" false
    ∷ []

build_domain_policies_iff_example :
    (can_access (build_domain_policies permissions) start_pump ≡ true)
    ↔ Grants permissions start_pump
build_domain_policies_iff_example = build_domain_policies_iff permissions start_pump

known : profile_user env "u1" db.users ≡ some user
unfolding profile_user find
known = refl

-- The policy is deleted after the refresh, and the check still goes by it.
generate-refresh_example :
    let fresh = refresh_bundle env "u1" "*" none db in
    let since = record fresh.1 { authorization = without_policies } in
    (fresh.0 ≡ ok (current_bundle env "u1" "*" user db))
    × (generate_bundle (at_time env later) "u1" (options_for "*") since
        ≡ (ok (current_bundle env "u1" "*" user db), since))
    × ((check_domain_permission (at_time env later) "u1" start_pump "*" since).0
        ≡ ok (can_access (build_domain_policies (permissions_of env "u1" "*" db)) start_pump))
generate-refresh_example =
    generate-refresh env "u1" "*" user later none db without_policies start_pump known refl

abbrev new_pumps : NewPolicy
new_pumps = record {
  key = "pumps";
  display_name = "Pumps";
  description = none;
  allow = "energy.pump.start" ∷ [];
  deny = [];
  conditions = none;
  risk_level = low;
}

abbrev service_env : Env
service_env = record { new_id = "p2"; now = 500; tenant_id = "t1" }

abbrev ops : List (Env × String × Op)
ops = (service_env, "admin", create_policy_op new_pumps) ∷ []

run-build_domain_policies_example :
    build_domain_policies
      (permissions_of env "u1" "*" (record db { authorization = run ops without_policies }))
    ≡ []
run-build_domain_policies_example =
    run-build_domain_policies ops env "u1" "*" (record db { authorization = without_policies })
      (λ p m. absurd m)
