-- ===== src/Access/Build.antt =====
-- The private builders of services/BundleGeneratorService.ts.
use gcdr.Access.Data.{
  guaranteed, not_granted, parse_domain_permission_key, granted, LocationActions, FeatureAccessType,
  FeaturePolicies, DomainPermissionKey, BundlePermissions, DomainPolicies,
}
use gcdr.Base.{
  ◌++◌, all, false, includes, any, none, filter, some, if◌then◌else◌, or_else, ◌∷◌, dedup, map, [],
  String, Option, List, ℕ, zero, suc,
}
use gcdr.Base.Split.{split}
use gcdr.Base.Text.{starts_with}
use gcdr.Authorization.Data.{PolicyConditions}
use gcdr.Authorization.Effective.{EffectivePermission}
use gcdr.Base.Dict.{insert, lookup}

-- `if (!actions.includes(action)) actions.push(action)`
abbrev pub with_action : String → LocationActions → LocationActions
with_action action l =
    if includes l.actions action then l else record l { actions = l.actions ++ action ∷ [] }

abbrev pub or_empty_actions : Option PolicyConditions → Option LocationActions → LocationActions
or_empty_actions conditions none = record { actions = []; conditions = conditions }
or_empty_actions conditions (some l) = l

unfoldable pub add_to_domain_policies :
    DomainPolicies → DomainPermissionKey → Option PolicyConditions → DomainPolicies
add_to_domain_policies policies k conditions =
    let equipments = or_else (lookup k.domain policies) [] in
    let locations = or_else (lookup k.equipment equipments) [] in
    let actions = or_empty_actions conditions (lookup k.location locations) in
    insert k.domain
      (insert k.equipment (insert k.location (with_action k.action actions) locations) equipments)
      policies

-- The other format, of four parts with dots.
abbrev pub four_parts : List String → Option DomainPermissionKey
four_parts (d ∷ e ∷ l ∷ a ∷ []) =
    some (record { domain = d; equipment = e; location = l; action = a })
four_parts _ = none

abbrev pub or_four_parts : String → Option DomainPermissionKey → Option DomainPermissionKey
or_four_parts perm none = four_parts (split b'.' perm)
or_four_parts perm (some k) = some k

unfoldable pub domain_key : String → Option DomainPermissionKey
domain_key perm = or_four_parts perm (parse_domain_permission_key perm)

abbrev pub add_key :
    Option PolicyConditions → Option DomainPermissionKey → DomainPolicies → DomainPolicies
add_key conditions none policies = policies
add_key conditions (some k) policies = add_to_domain_policies policies k conditions

-- The loop, with the policies that it has built so far.
unfoldable pub add_permissions : List EffectivePermission → DomainPolicies → DomainPolicies
add_permissions [] policies = policies
add_permissions (p ∷ perms) policies =
    add_permissions perms
      (if p.allowed then add_key p.conditions (domain_key p.permission) policies else policies)

unfoldable pub build_domain_policies : List EffectivePermission → DomainPolicies
unfolding add_permissions
build_domain_policies perms = add_permissions perms []

pub record FeatureDefinition : Type 0 where
  pub key : String
  pub required_permissions : List String
  pub default_access : FeatureAccessType

abbrev feature : String → List String → FeatureAccessType → FeatureDefinition
feature key required default_access = record {
  key = key;
  required_permissions = required;
  default_access = default_access;
}

unfoldable pub feature_definitions : List FeatureDefinition
feature_definitions =
    feature "dashboard_operational_indicators" ("dashboards.operational.read" ∷ []) granted
    ∷ feature "dashboard_head_office" ("dashboards.head_office.read" ∷ []) granted
    ∷ feature "alarm_management" ("alarms.rules.read" ∷ "alarms.rules.update" ∷ []) not_granted
    ∷ feature "user_administration" ("identity.users.manage" ∷ []) not_granted
    ∷ feature "reports_export" ("reports.export.execute" ∷ []) not_granted
    ∷ feature "device_commands" ("devices.commands.execute" ∷ []) not_granted
    ∷ []

unfoldable pub allowed_permissions : List EffectivePermission → List String
allowed_permissions perms =
    map (λ (p : EffectivePermission). p.permission) (filter (λ p. p.allowed) perms)

-- `p.explicitlyDenied` is a field that no effective permission has.
unfoldable pub denied_permissions : List EffectivePermission → List String
denied_permissions perms =
    map (λ (p : EffectivePermission). p.permission) (filter (λ p. false) perms)

abbrev pub access_of : List String → List String → FeatureDefinition → FeatureAccessType
access_of allowed denied d =
    if any (includes denied) d.required_permissions
    then FeatureAccessType.denied
    else if all (includes allowed) d.required_permissions
    then granted
    else d.default_access

unfoldable pub add_features :
    List String → List String → List FeatureDefinition → FeaturePolicies → FeaturePolicies
add_features allowed denied [] policies = policies
add_features allowed denied (d ∷ ds) policies =
    add_features allowed denied ds (insert d.key (access_of allowed denied d) policies)

unfoldable pub build_feature_policies : List EffectivePermission → FeaturePolicies
unfolding add_features feature_definitions allowed_permissions denied_permissions
build_feature_policies perms = insert "dashboard_head_office" guaranteed (
    insert "dashboard_operational_indicators" guaranteed
      (add_features (allowed_permissions perms) (denied_permissions perms) feature_definitions []))

unfoldable pub build_flat_permissions : List EffectivePermission → BundlePermissions
unfolding allowed_permissions denied_permissions
build_flat_permissions perms = record {
  allowed_list = allowed_permissions perms;
  denied_list = denied_permissions perms;
}

-- `s.replace(prefix, '')` where the text starts with the prefix.
abbrev without_first : ℕ → String → String
without_first zero s = s
without_first (suc n) String.[] = ""
without_first (suc n) (String.◌∷◌ c s) = without_first n s

-- `sourceRoles` and `sourcePolicies`, with the prefix and its length.
unfoldable pub sources_with : String → ℕ → List EffectivePermission → List String
sources_with start size perms = dedup (
    map (without_first size)
      (filter (λ s. starts_with s start) (map (λ (p : EffectivePermission). p.source) perms)))
