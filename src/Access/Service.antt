-- ===== src/Access/Service.antt =====
-- The operations of services/BundleGeneratorService.ts. A check without a scope passes an undefined scope
-- to the query of the cache, whose answer is the driver's; the checks here are given one.
use gcdr.Base.{
  filter, ◌&&◌, [], ltb, ◌*◌, none, ◌==◌, ◌∷◌, ◌+◌, ℕ, find, ◌++◌, Bool, true, if◌then◌else◌, some,
  List, String, head?, Option,
}
use Prim.Native.String
use gcdr.Base.Errors.{Action, ◌>>=◌, ◌>>◌, gets, pure, modify, or_throw, app, text}
use gcdr.Authorization.Data.{Env}
use gcdr.Authorization.Effective.{EffectivePermission, get_effective_permissions}
use gcdr.Access.Data.{
  UserBundleCache, UserAccessBundle, BundleEnv, BundleDb, BundleGenerationOptions, BundleProfile,
  BundlePermissions, ProfileUser, ProfileCustomer, MaintenanceGroup, GroupMember,
  DomainPermissionKey, default_bundle_options, can_access, feature_access, is_open,
  FeatureAccessType, DomainPolicies, FeaturePolicies,
}
use gcdr.Access.Build.{
  build_domain_policies, build_feature_policies, build_flat_permissions, sources_with,
}
use gcdr.Access.Cache.{get_bundle, upsert, invalidate, invalidate_by_scope}

module _ (env : BundleEnv) where
  -- `getById` of the users and the customers
  unfoldable pub profile_user : String → List ProfileUser → Option ProfileUser
  profile_user id users = find (λ u. u.tenant_id == env.tenant_id && u.id == id) users

  unfoldable pub profile_customer : Option String → List ProfileCustomer → Option ProfileCustomer
  profile_customer none customers = none
  profile_customer (some id) customers =
      if id == "" then none else find (λ c. c.tenant_id == env.tenant_id && c.id == id) customers

  abbrev is_current : Option ℕ → Bool
  is_current none = true
  is_current (some at) = ltb env.now at

  -- The inner join, member by member.
  unfoldable pub get_user_groups :
      String → List MaintenanceGroup → List GroupMember → List MaintenanceGroup
  get_user_groups user groups [] = []
  get_user_groups user groups (m ∷ members) =
      let rest = get_user_groups user groups members in
      if m.tenant_id == env.tenant_id && (m.user_id == user && is_current m.expires_at)
      then filter (λ g. g.id == m.group_id) groups ++ rest
      else rest

  -- `customer?.id || null`
  abbrev filled : String → Option String
  filled s = if s == "" then none else some s

  abbrev customer_part : (ProfileCustomer → String) → Option ProfileCustomer → Option String
  customer_part part none = none
  customer_part part (some c) = filled (part c)

  unfoldable pub build_profile : ProfileUser → BundleDb → BundleProfile
  unfolding profile_customer get_user_groups
  build_profile user db =
      let customer = profile_customer user.customer_id db.customers in
      record {
        user_id = user.id;
        user_email = user.email;
        customer_id = customer_part (λ c. c.id) customer;
        customer_name = customer_part (λ c. c.display_name) customer;
        maintenance_group = head? (get_user_groups user.id db.groups db.group_members);
      }

  -- The environment of the authorization service in the same call.
  abbrev pub authorization_env : Env
  authorization_env = record { new_id = env.new_id; now = env.now; tenant_id = env.tenant_id }

  unfoldable pub permissions_of : String → String → BundleDb → List EffectivePermission
  permissions_of user scope db =
      get_effective_permissions authorization_env user (some scope) db.authorization

  unfoldable pub calculate_checksum :
      BundleProfile → DomainPolicies → FeaturePolicies → BundlePermissions → String
  calculate_checksum profile domains features permissions =
      String.◌++◌ "sha256:" (env.digest profile domains features permissions)

  unfoldable pub made_bundle :
      BundleGenerationOptions → BundleProfile → List EffectivePermission → UserAccessBundle
  made_bundle options profile perms =
      let domains = if options.include_domains then build_domain_policies perms else [] in
      let features = if options.include_features then build_feature_policies perms else [] in
      let flat =
        if options.include_flat
        then build_flat_permissions perms
        else record { allowed_list = []; denied_list = [] } in
      record {
        profile = profile;
        domain_policies = domains;
        feature_policies = features;
        permissions = flat;
        metadata = record {
          generated_at = env.now;
          expires_at = env.now + options.ttl_seconds * 1_000;
          ttl_seconds = options.ttl_seconds;
          scope = options.scope;
          source_roles = sources_with "role:" 5 perms;
          source_policies = sources_with "policy:" 7 perms;
          checksum = calculate_checksum profile domains features flat;
        };
      }

  unfoldable pub build_bundle : String → BundleGenerationOptions → Action BundleDb UserAccessBundle
  unfolding profile_user
  build_bundle user_id options = gets (λ db. profile_user user_id db.users) >>= λ found.
      or_throw found (app "USER_NOT_FOUND" (text "User not found") 404) >>= λ user.
      gets (λ db.
        made_bundle options (build_profile user db) (permissions_of user_id options.scope db))

  abbrev pub store_bundle :
      String → BundleGenerationOptions → UserAccessBundle → Action BundleDb UserAccessBundle
  store_bundle user options bundle =
      modify (λ db. record db {
        cache =
            upsert env user options.scope bundle bundle.metadata.checksum
              (env.now + options.ttl_seconds * 1_000) db.cache;
      })
      >> pure bundle

  abbrev pub or_generate :
      String → BundleGenerationOptions → Option UserAccessBundle → Action BundleDb UserAccessBundle
  or_generate user options (some cached) = pure cached
  or_generate user options none = build_bundle user options >>= λ bundle.
      if options.use_cache then store_bundle user options bundle else pure bundle

  unfoldable pub generate_bundle :
      String → BundleGenerationOptions → Action BundleDb UserAccessBundle
  generate_bundle user options =
      gets (λ db. if options.use_cache then get_bundle env user options.scope db.cache else none)
      >>= or_generate user options

  unfoldable pub refresh_bundle : String → String → Option String → Action BundleDb UserAccessBundle
  unfolding generate_bundle
  refresh_bundle user scope reason =
      modify (λ db. record db { cache = invalidate_by_scope env user scope reason db.cache })
      >> generate_bundle user (record default_bundle_options { scope = scope; use_cache = true })

  abbrev invalidated_rows :
      String → Option String → Option String → List UserBundleCache → List UserBundleCache
  invalidated_rows user reason none rows = invalidate env user reason rows
  invalidated_rows user reason (some scope) rows =
      if scope == ""
      then invalidate env user reason rows
      else invalidate_by_scope env user scope reason rows

  unfoldable pub invalidate_bundle :
      String → Option String → Option String → Action BundleDb (Unit {0})
  invalidate_bundle user reason scope =
      modify (λ db. record db { cache = invalidated_rows user reason scope db.cache })
      >> modify (λ db. record db {
        events =
            db.events
            ++ record {
              event_type = "BUNDLE_INVALIDATED";
              entity_id = user;
              action = "invalidated";
            }
              ∷ [];
      })

  unfoldable pub check_domain_permission :
      String → DomainPermissionKey → String → Action BundleDb Bool
  unfolding generate_bundle
  check_domain_permission user k scope =
      generate_bundle user (record default_bundle_options { scope = scope }) >>= λ bundle.
      pure (can_access bundle.domain_policies k)

  unfoldable pub check_feature_access :
      String → String → String → Action BundleDb (Bool × FeatureAccessType)
  unfolding generate_bundle
  check_feature_access user feature scope =
      generate_bundle user (record default_bundle_options { scope = scope }) >>= λ bundle.
      let access = feature_access bundle.feature_policies feature in pure (is_open access, access)
