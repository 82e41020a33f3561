-- ===== src/Access/Cache.antt =====
-- repositories/BundleCacheRepository.ts over the rows of the cache. The counts that the writes return,
-- which no caller uses, are left out.
use gcdr.Base.{
  [], ◌*◌, ◌-◌, ◌∷◌, ltb, not, ◌++◌, if◌then◌else◌, false, ◌&&◌, true, ◌==◌, find, none, some,
  filter, String, Bool, Option, ℕ, List,
}
use gcdr.Base.Rows.{update_where}
use gcdr.Access.Data.{UserBundleCache, UserAccessBundle, BundleEnv}

abbrev reason_or : String → Option String → String
reason_or otherwise none = otherwise
reason_or otherwise (some reason) = if reason == "" then otherwise else reason

abbrev pub is_valid : Option ℕ → Bool
is_valid none = true
is_valid (some _) = false

module _ (env : BundleEnv) where
  abbrev pub is_users : String → UserBundleCache → Bool
  is_users user row = row.tenant_id == env.tenant_id && row.user_id == user

  abbrev pub is_entry : String → String → UserBundleCache → Bool
  is_entry user scope row = is_users user row && row.scope == scope

  abbrev pub is_live : UserBundleCache → Bool
  is_live row = is_valid row.invalidated_at && ltb env.now row.expires_at

  unfoldable pub cache_get : String → String → List UserBundleCache → Option UserBundleCache
  cache_get user scope rows = find (λ row. is_entry user scope row && is_live row) rows

  abbrev pub stored : Option UserBundleCache → Option UserAccessBundle
  stored none = none
  stored (some row) = some row.bundle

  unfoldable pub get_bundle : String → String → List UserBundleCache → Option UserAccessBundle
  unfolding cache_get
  get_bundle user scope rows = stored (cache_get user scope rows)

  abbrev pub renewed : UserAccessBundle → String → ℕ → UserBundleCache → UserBundleCache
  renewed bundle checksum expires_at row = record row {
    bundle = bundle;
    checksum = checksum;
    generated_at = env.now;
    expires_at = expires_at;
    invalidated_at = none;
    invalidation_reason = none;
    updated_at = env.now;
  }

  abbrev pub new_entry : String → String → UserAccessBundle → String → ℕ → UserBundleCache
  new_entry user scope bundle checksum expires_at = record {
    id = env.new_id;
    tenant_id = env.tenant_id;
    user_id = user;
    scope = scope;
    bundle = bundle;
    checksum = checksum;
    generated_at = env.now;
    expires_at = expires_at;
    invalidated_at = none;
    invalidation_reason = none;
    created_at = env.now;
    updated_at = env.now;
  }

  abbrev pub saved :
      String
      → String
      → UserAccessBundle
      → String
      → ℕ
      → Option UserBundleCache
      → List UserBundleCache
      → List UserBundleCache
  saved user scope bundle checksum expires_at none rows =
      rows ++ new_entry user scope bundle checksum expires_at ∷ []
  saved user scope bundle checksum expires_at (some existing) rows =
      update_where (λ row. row.id == existing.id) (renewed bundle checksum expires_at) rows

  unfoldable pub upsert :
      String → String → UserAccessBundle → String → ℕ → List UserBundleCache → List UserBundleCache
  upsert user scope bundle checksum expires_at rows =
      saved user scope bundle checksum expires_at (find (is_entry user scope) rows) rows

  abbrev pub invalidated : String → UserBundleCache → UserBundleCache
  invalidated reason row = record row {
    invalidated_at = some env.now;
    invalidation_reason = some reason;
    updated_at = env.now;
  }

  unfoldable pub invalidate : String → Option String → List UserBundleCache → List UserBundleCache
  invalidate user reason rows =
      update_where (λ row. is_users user row && is_valid row.invalidated_at)
        (invalidated (reason_or "Manual invalidation" reason)) rows

  unfoldable pub invalidate_by_scope :
      String → String → Option String → List UserBundleCache → List UserBundleCache
  invalidate_by_scope user scope reason rows =
      update_where (λ row. is_entry user scope row && is_valid row.invalidated_at)
        (invalidated (reason_or "Manual invalidation" reason)) rows

  unfoldable pub invalidate_all_for_tenant :
      Option String → List UserBundleCache → List UserBundleCache
  invalidate_all_for_tenant reason rows =
      update_where (λ row. row.tenant_id == env.tenant_id && is_valid row.invalidated_at)
        (invalidated (reason_or "Tenant-wide invalidation" reason)) rows

  -- A scope that is missing or empty deletes the entries of all scopes.
  abbrev is_deleted : String → Option String → UserBundleCache → Bool
  is_deleted user none row = is_users user row
  is_deleted user (some scope) row =
      if scope == "" then is_users user row else is_entry user scope row

  unfoldable pub delete_entries :
      String → Option String → List UserBundleCache → List UserBundleCache
  delete_entries user scope rows = filter (λ row. not (is_deleted user scope row)) rows

  unfoldable pub cleanup_expired : List UserBundleCache → List UserBundleCache
  cleanup_expired rows = filter (λ row. not (ltb row.expires_at env.now)) rows

  -- A null time is before no date.
  abbrev invalidated_before : ℕ → Option ℕ → Bool
  invalidated_before cutoff none = false
  invalidated_before cutoff (some at) = ltb at cutoff

  -- `setDate` steps back by days; the days here have 24 hours.
  unfoldable pub cleanup_invalidated : ℕ → List UserBundleCache → List UserBundleCache
  cleanup_invalidated older_than_days rows =
      filter
        (λ row.
          not (invalidated_before (env.now - older_than_days * 86_400_000) row.invalidated_at))
        rows
