-- ===== src/Access/Fresh.antt =====
-- A bundle that was built anew is the one that is served until it expires.
use gcdr.Base.Errors.{ok, Result, pure}
use gcdr.Access.Service.{
  store_bundle, profile_user, check_domain_permission, permissions_of, build_profile, build_bundle,
  refresh_bundle, made_bundle, generate_bundle,
}
use gcdr.Base.{
  Bool, ap, ◌*◌, ◌+◌, if◌then◌else◌, inr, inl, Bool-cases, Option-cases, ◌==◌, arith, ◌∷◌, some,
  none, true, ◌≡◌, ltb, List, Option, ℕ, find, String, [], refl, eq_refl, ◌&&◌, ◌++◌,
}
use gcdr.Base.Actions.{bind-ok}
use gcdr.Base.Rows.{find-and, update_where, find-append_missing}
use gcdr.Authorization.Data.{Db}
use gcdr.Access.Data.{
  default_bundle_options, DomainPermissionKey, can_access, BundleDb, ProfileUser,
  BundleGenerationOptions, BundleEnv, UserAccessBundle, UserBundleCache,
}
use gcdr.Access.Build.{build_domain_policies}
use gcdr.Access.Cache.{
  get_bundle, upsert, invalidate_by_scope, cache_get, is_entry, is_live, renewed, new_entry,
}

module _ (env : BundleEnv) (user scope : String) where
  get-invalidate_by_scope :
      (reason : Option String) (rows : List UserBundleCache)
      → get_bundle env user scope (invalidate_by_scope env user scope reason rows) ≡ none
  unfolding get_bundle cache_get invalidate_by_scope update_where find
  get-invalidate_by_scope reason [] = refl
  get-invalidate_by_scope reason (row ∷ rows) = ground (get-invalidate_by_scope reason rows, arith)

-- The same tenant at another call.
abbrev pub at_time : BundleEnv → BundleEnv → BundleEnv
at_time env later = record later { tenant_id = env.tenant_id }

module _ (env later : BundleEnv) (user scope : String) (bundle : UserAccessBundle) where
  renewed_first :
      (sum : String) (until : ℕ) (row existing : UserBundleCache) (rows : List UserBundleCache)
      → ltb later.now until ≡ true
      → is_entry env user scope row ≡ true
      → row.id == existing.id ≡ true
      → get_bundle
          (at_time env later)
          user
          scope
          ((if row.id == existing.id then renewed env bundle sum until row else row) ∷ rows)
        ≡ some bundle
  unfolding get_bundle cache_get find
  renewed_first sum until row existing rows soon here same = rw same (rw here (rw soon refl))

  get-new :
      (sum : String) (until : ℕ) (rows : List UserBundleCache)
      → ltb later.now until ≡ true
      → find (is_entry env user scope) rows ≡ none
      → get_bundle
          (at_time env later)
          user
          scope
          (rows ++ new_entry env user scope bundle sum until ∷ [])
        ≡ some bundle
  unfolding get_bundle cache_get find
  get-new sum until rows soon missing =
      rw
        (find-append_missing (λ row. is_entry env user scope row && is_live (at_time env later) row)
          rows (new_entry env user scope bundle sum until ∷ []) (find-and _ _ rows missing))
        (rw (eq_refl env.tenant_id) (rw (eq_refl user) (rw (eq_refl scope) (rw soon refl))))

  get-renewed :
      (sum : String) (until : ℕ) (existing : UserBundleCache) (rows : List UserBundleCache)
      → ltb later.now until ≡ true
      → find (is_entry env user scope) rows ≡ some existing
      → get_bundle
          (at_time env later)
          user
          scope
          (update_where (λ row. row.id == existing.id) (renewed env bundle sum until) rows)
        ≡ some bundle
  unfolding get_bundle cache_get update_where find
  get-renewed sum until existing [] soon found = absurd (cc)
  get-renewed sum until existing (row ∷ rows) soon found =
      elim (Bool-cases (is_entry env user scope row)) [
        | inl here ↦
            renewed_first sum until row existing
              (update_where (λ r. r.id == existing.id) (renewed env bundle sum until) rows) soon
              here (ground (found, here, arith, eq_refl existing.id))
        | inr other ↦ ground (get-renewed sum until existing rows soon, arith)
      ]

  get-upsert :
      (sum : String) (until : ℕ) (rows : List UserBundleCache)
      → ltb later.now until ≡ true
      → get_bundle (at_time env later) user scope (upsert env user scope bundle sum until rows)
        ≡ some bundle
  unfolding upsert
  get-upsert sum until rows soon = elim (Option-cases (find (is_entry env user scope) rows)) [
    | inl missing ↦ rw missing (get-new sum until rows soon missing)
    | inr (existing, found) ↦ rw found (get-renewed sum until existing rows soon found)
  ]

abbrev pub options_for : String → BundleGenerationOptions
options_for scope = record default_bundle_options { scope = scope }

-- What a bundle that is built now has.
abbrev pub current_bundle : BundleEnv → String → String → ProfileUser → BundleDb → UserAccessBundle
current_bundle env user scope u db =
    made_bundle env (options_for scope) (build_profile env u db) (permissions_of env user scope db)

module _ (env : BundleEnv) (user scope : String) (u : ProfileUser) where
  abbrev cached : BundleDb → BundleDb
  cached db = record db {
    cache =
        upsert env user scope (current_bundle env user scope u db)
          (current_bundle env user scope u db).metadata.checksum (env.now + 3_600 * 1_000) db.cache;
  }

  abbrev dropped : Option String → BundleDb → BundleDb
  dropped reason db = record db { cache = invalidate_by_scope env user scope reason db.cache }

  build_bundle-known :
      (db : BundleDb)
      → profile_user env user db.users ≡ some u
      → build_bundle env user (options_for scope) db ≡ (ok (current_bundle env user scope u db), db)
  unfolding build_bundle
  build_bundle-known db known = ground arith

  generate_bundle-missing :
      (db : BundleDb)
      → get_bundle env user scope db.cache ≡ none
      → profile_user env user db.users ≡ some u
      → generate_bundle env user (options_for scope) db
        ≡ (ok (current_bundle env user scope u db), cached db)
  unfolding generate_bundle
  generate_bundle-missing db missing known = rw missing (
      bind-ok (build_bundle env user (options_for scope))
        (λ bundle. store_bundle env user (options_for scope) bundle) db
        (build_bundle-known db known))

  refresh_bundle-refreshed :
      (reason : Option String) (db : BundleDb)
      → profile_user env user db.users ≡ some u
      → refresh_bundle env user scope reason db
        ≡ (ok (current_bundle env user scope u db), cached (dropped reason db))
  unfolding refresh_bundle build_profile permissions_of
  refresh_bundle-refreshed reason db known =
      generate_bundle-missing (dropped reason db)
        (get-invalidate_by_scope env user scope reason db.cache) known

  served :
      (later : BundleEnv) (bundle : UserAccessBundle) (db : BundleDb)
      → get_bundle later user scope db.cache ≡ some bundle
      → generate_bundle later user (options_for scope) db ≡ (ok bundle, db)
  unfolding generate_bundle
  served later bundle db found = rw found refl

  -- For an hour after a refresh, which always builds anew and never throws for a user of the tenant, the
  -- user is served that bundle and a check of a domain permission answers by the permissions that were
  -- in force at the refresh, whatever has become of the roles, policies and assignments since, as long
  -- as the cache is left alone.
  pub generate-refresh :
      (later : BundleEnv) (reason : Option String) (db : BundleDb) (tables : Db)
      (k : DomainPermissionKey)
      → profile_user env user db.users ≡ some u
      → ltb later.now (env.now + 3_600 * 1_000) ≡ true
      → let fresh = refresh_bundle env user scope reason db in
        let since = record fresh.1 { authorization = tables } in
        (fresh.0 ≡ ok (current_bundle env user scope u db))
        × (generate_bundle (at_time env later) user (options_for scope) since
            ≡ (ok (current_bundle env user scope u db), since))
        × ((check_domain_permission (at_time env later) user k scope since).0
            ≡ ok (can_access (build_domain_policies (permissions_of env user scope db)) k))
  unfolding check_domain_permission made_bundle build_profile permissions_of
  generate-refresh later reason db tables k known soon =
      rw (refresh_bundle-refreshed reason db known) (
        refl,
        hit,
        ap (λ (r : Result Bool × BundleDb). r.0)
            (bind-ok (generate_bundle (at_time env later) user (options_for scope))
              (λ bundle. pure (can_access bundle.domain_policies k)) since hit),
      )
    where
      since : BundleDb
      since = record (cached (dropped reason db)) { authorization = tables }

      hit :
          generate_bundle (at_time env later) user (options_for scope) since
          ≡ (ok (current_bundle env user scope u db), since)
      hit = served (at_time env later) (current_bundle env user scope u db) since (
          get-upsert env later user scope (current_bundle env user scope u db)
            (current_bundle env user scope u db).metadata.checksum (env.now + 3_600 * 1_000)
            (invalidate_by_scope env user scope reason db.cache) soon)
