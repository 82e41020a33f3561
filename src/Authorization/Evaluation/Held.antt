-- ===== src/Authorization/Evaluation/Held.antt =====
-- Which policies a user holds for a resource: a description, and what the code collects.
use gcdr.Authorization.Data.{
  Role, Policy, RoleAssignment, AssignmentStatus, active, inactive, expired, Db, Env,
}
use gcdr.Authorization.Evaluation.{role_policies, relevant_assignments, policies_of_roles}
use gcdr.Authorization.Matching.{scope_matches-Covers, Covers}
use gcdr.Authorization.Tables.{
  active_by_user, roles_by_keys, policies_by_keys, is_active, is_unexpired,
}
use gcdr.Base.{
  ℕ, String, List, [], ◌∷◌, map, true, Option, none, some, ◌≡◌, refl, subst, ◌↔◌, inl, inr, arith,
  Elem, Elem-filter_sound, Elem-filter_complete, Elem-map, Elem-map_inv, Elem-dedup, includes_sound,
  includes_complete, &&_iff, Elem-append_left, Elem-append_right, Elem-append_cases, eq_iff, ◌<◌,
}

-- An assignment counts while it has no expiry or its expiry is ahead.
abbrev pub IsUnexpired : Env → Option ℕ → Type 0
IsUnexpired env none = Unit
IsUnexpired env (some t) = env.now < t

-- The user's assignment `a` is live and its scope covers the resource.
pub record Holds (env : Env) (db : Db) (user scope : String) (a : RoleAssignment) : Type 0 where
  pub stored : Elem a db.assignments
  pub own_tenant : a.tenant_id ≡ env.tenant_id
  pub own_user : a.user_id ≡ user
  pub live : a.status ≡ active
  pub unexpired : IsUnexpired env a.expires_at
  pub covers : Covers a.scope scope

-- The role is one of the tenant's that some such assignment names.
pub record HasRole (env : Env) (db : Db) (user scope : String) (r : Role) : Type 0 where
  pub stored : Elem r db.roles
  pub own_tenant : r.tenant_id ≡ env.tenant_id
  pub assigned : (a : RoleAssignment) × Holds env db user scope a × (r.key ≡ a.role_key)

-- The policy is one of the tenant's that some such role lists.
pub record HasPolicy (env : Env) (db : Db) (user scope : String) (p : Policy) : Type 0 where
  pub stored : Elem p db.policies
  pub own_tenant : p.tenant_id ≡ env.tenant_id
  pub listed : (r : Role) × HasRole env db user scope r × Elem p.key r.policies

pub IsUnexpired-iff : (env : Env) (t : Option ℕ) → (is_unexpired env t ≡ true) ↔ IsUnexpired env t
IsUnexpired-iff env none = ground arith
IsUnexpired-iff env (some t) = ground arith

pub active_iff : (env : Env) (s : AssignmentStatus) → (is_active env s ≡ true) ↔ (s ≡ active)
active_iff env active = ground arith
active_iff env inactive = ground arith
active_iff env expired = ground arith

pub policies_by_keys_sound :
    (env : Env) (keys : List String) (db : Db) (p : Policy)
    → Elem p (policies_by_keys env keys db)
    → Elem p db.policies × (p.tenant_id ≡ env.tenant_id) × Elem p.key keys
unfolding policies_by_keys
policies_by_keys_sound env [] db p m = absurd m
policies_by_keys_sound env (k ∷ ks) db p m =
    let (stored, tests) = Elem-filter_sound _ p db.policies m in
    let (tenant, listed) = (&&_iff _ _).0 tests in
    (stored, (eq_iff _ _).0 tenant, includes_sound (k ∷ ks) p.key listed)

pub policies_by_keys_complete :
    (env : Env) (keys : List String) (db : Db) (p : Policy)
    → Elem p db.policies
    → p.tenant_id ≡ env.tenant_id
    → Elem p.key keys
    → Elem p (policies_by_keys env keys db)
unfolding policies_by_keys
policies_by_keys_complete env [] db p m tenant listed = absurd listed
policies_by_keys_complete env (k ∷ ks) db p m tenant listed =
    Elem-filter_complete _ p db.policies m
      ((&&_iff _ _).1 ((eq_iff _ _).1 tenant, includes_complete (k ∷ ks) p.key listed))

pub roles_by_keys_sound :
    (env : Env) (keys : List String) (db : Db) (r : Role)
    → Elem r (roles_by_keys env keys db)
    → Elem r db.roles × (r.tenant_id ≡ env.tenant_id) × Elem r.key keys
unfolding roles_by_keys
roles_by_keys_sound env [] db r m = absurd m
roles_by_keys_sound env (k ∷ ks) db r m =
    let (stored, tests) = Elem-filter_sound _ r db.roles m in
    let (tenant, listed) = (&&_iff _ _).0 tests in
    (stored, (eq_iff _ _).0 tenant, includes_sound (k ∷ ks) r.key listed)

pub roles_by_keys_complete :
    (env : Env) (keys : List String) (db : Db) (r : Role)
    → Elem r db.roles
    → r.tenant_id ≡ env.tenant_id
    → Elem r.key keys
    → Elem r (roles_by_keys env keys db)
unfolding roles_by_keys
roles_by_keys_complete env [] db r m tenant listed = absurd listed
roles_by_keys_complete env (k ∷ ks) db r m tenant listed =
    Elem-filter_complete _ r db.roles m
      ((&&_iff _ _).1 ((eq_iff _ _).1 tenant, includes_complete (k ∷ ks) r.key listed))

pub Elem-role_policies :
    (k : String) (rs : List Role)
    → Elem k (role_policies rs)
    → (r : Role) × Elem r rs × Elem k r.policies
unfolding role_policies
Elem-role_policies k [] m = absurd m
Elem-role_policies k (r ∷ rs) m = elim (Elem-append_cases k r.policies (role_policies rs) m) [
  | inl here ↦ (r, inl refl, here)
  | inr later ↦
      let (found, member, listed) = Elem-role_policies k rs later in (found, inr member, listed)
]

pub Elem-role_policies_of :
    (k : String) (r : Role) (rs : List Role)
    → Elem r rs
    → Elem k r.policies
    → Elem k (role_policies rs)
unfolding role_policies
Elem-role_policies_of k r [] m listed = absurd m
Elem-role_policies_of k r (x ∷ rs) m listed = elim m [
  | inl e ↦ Elem-append_left k x.policies _ (subst (λ (y : Role). Elem k y.policies) e listed)
  | inr later ↦ Elem-append_right k x.policies _ (Elem-role_policies_of k r rs later listed)
]

module _ (env : Env) (db : Db) (user scope : String) where
  pub relevant_sound :
      (a : RoleAssignment)
      → Elem a (relevant_assignments env user scope db)
      → Holds env db user scope a
  unfolding relevant_assignments active_by_user
  relevant_sound a m =
      let (found, covers) = Elem-filter_sound _ a _ m in
      let (stored_active, unexpired) = Elem-filter_sound _ a _ found in
      let (stored, tests) = Elem-filter_sound _ a db.assignments stored_active in
      let (tenant, rest) = (&&_iff _ _).0 tests in
      let (own, live) = (&&_iff _ _).0 rest in
      record {
        stored = stored;
        own_tenant = (eq_iff _ _).0 tenant;
        own_user = (eq_iff _ _).0 own;
        live = (active_iff env a.status).0 live;
        unexpired = (IsUnexpired-iff env a.expires_at).0 unexpired;
        covers = (scope_matches-Covers a.scope scope).0 covers;
      }

  pub relevant_complete :
      (a : RoleAssignment)
      → Holds env db user scope a
      → Elem a (relevant_assignments env user scope db)
  unfolding relevant_assignments active_by_user
  relevant_complete a h =
      Elem-filter_complete _ a _
        (Elem-filter_complete _ a _
          (Elem-filter_complete _ a db.assignments h.stored (
            (&&_iff _ _).1 (
              (eq_iff _ _).1 h.own_tenant,
              (&&_iff _ _).1 ((eq_iff _ _).1 h.own_user, (active_iff env a.status).1 h.live),
            )))
          ((IsUnexpired-iff env a.expires_at).1 h.unexpired))
        ((scope_matches-Covers a.scope scope).1 h.covers)

  abbrev pub found_roles : List Role
  found_roles =
      roles_by_keys env
        (map (λ (a : RoleAssignment). a.role_key) (relevant_assignments env user scope db)) db

  pub found_roles_sound : (r : Role) → Elem r found_roles → HasRole env db user scope r
  found_roles_sound r m =
      let (stored, tenant, named) = roles_by_keys_sound env _ db r m in
      let (a, member, same) = Elem-map_inv _ r.key (relevant_assignments env user scope db) named in
      record { stored = stored; own_tenant = tenant; assigned = (a, relevant_sound a member, same) }

  pub found_roles_complete : (r : Role) → HasRole env db user scope r → Elem r found_roles
  found_roles_complete r h =
      let (a, holds, same) = h.assigned in
      let named =
        Elem-map (λ (b : RoleAssignment). b.role_key) a (relevant_assignments env user scope db)
          (relevant_complete a holds) in
      roles_by_keys_complete env _ db r h.stored h.own_tenant (rw same named)

  pub candidates_sound :
      (p : Policy) → Elem p (policies_of_roles env found_roles db) → HasPolicy env db user scope p
  unfolding policies_of_roles
  candidates_sound p m =
      let (stored, tenant, listed) = policies_by_keys_sound env _ db p m in
      let (r, member, in_role) =
        Elem-role_policies p.key found_roles ((Elem-dedup p.key _).0 listed) in
      record {
        stored = stored;
        own_tenant = tenant;
        listed = (r, found_roles_sound r member, in_role);
      }

  pub candidates_complete :
      (p : Policy) → HasPolicy env db user scope p → Elem p (policies_of_roles env found_roles db)
  unfolding policies_of_roles
  candidates_complete p h =
      let (r, has, in_role) = h.listed in
      policies_by_keys_complete env _ db p h.stored h.own_tenant (
        (Elem-dedup p.key _).1
          (Elem-role_policies_of p.key r found_roles (found_roles_complete r has) in_role))
