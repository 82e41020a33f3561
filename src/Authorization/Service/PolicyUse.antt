-- ===== src/Authorization/Service/PolicyUse.antt =====
-- The guards of `delete_policy` and `create_policy`.
use gcdr.Authorization.Data.{Role, Policy, Env, Db}
use gcdr.Authorization.Matching.{
  first_invalid_complete, first_invalid_sound, first_invalid, IsPermission,
}
use gcdr.Authorization.Requests.{NewPolicy}
use gcdr.Authorization.Rows.{new_policy}
use gcdr.Authorization.Service.{roles_using, create_policy, delete_policy}
use gcdr.Authorization.Tables.{list_roles, policy_by_key, policy_by_id}
use gcdr.Base.{
  nonempty_of_Elem, includes_complete, eq_iff, Elem-filter_complete, take_all, ◌≤◌, ◌==◌, filter,
  arith, none, length, Elem, ◌↔◌, some, ◌∷◌, [], ◌≡◌, String, List, ◌++◌, false,
}
use gcdr.Base.Errors.{text, conflict, ok, err}

-- In a tenant of at most 1000 roles a policy that is not a system policy and that some role of the
-- tenant lists is not deleted: the call answers 409 and changes nothing. (The guard reads one page of
-- 1000 roles; a system policy is refused before, with 403.)
pub delete_policy_in_use :
    (env : Env) (id user : String) (db : Db) (p : Policy) (r : Role)
    → policy_by_id env id db ≡ some p
    → p.is_system ≡ false
    → Elem r db.roles
    → r.tenant_id ≡ env.tenant_id
    → Elem p.key r.policies
    → length (filter (λ (s : Role). s.tenant_id == env.tenant_id) db.roles) ≤ 1000
    → delete_policy env id user db
      ≡ (err (conflict (text "Cannot delete policy used by roles")), db)
unfolding delete_policy roles_using list_roles
delete_policy_in_use env id user db p r found ordinary member tenant listed few =
    ground (arith, nonempty_of_Elem r (roles_using env p.key db) seen)
  where
    tenant_roles : List Role
    tenant_roles = filter (λ (s : Role). s.tenant_id == env.tenant_id) db.roles

    page : list_roles env 1000 db ≡ tenant_roles
    page = take_all 1000 tenant_roles few

    in_page : Elem r (list_roles env 1000 db)
    in_page = rw page (Elem-filter_complete _ r db.roles member ((eq_iff _ _).1 tenant))

    seen : Elem r (roles_using env p.key db)
    seen = Elem-filter_complete _ r _ in_page (includes_complete r.policies p.key listed)

create_ok :
    (env : Env) (dto : NewPolicy) (user : String) (db : Db)
    → ((create_policy env dto user db).0 ≡ ok (new_policy env dto user))
      ↔ ((first_invalid (dto.allow ++ dto.deny) ≡ none) × (policy_by_key env dto.key db ≡ none))
unfolding create_policy
create_ok env dto user db = ground arith

created_row :
    (env : Env) (dto : NewPolicy) (user : String) (db : Db)
    → first_invalid (dto.allow ++ dto.deny) ≡ none
    → policy_by_key env dto.key db ≡ none
    → (create_policy env dto user db).1.policies ≡ db.policies ++ new_policy env dto user ∷ []
unfolding create_policy
created_row env dto user db valid free = ground arith

-- A policy is created exactly if each of its permissions has the format and no policy of the tenant
-- has its key; where it is created, it stands at the end of the table, and the other rows are as before.
pub create_policy_iff :
    (env : Env) (dto : NewPolicy) (user : String) (db : Db)
    → (((create_policy env dto user db).0 ≡ ok (new_policy env dto user)) ↔ (
        ((perm : String) → Elem perm (dto.allow ++ dto.deny) → IsPermission perm)
        × (policy_by_key env dto.key db ≡ none)))
      × ((create_policy env dto user db).0 ≡ ok (new_policy env dto user)
          → (create_policy env dto user db).1.policies
            ≡ db.policies ++ new_policy env dto user ∷ [])
create_policy_iff env dto user db =
    let perms = dto.allow ++ dto.deny in
    let made = create_ok env dto user db in
    (
      (
        λ h. let (a, b) = made.0 h in (first_invalid_sound perms a, b),
        λ h. made.1 (first_invalid_complete perms h.0, h.1),
      ),
      λ h. let (a, b) = made.0 h in created_row env dto user db a b,
    )
