-- ===== src/Authorization/Service/Formats.antt =====
-- Every operation keeps the format of the policies' permissions.
use gcdr.Authorization.Data.{Policy, Db, Env}
use gcdr.Authorization.Effective.Sources.{PolicyAbout}
use gcdr.Authorization.Matching.{first_invalid, first_invalid_sound, IsPermission}
use gcdr.Authorization.Requests.{NewRole, RoleChange, NewPolicy, PolicyChange, NewAssignment}
use gcdr.Authorization.Rows.{new_policy, change_policy, is_row, is_row_at}
use gcdr.Authorization.Service.{
  create_role_op, update_role_op, delete_role_op, create_policy_op, update_policy_op,
  delete_policy_op, assign_role_op, revoke_assignment_op, Op, run_op, create_role, update_role,
  delete_role, create_policy, update_policy, delete_policy, assign_role, revoke_assignment,
}
use gcdr.Authorization.Service.Backing.Kept.{finish_db}
use gcdr.Authorization.Tables.{policy_by_id}
use gcdr.Base.{
  ℕ, if_either, Option-cases, Elem, List, String, ◌++◌, ◌∷◌, [], ◌≡◌, ◌⊎◌, inl, inr, none, some,
  or_else, not, filter, arith, Elem-append_left, Elem-append_right, Elem-append_cases,
  Elem-filter_sound, Option, subst, sym,
}
use gcdr.Base.Rows.{update_where, Elem-update_where_inv}

-- The permissions of the policies have the format that `createPolicy` and `updatePolicy` ask for.
abbrev pub HasFormats : Db → Type 0
HasFormats db = (p : Policy) → Elem p db.policies → PolicyAbout IsPermission p

abbrev Same : Db → Db → Type 0
Same db after = after.policies ≡ db.policies

module _ (env : Env) (user : String) (db : Db) where
  create_role-Same : (dto : NewRole) → Same db (create_role env dto user db).1
  unfolding create_role
  create_role-Same dto = ground arith

  update_role-Same : (id : String) (dto : RoleChange) → Same db (update_role env id dto user db).1
  unfolding update_role
  update_role-Same id dto = ground arith

  delete_role-Same : (id : String) → Same db (delete_role env id user db).1
  unfolding delete_role
  delete_role-Same id = ground arith

  assign_role-Same : (dto : NewAssignment) → Same db (assign_role env dto user db).1
  unfolding assign_role
  assign_role-Same dto = ground arith

  revoke-Same : (id : String) → Same db (revoke_assignment env id user db).1
  unfolding revoke_assignment
  revoke-Same id = ground arith

  create_policy_effect :
      (dto : NewPolicy)
      → Same db (create_policy env dto user db).1
        ⊎ ((first_invalid (dto.allow ++ dto.deny) ≡ none)
            × ((create_policy env dto user db).1.policies
                ≡ db.policies ++ new_policy env dto user ∷ []))
  unfolding create_policy
  create_policy_effect dto = ground arith

  abbrev Updated : String → PolicyChange → Policy → Type 0
  Updated id dto old =
      (first_invalid (or_else dto.allow [] ++ or_else dto.deny []) ≡ none)
      × ((update_policy env id dto user db).1.policies
          ≡ update_where (λ p. is_row_at env id old.version p.entity)
              (change_policy env dto user old.version) db.policies)

  update_policy_missing :
      (id : String) (dto : PolicyChange)
      → policy_by_id env id db ≡ none
      → Same db (update_policy env id dto user db).1
  unfolding update_policy
  update_policy_missing id dto missing = ground arith

  update_policy_found :
      (id : String) (dto : PolicyChange) (old : Policy)
      → policy_by_id env id db ≡ some old
      → Same db (update_policy env id dto user db).1 ⊎ Updated id dto old
  unfolding update_policy
  update_policy_found id dto old found = ground arith

  update_policy_effect :
      (id : String) (dto : PolicyChange)
      → Same db (update_policy env id dto user db).1 ⊎ ((old : Policy) × Updated id dto old)
  update_policy_effect id dto = elim (Option-cases (policy_by_id env id db)) [
    | inl missing ↦ inl (update_policy_missing id dto missing)
    | inr (old, found) ↦ elim (update_policy_found id dto old found) [
      | inl same ↦ inl same
      | inr updated ↦ inr (old, updated)
    ]
  ]

  delete_policy_effect :
      (id : String)
      → Same db (delete_policy env id user db).1
        ⊎ ((delete_policy env id user db).1.policies
            ≡ filter (λ p. not (is_row env id p.entity)) db.policies)
  unfolding delete_policy
  delete_policy_effect id = ground arith

abbrev AllFormats : List Policy → Type 0
AllFormats ps = (p : Policy) → Elem p ps → PolicyAbout IsPermission p

-- A list that is given holds valid permissions, and one that is not given is the row's.
or_else_valid :
    (o : Option (List String)) (old : List String)
    → ((t : String) → Elem t (or_else o []) → IsPermission t)
    → ((t : String) → Elem t old → IsPermission t)
    → (t : String) → Elem t (or_else o old)
    → IsPermission t
or_else_valid none old given kept = kept
or_else_valid (some xs) old given kept = given

both_valid :
    (xs ys : List String)
    → first_invalid (xs ++ ys) ≡ none
    → ((t : String) → Elem t xs → IsPermission t) × ((t : String) → Elem t ys → IsPermission t)
both_valid xs ys valid = (
  λ t m. first_invalid_sound (xs ++ ys) valid t (Elem-append_left t xs ys m),
  λ t m. first_invalid_sound (xs ++ ys) valid t (Elem-append_right t xs ys m),
)

change_policy-About :
    (env : Env) (dto : PolicyChange) (user : String) (version : ℕ) (p : Policy)
    → first_invalid (or_else dto.allow [] ++ or_else dto.deny []) ≡ none
    → PolicyAbout IsPermission p
    → PolicyAbout IsPermission (change_policy env dto user version p)
unfolding change_policy
change_policy-About env dto user version p valid (allows, denies) =
    let (given_allow, given_deny) = both_valid (or_else dto.allow []) (or_else dto.deny []) valid in
    (
      or_else_valid dto.allow p.allow given_allow allows,
      or_else_valid dto.deny p.deny given_deny denies,
    )

new_policy-About :
    (env : Env) (dto : NewPolicy) (user : String)
    → first_invalid (dto.allow ++ dto.deny) ≡ none
    → PolicyAbout IsPermission (new_policy env dto user)
unfolding new_policy
new_policy-About env dto user valid = both_valid dto.allow dto.deny valid

module _ (env : Env) (user : String) (db : Db) (h : HasFormats db) where
  Same-HasFormats : (after : Db) → Same db after → HasFormats after
  Same-HasFormats after same = subst AllFormats (sym same) h

  create_policy-HasFormats : (dto : NewPolicy) → HasFormats (create_policy env dto user db).1
  create_policy-HasFormats dto = elim (create_policy_effect env user db dto) [
    | inl same ↦ Same-HasFormats (create_policy env dto user db).1 same
    | inr (valid, rows) ↦ subst AllFormats (sym rows) (λ p m.
        elim (Elem-append_cases p db.policies _ m) [
          | inl old ↦ h p old
          | inr new ↦ elim new [
            | inl e ↦ subst (PolicyAbout IsPermission) (sym e) (new_policy-About env dto user valid)
            | inr nowhere ↦ absurd nowhere
          ]
        ])
  ]

  update_policy-HasFormats :
      (id : String) (dto : PolicyChange) → HasFormats (update_policy env id dto user db).1
  update_policy-HasFormats id dto = elim (update_policy_effect env user db id dto) [
    | inl same ↦ Same-HasFormats (update_policy env id dto user db).1 same
    | inr (old, (valid, rows)) ↦ subst AllFormats (sym rows) (λ p m.
        let (x, mx, e) = Elem-update_where_inv _ _ p db.policies m in
        subst (PolicyAbout IsPermission) (sym e) (
          if_either (PolicyAbout IsPermission) (is_row_at env id old.version x.entity)
            (λ _. change_policy-About env dto user old.version x valid (h x mx)) (λ _. h x mx)))
  ]

  delete_policy-HasFormats : (id : String) → HasFormats (delete_policy env id user db).1
  delete_policy-HasFormats id = elim (delete_policy_effect env user db id) [
    | inl same ↦ Same-HasFormats (delete_policy env id user db).1 same
    | inr rows ↦ subst AllFormats (sym rows) (λ p m. h p (Elem-filter_sound _ p db.policies m).0)
  ]

-- Every operation, whether it ends well or throws, keeps every permission of every policy in the
-- format of three dotted segments.
pub run_op-HasFormats :
    (env : Env) (user : String) (op : Op) (db : Db)
    → HasFormats db
    → HasFormats (run_op env user op db).1
unfolding run_op
run_op-HasFormats env user (create_role_op dto) db h =
    rw (finish_db (create_role env dto user db)) (
      Same-HasFormats env user db h (create_role env dto user db).1
        (create_role-Same env user db dto))
run_op-HasFormats env user (update_role_op id dto) db h =
    rw (finish_db (update_role env id dto user db)) (
      Same-HasFormats env user db h (update_role env id dto user db).1
        (update_role-Same env user db id dto))
run_op-HasFormats env user (delete_role_op id) db h =
    rw (finish_db (delete_role env id user db)) (
      Same-HasFormats env user db h (delete_role env id user db).1
        (delete_role-Same env user db id))
run_op-HasFormats env user (create_policy_op dto) db h =
    rw (finish_db (create_policy env dto user db)) (create_policy-HasFormats env user db h dto)
run_op-HasFormats env user (update_policy_op id dto) db h =
    rw (finish_db (update_policy env id dto user db))
      (update_policy-HasFormats env user db h id dto)
run_op-HasFormats env user (delete_policy_op id) db h =
    rw (finish_db (delete_policy env id user db)) (delete_policy-HasFormats env user db h id)
run_op-HasFormats env user (assign_role_op dto) db h =
    rw (finish_db (assign_role env dto user db)) (
      Same-HasFormats env user db h (assign_role env dto user db).1
        (assign_role-Same env user db dto))
run_op-HasFormats env user (revoke_assignment_op id) db h =
    rw (finish_db (revoke_assignment env id user db)) (
      Same-HasFormats env user db h (revoke_assignment env id user db).1
        (revoke-Same env user db id))
