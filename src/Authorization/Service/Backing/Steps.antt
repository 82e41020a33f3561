-- ===== src/Authorization/Service/Backing/Steps.antt =====
-- What each operation does to the roles and the assignments.
use gcdr.Authorization.Data.{Role, RoleAssignment, inactive, Db, Env}
use gcdr.Authorization.Requests.{NewRole, RoleChange, NewPolicy, PolicyChange, NewAssignment}
use gcdr.Authorization.Rows.{
  is_row, change_status, new_assignment, change_role, is_row_at, new_role,
}
use gcdr.Authorization.Service.{
  delete_policy, update_policy, create_policy, assign_role, revoke_assignment, update_role,
  delete_role, create_role,
}
use gcdr.Authorization.Service.Backing.{IsBacked}
use gcdr.Authorization.Tables.{
  role_by_id, assignments_by_role, assignment_by_id, is_active, role_by_key,
}
use gcdr.Base.{
  Option-cases, String, [], ◌∷◌, ◌++◌, true, not, ◌≡◌, ◌⊎◌, inl, inr, arith, filter, is_empty, some,
  Bool-cases,
}
use gcdr.Base.Errors.{is_ok}
use gcdr.Base.Rows.{update_where}

abbrev pub HasBacking : Db → Type 0
HasBacking db = IsBacked db.roles db.assignments

-- The roles and the assignments are as they were.
abbrev pub Same : Db → Db → Type 0
Same db db' = (db'.roles ≡ db.roles) × (db'.assignments ≡ db.assignments)

pub HasBacking-Same : (db db' : Db) → Same db db' → HasBacking db → HasBacking db'
HasBacking-Same db db' (e, q) h = rw (e, q) h

module _ (env : Env) (user : String) (db : Db) where
  pub create_policy-Same : (dto : NewPolicy) → Same db (create_policy env dto user db).1
  unfolding create_policy
  create_policy-Same dto = ground arith

  pub update_policy-Same :
      (id : String) (dto : PolicyChange) → Same db (update_policy env id dto user db).1
  unfolding update_policy
  update_policy-Same id dto = ground arith

  pub delete_policy-Same : (id : String) → Same db (delete_policy env id user db).1
  unfolding delete_policy
  delete_policy-Same id = ground arith

  pub create_role_effect :
      (dto : NewRole)
      → Same db (create_role env dto user db).1
        ⊎ (((create_role env dto user db).1.roles ≡ db.roles ++ new_role env dto user ∷ [])
            × ((create_role env dto user db).1.assignments ≡ db.assignments))
  unfolding create_role
  create_role_effect dto = ground arith

  pub update_role_effect :
      (id : String) (dto : RoleChange)
      → Same db (update_role env id dto user db).1
        ⊎ ((r : Role) × ((update_role env id dto user db).1.roles
              ≡ update_where
                  (λ (s : Role). is_row_at env id r.version s.entity)
                  (change_role env dto user r.version)
                  db.roles)
            × ((update_role env id dto user db).1.assignments ≡ db.assignments))
  unfolding update_role
  update_role_effect id dto = elim (Option-cases (role_by_id env id db)) [
    | inl missing ↦ inl (ground arith)
    | inr (r, found) ↦ elim (Bool-cases (is_ok (update_role env id dto user db).0)) [
      | inl good ↦ inr (r, ground arith, ground arith)
      | inr bad ↦ inl (ground arith)
    ]
  ]

  pub delete_role_effect :
      (id : String)
      → Same db (delete_role env id user db).1
        ⊎ ((r : Role) × (role_by_id env id db ≡ some r)
            × (is_empty (
                  filter
                    (λ (a : RoleAssignment). is_active env a.status)
                    (assignments_by_role env r.key db))
                ≡ true)
            × ((delete_role env id user db).1.roles
                ≡ filter (λ (s : Role). not (is_row env id s.entity)) db.roles)
            × ((delete_role env id user db).1.assignments ≡ db.assignments))
  unfolding delete_role
  delete_role_effect id = elim (Option-cases (role_by_id env id db)) [
    | inl missing ↦ inl (ground arith)
    | inr (r, found) ↦ elim (Bool-cases (is_ok (delete_role env id user db).0)) [
      | inl good ↦ inr (r, found, ground arith, ground arith, ground arith)
      | inr bad ↦ inl (ground arith)
    ]
  ]

  pub assign_role_effect :
      (dto : NewAssignment)
      → Same db (assign_role env dto user db).1
        ⊎ ((r : Role) × (role_by_key env dto.role_key db ≡ some r)
            × ((assign_role env dto user db).1.roles ≡ db.roles)
            × ((assign_role env dto user db).1.assignments
                ≡ db.assignments ++ new_assignment env dto user ∷ []))
  unfolding assign_role
  assign_role_effect dto = elim (Option-cases (role_by_key env dto.role_key db)) [
    | inl missing ↦ inl (ground arith)
    | inr (r, found) ↦ elim (Bool-cases (is_ok (assign_role env dto user db).0)) [
      | inl good ↦ inr (r, found, ground arith, ground arith)
      | inr bad ↦ inl (ground arith)
    ]
  ]

  pub revoke_effect :
      (id : String)
      → Same db (revoke_assignment env id user db).1
        ⊎ ((a : RoleAssignment) × ((revoke_assignment env id user db).1.roles ≡ db.roles)
            × ((revoke_assignment env id user db).1.assignments
                ≡ update_where
                    (λ (b : RoleAssignment). is_row_at env id a.version b.entity)
                    (change_status env inactive user a.version)
                    db.assignments))
  unfolding revoke_assignment
  revoke_effect id = elim (Option-cases (assignment_by_id env id db)) [
    | inl missing ↦ inl (ground arith)
    | inr (a, found) ↦ elim (Bool-cases (is_ok (revoke_assignment env id user db).0)) [
      | inl good ↦ inr (a, ground arith, ground arith)
      | inr bad ↦ inl (ground arith)
    ]
  ]
