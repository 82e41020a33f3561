-- ===== src/Authorization/Service/Backing/Kept.antt =====
-- Every operation keeps each active assignment backed by a role of its tenant.
use gcdr.Authorization.Data.{Role, RoleAssignment, active, inactive, Db, Env}
use gcdr.Authorization.Requests.{NewRole, RoleChange, NewAssignment}
use gcdr.Authorization.Rows.{is_row, new_assignment, change_status, new_role, change_role}
use gcdr.Authorization.Service.{
  delete_policy, update_policy, assign_role, revoke_assignment, create_policy, create_role,
  update_role, delete_role, create_role_op, update_role_op, delete_role_op, create_policy_op,
  update_policy_op, delete_policy_op, assign_role_op, revoke_assignment_op, finish, Op, run_op,
}
use gcdr.Authorization.Service.Backing.{
  IsBacked-filter_roles, IsBacked-update_roles, IsBacked-insert_role, IsBacked-insert_assignment,
  IsBacked-deactivate,
}
use gcdr.Authorization.Service.Backing.Steps.{
  delete_policy-Same, update_policy-Same, create_policy-Same, HasBacking-Same, assign_role_effect,
  revoke_effect, delete_role_effect, update_role_effect, create_role_effect, HasBacking,
}
use gcdr.Authorization.Tables.{is_active, role_by_id, role_by_key, assignments_by_role}
use gcdr.Base.{
  ◌&&◌, ◌==◌, nonempty_of_Elem, Elem-filter_complete, ap, sym, ◌∙◌, Bool-cases, is_empty, eq_iff,
  &&_iff, find_sound, String, true, not, ◌≡◌, ◌≢◌, inl, inr, refl, Elem, filter, some,
}
use gcdr.Base.Errors.{Result, ok, err}

-- `generateId()` gives an id that no role of the table has.
abbrev pub IsFresh : Env → Db → Type 0
IsFresh env db = (r : Role) → Elem r db.roles → r.id ≢ env.new_id

found_role :
    (env : Env) (key : String) (db : Db) (r : Role)
    → role_by_key env key db ≡ some r
    → Elem r db.roles × (r.tenant_id ≡ env.tenant_id) × (r.key ≡ key)
unfolding role_by_key
found_role env key db r found =
    let (member, tests) = find_sound _ db.roles found in
    let (tenant, same) = (&&_iff _ _).0 tests in
    (member, (eq_iff _ _).0 tenant, (eq_iff _ _).0 same)

found_role_id :
    (env : Env) (id : String) (db : Db) (r : Role)
    → role_by_id env id db ≡ some r
    → Elem r db.roles × (r.tenant_id ≡ env.tenant_id) × (r.id ≡ id)
unfolding role_by_id
found_role_id env id db r found =
    let (member, tests) = find_sound _ db.roles found in
    let (tenant, same) = (&&_iff _ _).0 tests in
    (member, (eq_iff _ _).0 tenant, (eq_iff _ _).0 same)

module _ (env : Env) (user : String) (db : Db) (h : HasBacking db) where
  create_role-HasBacking :
      (dto : NewRole) → IsFresh env db → HasBacking (create_role env dto user db).1
  unfolding new_role
  create_role-HasBacking dto fresh = elim (create_role_effect env user db dto) [
    | inl same ↦ HasBacking-Same db (create_role env dto user db).1 same h
    | inr (roles, assignments) ↦
        rw (roles, assignments)
          (IsBacked-insert_role db.roles db.assignments h (new_role env dto user) fresh)
  ]

  update_role-HasBacking :
      (id : String) (dto : RoleChange) → HasBacking (update_role env id dto user db).1
  unfolding change_role
  update_role-HasBacking id dto = elim (update_role_effect env user db id dto) [
    | inl same ↦ HasBacking-Same db (update_role env id dto user db).1 same h
    | inr (r, roles, assignments) ↦
        rw (roles, assignments)
          (IsBacked-update_roles db.roles db.assignments h _ (change_role env dto user r.version)
            (λ s. refl) (λ s. refl) (λ s. refl))
  ]

  -- An active assignment's role is not among the rows that a deletion removes.
  keeps_role :
      (id : String) (r : Role)
      → role_by_id env id db ≡ some r
      → is_empty (
          filter
            (λ (a : RoleAssignment). is_active env a.status)
            (assignments_by_role env r.key db))
        ≡ true
      → (a : RoleAssignment) (s : Role) → Elem a db.assignments
      → a.status ≡ active
      → Elem s db.roles
      → s.tenant_id ≡ a.tenant_id
      → s.key ≡ a.role_key
      → not (is_row env id s.entity) ≡ true
  unfolding assignments_by_role
  keeps_role id r found unused a s ma live ms tenant key =
      elim (Bool-cases (is_row env id s.entity)) [
        | inr other ↦ rw other
        | inl row ↦
            let (mr, tenant_r, id_r) = found_role_id env id db r found in
            let (tests_tenant, tests_id) = (&&_iff _ _).0 row in
            let same = h.unique_ids s r ms mr ((eq_iff _ _).0 tests_id ∙ sym id_r) in
            let tenant_a = sym tenant ∙ (eq_iff _ _).0 tests_tenant in
            let key_a = sym key ∙ ap (λ (t : Role). t.key) same in
            let listed =
              Elem-filter_complete
                (λ (b : RoleAssignment). b.tenant_id == env.tenant_id && b.role_key == r.key) a
                db.assignments ma
                ((&&_iff _ _).1 ((eq_iff _ _).1 tenant_a, (eq_iff _ _).1 key_a)) in
            let counted =
              Elem-filter_complete (λ (b : RoleAssignment). is_active env b.status) a _ listed
                (rw live) in
            absurd (cc (unused, nonempty_of_Elem a _ counted))
      ]

  delete_role-HasBacking : (id : String) → HasBacking (delete_role env id user db).1
  delete_role-HasBacking id = elim (delete_role_effect env user db id) [
    | inl same ↦ HasBacking-Same db (delete_role env id user db).1 same h
    | inr (r, found, unused, roles, assignments) ↦
        rw (roles, assignments)
          (IsBacked-filter_roles db.roles db.assignments h _ (keeps_role id r found unused))
  ]

  assign_role-HasBacking : (dto : NewAssignment) → HasBacking (assign_role env dto user db).1
  unfolding new_assignment
  assign_role-HasBacking dto = elim (assign_role_effect env user db dto) [
    | inl same ↦ HasBacking-Same db (assign_role env dto user db).1 same h
    | inr (r, found, roles, assignments) ↦
        let (member, tenant, key) = found_role env dto.role_key db r found in
        rw (roles, assignments)
          (IsBacked-insert_assignment db.roles db.assignments h (new_assignment env dto user) r
            member tenant key)
  ]

  revoke-HasBacking : (id : String) → HasBacking (revoke_assignment env id user db).1
  unfolding change_status
  revoke-HasBacking id = elim (revoke_effect env user db id) [
    | inl same ↦ HasBacking-Same db (revoke_assignment env id user db).1 same h
    | inr (a, roles, assignments) ↦
        rw (roles, assignments)
          (IsBacked-deactivate db.roles db.assignments h _
            (change_status env inactive user a.version) (λ b. refl))
  ]

pub finish_db : {A : Type 0} (r : Result A × Db) → (finish r).1 ≡ r.1
finish_db (ok a, db) = refl
finish_db (err e, db) = refl

-- With ids that are fresh when they are made, every operation, whether it ends well or throws,
-- keeps the ids of the roles unique and each active assignment backed by a role of its tenant with
-- the key that the assignment names.
pub run_op-HasBacking :
    (env : Env) (user : String) (op : Op) (db : Db)
    → HasBacking db
    → IsFresh env db
    → HasBacking (run_op env user op db).1
unfolding run_op
run_op-HasBacking env user (create_role_op dto) db h fresh =
    rw (finish_db (create_role env dto user db)) (create_role-HasBacking env user db h dto fresh)
run_op-HasBacking env user (update_role_op id dto) db h fresh =
    rw (finish_db (update_role env id dto user db)) (update_role-HasBacking env user db h id dto)
run_op-HasBacking env user (delete_role_op id) db h fresh =
    rw (finish_db (delete_role env id user db)) (delete_role-HasBacking env user db h id)
run_op-HasBacking env user (create_policy_op dto) db h fresh =
    rw (finish_db (create_policy env dto user db))
      (HasBacking-Same db (create_policy env dto user db).1 (create_policy-Same env user db dto) h)
run_op-HasBacking env user (update_policy_op id dto) db h fresh =
    rw (finish_db (update_policy env id dto user db)) (
      HasBacking-Same db (update_policy env id dto user db).1
        (update_policy-Same env user db id dto) h)
run_op-HasBacking env user (delete_policy_op id) db h fresh =
    rw (finish_db (delete_policy env id user db))
      (HasBacking-Same db (delete_policy env id user db).1 (delete_policy-Same env user db id) h)
run_op-HasBacking env user (assign_role_op dto) db h fresh =
    rw (finish_db (assign_role env dto user db)) (assign_role-HasBacking env user db h dto)
run_op-HasBacking env user (revoke_assignment_op id) db h fresh =
    rw (finish_db (revoke_assignment env id user db)) (revoke-HasBacking env user db h id)
