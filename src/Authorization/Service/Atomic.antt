-- ===== src/Authorization/Service/Atomic.antt =====
-- Each operation changes the tables and publishes one event, or throws and changes nothing.
use gcdr.Authorization.Data.{RoleAssignment, Role, Policy, Db, Env}
use gcdr.Authorization.Requests.{NewRole, RoleChange, NewPolicy, PolicyChange, NewAssignment}
use gcdr.Authorization.Service.{
  run_op, Op, create_role_op, update_role_op, delete_role_op, create_policy_op, update_policy_op,
  delete_policy_op, assign_role_op, revoke_assignment_op, finish, revoke_assignment, create_policy,
  assign_role, delete_role, delete_policy, update_policy, update_role, create_role,
}
use gcdr.Base.{refl, String, [], ◌∷◌, ◌++◌, ◌≡◌, arith}
use gcdr.Base.Errors.{Result, ok, err}
use gcdr.Base.Records.{Event}

-- How a call that began at `db` may end: with the event for its result, or with a throw and the
-- tables as they were.
abbrev pub Ends : {A : Type 0} → (A → Event) → Db → Result A × Db → Type 0
Ends event db (ok a, db') = db'.events ≡ db.events ++ event a ∷ []
Ends event db (err _, db') = db' ≡ db

abbrev event : String → String → String → Event
event event_type entity_id action = record {
  event_type = event_type;
  entity_id = entity_id;
  action = action;
}

create_role-Ends :
    (env : Env) (dto : NewRole) (user : String) (db : Db)
    → Ends (λ (r : Role). event "ROLE_CREATED" r.id "created") db (create_role env dto user db)
unfolding create_role
create_role-Ends env dto user db = ground arith

update_role-Ends :
    (env : Env) (id : String) (dto : RoleChange) (user : String) (db : Db)
    → Ends (λ (r : Role). event "ROLE_UPDATED" r.id "updated") db (update_role env id dto user db)
unfolding update_role
update_role-Ends env id dto user db = ground arith

delete_role-Ends :
    (env : Env) (id : String) (user : String) (db : Db)
    → Ends (λ _. event "ROLE_DELETED" id "deleted") db (delete_role env id user db)
unfolding delete_role
delete_role-Ends env id user db = ground arith

create_policy-Ends :
    (env : Env) (dto : NewPolicy) (user : String) (db : Db)
    → Ends
        (λ (p : Policy). event "POLICY_CREATED" p.id "created")
        db
        (create_policy env dto user db)
unfolding create_policy
create_policy-Ends env dto user db = ground arith

update_policy-Ends :
    (env : Env) (id : String) (dto : PolicyChange) (user : String) (db : Db)
    → Ends
        (λ (p : Policy). event "POLICY_UPDATED" p.id "updated")
        db
        (update_policy env id dto user db)
unfolding update_policy
update_policy-Ends env id dto user db = ground arith

delete_policy-Ends :
    (env : Env) (id : String) (user : String) (db : Db)
    → Ends (λ _. event "POLICY_DELETED" id "deleted") db (delete_policy env id user db)
unfolding delete_policy
delete_policy-Ends env id user db = ground arith

assign_role-Ends :
    (env : Env) (dto : NewAssignment) (user : String) (db : Db)
    → Ends
        (λ (a : RoleAssignment). event "ROLE_ASSIGNED" a.id "assigned")
        db
        (assign_role env dto user db)
unfolding assign_role
assign_role-Ends env dto user db = ground arith

revoke_assignment-Ends :
    (env : Env) (id : String) (user : String) (db : Db)
    → Ends (λ _. event "ROLE_REVOKED" id "revoked") db (revoke_assignment env id user db)
unfolding revoke_assignment
revoke_assignment-Ends env id user db = ground arith

-- The type of the event that an operation publishes.
abbrev pub event_type_of : Op → String
event_type_of (create_role_op _) = "ROLE_CREATED"
event_type_of (update_role_op _ _) = "ROLE_UPDATED"
event_type_of (delete_role_op _) = "ROLE_DELETED"
event_type_of (create_policy_op _) = "POLICY_CREATED"
event_type_of (update_policy_op _ _) = "POLICY_UPDATED"
event_type_of (delete_policy_op _) = "POLICY_DELETED"
event_type_of (assign_role_op _) = "ROLE_ASSIGNED"
event_type_of (revoke_assignment_op _) = "ROLE_REVOKED"

abbrev pub IsAtomic : String → Db → Result (Unit {0}) × Db → Type 0
IsAtomic kind db (ok _, db') =
    (e : Event) × (e.event_type ≡ kind) × (db'.events ≡ db.events ++ e ∷ [])
IsAtomic kind db (err _, db') = db' ≡ db

finish-IsAtomic :
    {A : Type 0} (kind action : String) (id : A → String) (db : Db) (r : Result A × Db)
    → Ends (λ a. event kind (id a) action) db r
    → IsAtomic kind db (finish r)
finish-IsAtomic kind action id db (ok a, db') h = (event kind (id a) action, refl, h)
finish-IsAtomic kind action id db (err e, db') h = h

-- Every operation either ends well and adds exactly one event, of its own type, at the end of the
-- events, or throws and leaves all tables as they were.
pub run_op-IsAtomic :
    (env : Env) (user : String) (op : Op) (db : Db)
    → IsAtomic (event_type_of op) db (run_op env user op db)
unfolding run_op
run_op-IsAtomic env user (create_role_op dto) db =
    finish-IsAtomic _ _ (λ (r : Role). r.id) db _ (create_role-Ends env dto user db)
run_op-IsAtomic env user (update_role_op id dto) db =
    finish-IsAtomic _ _ (λ (r : Role). r.id) db _ (update_role-Ends env id dto user db)
run_op-IsAtomic env user (delete_role_op id) db =
    finish-IsAtomic _ _ (λ _. id) db _ (delete_role-Ends env id user db)
run_op-IsAtomic env user (create_policy_op dto) db =
    finish-IsAtomic _ _ (λ (p : Policy). p.id) db _ (create_policy-Ends env dto user db)
run_op-IsAtomic env user (update_policy_op id dto) db =
    finish-IsAtomic _ _ (λ (p : Policy). p.id) db _ (update_policy-Ends env id dto user db)
run_op-IsAtomic env user (delete_policy_op id) db =
    finish-IsAtomic _ _ (λ _. id) db _ (delete_policy-Ends env id user db)
run_op-IsAtomic env user (assign_role_op dto) db =
    finish-IsAtomic _ _ (λ (a : RoleAssignment). a.id) db _ (assign_role-Ends env dto user db)
run_op-IsAtomic env user (revoke_assignment_op id) db =
    finish-IsAtomic _ _ (λ _. id) db _ (revoke_assignment-Ends env id user db)
