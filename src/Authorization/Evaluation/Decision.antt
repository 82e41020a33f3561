-- ===== src/Authorization/Evaluation/Decision.antt =====
-- When `check_permission` grants a permission: a description that names neither the loop nor the
-- order of the rows.
use gcdr.Authorization.Data.{Policy, Db, Env}
use gcdr.Authorization.Evaluation.{
  scan_policies, start, Scan, check_permission, relevant_assignments, policies_of_roles,
}
use gcdr.Authorization.Evaluation.Loop.{
  scan_denied_sound, scan_denied_complete, scan_allowed_sound, scan_allowed_complete,
}
use gcdr.Authorization.Matching.{permission_matches_iff, Permits}
use gcdr.Base.{nonempty_of_Elem, false_of_not, is_empty, String, true, ◌≡◌, refl, ◌↔◌, arith, false}
use gcdr.Authorization.Evaluation.Held.{
  HasPolicy, relevant_complete, found_roles, found_roles_complete, candidates_sound,
  candidates_complete,
}

-- The policies of the roles of the user's live assignments that cover the resource decide alone:
-- one of them allows the permission and none of them denies it.
pub IsGranted : Env → Db → String → String → String → Type 0
IsGranted env db user permission scope =
    ((p : Policy) × HasPolicy env db user scope p × Permits p.allow permission)
    × ((p : Policy) → HasPolicy env db user scope p → ¬ Permits p.deny permission)

module _ (env : Env) (db : Db) (user permission scope : String) where
  abbrev scanned : Scan
  scanned =
      scan_policies permission (policies_of_roles env (found_roles env db user scope) db) start

  check_sound :
      (check_permission env user permission scope db).allowed ≡ true
      → (scanned.is_denied ≡ false) × (scanned.is_allowed ≡ true)
  unfolding check_permission
  check_sound h = ground arith

  check_complete :
      is_empty (relevant_assignments env user scope db) ≡ false
      → is_empty (found_roles env db user scope) ≡ false
      → scanned.is_denied ≡ false
      → scanned.is_allowed ≡ true
      → (check_permission env user permission scope db).allowed ≡ true
  unfolding check_permission
  check_complete some_assignment some_role clear hit = ground arith

  check_permission_sound :
      (check_permission env user permission scope db).allowed ≡ true
      → IsGranted env db user permission scope
  unfolding IsGranted
  check_permission_sound h =
      let (clear, hit) = check_sound h in
      let (p, m, allowed) = scan_allowed_sound permission _ start refl hit in
      (
        (
          p,
          candidates_sound env db user scope p m,
          (permission_matches_iff p.allow permission).0 allowed,
        ),
        λ q has denied. absurd (
            cc (
              clear,
              scan_denied_complete permission _ start q
                  (candidates_complete env db user scope q has)
                  ((permission_matches_iff q.deny permission).1 denied),
            )),
      )

  not_denied :
      ((p : Policy) → HasPolicy env db user scope p → ¬ Permits p.deny permission)
      → scanned.is_denied ≡ false
  not_denied none_denies = false_of_not _ (λ h.
      let (p, m, denied) = scan_denied_sound permission _ start refl h in
      none_denies p (candidates_sound env db user scope p m)
        ((permission_matches_iff p.deny permission).0 denied))

  check_permission_complete :
      IsGranted env db user permission scope
      → (check_permission env user permission scope db).allowed ≡ true
  unfolding IsGranted
  check_permission_complete ((p, has, allowed), none_denies) =
      let (r, has_role, in_role) = has.listed in
      let (a, holds, same) = has_role.assigned in
      let clear = not_denied none_denies in
      check_complete (nonempty_of_Elem a _ (relevant_complete env db user scope a holds))
        (nonempty_of_Elem r _ (found_roles_complete env db user scope r has_role)) clear
        (scan_allowed_complete permission _ start p (candidates_complete env db user scope p has)
          ((permission_matches_iff p.allow permission).1 allowed) clear)

-- A permission is granted exactly if some policy that the user holds allows it and none that the user
-- holds denies it, whatever the order in which the rows come. The user holds the policies of the
-- tenant's roles that the user's live assignments name, of those assignments whose scope, as a text,
-- covers that of the resource; neither the customers' hierarchy nor the conditions of the policies is
-- asked, and a permission allows or denies segment by segment.
pub check_permission_iff :
    (env : Env) (db : Db) (user permission scope : String)
    → ((check_permission env user permission scope db).allowed ≡ true)
      ↔ IsGranted env db user permission scope
check_permission_iff env db user permission scope = (
  check_permission_sound env db user permission scope,
  check_permission_complete env db user permission scope,
)
