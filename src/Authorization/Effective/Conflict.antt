-- ===== src/Authorization/Effective/Conflict.antt =====
-- Where `getEffectivePermissions` and `checkPermission` part.
use gcdr.Authorization.Data.{Policy}
use gcdr.Authorization.Effective.{merge_policies}
use gcdr.Authorization.Effective.Verdict.{effective-last, verdict}
use gcdr.Authorization.Evaluation.{start, scan_policies}
use gcdr.Authorization.Evaluation.Loop.{scan_denied_complete}
use gcdr.Authorization.Matching.{permission_matches_iff, Permits}
use gcdr.Base.{
  some, false, true, String, Elem-append_left, refl, inr, ◌≡◌, includes, Elem, List, [], ◌∷◌, ◌++◌,
}
use gcdr.Base.Dict.{lookup}

-- A policy that denies a permission by its exact text denies it in the loop of `checkPermission`.
exact-Permits : (perm : String) (perms : List String) → Elem perm perms → Permits perms perm
exact-Permits perm perms m = (perm, m, (inr refl, inr refl, inr refl))

-- When an early policy denies a permission and the last one allows it and does not deny it, the
-- effective permissions list it as allowed, while the check of the same policies denies it.
pub effective_allows_denied :
    (perm : String) (ps : List Policy) (p q : Policy)
    → Elem p ps
    → Elem perm p.deny
    → includes q.allow perm ≡ true
    → includes q.deny perm ≡ false
    → (verdict (lookup perm (merge_policies (ps ++ q ∷ []) [])) ≡ some true)
      × ((scan_policies perm (ps ++ q ∷ []) start).is_denied ≡ true)
effective_allows_denied perm ps p q m denied allowed silent = (
  rw silent at ((effective-last perm ps [] q tt).0 (rw allowed)),
  scan_denied_complete perm (ps ++ q ∷ []) start p (Elem-append_left p ps (q ∷ []) m)
      ((permission_matches_iff p.deny perm).1 (exact-Permits perm p.deny denied)),
)
