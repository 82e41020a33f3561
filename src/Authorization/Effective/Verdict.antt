-- ===== src/Authorization/Effective/Verdict.antt =====
-- What the merged map says of a permission, policy by policy.
use gcdr.Authorization.Data.{Policy}
use gcdr.Authorization.Effective.{
  merge_policies, EffectivePermission, entry, is_open, allow_all, deny_all,
}
use gcdr.Base.{
  ap, not, ◌∙◌, ◌||◌, ◌++◌, String, List, [], ◌∷◌, Bool, true, false, Option, none, some, ◌≡◌, refl,
  arith, includes, any, eq_iff, if◌then◌else◌,
}
use gcdr.Base.Dict.{Dict, lookup, insert, lookup-insert}

-- `allowed` of the entry, if there is one.
abbrev pub verdict : Option EffectivePermission → Option Bool
verdict none = none
verdict (some e) = some e.allowed

-- One policy over what the policies before it said: its `deny` first, then its `allow`.
abbrev pub decide : String → Policy → Option Bool → Option Bool
decide perm p before =
    if includes p.deny perm then some false else if includes p.allow perm then some true else before

verdict-allow_all :
    (p : Policy) (xs : List String) (perm : String) (m : Dict EffectivePermission)
    → verdict (lookup perm (allow_all p xs m))
      ≡ (if includes xs perm then some true else verdict (lookup perm m))
unfolding allow_all entry includes any
verdict-allow_all p [] perm m = refl
verdict-allow_all p (x ∷ xs) perm m = ground (
  arith,
  verdict-allow_all p xs perm (if is_open (lookup x m) then insert x (entry p x true) m else m),
  lookup-insert x perm (entry p x true) m,
  eq_iff x perm,
)

verdict-deny_all :
    (p : Policy) (xs : List String) (perm : String) (m : Dict EffectivePermission)
    → verdict (lookup perm (deny_all p xs m))
      ≡ (if includes xs perm then some false else verdict (lookup perm m))
unfolding deny_all entry includes any
verdict-deny_all p [] perm m = refl
verdict-deny_all p (x ∷ xs) perm m = ground (
  arith,
  verdict-deny_all p xs perm (insert x (entry p x false) m),
  lookup-insert x perm (entry p x false) m,
  eq_iff x perm,
)

-- The policies one after the other.
abbrev pub decide_all : String → List Policy → Option Bool → Option Bool
decide_all perm [] before = before
decide_all perm (p ∷ ps) before = decide_all perm ps (decide perm p before)

verdict-merge_policies :
    (ps : List Policy) (perm : String) (m : Dict EffectivePermission)
    → verdict (lookup perm (merge_policies ps m)) ≡ decide_all perm ps (verdict (lookup perm m))
unfolding merge_policies
verdict-merge_policies [] perm m = refl
verdict-merge_policies (p ∷ ps) perm m =
    verdict-merge_policies ps perm (deny_all p p.deny (allow_all p p.allow m))
    ∙ ap (decide_all perm ps)
        (verdict-deny_all p p.deny perm (allow_all p p.allow m) ∙ denied_over_allowed)
  where
    denied_over_allowed :
        (if includes p.deny perm then some false else verdict (lookup perm (allow_all p p.allow m)))
        ≡ decide perm p (verdict (lookup perm m))
    denied_over_allowed = rw (verdict-allow_all p p.allow perm m)

-- A policy that says nothing of the permission.
abbrev pub IsSilent : String → Policy → Type 0
IsSilent perm p = (includes p.allow perm ≡ false) × (includes p.deny perm ≡ false)

abbrev pub AllSilent : String → List Policy → Type 0
AllSilent perm [] = Unit
AllSilent perm (p ∷ ps) = IsSilent perm p × AllSilent perm ps

decide_all-silent :
    (perm : String) (ps : List Policy) (before : Option Bool)
    → AllSilent perm ps
    → decide_all perm ps before ≡ before
decide_all-silent perm [] before h = refl
decide_all-silent perm (p ∷ ps) before ((allow, deny), h) =
    rw (deny, allow) (decide_all-silent perm ps before h)

decide_all-append :
    (perm : String) (ps qs : List Policy) (before : Option Bool)
    → decide_all perm (ps ++ qs) before ≡ decide_all perm qs (decide_all perm ps before)
decide_all-append perm [] qs before = refl
decide_all-append perm (p ∷ ps) qs before = decide_all-append perm ps qs (decide perm p before)

-- The last policy that names a permission alone decides its entry: the entry denies if that
-- policy's `deny` has the permission and allows if only its `allow` has it, whatever the policies
-- before it said. A permission that no policy names has no entry.
pub effective-last :
    (perm : String) (ps qs : List Policy) (q : Policy)
    → AllSilent perm qs
    → ((includes q.allow perm || includes q.deny perm) ≡ true
        → verdict (lookup perm (merge_policies (ps ++ q ∷ qs) []))
          ≡ some (not (includes q.deny perm)))
      × (AllSilent perm ps
          → IsSilent perm q
          → verdict (lookup perm (merge_policies (ps ++ q ∷ qs) [])) ≡ none)
unfolding lookup
effective-last perm ps qs q silent = (named, unnamed)
  where
    merged :
        verdict (lookup perm (merge_policies (ps ++ q ∷ qs) []))
        ≡ decide perm q (decide_all perm ps none)
    merged =
        verdict-merge_policies (ps ++ q ∷ qs) perm []
        ∙ decide_all-append perm ps (q ∷ qs) (verdict (lookup perm []))
        ∙ decide_all-silent perm qs _ silent
        ∙ ap (λ b. decide perm q (decide_all perm ps b)) lookup_empty
      where
        lookup_empty : verdict (lookup perm []) ≡ none
        lookup_empty = refl

    named :
        (includes q.allow perm || includes q.deny perm) ≡ true
        → verdict (lookup perm (merge_policies (ps ++ q ∷ qs) []))
          ≡ some (not (includes q.deny perm))
    named h = merged ∙ ground arith

    unnamed :
        AllSilent perm ps
        → IsSilent perm q
        → verdict (lookup perm (merge_policies (ps ++ q ∷ qs) [])) ≡ none
    unnamed before (allow, deny) = merged ∙ rw (deny, allow) (decide_all-silent perm ps none before)
