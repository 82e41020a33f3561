-- ===== src/Authorization/Matching/Permissions.antt =====
-- `permissionMatches` of services/AuthorizationService.ts.
use Prim.Native.String.{◌++◌}
use gcdr.Base.{
  String, List, [], ◌∷◌, Option, none, some, Bool, true, false, ◌≡◌, refl, subst, ap, ◌∙◌, ◌↔◌, ◌⊎◌,
  inl, inr, arith, Elem, get_elem?, text_is, text_is_iff, Bool-cases, if◌then◌else◌,
}
use gcdr.Base.Split.{split, split-Lacks, split-separated, Lacks}

-- `a === b` on destructured parts, which may be undefined.
abbrev part_eq : Option String → Option String → Bool
part_eq none none = true
part_eq none (some _) = false
part_eq (some s) o = text_is o s

-- The three tests on one granted permission: each part is `*` or the target's part.
part_fails : Option String → Option String → Bool
part_fails granted target =
    if text_is granted "*" then false else if part_eq granted target then false else true

permission_covers : String → String → Bool
unfolding part_fails
permission_covers perm target =
    let parts = split b'.' perm in
    let wanted = split b'.' target in
    if part_fails (get_elem? parts 0) (get_elem? wanted 0)
    then false
    else if part_fails (get_elem? parts 1) (get_elem? wanted 1)
    then false
    else if part_fails (get_elem? parts 2) (get_elem? wanted 2)
    then false
    else true

-- The loop: the first permission that covers the target ends it.
unfoldable pub permission_matches : List String → String → Bool
unfolding permission_covers
permission_matches [] target = false
permission_matches (perm ∷ perms) target =
    if permission_covers perm target then true else permission_matches perms target

-- What a granted part allows.
abbrev pub PartCovers : Option String → Option String → Type 0
PartCovers granted target = (granted ≡ some "*") ⊎ (granted ≡ target)

abbrev pub PermissionCovers : String → String → Type 0
PermissionCovers perm target =
    PartCovers (get_elem? (split b'.' perm) 0) (get_elem? (split b'.' target) 0)
    × PartCovers (get_elem? (split b'.' perm) 1) (get_elem? (split b'.' target) 1)
    × PartCovers (get_elem? (split b'.' perm) 2) (get_elem? (split b'.' target) 2)

-- Some permission of the list covers the target.
abbrev pub Permits : List String → String → Type 0
Permits perms target = (perm : String) × Elem perm perms × PermissionCovers perm target

part_eq_iff : (a b : Option String) → (part_eq a b ≡ true) ↔ (a ≡ b)
part_eq_iff none none = ground arith
part_eq_iff none (some t) = ground arith
part_eq_iff (some s) o = ground (arith, text_is_iff o s)

part_iff : (a b : Option String) → (part_fails a b ≡ false) ↔ PartCovers a b
unfolding part_fails
part_iff a b = ground (arith, part_eq_iff a b, text_is_iff a "*")

permission_covers_iff :
    (perm target : String) → (permission_covers perm target ≡ true) ↔ PermissionCovers perm target
unfolding permission_covers
permission_covers_iff perm target = ground (
  arith,
  part_iff (get_elem? (split b'.' perm) 0) (get_elem? (split b'.' target) 0),
  part_iff (get_elem? (split b'.' perm) 1) (get_elem? (split b'.' target) 1),
  part_iff (get_elem? (split b'.' perm) 2) (get_elem? (split b'.' target) 2),
)

permission_matches_sound :
    (perms : List String) (target : String)
    → permission_matches perms target ≡ true
    → Permits perms target
unfolding permission_matches
permission_matches_sound [] target h = absurd (cc)
permission_matches_sound (perm ∷ perms) target h =
    elim (Bool-cases (permission_covers perm target)) [
      | inl covers ↦ (perm, inl refl, (permission_covers_iff perm target).0 covers)
      | inr fails ↦
          let (found, member, covers) = permission_matches_sound perms target (rw fails at h) in
          (found, inr member, covers)
    ]

permission_matches_complete :
    (perms : List String) (target perm : String)
    → Elem perm perms
    → PermissionCovers perm target
    → permission_matches perms target ≡ true
unfolding permission_matches
permission_matches_complete [] target perm m covers = absurd m
permission_matches_complete (head ∷ perms) target perm m covers = elim m [
  | inl e ↦
      rw ((permission_covers_iff head target).1 (subst (λ p. PermissionCovers p target) e covers))
  | inr later ↦ ground (arith, permission_matches_complete perms target perm later covers)
]

pub permission_matches_iff :
    (perms : List String) (target : String)
    → (permission_matches perms target ≡ true) ↔ Permits perms target
permission_matches_iff perms target = (
  permission_matches_sound perms target,
  λ found. permission_matches_complete perms target found.0 found.1 found.2,
)

-- `domain.function.action`
abbrev pub dotted : String → String → String → String
dotted domain func action = domain ++ ("." ++ (func ++ ("." ++ action)))

pub split-dotted :
    (domain func action : String)
    → Lacks b'.' domain
    → Lacks b'.' func
    → Lacks b'.' action
    → split b'.' (dotted domain func action) ≡ domain ∷ func ∷ action ∷ []
split-dotted domain func action d f a =
    split-separated b'.' domain "." (func ++ ("." ++ action)) d refl
    ∙ ap (λ r. domain ∷ r)
        (split-separated b'.' func "." action f refl
          ∙ ap (λ r. func ∷ r) (split-Lacks b'.' action a))

-- What one segment of a permission allows.
abbrev pub SegmentCovers : String → String → Type 0
SegmentCovers granted target = (granted ≡ "*") ⊎ (granted ≡ target)

part_of_segment : (g t : String) → PartCovers (some g) (some t) ↔ SegmentCovers g t
part_of_segment g t = ground arith

-- On texts of three segments a permission covers a target segment by segment.
pub permission_matches-dotted :
    (domain func action domain' func' action' : String)
    → Lacks b'.' domain
    → Lacks b'.' func
    → Lacks b'.' action
    → Lacks b'.' domain'
    → Lacks b'.' func'
    → Lacks b'.' action'
    → (permission_matches (dotted domain func action ∷ []) (dotted domain' func' action') ≡ true)
      ↔ (SegmentCovers domain domain' × SegmentCovers func func' × SegmentCovers action action')
unfolding permission_matches
permission_matches-dotted domain func action domain' func' action' d f a d' f' a' = ground (
  arith,
  permission_covers_iff (dotted domain func action) (dotted domain' func' action'),
  split-dotted domain func action d f a,
  split-dotted domain' func' action' d' f' a',
)
