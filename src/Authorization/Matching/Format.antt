-- ===== src/Authorization/Matching/Format.antt =====
-- `validatePermissionFormat` of services/AuthorizationService.ts.
use Prim.Native.String.{◌++◌}
use Prim.Native.Char.{Char, code}
use text.Mathlib.TextEquality.{Char-path}
use text.Mathlib.TextLemmas.{nil-append, cons-append, append-nil, cons≢nil}
use gcdr.Authorization.Matching.Permissions.{dotted}
use gcdr.Base.{
  Elem, String, Option, none, some, List, [], ◌∷◌, Bool, true, false, ◌&&◌, ◌||◌, ◌≡◌, ◌≤◌, ◌≢◌,
  refl, sym, subst, ap, ◌∙◌, &&_iff, ◌↔◌, ◌⊎◌, inl, inr, arith, leb, eqb, Bool-cases, if◌then◌else◌,
}

-- The class `[a-z*]`
in_class : Char → Bool
in_class c = (leb b'a' (code c) && leb (code c) b'z') || eqb (code c) b'*'

-- What is left of a text after the longest run of the class, and whether the run has a character.
-- The class has no dot, so that run is the only one that the pattern can take.
skip_run : Bool → String → Bool × String
skip_run seen String.[] = (seen, "")
skip_run seen (String.◌∷◌ c s) =
    let rest = skip_run true s in if in_class c then rest else (seen, String.◌∷◌ c s)

-- `\.` and then the rest of the pattern
after_dot : (String → Bool) → String → Bool
after_dot k String.[] = false
after_dot k (String.◌∷◌ c s) = eqb (code c) b'.' && k s

-- `[a-z*]+` and then the rest of the pattern
run_then : (String → Bool) → String → Bool
unfolding skip_run
run_then k s = let (seen, rest) = skip_run false s in seen && k rest

at_end : String → Bool
at_end String.[] = true
at_end (String.◌∷◌ _ _) = false

-- `/^[a-z*]+\.[a-z*]+\.[a-z*]+$/.test(perm)`
third_part : String → Bool
unfolding run_then at_end
third_part s = run_then at_end s

second_part : String → Bool
unfolding run_then after_dot third_part
second_part s = run_then (after_dot third_part) s

unfoldable pub is_permission : String → Bool
unfolding in_class run_then after_dot second_part
is_permission perm = run_then (after_dot second_part) perm

test_permission : is_permission "energy.settings.*" ≡ true
unfolding is_permission
test_permission = refl

test_underscore : is_permission "dashboards.head_office.read" ≡ false
unfolding is_permission
test_underscore = refl

-- A lower-case letter or a star.
abbrev pub InClass : Char → Type 0
InClass c = ((b'a' ≤ code c) × (code c ≤ b'z')) ⊎ (code c ≡ b'*')

abbrev pub AllInClass : String → Type 0
AllInClass String.[] = Unit
AllInClass (String.◌∷◌ c s) = InClass c × AllInClass s

-- A non-empty text over the class.
abbrev pub IsSegment : String → Type 0
IsSegment s = (s ≢ "") × AllInClass s

-- Three segments with dots between them.
abbrev pub IsPermission : String → Type 0
IsPermission perm =
    (d : String) × (f : String) × (a : String) × IsSegment d
    × IsSegment f
    × IsSegment a
    × (perm ≡ dotted d f a)

in_class_iff : (c : Char) → (in_class c ≡ true) ↔ InClass c
unfolding in_class
in_class_iff c = ground arith

-- A run that was split off, with what followed.
skip_run_split :
    (seen : Bool) (s : String)
    → (w : String) × AllInClass w
      × (s ≡ w ++ (skip_run seen s).1)
      × ((skip_run seen s).0 ≡ true → (seen ≡ true) ⊎ (w ≢ ""))
unfolding skip_run
skip_run_split seen String.[] = ("", tt, refl, λ e. inl e)
skip_run_split seen (String.◌∷◌ c s) = elim (Bool-cases (in_class c)) [
  | inl inside ↦
      let (w, all_in, e, nonempty) = skip_run_split true s in
      (
        String.◌∷◌ c w,
        ((in_class_iff c).0 inside, all_in),
        rw inside (rw cons-append (ap (String.◌∷◌ c) e)),
        λ h. inr cons≢nil,
      )
  | inr outside ↦ ("", tt, rw outside (rw nil-append), rw outside (λ e. inl e))
]

run_then_sound :
    (k : String → Bool) (s : String)
    → run_then k s ≡ true
    → (w : String) × (r : String) × IsSegment w × (s ≡ w ++ r) × (k r ≡ true)
unfolding run_then
run_then_sound k s h =
    let (w, all_in, e, nonempty) = skip_run_split false s in
    let (seen, kept) = (&&_iff (skip_run false s).0 (k (skip_run false s).1)).0 h in
    (w, (skip_run false s).1, (ground (arith, nonempty seen), all_in), e, kept)

after_dot_sound :
    (k : String → Bool) (s : String)
    → after_dot k s ≡ true
    → (r : String) × (s ≡ "." ++ r) × (k r ≡ true)
unfolding after_dot
after_dot_sound k String.[] h = absurd (cc)
after_dot_sound k (String.◌∷◌ c s) h =
    let (dot, kept) = (&&_iff (eqb (code c) b'.') (k s)).0 h in
    (
      s,
      rw (cons-append, nil-append) (ap (λ d. String.◌∷◌ d s) (Char-path c "." (ground arith))),
      kept,
    )

at_end_sound : (s : String) → at_end s ≡ true → s ≡ ""
unfolding at_end
at_end_sound String.[] h = refl
at_end_sound (String.◌∷◌ c s) h = absurd (cc)

third_part_sound : (s : String) → third_part s ≡ true → IsSegment s
unfolding third_part
third_part_sound s h =
    let (a, r, segment, e, ended) = run_then_sound at_end s h in
    subst IsSegment (sym (e ∙ ap (λ t. a ++ t) (at_end_sound r ended) ∙ append-nil a)) segment

second_part_sound :
    (s : String)
    → second_part s ≡ true
    → (f : String) × (a : String) × IsSegment f × IsSegment a × (s ≡ f ++ ("." ++ a))
unfolding second_part
second_part_sound s h =
    let (f, r, segment, e, dotted_rest) = run_then_sound (after_dot third_part) s h in
    let (a, dot, last) = after_dot_sound third_part r dotted_rest in
    (f, a, segment, third_part_sound a last, e ∙ ap (λ t. f ++ t) dot)

is_permission_sound : (perm : String) → is_permission perm ≡ true → IsPermission perm
unfolding is_permission
is_permission_sound perm h =
    let (d, r, segment, e, dotted_rest) = run_then_sound (after_dot second_part) perm h in
    let (t, dot, later) = after_dot_sound second_part r dotted_rest in
    let (f, a, segment_f, segment_a, same) = second_part_sound t later in
    (d, f, a, segment, segment_f, segment_a, e ∙ ap (λ u. d ++ u) (dot ∙ ap (λ v. "." ++ v) same))

-- A text at which a run ends.
abbrev Stops : String → Type 0
Stops String.[] = Unit
Stops (String.◌∷◌ c s) = in_class c ≡ false

skip_run-Stops : (r : String) → Stops r → skip_run true r ≡ (true, r)
unfolding skip_run
skip_run-Stops String.[] h = refl
skip_run-Stops (String.◌∷◌ c s) h = rw h

skip_run-append : (w r : String) → AllInClass w → Stops r → skip_run true (w ++ r) ≡ (true, r)
unfolding skip_run
skip_run-append String.[] r h st = rw nil-append (skip_run-Stops r st)
skip_run-append (String.◌∷◌ c w) r (inside, h) st =
    rw (cons-append, (in_class_iff c).1 inside) (skip_run-append w r h st)

run_then_complete :
    (k : String → Bool) (w r : String)
    → IsSegment w
    → Stops r
    → k r ≡ true
    → run_then k (w ++ r) ≡ true
unfolding run_then
run_then_complete k String.[] r (ne, h) st e = absurd (ne refl)
run_then_complete k (String.◌∷◌ c w) r (ne, (inside, h)) st e =
    rw (cons-append, skip_run, (in_class_iff c).1 inside, skip_run-append w r h st, e)

after_dot_complete : (k : String → Bool) (r : String) → k r ≡ true → after_dot k ("." ++ r) ≡ true
unfolding after_dot
after_dot_complete k r e = rw (cons-append, nil-append) e

dot-Stops : (r : String) → Stops ("." ++ r)
unfolding in_class
dot-Stops r = rw cons-append

third_part_complete : (a : String) → IsSegment a → third_part a ≡ true
unfolding third_part
third_part_complete a segment =
    subst (λ s. run_then at_end s ≡ true) (append-nil a)
      (run_then_complete at_end a "" segment tt refl)

second_part_complete :
    (f a : String) → IsSegment f → IsSegment a → second_part (f ++ ("." ++ a)) ≡ true
unfolding second_part
second_part_complete f a segment last =
    run_then_complete (after_dot third_part) f ("." ++ a) segment (dot-Stops a)
      (after_dot_complete third_part a (third_part_complete a last))

is_permission_complete : (perm : String) → IsPermission perm → is_permission perm ≡ true
unfolding is_permission
is_permission_complete perm (d, f, a, segment_d, segment_f, segment_a, e) =
    let rest = f ++ ("." ++ a) in
    rw e (
      run_then_complete (after_dot second_part) d ("." ++ rest) segment_d (dot-Stops rest)
        (after_dot_complete second_part rest (second_part_complete f a segment_f segment_a)))

-- The pattern accepts exactly three dotted segments of lower-case letters and stars.
pub is_permission_iff : (perm : String) → (is_permission perm ≡ true) ↔ IsPermission perm
is_permission_iff perm = (is_permission_sound perm, is_permission_complete perm)

-- The loop of `validatePermissionFormat`: the first text that fails the pattern is thrown.
unfoldable pub first_invalid : List String → Option String
first_invalid [] = none
first_invalid (perm ∷ perms) = if is_permission perm then first_invalid perms else some perm

pub first_invalid_sound :
    (perms : List String)
    → first_invalid perms ≡ none
    → (perm : String) → Elem perm perms
    → IsPermission perm
unfolding first_invalid
first_invalid_sound [] h perm m = absurd m
first_invalid_sound (p ∷ ps) h perm m = elim (Bool-cases (is_permission p)) [
  | inl good ↦ elim m [
    | inl e ↦ rw e (is_permission_sound p good)
    | inr later ↦ first_invalid_sound ps (rw good at h) perm later
  ]
  | inr bad ↦ absurd (cc (rw bad at h))
]

pub first_invalid_complete :
    (perms : List String)
    → ((perm : String) → Elem perm perms → IsPermission perm)
    → first_invalid perms ≡ none
unfolding first_invalid
first_invalid_complete [] h = refl
first_invalid_complete (p ∷ ps) h =
    rw (is_permission_complete p (h p (inl refl))) (first_invalid_complete ps (λ q m. h q (inr m)))
