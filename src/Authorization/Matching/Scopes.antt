-- ===== src/Authorization/Matching/Scopes.antt =====
-- `scopeMatches` of services/AuthorizationService.ts.
use Prim.Native.String.{◌++◌}
use Prim.Native.Char.{Char, code}
use text.Mathlib.TextLemmas.{append_assoc, nil-append, cons-append}
use gcdr.Base.{
  ℕ, refl, subst, String, ◌≡◌, sym, ap, ◌∙◌, ◌↔◌, ◌⊎◌, inl, inr, Bool, true, false, arith,
  Bool-cases, eq_iff, ◌==◌, if◌then◌else◌,
}
use gcdr.Base.Split.{Lacks}
use gcdr.Base.Text.{
  starts_with, starts_with_sound, starts_with_complete, ends_with, ends_with_sound,
  ends_with_complete, drop_last, drop_last-append,
}

-- The four tests in order, each with its early return.
unfoldable pub scope_matches : String → String → Bool
scope_matches assignment_scope resource_scope =
    if assignment_scope == resource_scope
    then true
    else if ends_with assignment_scope "*"
    then starts_with resource_scope (drop_last assignment_scope)
    else if starts_with resource_scope (assignment_scope ++ "/")
    then true
    else if assignment_scope == "*"
    then true
    else false

-- What a scope covers, as a text: itself; with a trailing star every text that begins with what stands
-- before the star; and every text that goes on with a slash. The customers' own hierarchy is not asked.
abbrev pub Covers : String → String → Type 0
Covers a r =
    (a ≡ r)
    ⊎ ((p : String) × (t : String) × (a ≡ p ++ "*") × (r ≡ p ++ t))
    ⊎ ((t : String) × (r ≡ a ++ ("/" ++ t)))

below : (a r : String) → starts_with r (a ++ "/") ≡ true → Covers a r
below a r h =
    let (t, e) = starts_with_sound r (a ++ "/") h in inr (inr (t, e ∙ append_assoc a "/" t))

starred : (a r : String) → ends_with a "*" ≡ true → starts_with r (drop_last a) ≡ true → Covers a r
starred a r star h =
    let (p, e) = ends_with_sound a "*" star in
    let (t, q) = starts_with_sound r (drop_last a) h in
    inr (inl (p, t, e, q ∙ ap (λ s. s ++ t) (ap drop_last e ∙ drop_last-append p _)))

global : (a r : String) → a ≡ "*" → Covers a r
global a r e = inr (inl ("", r, e, sym (nil-append r)))

scope_matches_sound : (a r : String) → scope_matches a r ≡ true → Covers a r
unfolding scope_matches
scope_matches_sound a r h = elim (Bool-cases (a == r)) [
  | inl same ↦ inl ((eq_iff a r).0 same)
  | inr different ↦ elim (Bool-cases (ends_with a "*")) [
    | inl star ↦ starred a r star (ground arith)
    | inr plain ↦ elim (Bool-cases (starts_with r (a ++ "/"))) [
      | inl prefix ↦ below a r prefix
      | inr apart ↦ global a r ((eq_iff a "*").0 (ground arith))
    ]
  ]
]

starred_complete :
    (a r p t : String) → a ≡ p ++ "*" → r ≡ p ++ t → starts_with r (drop_last a) ≡ true
starred_complete a r p t e q =
    starts_with_complete r (drop_last a) t
      (q ∙ ap (λ s. s ++ t) (sym (ap drop_last e ∙ drop_last-append p _)))

-- A text below a starred scope begins with what stands before the star.
below_starred :
    (a r t : String)
    → r ≡ a ++ ("/" ++ t)
    → ends_with a "*" ≡ true
    → starts_with r (drop_last a) ≡ true
below_starred a r t q star =
    let (p, e) = ends_with_sound a "*" star in
    starred_complete a r p ("*" ++ ("/" ++ t)) e
      (q ∙ ap (λ s. s ++ ("/" ++ t)) e ∙ append_assoc p "*" ("/" ++ t))

star_ends : (a p : String) → a ≡ p ++ "*" → ends_with a "*" ≡ true
star_ends a p e = rw e (ends_with_complete p "*")

slash_starts : (a r t : String) → r ≡ a ++ ("/" ++ t) → starts_with r (a ++ "/") ≡ true
slash_starts a r t e = starts_with_complete r (a ++ "/") t (e ∙ sym (append_assoc a "/" t))

scope_matches_complete : (a r : String) → Covers a r → scope_matches a r ≡ true
unfolding scope_matches
scope_matches_complete a r (inl e) = ground (arith, eq_iff a r)
scope_matches_complete a r (inr (inl (p, t, e, q))) =
    ground (arith, star_ends a p e, starred_complete a r p t e q)
scope_matches_complete a r (inr (inr (t, e))) =
    ground (arith, below_starred a r t e, slash_starts a r t e)

pub scope_matches-Covers : (a r : String) → (scope_matches a r ≡ true) ↔ Covers a r
scope_matches-Covers a r = (scope_matches_sound a r, scope_matches_complete a r)

append-not-Lacks :
    (sep : ℕ) (w : String) (c : Char) (s : String)
    → code c ≡ sep
    → Lacks sep (w ++ String.◌∷◌ c s)
    → ⊥
append-not-Lacks sep String.[] c s e h = (rw nil-append at h).0 e
append-not-Lacks sep (String.◌∷◌ d w) c s e h = append-not-Lacks sep w c s e (rw cons-append at h).1

slash : (t : String) → ("/" ++ t) ≡ String.◌∷◌ "/" t
slash t = rw (cons-append, nil-append) refl

only_itself : (a r : String) → Lacks b'*' a → Lacks b'/' r → Covers a r → a ≡ r
only_itself a r plain flat (inl e) = e
only_itself a r plain flat (inr (inl (p, t, e, q))) =
    absurd (append-not-Lacks b'*' p "*" "" refl (subst (Lacks b'*') e plain))
only_itself a r plain flat (inr (inr (t, e))) =
    absurd (
      append-not-Lacks b'/' a "/" t refl (subst (Lacks b'/') (e ∙ ap (λ s. a ++ s) (slash t)) flat))

-- A scope matches exactly the resources whose text it covers: the same text, with a trailing star any
-- text that begins with what stands before the star, and any text that goes on with a slash. A scope
-- without a star therefore matches no resource without a slash but the one of its own text: the scope
-- of a customer does not reach the scope of a customer below it.
pub scope_matches_iff :
    (a r : String)
    → ((scope_matches a r ≡ true) ↔ Covers a r)
      × (Lacks b'*' a → Lacks b'/' r → scope_matches a r ≡ true → a ≡ r)
scope_matches_iff a r = (
  scope_matches-Covers a r,
  λ plain flat h. only_itself a r plain flat (scope_matches_sound a r h),
)
