-- ===== src/ApiKeys/Scopes.antt =====
-- What a granted scope covers.
use Prim.Native.String.{◌++◌}
use gcdr.Base.{
  ◌≡◌, ◌↔◌, ◌⊎◌, inl, inr, subst, sym, String, List, true, includes, includes_sound,
  includes_complete, Elem, arith, &&_iff, ◌&&◌,
}
use gcdr.Base.Text.{
  starts_with, starts_with_sound, starts_with_complete, ends_with, ends_with_sound,
  ends_with_complete,
}
use gcdr.ApiKeys.Data.{has_scope}

-- The meaning of the grants, told apart from the code.
abbrev pub Grants : List String → String → Type 0
Grants granted required =
    (Elem "*:read" granted × ((t : String) × (required ≡ t ++ ":read")))
    ⊎ ((Elem "simulator:admin" granted × ((t : String) × (required ≡ "simulator:" ++ t)))
        ⊎ Elem required granted)

granted_by :
    (granted : List String) (required : String)
    → has_scope granted required ≡ true
    → ((includes granted "*:read" && ends_with required ":read") ≡ true)
      ⊎ (((includes granted "simulator:admin" && starts_with required "simulator:") ≡ true)
          ⊎ (includes granted required ≡ true))
unfolding has_scope
granted_by granted required h = ground arith

has_scope_sound :
    (granted : List String) (required : String)
    → has_scope granted required ≡ true
    → Grants granted required
has_scope_sound granted required h = elim (granted_by granted required h) [
  | inl read ↦
      let (all, reads) = (&&_iff _ _).0 read in
      inl (includes_sound granted _ all, ends_with_sound required _ reads)
  | inr more ↦ elim more [
    | inl simulates ↦
        let (admin, starts) = (&&_iff _ _).0 simulates in
        inr (inl (includes_sound granted _ admin, starts_with_sound required _ starts))
    | inr exact ↦ inr (inr (includes_sound granted required exact))
  ]
]

has_scope_complete :
    (granted : List String) (required : String)
    → Grants granted required
    → has_scope granted required ≡ true
unfolding has_scope
has_scope_complete granted required (inl (all, (t, e))) = ground (
  arith,
  includes_complete granted "*:read" all,
  subst (λ r. ends_with r ":read" ≡ true) (sym e) (ends_with_complete t ":read"),
)
has_scope_complete granted required (inr (inl (admin, (t, e)))) = ground (
  arith,
  includes_complete granted "simulator:admin" admin,
  starts_with_complete required "simulator:" t e,
)
has_scope_complete granted required (inr (inr exact)) =
    ground (arith, includes_complete granted required exact)

-- A scope is granted exactly where it is among the granted ones, or reads something and "*:read" is
-- granted, or is about the simulator and "simulator:admin" is granted.
pub has_scope_iff :
    (granted : List String) (required : String)
    → (has_scope granted required ≡ true) ↔ Grants granted required
has_scope_iff granted required =
    (has_scope_sound granted required, has_scope_complete granted required)
