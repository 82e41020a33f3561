-- ===== src/Authorization/Evaluation/Loop.antt =====
-- The loop of `check_permission` over the policies, without regard to their order.
use gcdr.Authorization.Data.{Policy}
use gcdr.Authorization.Evaluation.{Scan, note_allow, scan_policies}
use gcdr.Authorization.Matching.{permission_matches}
use gcdr.Base.{
  String, List, [], ◌∷◌, Bool, true, false, ◌≡◌, refl, subst, inl, inr, arith, Elem, Bool-cases,
}

module _ (permission : String) where
  abbrev pub denies : Policy → Bool
  denies p = permission_matches p.deny permission

  abbrev pub allows : Policy → Bool
  allows p = permission_matches p.allow permission

  pub scan_denied_sound :
      (ps : List Policy) (s : Scan)
      → s.is_denied ≡ false
      → (scan_policies permission ps s).is_denied ≡ true
      → (p : Policy) × Elem p ps × (denies p ≡ true)
  unfolding scan_policies
  scan_denied_sound [] s clear h = absurd (cc)
  scan_denied_sound (p ∷ ps) s clear h = elim (Bool-cases (denies p)) [
    | inl hit ↦ (p, inl refl, hit)
    | inr miss ↦
        let (q, m, hit) =
          scan_denied_sound ps (note_allow permission p s) (ground arith) (rw miss at h) in
        (q, inr m, hit)
  ]

  pub scan_denied_complete :
      (ps : List Policy) (s : Scan) (p : Policy)
      → Elem p ps
      → denies p ≡ true
      → (scan_policies permission ps s).is_denied ≡ true
  unfolding scan_policies
  scan_denied_complete [] s p m hit = absurd m
  scan_denied_complete (q ∷ ps) s p m hit = elim m [
    | inl e ↦ rw (subst (λ r. denies r ≡ true) e hit)
    | inr later ↦ ground (arith, scan_denied_complete ps (note_allow permission q s) p later hit)
  ]

  pub scan_allowed_sound :
      (ps : List Policy) (s : Scan)
      → s.is_allowed ≡ false
      → (scan_policies permission ps s).is_allowed ≡ true
      → (p : Policy) × Elem p ps × (allows p ≡ true)
  unfolding scan_policies
  scan_allowed_sound [] s clear h = absurd (cc)
  scan_allowed_sound (p ∷ ps) s clear h = elim (Bool-cases (allows p)) [
    | inl hit ↦ (p, inl refl, hit)
    | inr miss ↦
        let (q, m, hit) =
          scan_allowed_sound ps (note_allow permission p s) (ground arith) (ground arith) in
        (q, inr m, hit)
  ]

  scan_keeps :
      (ps : List Policy) (s : Scan)
      → s.is_allowed ≡ true
      → (scan_policies permission ps s).is_allowed ≡ true
  unfolding scan_policies
  scan_keeps [] s h = h
  scan_keeps (p ∷ ps) s h = ground (arith, scan_keeps ps (note_allow permission p s))

  pub scan_allowed_complete :
      (ps : List Policy) (s : Scan) (p : Policy)
      → Elem p ps
      → allows p ≡ true
      → (scan_policies permission ps s).is_denied ≡ false
      → (scan_policies permission ps s).is_allowed ≡ true
  unfolding scan_policies
  scan_allowed_complete [] s p m hit clear = absurd m
  scan_allowed_complete (q ∷ ps) s p m hit clear = elim m [
    | inl e ↦
        let hit' = subst (λ (r : Policy). allows r ≡ true) e hit in
        ground (arith, scan_keeps ps (note_allow permission q s))
    | inr later ↦ ground (arith, scan_allowed_complete ps (note_allow permission q s) p later hit)
  ]
