-- ===== src/Access/Grants.antt =====
-- What the domain policies of a bundle grant, against the permissions that they were built from.
use gcdr.Base.{
  includes-append, ap, subst, false, ◌∷◌, Bool, refl, arith, inr, inl, eq_iff, ◌⊎◌, ◌&&◌, ◌↔◌, ◌==◌,
  [], true, or_else, some, if◌then◌else◌, ◌≡◌, Elem, String, List, Option, none, Bool-cases, any,
  includes,
}
use gcdr.Base.Dict.{Dict, lookup, insert, lookup-insert}
use gcdr.Authorization.Data.{PolicyConditions}
use gcdr.Authorization.Effective.{EffectivePermission}
use gcdr.Access.Data.{
  LocationActions, DomainPolicies, DomainPermissionKey, can_access, location_of, inside, acts_at,
}
use gcdr.Access.Build.{
  add_to_domain_policies, with_action, or_empty_actions, domain_key, add_key, add_permissions,
  build_domain_policies,
}

-- Some allowed permission of the list stands for the key.
abbrev pub Grants : List EffectivePermission → DomainPermissionKey → Type 0
Grants perms k =
    (p : EffectivePermission) × Elem p perms
    × (p.allowed ≡ true)
    × (domain_key p.permission ≡ some k)

inside-or_else :
    {V : Type 0} (o : Option (Dict V)) (key : String) → lookup key (or_else o []) ≡ inside o key
unfolding lookup
inside-or_else none key = refl
inside-or_else (some m) key = refl

-- An insertion two levels down.
inside-insert :
    {V : Type 0} (a b c d : String) (new : V) (m : Dict (Dict V))
    → inside (lookup b (insert a (insert c new (or_else (lookup a m) [])) m)) d
      ≡ (if a == b && c == d then some new else inside (lookup b m) d)
inside-insert a b c d new m = elim (Bool-cases (a == b)) [
  | inl same ↦
      rw lookup-insert
        (rw same (rw lookup-insert (rw inside-or_else (rw ((eq_iff a b).0 same) refl))))
  | inr other ↦ rw lookup-insert (rw other refl)
]

inside-add :
    {V : Type 0} (c : Bool) (a b : String) (new : V) (here there : Option (Dict V))
    → (c ≡ true → here ≡ there)
    → inside (if c then some (insert a new (or_else here [])) else there) b
      ≡ (if c && a == b then some new else inside there b)
inside-add true a b new here there same = rw lookup-insert (rw inside-or_else (rw (same refl) refl))
inside-add false a b new here there same = refl

includes-with_action :
    (new action : String) (l : LocationActions)
    → (includes (with_action new l).actions action ≡ true)
      ↔ ((new ≡ action) ⊎ (includes l.actions action ≡ true))
includes-with_action new action l = elim (Bool-cases (includes l.actions new)) [
  | inl there ↦ rw there (ground (subst (λ t. includes l.actions t ≡ true), arith))
  | inr missing ↦ rw missing (rw includes-append (ground (eq_iff new action, arith)))
]

acts_at-with_action :
    (conditions : Option PolicyConditions) (o : Option LocationActions) (new action : String)
    → (acts_at (some (with_action new (or_empty_actions conditions o))) action ≡ true)
      ↔ ((new ≡ action) ⊎ (acts_at o action ≡ true))
unfolding includes any
acts_at-with_action conditions none new action =
    includes-with_action new action (or_empty_actions conditions none)
acts_at-with_action conditions (some l) new action = includes-with_action new action l

location-add :
    (policies : DomainPolicies) (k j : DomainPermissionKey) (conditions : Option PolicyConditions)
    → location_of (add_to_domain_policies policies k conditions) j ≡ (
        if (k.domain == j.domain && k.equipment == j.equipment) && k.location == j.location
        then some (with_action k.action (or_empty_actions conditions (location_of policies k)))
        else location_of policies j)
unfolding location_of add_to_domain_policies
location-add policies k j conditions = rw inside-insert (
    rw inside-or_else (
      rw inside-or_else (
        inside-add (k.domain == j.domain && k.equipment == j.equipment) k.location j.location
          (with_action k.action (or_empty_actions conditions (location_of policies k)))
          (inside (lookup k.domain policies) k.equipment)
          (inside (lookup j.domain policies) j.equipment)
          (λ same.
            ground (eq_iff k.domain j.domain, eq_iff k.equipment j.equipment, same, arith)))))

module _ (k j : DomainPermissionKey) where
  abbrev SamePlace : Type 0
  SamePlace = (k.domain ≡ j.domain) × (k.equipment ≡ j.equipment) × (k.location ≡ j.location)

  abbrev same_place : Bool
  same_place = (k.domain == j.domain && k.equipment == j.equipment) && k.location == j.location

  same_place_iff : (same_place ≡ true) ↔ SamePlace
  same_place_iff = ground (
    eq_iff k.domain j.domain,
    eq_iff k.equipment j.equipment,
    eq_iff k.location j.location,
    arith,
  )

  keys-path : SamePlace → k.action ≡ j.action → k ≡ j
  keys-path (d, e, l) a i = record { domain = d i; equipment = e i; location = l i; action = a i }

  same_action : k ≡ j → k.action ≡ j.action
  same_action e i = (e i).action

  location_of-path : (p : DomainPolicies) → SamePlace → location_of p k ≡ location_of p j
  unfolding location_of
  location_of-path p (d, e, l) i = inside (inside (lookup (d i) p) (e i)) (l i)

  acts_at-added :
      (c : Bool) (conditions : Option PolicyConditions) (here there : Option LocationActions)
      → (c ≡ true → SamePlace × (here ≡ there))
      → (k ≡ j → c ≡ true)
      → (acts_at
            (if c then some (with_action k.action (or_empty_actions conditions here)) else there)
            j.action
          ≡ true)
        ↔ ((k ≡ j) ⊎ (acts_at there j.action ≡ true))
  acts_at-added true conditions here there place _ =
      let (same, e) = place refl in
      rw e (
        ground (
          acts_at-with_action conditions there k.action j.action,
          keys-path same,
          same_action,
          arith,
        ))
  acts_at-added false conditions here there _ hit =
      (λ h. inr h, λ h. elim h [ inl e ↦ absurd (ground (hit e, arith)) | inr acts ↦ acts ])

can_access-add :
    (policies : DomainPolicies) (k j : DomainPermissionKey) (conditions : Option PolicyConditions)
    → (can_access (add_to_domain_policies policies k conditions) j ≡ true)
      ↔ ((k ≡ j) ⊎ (can_access policies j ≡ true))
unfolding can_access
can_access-add policies k j conditions = rw location-add (
    acts_at-added k j (same_place k j) conditions (location_of policies k) (location_of policies j)
      (λ hit. let same = (same_place_iff k j).0 hit in (same, location_of-path k j policies same))
      (λ e.
        (same_place_iff k j).1
          (ap (λ x. x.domain) e, ap (λ x. x.equipment) e, ap (λ x. x.location) e)))

can_access-empty : (j : DomainPermissionKey) → can_access [] j ≡ false
unfolding can_access location_of lookup
can_access-empty j = refl

abbrev added_by : EffectivePermission → DomainPolicies → DomainPolicies
added_by p policies =
    if p.allowed then add_key p.conditions (domain_key p.permission) policies else policies

can_access-added_by :
    (allowed : Bool) (conditions : Option PolicyConditions) (o : Option DomainPermissionKey)
    (policies : DomainPolicies) (j : DomainPermissionKey)
    → (can_access (if allowed then add_key conditions o policies else policies) j ≡ true)
      ↔ (((allowed ≡ true) × (o ≡ some j)) ⊎ (can_access policies j ≡ true))
can_access-added_by false conditions o policies j = ground arith
can_access-added_by true conditions none policies j = ground arith
can_access-added_by true conditions (some k) policies j =
    ground (can_access-add policies k j conditions, arith)

can_access-add_permissions :
    (perms : List EffectivePermission) (policies : DomainPolicies) (j : DomainPermissionKey)
    → (can_access (add_permissions perms policies) j ≡ true)
      ↔ (Grants perms j ⊎ (can_access policies j ≡ true))
unfolding add_permissions
can_access-add_permissions [] policies j =
    (λ h. inr h, λ h. elim h [ inl (p, m, _, _) ↦ absurd m | inr acts ↦ acts ])
can_access-add_permissions (p ∷ perms) policies j =
    let later = can_access-add_permissions perms (added_by p policies) j in
    let now = can_access-added_by p.allowed p.conditions (domain_key p.permission) policies j in
    (
      λ h. elim (later.0 h) [
        | inl (q, m, allowed, is_key) ↦ inl (q, inr m, allowed, is_key)
        | inr acts ↦ elim (now.0 acts) [
          | inl (allowed, is_key) ↦ inl (p, inl refl, allowed, is_key)
          | inr old ↦ inr old
        ]
      ],
      λ h. elim h [
        | inl (q, m, allowed, is_key) ↦ elim m [
          | inl e ↦ later.1 (inr (now.1 (inl (subst Stands e (allowed, is_key)))))
          | inr m' ↦ later.1 (inl (q, m', allowed, is_key))
        ]
        | inr old ↦ later.1 (inr (now.1 (inr old)))
      ],
    )
  where
    Stands : EffectivePermission → Type 0
    Stands q = (q.allowed ≡ true) × (domain_key q.permission ≡ some j)

-- A bundle lets a user do what some allowed permission stands for, at that place and for that action,
-- and nothing else: the nesting by domain, equipment and location loses nothing and adds nothing.
pub build_domain_policies_iff :
    (perms : List EffectivePermission) (k : DomainPermissionKey)
    → (can_access (build_domain_policies perms) k ≡ true) ↔ Grants perms k
unfolding build_domain_policies
build_domain_policies_iff perms k =
    ground (can_access-add_permissions perms [] k, can_access-empty k, arith)
