-- ===== src/Authorization/Effective/Sources.antt =====
-- Where the permissions that `getEffectivePermissions` lists come from.
use gcdr.Authorization.Data.{Policy, Db, Env}
use gcdr.Authorization.Effective.{
  merge_policies, EffectivePermission, entry, is_open, allow_all, deny_all, effective_map,
  get_effective_permissions,
}
use gcdr.Authorization.Tables.{policies_by_keys}
use gcdr.Base.{
  true, false, if◌then◌else◌, [], Bool, inr, sym, Elem-filter_sound, Elem-map_inv, ◌∷◌, subst, Elem,
  inl, List, Option, String, refl, Bool-cases, ◌==◌,
}
use gcdr.Base.Dict.{lookup, Dict, insert}

module _ (Q : String → Type 0) where
  -- Every entry of the map is about a permission with the property.
  abbrev AllAbout : Dict EffectivePermission → Type 0
  AllAbout [] = Unit
  AllAbout ((k, e) ∷ m) = Q e.permission × AllAbout m

  AllAbout-Elem :
      (x : String × EffectivePermission) (m : Dict EffectivePermission)
      → AllAbout m
      → Elem x m
      → Q x.1.permission
  AllAbout-Elem x [] all mem = absurd mem
  AllAbout-Elem x ((k, e) ∷ m) (q, all) mem = elim mem [
    | inl same ↦ subst (λ (y : String × EffectivePermission). Q y.1.permission) (sym same) q
    | inr later ↦ AllAbout-Elem x m all later
  ]

  insert-AllAbout :
      (key : String) (e : EffectivePermission) (m : Dict EffectivePermission)
      → Q e.permission
      → AllAbout m
      → AllAbout (insert key e m)
  unfolding insert
  insert-AllAbout key e [] q all = (q, tt)
  insert-AllAbout key e ((k, old) ∷ rest) q (q', all) = elim (Bool-cases (k == key)) [
    | inl here ↦ rw here (q, all)
    | inr other ↦ rw other (q', insert-AllAbout key e rest q all)
  ]

  allow_all-AllAbout :
      (p : Policy) (xs : List String) (m : Dict EffectivePermission)
      → ((t : String) → Elem t xs → Q t)
      → AllAbout m
      → AllAbout (allow_all p xs m)
  unfolding allow_all entry
  allow_all-AllAbout p [] m qs all = all
  allow_all-AllAbout p (x ∷ xs) m qs all =
      allow_all-AllAbout p xs _ (λ t mem. qs t (inr mem)) (if_AllAbout (is_open (lookup x m)))
    where
      if_AllAbout : (b : Bool) → AllAbout (if b then insert x (entry p x true) m else m)
      if_AllAbout true = insert-AllAbout x (entry p x true) m (qs x (inl refl)) all
      if_AllAbout false = all

  deny_all-AllAbout :
      (p : Policy) (xs : List String) (m : Dict EffectivePermission)
      → ((t : String) → Elem t xs → Q t)
      → AllAbout m
      → AllAbout (deny_all p xs m)
  unfolding deny_all entry
  deny_all-AllAbout p [] m qs all = all
  deny_all-AllAbout p (x ∷ xs) m qs all =
      deny_all-AllAbout p xs _ (λ t mem. qs t (inr mem))
        (insert-AllAbout x (entry p x false) m (qs x (inl refl)) all)

  -- All texts of the policy have the property.
  abbrev pub PolicyAbout : Policy → Type 0
  PolicyAbout p = ((t : String) → Elem t p.allow → Q t) × ((t : String) → Elem t p.deny → Q t)

  merge-AllAbout :
      (ps : List Policy) (m : Dict EffectivePermission)
      → ((p : Policy) → Elem p ps → PolicyAbout p)
      → AllAbout m
      → AllAbout (merge_policies ps m)
  unfolding merge_policies
  merge-AllAbout [] m qs all = all
  merge-AllAbout (p ∷ ps) m qs all =
      let (allows, denies) = qs p (inl refl) in
      merge-AllAbout ps _ (λ q mem. qs q (inr mem))
        (deny_all-AllAbout p p.deny _ denies (allow_all-AllAbout p p.allow m allows all))

  policies_by_keys_sound :
      (env : Env) (keys : List String) (db : Db) (p : Policy)
      → Elem p (policies_by_keys env keys db)
      → Elem p db.policies
  unfolding policies_by_keys
  policies_by_keys_sound env [] db p mem = absurd mem
  policies_by_keys_sound env (k ∷ ks) db p mem = (Elem-filter_sound _ p db.policies mem).0

  -- What holds of all texts of all policies holds of the permissions that are listed.
  pub effective_about :
      (env : Env) (user : String) (scope : Option String) (db : Db) (e : EffectivePermission)
      → ((p : Policy) → Elem p db.policies → PolicyAbout p)
      → Elem e (get_effective_permissions env user scope db)
      → Q e.permission
  unfolding get_effective_permissions effective_map
  effective_about env user scope db e qs mem =
      let (x, m, same) = Elem-map_inv _ e _ mem in
      subst (λ (y : EffectivePermission). Q y.permission) (sym same)
        (AllAbout-Elem x _
          (merge-AllAbout (policies_by_keys env _ db) []
            (λ p k. qs p (policies_by_keys_sound env _ db p k)) tt)
          m)
