-- ===== src/Customers/Ancestors.antt =====
-- The ids that are read off a path are those of the chain of parents.
use gcdr.Base.{
  ◌≡◌, ◌≢◌, refl, sym, ap, subst, ◌∙◌, String, not, none, some, List, [], ◌∷◌, ◌++◌, filter, ◌==◌,
  eq_iff, Elem, arith,
}
use package.text.Mathlib.TextLemmas.{nil-append, append_assoc, append-nil}
use gcdr.Base.Split.{split, Lacks, split-Lacks, split-separated}
use gcdr.Customers.Data.{Customer}
use gcdr.Customers.Rows.{◌+++◌, under, root_path, ancestor_ids, init, tail}
use gcdr.Customers.Places.{PlacedBy, IsTree}

-- A part of a path: not empty and without a slash.
abbrev pub IsPart : String → Type 0
IsPart w = (w ≢ "") × Lacks 0x2f w

abbrev AllParts : List String → Type 0
AllParts [] = Unit {0}
AllParts (w ∷ ws) = IsPart w × AllParts ws

abbrev joined : List String → String
joined [] = ""
joined (w ∷ ws) = "/" +++ (w +++ joined ws)

joined-snoc : (ws : List String) (w : String) → joined (ws ++ (w ∷ [])) ≡ joined ws +++ ("/" +++ w)
joined-snoc [] w = ap (λ t. "/" +++ t) (append-nil w) ∙ sym (nil-append ("/" +++ w))
joined-snoc (x ∷ ws) w =
    ap (λ t. "/" +++ (x +++ t)) (joined-snoc ws w)
    ∙ ap (λ t. "/" +++ t) (sym (append_assoc x (joined ws) ("/" +++ w)))
    ∙ sym (append_assoc "/" (x +++ joined ws) ("/" +++ w))

split-joined :
    (w : String) (ws : List String) → IsPart w → AllParts ws → split 0x2f (w +++ joined ws) ≡ w ∷ ws
split-joined w [] h hs = ap (split 0x2f) (append-nil w) ∙ split-Lacks 0x2f w h.1
split-joined w (x ∷ ws) h hs =
    split-separated 0x2f w _ (x +++ joined ws) h.1 refl
    ∙ ap (λ r. w ∷ r) (split-joined x ws hs.0 hs.1)

split_path :
    (w : String) (ws : List String)
    → IsPart w
    → AllParts ws
    → split 0x2f (joined (w ∷ ws)) ≡ "" ∷ w ∷ ws
split_path w ws h hs =
    sym (ap (split 0x2f) (nil-append ("/" +++ (w +++ joined ws))))
    ∙ split-separated 0x2f "" _ (w +++ joined ws) tt refl
    ∙ ap (λ r. "" ∷ r) (split-joined w ws h hs)

filter_parts : (ws : List String) → AllParts ws → filter (λ w. not (w == "")) ws ≡ ws
unfolding filter
filter_parts [] h = refl
filter_parts (w ∷ ws) h = ground (arith, h.0.0, eq_iff w "", filter_parts ws h.1)

init-snoc : (ws : List String) (w : String) → init (ws ++ (w ∷ [])) ≡ ws
init-snoc [] w = refl
init-snoc (x ∷ []) w = refl
init-snoc (x ∷ y ∷ ws) w = ap (λ r. x ∷ r) (init-snoc (y ∷ ws) w)

AllParts-snoc : (ws : List String) (w : String) → AllParts ws → IsPart w → AllParts (ws ++ (w ∷ []))
AllParts-snoc [] w h i = (i, tt)
AllParts-snoc (x ∷ ws) w h i = (h.0, AllParts-snoc ws w h.1 i)

ancestor_ids-joined :
    (tenant id : String) (ids : List String)
    → IsPart tenant
    → AllParts ids
    → IsPart id
    → ancestor_ids (joined (tenant ∷ (ids ++ (id ∷ [])))) ≡ ids
unfolding ancestor_ids filter
ancestor_ids-joined tenant id ids t hs h =
    ap (λ ws. init (tail (filter (λ w. not (w == "")) ws)))
      (split_path tenant (ids ++ (id ∷ [])) t (AllParts-snoc ids id hs h))
    ∙ ap (λ ws. init (tail ws))
        (filter_parts (tenant ∷ (ids ++ (id ∷ []))) (t, AllParts-snoc ids id hs h))
    ∙ init-snoc ids id

-- The ids from the root down to the parent.
pub data Chain (rows : List Customer) : Customer → List String → Type 0 where
  root : (c : Customer) → Elem c rows → c.parent_customer_id ≡ none → Chain rows c []
  branch :
      (p c : Customer) (ids more : List String)
      → Chain rows p ids
      → Elem c rows
      → c.parent_customer_id ≡ some p.id
      → more ≡ ids ++ (p.id ∷ [])
      → Chain rows c more

module _ (rows : List Customer) (v : IsTree rows) (tenant : String) where
  -- Every row of the tenant, and the tenant itself, can be a part of a path.
  abbrev pub CleanIds : Type 0
  CleanIds = (c : Customer) → Elem c rows → IsPart c.id

  abbrev Along : Customer → List String → Type 0
  Along c ids = Elem c rows × AllParts ids × (c.path ≡ joined (tenant ∷ (ids ++ (c.id ∷ []))))

  Chain-Elem : (c : Customer) (ids : List String) → Chain rows c ids → Elem c rows
  Chain-Elem c _ (root _ m p) = m
  Chain-Elem c _ (branch _ _ _ _ k m e q) = m

  Chain-Along :
      (c : Customer) (ids : List String)
      → CleanIds
      → c.tenant_id ≡ tenant
      → Chain rows c ids
      → Along c ids
  Chain-Along c _ clean t (root _ m p) =
      let (h, _) = subst (λ o. PlacedBy o rows c) p (v.placed c m) in
      (
        m,
        tt,
        h
            ∙ ap (λ u. root_path u c.id) t
            ∙ sym (ap (λ x. "/" +++ (tenant +++ ("/" +++ x))) (append-nil c.id)),
      )
  Chain-Along c _ clean t (branch p _ ids more k m e q) =
      let (x, n, u, i, h, _) = subst (λ o. PlacedBy o rows c) e (v.placed c m) in
      let same : x ≡ p = v.unique x p n (Chain-Elem p ids k) i in
      let (n', parts, along) =
        Chain-Along p ids clean (sym (ap (λ (z : Customer). z.tenant_id) same) ∙ u ∙ t) k in
      (
        m,
        subst AllParts (sym q) (AllParts-snoc ids p.id parts (clean p n')),
        h
            ∙ ap (λ (z : Customer). under z.path c.id) same
            ∙ ap (λ w. under w c.id) along
            ∙ sym (joined-snoc (tenant ∷ (ids ++ (p.id ∷ []))) c.id)
            ∙ ap (λ ws. joined (tenant ∷ (ws ++ (c.id ∷ [])))) (sym q),
      )

  -- In a hierarchy whose paths are in order, and whose ids and tenant are not empty and have no slash, the
  -- ids that are read off the path of a customer are those from its root down to its parent, in order.
  pub ancestor_ids-Chain :
      (c : Customer) (ids : List String)
      → IsPart tenant
      → CleanIds
      → c.tenant_id ≡ tenant
      → Chain rows c ids
      → ancestor_ids c.path ≡ ids
  ancestor_ids-Chain c ids h clean t k =
      let (m, parts, path) = Chain-Along c ids clean t k in
      ap ancestor_ids path ∙ ancestor_ids-joined tenant c.id ids h parts (clean c m)
