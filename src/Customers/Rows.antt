-- ===== src/Customers/Rows.antt =====
-- repositories/CustomerRepository.ts: queries on customers, and the text of paths and codes. The ids
-- are UUIDs, so that the pattern of `like` has no wildcard but its last character.
use gcdr.Base.{
  is_some, includes, ℕ, zero, suc, ◌+◌, String, Bool, true, false, not, ◌&&◌, ◌||◌, Option, none,
  some, List, [], ◌∷◌, filter, find, text_is, is_empty, ltb, leb, eqb, if◌then◌else◌, ◌==◌,
}
use Prim.Native.Char.{Char, code}
use Prim.Native.String
use gcdr.Base.Text.{starts_with, upper_case}
use gcdr.Base.Split.{split}
use gcdr.Base.Sort.{sort}
use gcdr.Base.Errors.{Result, ok, err, app, text, AppError}
use gcdr.Customers.Data.{Customer, CustomerEnv}

infixr 66 ◌+++◌
abbrev pub ◌+++◌ : String → String → String
a +++ b = String.◌++◌ a b

-- `${parent.path}/${id}`
abbrev pub under : String → String → String
under path id = path +++ ("/" +++ id)

-- `/${tenantId}/${id}`
abbrev pub root_path : String → String → String
root_path tenant id = "/" +++ (tenant +++ ("/" +++ id))

abbrev pub has_key : String → String → Customer → Bool
has_key tenant id c = c.tenant_id == tenant && c.id == id

abbrev pub get_by_id : CustomerEnv → String → List Customer → Option Customer
get_by_id env id = find (has_key env.tenant_id id)

abbrev pub get_by_code : CustomerEnv → String → List Customer → Option Customer
get_by_code env code = find (λ c. c.tenant_id == env.tenant_id && c.code == code)

-- `parentCustomerId = …`, or `IS NULL`.
abbrev pub has_parent : Option String → Customer → Bool
has_parent none c = not (is_some c.parent_customer_id)
has_parent (some p) c = text_is c.parent_customer_id p

abbrev pub by_name : CustomerEnv → Customer → Customer → Bool
by_name env a b = env.name_before a.name b.name

abbrev pub by_depth_name : CustomerEnv → Customer → Customer → Bool
by_depth_name env a b = ltb a.depth b.depth || eqb a.depth b.depth && env.name_before a.name b.name

abbrev pub by_depth : Customer → Customer → Bool
by_depth a b = ltb a.depth b.depth

unfoldable pub get_children : CustomerEnv → Option String → List Customer → List Customer
get_children env parent rows =
    sort (by_name env) (filter (λ c. c.tenant_id == env.tenant_id && has_parent parent c) rows)

abbrev pub customer_not_found : AppError
customer_not_found = app "CUSTOMER_NOT_FOUND" (text "Customer not found") 404

abbrev pub is_under : CustomerEnv → String → Customer → Bool
is_under env path c = c.tenant_id == env.tenant_id && starts_with c.path (path +++ "/")

abbrev pub within_depth : Option ℕ → ℕ → Customer → Bool
within_depth none depth c = true
within_depth (some most) depth c = leb c.depth (depth + most)

abbrev pub descendants_of :
    CustomerEnv → Option ℕ → List Customer → Option Customer → Result (List Customer)
descendants_of env most rows none = err customer_not_found
descendants_of env most rows (some c) = ok (
    filter (within_depth most c.depth)
      (sort (by_depth_name env) (filter (is_under env c.path) rows)))

unfoldable pub get_descendants :
    CustomerEnv → String → Option ℕ → List Customer → Result (List Customer)
get_descendants env id most rows = descendants_of env most rows (get_by_id env id rows)

-- `slice(1, -1)`
abbrev pub init : List String → List String
init [] = []
init (x ∷ []) = []
init (x ∷ y ∷ rest) = x ∷ init (y ∷ rest)

abbrev pub tail : List String → List String
tail [] = []
tail (_ ∷ rest) = rest

-- The ids between the tenant and the customer itself.
unfoldable pub ancestor_ids : String → List String
ancestor_ids path = init (tail (filter (λ w. not (w == "")) (split 0x2f path)))

abbrev pub ancestors_of : CustomerEnv → List Customer → Option Customer → Result (List Customer)
ancestors_of env rows none = err customer_not_found
ancestors_of env rows (some c) =
    let ids = ancestor_ids c.path in
    ok (
      if is_empty ids
      then []
      else sort by_depth (filter (λ a. a.tenant_id == env.tenant_id && includes ids a.id) rows))

unfoldable pub get_ancestors : CustomerEnv → String → List Customer → Result (List Customer)
get_ancestors env id rows = ancestors_of env rows (get_by_id env id rows)

-- `generateCode`
abbrev pub is_plain : Char → Bool
is_plain c = leb 0x30 (code c) && leb (code c) 0x39 || leb 0x41 (code c) && leb (code c) 0x5a

-- The two replacements in one pass: a run of other characters, and of dashes, gives one dash.
unfoldable pub dashed : Bool → String → String
dashed after String.[] = String.[]
dashed after (String.◌∷◌ c s) =
    let more = dashed true s in
    let kept = String.◌∷◌ c (dashed false s) in
    if is_plain c then kept else if after then more else "-" +++ more

unfoldable pub substring : ℕ → String → String
substring zero s = String.[]
substring (suc n) String.[] = String.[]
substring (suc n) (String.◌∷◌ c s) = String.◌∷◌ c (substring n s)

abbrev pub generate_code : String → String
generate_code name = substring 20 (dashed false (upper_case name))

-- `s.replace(old, new)`: the first occurrence.
unfoldable pub drop_text : String → String → String
drop_text String.[] s = s
drop_text (String.◌∷◌ _ _) String.[] = String.[]
drop_text (String.◌∷◌ _ p) (String.◌∷◌ _ s) = drop_text p s

unfoldable pub replace_first : String → String → String → String
replace_first old new String.[] = if old == "" then new else String.[]
replace_first old new (String.◌∷◌ c s) =
    let later = replace_first old new s in
    if starts_with (String.◌∷◌ c s) old
    then new +++ drop_text old (String.◌∷◌ c s)
    else String.◌∷◌ c later
