-- ===== src/Access/Keys.antt =====
-- Keys of domain permissions, written and read.
use Prim.Native.String
use text.Mathlib.TextLemmas.{append_assoc}
use gcdr.Base.{subst, ap, ◌∙◌, some, [], ◌∷◌, refl, String, ◌≡◌, true, arith, &&_iff}
use gcdr.Base.Split.{append-Lacks, split, split-separated, Lacks, split-Lacks}
use gcdr.Access.Data.{
  DomainPermissionKey, parse_domain_permission_key, format_domain_permission_key, is_word, all_word,
  is_word_character,
}
use gcdr.Access.Build.{domain_key}
use gcdr.Access.Formats.{dot-Lacks}
use gcdr.Authorization.Matching.{dotted, split-dotted}

all_word-Lacks : (s : String) → all_word s ≡ true → Lacks b'.' s × Lacks b':' s
unfolding all_word is_word_character
all_word-Lacks String.[] h = (tt, tt)
all_word-Lacks (String.◌∷◌ c s) h =
    let (first, rest) = (&&_iff (is_word_character c) (all_word s)).0 h in
    let (dots, colons) = all_word-Lacks s rest in
    ((ground (first, arith), dots), (ground (first, arith), colons))

is_word-Lacks : (s : String) → is_word s ≡ true → Lacks b'.' s × Lacks b':' s
unfolding is_word
is_word-Lacks String.[] h = (tt, tt)
is_word-Lacks (String.◌∷◌ c s) h = all_word-Lacks (String.◌∷◌ c s) h

abbrev key_of : String → String → String → String → DomainPermissionKey
key_of d e l a = record { domain = d; equipment = e; location = l; action = a }

-- The parts of the key are words.
abbrev pub IsKey : DomainPermissionKey → Type 0
IsKey k =
    (is_word k.domain ≡ true)
    × (is_word k.equipment ≡ true)
    × (is_word k.location ≡ true)
    × (is_word k.action ≡ true)

-- The colon ends what stands before it.
format-dotted :
    (d e l a : String)
    → String.◌++◌ (dotted d e l) (String.◌++◌ ":" a) ≡ format_domain_permission_key (key_of d e l a)
unfolding format_domain_permission_key
format-dotted d e l a = rw append_assoc (rw append_assoc (rw append_assoc (rw append_assoc refl)))

split-format :
    (k : DomainPermissionKey)
    → IsKey k
    → split b':' (format_domain_permission_key k)
      ≡ dotted k.domain k.equipment k.location ∷ k.action ∷ []
split-format k (d, e, l, a) =
    let (_, d_colons) = is_word-Lacks k.domain d in
    let (_, e_colons) = is_word-Lacks k.equipment e in
    let (_, l_colons) = is_word-Lacks k.location l in
    let (_, a_colons) = is_word-Lacks k.action a in
    let before =
      append-Lacks b':' k.domain _ d_colons
        (dot-Lacks _ (append-Lacks b':' k.equipment _ e_colons (dot-Lacks k.location l_colons))) in
    subst (λ t. split b':' t ≡ dotted k.domain k.equipment k.location ∷ k.action ∷ [])
      (format-dotted k.domain k.equipment k.location k.action)
      (split-separated b':' (dotted k.domain k.equipment k.location) ":" k.action before refl
        ∙ ap (λ r. dotted k.domain k.equipment k.location ∷ r) (split-Lacks b':' k.action a_colons))

parse-format_key :
    (k : DomainPermissionKey)
    → IsKey k
    → parse_domain_permission_key (format_domain_permission_key k) ≡ some k
unfolding parse_domain_permission_key
parse-format_key k (d, e, l, a) = rw (split-format k (d, e, l, a)) (
    rw
      (split-dotted k.domain k.equipment k.location (is_word-Lacks k.domain d).0
        (is_word-Lacks k.equipment e).0 (is_word-Lacks k.location l).0)
      (rw d (rw e (rw l (rw a refl)))))

-- A key whose parts are words is read back from its text, by the pattern and as the key that a
-- permission with this text stands for.
pub parse-format :
    (k : DomainPermissionKey)
    → IsKey k
    → (parse_domain_permission_key (format_domain_permission_key k) ≡ some k)
      × (domain_key (format_domain_permission_key k) ≡ some k)
unfolding domain_key
parse-format k words = (parse-format_key k words, rw (parse-format_key k words) refl)
