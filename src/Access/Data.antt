-- ===== src/Access/Data.antt =====
-- domain/entities/UserAccessBundle.ts and DomainPermission.ts, the rows of the cache, and the parts of
-- other tables that a bundle is built from. A text of the source that is always '1.0' is left out.
use Prim.Native.String
use Prim.Native.Char.{Char, code}
use gcdr.Base.{
  ℕ, String, Bool, true, false, ◌&&◌, ◌||◌, Option, none, some, List, [], ◌∷◌, leb, eqb,
  if◌then◌else◌, includes,
}
use gcdr.Base.Dict.{Dict, lookup}
use gcdr.Base.Records.{Event}
use gcdr.Base.Split.{split}
use gcdr.Authorization.Data.{PolicyConditions, Db}

pub data FeatureAccessType : Type 0 where
  guaranteed granted conditional denied not_granted : FeatureAccessType

pub record MaintenanceGroup : Type 0 where
  pub id : String
  pub key : String
  pub name : String

pub record BundleProfile : Type 0 where
  pub user_id : String
  pub user_email : String
  pub customer_id : Option String
  pub customer_name : Option String
  pub maintenance_group : Option MaintenanceGroup

pub record LocationActions : Type 0 where
  pub actions : List String
  pub conditions : Option PolicyConditions

abbrev pub DomainPolicies : Type 0
DomainPolicies = Dict (Dict (Dict LocationActions))

abbrev pub FeaturePolicies : Type 0
FeaturePolicies = Dict FeatureAccessType

pub record BundlePermissions : Type 0 where
  pub allowed_list : List String
  pub denied_list : List String

pub record BundleMetadata : Type 0 where
  pub generated_at : ℕ
  pub expires_at : ℕ
  pub ttl_seconds : ℕ
  pub scope : String
  pub source_roles : List String
  pub source_policies : List String
  pub checksum : String

pub record UserAccessBundle : Type 0 where
  pub profile : BundleProfile
  pub domain_policies : DomainPolicies
  pub feature_policies : FeaturePolicies
  pub permissions : BundlePermissions
  pub metadata : BundleMetadata

pub record UserBundleCache : Type 0 where
  pub id : String
  pub tenant_id : String
  pub user_id : String
  pub scope : String
  pub bundle : UserAccessBundle
  pub checksum : String
  pub generated_at : ℕ
  pub expires_at : ℕ
  pub invalidated_at : Option ℕ
  pub invalidation_reason : Option String
  pub created_at : ℕ
  pub updated_at : ℕ

pub record BundleGenerationOptions : Type 0 where
  pub scope : String
  pub include_features : Bool
  pub include_domains : Bool
  pub include_flat : Bool
  pub ttl_seconds : ℕ
  pub use_cache : Bool

abbrev pub default_bundle_options : BundleGenerationOptions
default_bundle_options = record {
  scope = "*";
  include_features = true;
  include_domains = true;
  include_flat = true;
  ttl_seconds = 3_600;
  use_cache = true;
}

pub record DomainPermissionKey : Type 0 where
  pub domain : String
  pub equipment : String
  pub location : String
  pub action : String

unfoldable pub format_domain_permission_key : DomainPermissionKey → String
format_domain_permission_key perm = String.◌++◌ perm.domain (
    String.◌++◌ "." (
      String.◌++◌ perm.equipment
        (String.◌++◌ "." (String.◌++◌ perm.location (String.◌++◌ ":" perm.action)))))

-- The class `\w`
unfoldable pub is_word_character : Char → Bool
is_word_character c =
    (leb b'a' (code c) && leb (code c) b'z')
    || (leb b'A' (code c) && leb (code c) b'Z')
    || (leb b'0' (code c) && leb (code c) b'9')
    || eqb (code c) b'_'

unfoldable pub all_word : String → Bool
unfolding is_word_character
all_word String.[] = true
all_word (String.◌∷◌ c s) = is_word_character c && all_word s

-- `\w+`
unfoldable pub is_word : String → Bool
unfolding all_word
is_word String.[] = false
is_word (String.◌∷◌ c s) = all_word (String.◌∷◌ c s)

abbrev pub words_before : String → List String → Option DomainPermissionKey
words_before action (d ∷ e ∷ l ∷ []) =
    if is_word d && is_word e && is_word l && is_word action
    then some (record { domain = d; equipment = e; location = l; action = action })
    else none
words_before action _ = none

abbrev pub around_colon : List String → Option DomainPermissionKey
around_colon (left ∷ action ∷ []) = words_before action (split b'.' left)
around_colon _ = none

-- The pattern: a colon between two parts, and two dots in the first. Words hold neither.
unfoldable pub parse_domain_permission_key : String → Option DomainPermissionKey
unfolding is_word
parse_domain_permission_key key = around_colon (split b':' key)

-- A user, and a customer, as far as a profile shows them.
pub record ProfileUser : Type 0 where
  pub id : String
  pub tenant_id : String
  pub email : String
  pub customer_id : Option String

pub record ProfileCustomer : Type 0 where
  pub id : String
  pub tenant_id : String
  pub display_name : String

pub record GroupMember : Type 0 where
  pub tenant_id : String
  pub user_id : String
  pub group_id : String
  pub expires_at : Option ℕ

-- The state of a call: the tables that are read, the cache and the events.
pub record BundleDb : Type 0 where
  pub users : List ProfileUser
  pub customers : List ProfileCustomer
  pub group_members : List GroupMember
  pub groups : List MaintenanceGroup
  pub authorization : Db
  pub cache : List UserBundleCache
  pub events : List Event

-- What a call takes from outside. `digest` is the first 16 digits of the SHA-256 of the
-- JSON of the four parts.
pub record BundleEnv : Type 0 where
  pub new_id : String
  pub now : ℕ
  pub tenant_id : String
  pub digest : BundleProfile → DomainPolicies → FeaturePolicies → BundlePermissions → String

-- `canAccessDomain`, which `checkDomainPermission` repeats.
abbrev pub acts_at : Option LocationActions → String → Bool
acts_at none action = false
acts_at (some l) action = includes l.actions action

abbrev pub inside : {V : Type 0} → Option (Dict V) → String → Option V
inside none key = none
inside (some m) key = lookup key m

unfoldable pub location_of : DomainPolicies → DomainPermissionKey → Option LocationActions
location_of policies k = inside (inside (lookup k.domain policies) k.equipment) k.location

unfoldable pub can_access : DomainPolicies → DomainPermissionKey → Bool
unfolding location_of
can_access policies k = acts_at (location_of policies k) k.action

-- `getFeatureAccessType`
unfoldable pub feature_access : FeaturePolicies → String → FeatureAccessType
feature_access policies key = elim (lookup key policies) [
  | none ↦ not_granted
  | some access ↦ access
]

-- `hasFeatureAccess`
abbrev pub is_open : FeatureAccessType → Bool
is_open guaranteed = true
is_open granted = true
is_open _ = false
