-- ===== src/ApiKeys/Data.antt =====
-- domain/entities/CustomerApiKey.ts and the table of repositories/CustomerApiKeyRepository.ts, with its
-- queries. A scope is its text; a cursor of a page is the number that it prints.
use gcdr.Base.{◌==◌, ℕ, String, List, Bool, true, ◌&&◌, Option, find, any, includes, if◌then◌else◌}
use gcdr.Base.Records.{Entity}
use gcdr.Base.Text.{starts_with, ends_with}

pub record CustomerApiKey : Type 0 where
  pub entity : Entity
  pub open entity use *
  pub customer_id : String
  pub key_hash : String
  pub key_prefix : String
  pub name : String
  pub description : Option String
  pub scopes : List String
  pub expires_at : Option ℕ
  pub last_used_at : Option ℕ
  pub last_used_ip : Option String
  pub is_active : Bool
  pub usage_count : ℕ

pub record CreateApiKeyResult : Type 0 where
  pub api_key : CustomerApiKey
  pub plaintext_key : String

pub record ApiKeyContext : Type 0 where
  pub key_id : String
  pub tenant_id : String
  pub customer_id : String
  pub scopes : List String
  pub name : String

-- The keys, and the customers' rows.
pub record KeyDb : Type 0 where
  pub keys : List CustomerApiKey
  pub customers : List Entity

-- `random` is the hexadecimal text of the 32 random bytes.
pub record KeyEnv : Type 0 where
  pub tenant_id : String
  pub now : ℕ
  pub new_id : String
  pub random : String
  pub sha256 : String → String

-- hasScope
unfoldable pub has_scope : List String → String → Bool
has_scope granted required =
    if includes granted "*:read" && ends_with required ":read"
    then true
    else (if includes granted "simulator:admin" && starts_with required "simulator:"
        then true
        else includes granted required)

module _ (env : KeyEnv) where
  abbrev pub is_key : String → CustomerApiKey → Bool
  is_key id k = k.tenant_id == env.tenant_id && k.id == id

  -- CustomerRepository.getById, of which the code asks only whether there is a row
  unfoldable pub has_customer : String → KeyDb → Bool
  has_customer id db = any (λ (c : Entity). c.tenant_id == env.tenant_id && c.id == id) db.customers

  -- getById
  unfoldable pub key_by_id : String → KeyDb → Option CustomerApiKey
  key_by_id id db = find (is_key id) db.keys

  abbrev pub has_hash : String → CustomerApiKey → Bool
  has_hash hash k = k.tenant_id == env.tenant_id && k.key_hash == hash

  -- getByKeyHash
  unfoldable pub key_by_hash : String → KeyDb → Option CustomerApiKey
  key_by_hash hash db = find (has_hash hash) db.keys
