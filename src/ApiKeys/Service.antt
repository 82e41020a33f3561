-- ===== src/ApiKeys/Service.antt =====
-- services/CustomerApiKeyService.ts with the writes of repositories/CustomerApiKeyRepository.ts. The two
-- counts of a use, which the code does not wait for, are taken as done.
use Prim.Native.String
use Prim.Native.String.{String}
use gcdr.Base.{
  ◌+◌, ◌==◌, ℕ, zero, suc, List, [], ◌∷◌, ◌++◌, Bool, true, false, not, none, some, Option, filter,
  or_else, ltb, if◌then◌else◌,
}
use gcdr.Base.Errors.{
  Action, ◌>>=◌, ◌>>◌, gets, pure, modify, throw, throw_if, or_throw, unauthorized, not_found, text,
  naming, plain,
}
use gcdr.Base.Rows.{update_where}
use gcdr.Base.Text.{starts_with}
use gcdr.ApiKeys.Data.{
  CustomerApiKey, CreateApiKeyResult, ApiKeyContext, KeyDb, KeyEnv, has_scope, has_customer,
  key_by_id, key_by_hash, is_key,
}

-- CreateCustomerApiKeyDTO and UpdateCustomerApiKeyDTO
pub record NewKey : Type 0 where
  pub name : String
  pub description : Option String
  pub scopes : List String
  pub expires_at : Option ℕ

pub record KeyChange : Type 0 where
  pub name : Option String
  pub description : Option String
  pub scopes : Option (List String)
  pub is_active : Option Bool

abbrev pub key_start : String
key_start = "gcdr_cust_"

-- `randomPart.substring(0, n)`
abbrev pub first_characters : ℕ → String → String
first_characters zero s = ""
first_characters (suc n) String.[] = ""
first_characters (suc n) (String.◌∷◌ c s) = String.◌∷◌ c (first_characters n s)

-- `description || null`
abbrev filled : Option String → Option String
filled none = none
filled (some s) = if s == "" then none else some s

abbrev first_given : {A : Type 0} → Option A → Option A → Option A
first_given none old = old
first_given (some a) old = some a

module _ (env : KeyEnv) where
  abbrev pub plaintext : String
  plaintext = String.◌++◌ key_start env.random

  unfoldable pub new_key : String → NewKey → String → CustomerApiKey
  new_key customer_id dto created_by = record {
    entity = record {
      id = env.new_id;
      tenant_id = env.tenant_id;
      created_at = env.now;
      updated_at = env.now;
      created_by = some created_by;
      updated_by = none;
      version = 1;
    };
    customer_id = customer_id;
    key_hash = env.sha256 plaintext;
    key_prefix = first_characters 8 env.random;
    name = dto.name;
    description = filled dto.description;
    scopes = dto.scopes;
    expires_at = dto.expires_at;
    last_used_at = none;
    last_used_ip = none;
    is_active = true;
    usage_count = 0;
  }

  -- createApiKey, with the repository's create
  unfoldable pub create_api_key : String → NewKey → String → Action KeyDb CreateApiKeyResult
  unfolding new_key
  create_api_key customer_id dto created_by = do
    known ← gets (has_customer env customer_id)
    throw_if (not known) (not_found (naming "Customer not found" customer_id))
    let api_key = new_key customer_id dto created_by
    modify (λ db. record db { keys = db.keys ++ api_key ∷ [] })
    pure (record { api_key = api_key; plaintext_key = plaintext })

  -- validateApiKey, which has no tenant and so always throws
  unfoldable pub validate_api_key : String → Action KeyDb ApiKeyContext
  validate_api_key plaintext_key = do
    throw_if (not (starts_with plaintext_key key_start))
        (unauthorized (text "Invalid API key format"))
    throw (plain (text "validateApiKey requires tenant context - use validateApiKeyWithTenant"))

  -- `expiresAt < new Date()`
  abbrev pub has_expired : Option ℕ → Bool
  has_expired none = false
  has_expired (some t) = ltb t env.now

  -- The required scope is given and not granted.
  abbrev pub lacks_scope : List String → Option String → Bool
  lacks_scope granted none = false
  lacks_scope granted (some required) =
      if required == "" then false else not (has_scope granted required)

  -- updateLastUsed and incrementUsageCount
  unfoldable pub used_change : String → CustomerApiKey → CustomerApiKey
  used_change ip k = record k {
    entity = record k.entity { updated_at = env.now };
    last_used_at = some env.now;
    last_used_ip = some ip;
    usage_count = k.usage_count + 1;
  }

  unfoldable pub context_of : CustomerApiKey → ApiKeyContext
  context_of k = record {
    key_id = k.id;
    tenant_id = k.tenant_id;
    customer_id = k.customer_id;
    scopes = k.scopes;
    name = k.name;
  }

  -- validateApiKeyWithTenant
  unfoldable pub validate_api_key_with_tenant :
      String → String → Option String → Action KeyDb ApiKeyContext
  unfolding used_change context_of
  validate_api_key_with_tenant plaintext_key client_ip required_scope = do
    throw_if (not (starts_with plaintext_key key_start))
        (unauthorized (text "Invalid API key format"))
    key ←
        or_throw (← gets (key_by_hash env (env.sha256 plaintext_key)))
          (unauthorized (text "Invalid API key"))
    throw_if (not key.is_active) (unauthorized (text "API key is deactivated"))
    throw_if (has_expired key.expires_at) (unauthorized (text "API key has expired"))
    throw_if (lacks_scope key.scopes required_scope)
        (unauthorized (naming "API key does not have required scope" (or_else required_scope "")))
    modify (λ db. record db {
      keys = update_where (is_key env key.id) (used_change client_ip) db.keys;
    })
    pure (context_of key)

  -- getApiKey
  unfoldable pub get_api_key : String → Action KeyDb CustomerApiKey
  get_api_key id = do
    or_throw (← gets (key_by_id env id)) (not_found (naming "API key not found" id))

  -- The fields that updateApiKey and the repository's update write, from the row that was read.
  unfoldable pub changed_key : KeyChange → String → CustomerApiKey → CustomerApiKey → CustomerApiKey
  changed_key dto user old row = record row {
    entity = record row.entity { updated_at = env.now; updated_by = some user };
    name = or_else dto.name old.name;
    description = filled (first_given dto.description old.description);
    scopes = or_else dto.scopes old.scopes;
    expires_at = old.expires_at;
    is_active = or_else dto.is_active old.is_active;
  }

  -- updateApiKey
  unfoldable pub update_api_key : String → KeyChange → String → Action KeyDb CustomerApiKey
  unfolding changed_key get_api_key
  update_api_key id dto user = do
    existing ← get_api_key id
    modify (λ db. record db {
      keys = update_where (is_key env id) (changed_key dto user existing) db.keys;
    })
    pure (changed_key dto user existing existing)

  abbrev activity : Bool → KeyChange
  activity b = record { name = none; description = none; scopes = none; is_active = some b }

  -- deactivateApiKey
  unfoldable pub deactivate_api_key : String → String → Action KeyDb CustomerApiKey
  deactivate_api_key id user = update_api_key id (activity false) user

  -- reactivateApiKey
  unfoldable pub reactivate_api_key : String → String → Action KeyDb CustomerApiKey
  reactivate_api_key id user = update_api_key id (activity true) user

  -- revokeApiKey
  unfoldable pub revoke_api_key : String → Action KeyDb (Unit {0})
  unfolding get_api_key
  revoke_api_key id = do
    get_api_key id
    modify (λ db. record db { keys = filter (λ k. not (is_key env id k)) db.keys })
