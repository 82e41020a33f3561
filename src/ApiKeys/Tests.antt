-- ===== src/ApiKeys/Tests.antt =====
-- Runs of the model of API keys, and its theorems at these inputs.
use gcdr.Base.Text.{ends_with}
use gcdr.Base.{includes, filter, refl, ◌≡◌, ◌≢◌, ◌↔◌, [], ◌∷◌, none, some, true, find, any}
use gcdr.Base.Errors.{ok}
use gcdr.Base.Records.{Entity}
use gcdr.Base.Text.{starts_with}
use gcdr.ApiKeys.Data.{
  CustomerApiKey, KeyDb, KeyEnv, has_customer, key_by_hash, key_by_id, has_scope,
}
use gcdr.ApiKeys.Service.{
  NewKey, create_api_key, validate_api_key_with_tenant, revoke_api_key, new_key, plaintext,
  context_of,
}
use gcdr.ApiKeys.Scopes.{has_scope_iff, Grants}
use gcdr.ApiKeys.Lifetime.{at_time, validate-create, validate-revoke}

abbrev env : KeyEnv
env = record { tenant_id = "t1"; now = 1000; new_id = "k1"; random = "a1b2c3d4e5"; sha256 = λ s. s }

abbrev later : KeyEnv
later = record env { now = 5000 }

abbrev customer_row : Entity
customer_row = record {
  id = "c1";
  tenant_id = "t1";
  created_at = 10;
  updated_at = 10;
  created_by = none;
  updated_by = none;
  version = 1;
}

abbrev db : KeyDb
db = record { keys = []; customers = customer_row ∷ [] }

abbrev dto : NewKey
dto = record {
  name = "Node-RED";
  description = none;
  scopes = "*:read" ∷ [];
  expires_at = some 9000;
}

abbrev other_key : CustomerApiKey
other_key = record (new_key env "c1" dto "admin") {
  entity = record customer_row { id = "k7" };
  key_hash = "gcdr_cust_zzz";
}

abbrev two_keys : KeyDb
two_keys = record db { keys = new_key env "c1" dto "admin" ∷ other_key ∷ [] }

has_scope_iff_example :
    (has_scope ("*:read" ∷ []) "rules:read" ≡ true) ↔ Grants ("*:read" ∷ []) "rules:read"
has_scope_iff_example = has_scope_iff ("*:read" ∷ []) "rules:read"

validate-create_example :
    (validate_api_key_with_tenant
      (at_time env later)
      (plaintext env)
      "10.0.0.1"
      (some "rules:read")
      (create_api_key env "c1" dto "admin" db).1).0
    ≡ ok (context_of env (new_key env "c1" dto "admin"))
unfolding has_customer any key_by_hash find has_scope includes ends_with
validate-create_example =
    validate-create env later "c1" dto "admin" "10.0.0.1" (some "rules:read") db refl refl refl refl

-- The other key still signs in once the first is revoked.
other_accepted :
    (validate_api_key_with_tenant
      (at_time env later)
      "gcdr_cust_zzz"
      "10.0.0.1"
      none
      (revoke_api_key env "k1" two_keys).1).0
    ≡ ok (context_of env other_key)
unfolding validate_api_key_with_tenant revoke_api_key key_by_id key_by_hash find starts_with new_key
    filter
other_accepted = refl

validate-revoke_example : (context_of env other_key).key_id ≢ "k1"
validate-revoke_example =
    validate-revoke env later "k1" "gcdr_cust_zzz" "10.0.0.1" none two_keys
      (context_of env other_key) other_accepted
