-- ===== src/ApiKeys/Lifetime.antt =====
-- A key works from its creation until it is revoked or deactivated.
use gcdr.Base.{
  ap, eq_iff, &&_iff, not, find_sound, Bool, ◌≢◌, Elem-filter_sound, filter, refl, find-none, inr,
  sym, inl, Elem, subst, Option-cases, ◌≡◌, ◌∙◌, String, [], ◌∷◌, ◌++◌, Option, none, some, true,
  false, arith, find, eq_refl,
}
use gcdr.Base.Errors.{ok}
use gcdr.Base.Rows.{find-append_missing}
use gcdr.Base.Text.{starts_with_complete, starts_with}
use gcdr.ApiKeys.Data.{
  is_key, key_by_id, has_customer, ApiKeyContext, CustomerApiKey, KeyDb, KeyEnv, key_by_hash,
}
use gcdr.ApiKeys.Service.{
  create_api_key, revoke_api_key, NewKey, validate_api_key_with_tenant, new_key, plaintext,
  has_expired, lacks_scope, context_of, key_start,
}

-- The same tenant and hash at another call.
abbrev pub at_time : KeyEnv → KeyEnv → KeyEnv
at_time env later = record later { tenant_id = env.tenant_id; sha256 = env.sha256 }

not-true : (b : Bool) → not b ≡ true → b ≡ false
not-true b h = ground arith

clash : (b : Bool) → b ≡ true → b ≡ false → ⊥
clash b holds fails = ground arith

module _ (env : KeyEnv) where
  valid_found :
      (key ip : String) (scope : Option String) (db : KeyDb) (context : ApiKeyContext)
      → (validate_api_key_with_tenant env key ip scope db).0 ≡ ok context
      → (k : CustomerApiKey) × (key_by_hash env (env.sha256 key) db ≡ some k)
        × (k.is_active ≡ true)
        × (has_expired env k.expires_at ≡ false)
        × (lacks_scope env k.scopes scope ≡ false)
        × (context ≡ context_of env k)
  unfolding validate_api_key_with_tenant
  valid_found key ip scope db context h =
      elim (Option-cases (key_by_hash env (env.sha256 key) db)) [
        | inl missing ↦ absurd (ground arith)
        | inr (k, found) ↦ (k, found, ground arith, ground arith, ground arith, ground arith)
      ]

module _ (env : KeyEnv) where
  made_found :
      (customer_id : String) (dto : NewKey) (user : String) (db : KeyDb)
      → key_by_hash env (env.sha256 (plaintext env)) db ≡ none
      → key_by_hash env
          (env.sha256 (plaintext env))
          (record db { keys = db.keys ++ new_key env customer_id dto user ∷ [] })
        ≡ some (new_key env customer_id dto user)
  unfolding key_by_hash find new_key
  made_found customer_id dto user db free =
      find-append_missing _ db.keys _ free
      ∙ rw (eq_refl env.tenant_id) (rw (eq_refl (env.sha256 (plaintext env))))

  validated :
      (later : KeyEnv) (k : CustomerApiKey) (key ip : String) (scope : Option String) (db : KeyDb)
      → starts_with key key_start ≡ true
      → key_by_hash later (later.sha256 key) db ≡ some k
      → k.is_active ≡ true
      → has_expired later k.expires_at ≡ false
      → lacks_scope later k.scopes scope ≡ false
      → (validate_api_key_with_tenant later key ip scope db).0 ≡ ok (context_of later k)
  unfolding validate_api_key_with_tenant
  validated later k key ip scope db form found active fresh granted = ground arith

  created :
      (customer_id : String) (dto : NewKey) (user : String) (db : KeyDb)
      → has_customer env customer_id db ≡ true
      → (create_api_key env customer_id dto user db).1
        ≡ record db { keys = db.keys ++ new_key env customer_id dto user ∷ [] }
  unfolding create_api_key
  created customer_id dto user db known = ground arith

  -- A key that was created for a customer of the tenant signs that customer's machines in, at any later
  -- call before its expiry that asks for nothing or for a scope that its scopes grant, where no key of
  -- the tenant had its hash before.
  pub validate-create :
      (later : KeyEnv) (customer_id : String) (dto : NewKey) (user ip : String)
      (scope : Option String) (db : KeyDb)
      → has_customer env customer_id db ≡ true
      → key_by_hash env (env.sha256 (plaintext env)) db ≡ none
      → has_expired later dto.expires_at ≡ false
      → lacks_scope later dto.scopes scope ≡ false
      → (validate_api_key_with_tenant
          (at_time env later)
          (plaintext env)
          ip
          scope
          (create_api_key env customer_id dto user db).1).0
        ≡ ok (context_of env (new_key env customer_id dto user))
  unfolding new_key key_by_hash context_of
  validate-create later customer_id dto user ip scope db known free fresh granted =
      subst
        (λ d.
          (validate_api_key_with_tenant (at_time env later) (plaintext env) ip scope d).0
          ≡ ok (context_of env (new_key env customer_id dto user)))
        (sym (created customer_id dto user db known))
        (validated (at_time env later) (new_key env customer_id dto user) (plaintext env) ip scope _
          (starts_with_complete (plaintext env) key_start env.random refl)
          (made_found customer_id dto user db free) refl fresh granted)

  revoked_missing :
      (id : String) (db : KeyDb)
      → key_by_id env id db ≡ none
      → (revoke_api_key env id db).1.keys ≡ db.keys
  unfolding revoke_api_key
  revoked_missing id db missing = ground arith

  revoked_found :
      (id : String) (db : KeyDb) (old : CustomerApiKey)
      → key_by_id env id db ≡ some old
      → (revoke_api_key env id db).1.keys ≡ filter (λ k. not (is_key env id k)) db.keys
  unfolding revoke_api_key
  revoked_found id db old found = ground arith

  none_left :
      (id : String) (db : KeyDb) (k : CustomerApiKey)
      → Elem k (revoke_api_key env id db).1.keys
      → is_key env id k ≡ false
  unfolding key_by_id
  none_left id db k member = elim (Option-cases (key_by_id env id db)) [
    | inl missing ↦
        find-none (is_key env id) k db.keys missing
          (subst (Elem k) (revoked_missing id db missing) member)
    | inr (old, found) ↦
        let kept = subst (Elem k) (revoked_found id db old found) member in
        let (_, other) = Elem-filter_sound (λ x. not (is_key env id x)) k db.keys kept in
        not-true (is_key env id k) other
  ]

  -- After a key is revoked, or was not there to revoke, no call of the tenant signs in as this key, with
  -- whatever text, at whatever time.
  pub validate-revoke :
      (later : KeyEnv) (id key ip : String) (scope : Option String) (db : KeyDb)
      (context : ApiKeyContext)
      → (validate_api_key_with_tenant
          (at_time env later)
          key
          ip
          scope
          (revoke_api_key env id db).1).0
        ≡ ok context
      → context.key_id ≢ id
  unfolding key_by_hash context_of
  validate-revoke later id key ip scope db context accepted same =
      let (k, found, _, _, _, is_context) =
        valid_found (at_time env later) key ip scope (revoke_api_key env id db).1 context
          accepted in
      let (member, hit) = find_sound _ (revoke_api_key env id db).1.keys found in
      let (tenant, _) = (&&_iff _ _).0 hit in
      clash (is_key env id k)
        ((&&_iff _ _).1 (
          tenant,
          (eq_iff k.id id).1 (sym (ap (λ (c : ApiKeyContext). c.key_id) is_context) ∙ same),
        ))
        (none_left id db k member)
