-- ===== src/Account/Sessions/Revoked.antt =====
-- Refresh tokens are for one use, and signing out everywhere revokes them all.
use gcdr.Base.{
  ◌+◌, ◌≡◌, ◌≢◌, ◌∙◌, ap, sym, subst, String, [], ◌∷◌, some, Option-cases, eq_iff, ◌==◌, true,
  false, not, inl, inr, arith, filter,
}
use gcdr.Account.Users.{user_by_id}
use gcdr.Base.Dict.{lookup-insert_ne, lookup-erase_self, Dict, lookup, insert, erase}
use gcdr.Base.Errors.{is_ok}
use gcdr.Account.Data.{Env}
use gcdr.Account.SignIn.{HmacSha1}
use gcdr.Account.Jwt.{Claims, Jose, verify_jwt}
use gcdr.Account.Sessions.{
  generate_tokens, AuthState, StoredToken, refresh, on_db, accept_claims, require_claims,
  stored_for, is_of_user, logout_all_devices, require_user,
}

-- A store that holds tokens of this user id for this tenant only.
abbrev pub IsOwn : Env → String → Dict StoredToken → Type 0
IsOwn env user_id [] = Unit
IsOwn env user_id ((_, stored) ∷ rest) =
    (stored.user_id ≡ user_id → stored.tenant_id ≡ env.tenant_id) × IsOwn env user_id rest

module _ (hmac : HmacSha1) (jose : Jose) (env : Env) (token_id : String) where
  none_stored :
      (user_id jti : String) (store : Dict StoredToken) (found : StoredToken)
      → IsOwn env user_id store
      → lookup jti (filter (λ e. not (is_of_user hmac jose env token_id user_id e)) store)
        ≡ some found
      → (found.user_id == user_id) ≡ false
  unfolding lookup filter
  none_stored user_id jti [] found own h = absurd (cc)
  none_stored user_id jti ((key, stored) ∷ rest) found own h = ground (
    arith,
    eq_iff stored.user_id user_id,
    eq_iff stored.tenant_id env.tenant_id,
    none_stored user_id jti rest found,
  )

  not_stored :
      (claims : Claims) (s : AuthState)
      → ((jti : String) (found : StoredToken)
          → claims.jti ≡ some jti
          → lookup jti s.refresh_tokens ≡ some found
          → (found.user_id == claims.subject) ≡ false)
      → stored_for hmac jose env token_id claims s ≡ false
  unfolding stored_for
  not_stored claims s absent = elim (Option-cases claims.jti) [
    | inl none_given ↦ ground arith
    | inr (jti, given) ↦ elim (Option-cases (lookup jti s.refresh_tokens)) [
      | inl missing ↦ ground arith
      | inr (found, there) ↦ ground (arith, absent jti found given there)
    ]
  ]

  -- After a sign-out everywhere no token of the user is in the store.
  none_for :
      (user_id : String) (claims : Claims) (s : AuthState)
      → IsOwn env user_id s.refresh_tokens
      → claims.subject ≡ user_id
      → (later : Env) (new_id : String)
      → stored_for hmac jose later new_id claims
          (logout_all_devices hmac jose env token_id user_id s).1
        ≡ false
  unfolding logout_all_devices on_db stored_for
  none_for user_id claims s own subject later new_id =
      not_stored claims (logout_all_devices hmac jose env token_id user_id s).1
        (λ jti found given there.
          subst (λ u. (found.user_id == u) ≡ false) (sym subject)
            (none_stored user_id jti s.refresh_tokens found own there))

  refresh_refused :
      (later : Env) (new_id token : String) (claims : Claims) (s : AuthState)
      → verify_jwt jose later.now token ≡ some claims
      → stored_for hmac jose later new_id claims s ≡ false
      → is_ok (refresh hmac jose later new_id token s).0 ≡ false
  unfolding refresh require_claims accept_claims
  refresh_refused later new_id token claims s read gone = ground arith

  -- Once a user has signed out of all devices, no refresh token of the user is honoured, whenever it
  -- was made and whenever it is tried, where the store holds the user's tokens for the tenant only.
  pub refresh-logout_all_devices :
      (user_id token : String) (claims : Claims) (s : AuthState) (later : Env) (new_id : String)
      → IsOwn env user_id s.refresh_tokens
      → verify_jwt jose later.now token ≡ some claims
      → claims.subject ≡ user_id
      → is_ok
          (refresh hmac jose later new_id token
            (logout_all_devices hmac jose env token_id user_id s).1).0
        ≡ false
  refresh-logout_all_devices user_id token claims s later new_id own read subject =
      refresh_refused later new_id token claims _ read
        (none_for user_id claims s own subject later new_id)

  refresh_stored :
      (token jti : String) (claims : Claims) (s : AuthState)
      → verify_jwt jose env.now token ≡ some claims
      → claims.jti ≡ some jti
      → is_ok (refresh hmac jose env token_id token s).0 ≡ true
      → (new : StoredToken) × ((refresh hmac jose env token_id token s).1.refresh_tokens
          ≡ insert token_id new (erase jti s.refresh_tokens))
  unfolding refresh require_claims accept_claims require_user on_db generate_tokens
  refresh_stored token jti claims s read given good =
      elim (Option-cases (user_by_id env claims.subject s.db)) [
        | inl missing ↦ absurd (ground arith)
        | inr (user, found) ↦ (
          record { user_id = user.id; tenant_id = env.tenant_id; expires_at = env.now + 604800000 },
          ground arith,
        )
      ]

  -- A refresh token is for one use: where a refresh with it went well, a further one with the same
  -- token is refused, at any time, if the id drawn for the new token is another.
  pub refresh_once :
      (token jti : String) (claims : Claims) (s : AuthState) (later : Env) (new_id : String)
      → verify_jwt jose env.now token ≡ some claims
      → verify_jwt jose later.now token ≡ some claims
      → claims.jti ≡ some jti
      → token_id ≢ jti
      → is_ok (refresh hmac jose env token_id token s).0 ≡ true
      → is_ok (refresh hmac jose later new_id token (refresh hmac jose env token_id token s).1).0
        ≡ false
  unfolding stored_for
  refresh_once token jti claims s later new_id read again given other good =
      let (new, tokens) = refresh_stored token jti claims s read given good in
      let gone =
        ap (lookup jti) tokens
        ∙ lookup-insert_ne token_id jti new (erase jti s.refresh_tokens) other
        ∙ lookup-erase_self jti s.refresh_tokens in
      refresh_refused later new_id token claims _ again (
        not_stored claims (refresh hmac jose env token_id token s).1
          (λ jti' found given' there. absurd (ground (arith, gone, there, given, given'))))
