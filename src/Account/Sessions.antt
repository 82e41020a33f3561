-- ===== src/Account/Sessions.antt =====
-- The sessions of services/AuthService.ts: sign-in, refresh tokens kept in a `Map` by their id, and
-- their revocation.
pub mod Revoked
use Prim.Native.String.{◌++◌}
use gcdr.Base.{
  ◌+◌, ◌*◌, ◌==◌, ℕ, String, [], Bool, true, false, ◌&&◌, not, none, some, Option, filter, or_else,
  if◌then◌else◌,
}
use gcdr.Base.Dict.{Dict, lookup, insert, erase}
use gcdr.Base.Errors.{
  Action, ◌>>=◌, ◌>>◌, gets, pure, modify, throw, throw_if, or_throw, unauthorized, not_found, text,
  naming,
}
use gcdr.Account.Data.{
  User, UserType, UserProfile, internal, customer, partner, service_account, active, MfaMethod,
  totp, Db, Env,
}
use gcdr.Account.Users.{user_by_id, same_status}
use gcdr.Account.Registration.{announce}
use gcdr.Account.SignIn.{
  HmacSha1, SignIn, mfa_required, signed_in, authenticate, verify_mfa_code, verify_backup_code,
  record_login_attempt, known_ip,
}
use gcdr.Account.Jwt.{Claims, Jose, create_jwt, verify_jwt}

abbrev pub access_token_expiry : ℕ
access_token_expiry = 3600

abbrev pub refresh_token_expiry : ℕ
refresh_token_expiry = 604800

abbrev pub mfa_token_expiry : ℕ
mfa_token_expiry = 300

pub record StoredToken : Type 0 where
  pub user_id : String
  pub tenant_id : String
  pub expires_at : ℕ

-- The tables, and the service's own map.
pub record AuthState : Type 0 where
  pub db : Db
  pub refresh_tokens : Dict StoredToken

pub record TokenResponse : Type 0 where
  pub access_token : String
  pub refresh_token : String
  pub token_type : String
  pub expires_in : ℕ
  pub refresh_expires_in : ℕ

pub record LoggedUser : Type 0 where
  pub id : String
  pub email : String
  pub display_name : String
  pub user_type : UserType

pub data LoginResponse : Type 0 where
  mfa_response : String → MfaMethod → ℕ → LoginResponse
  login_response : TokenResponse → LoggedUser → LoginResponse

abbrev type_text : UserType → String
type_text internal = "INTERNAL"
type_text customer = "CUSTOMER"
type_text partner = "PARTNER"
type_text service_account = "SERVICE_ACCOUNT"

-- `displayName || firstName + ' ' + lastName`
abbrev shown_name : UserProfile → String
shown_name profile =
    let name = or_else profile.display_name "" in
    if name == "" then profile.first_name ++ (" " ++ profile.last_name) else name

-- An action on the tables alone.
unfoldable pub on_db : {A : Type 0} → Action Db A → Action AuthState A
on_db m s = let (r, db) = m s.db in (r, record s { db = db })

abbrev claims_of : String → String → Claims
claims_of subject tenant_id = record {
  subject = subject;
  tenant_id = tenant_id;
  email = none;
  roles = none;
  token_type = none;
  jti = none;
  iat = 0;
  exp = 0;
  iss = "";
  aud = [];
}

-- `token_id` is the text of generateTokenId.
module _ (hmac : HmacSha1) (jose : Jose) (env : Env) (token_id : String) where
  unfoldable pub refresh_jwt : User → String
  refresh_jwt user =
      create_jwt jose env.now
        (record (claims_of user.id env.tenant_id) {
          jti = some token_id;
          token_type = some "refresh";
        })
        refresh_token_expiry

  unfoldable pub token_response : User → TokenResponse
  unfolding refresh_jwt
  token_response user = record {
    access_token =
        create_jwt jose env.now
          (record (claims_of user.id env.tenant_id) {
            email = some user.email;
            roles = some [];
            token_type = some (type_text user.user_type);
          })
          access_token_expiry;
    refresh_token = refresh_jwt user;
    token_type = "Bearer";
    expires_in = access_token_expiry;
    refresh_expires_in = refresh_token_expiry;
  }

  -- generateTokens
  unfoldable pub generate_tokens : User → Action AuthState TokenResponse
  unfolding token_response
  generate_tokens user = do
    modify (λ s. record s {
      refresh_tokens =
          insert token_id
            (record {
              user_id = user.id;
              tenant_id = env.tenant_id;
              expires_at = env.now + refresh_token_expiry * 1000;
            })
            s.refresh_tokens;
    })
    pure (token_response user)

  -- createMfaToken
  unfoldable pub create_mfa_token : String → String
  create_mfa_token user_id =
      create_jwt jose env.now (record (claims_of user_id env.tenant_id) { token_type = some "mfa" })
        mfa_token_expiry

  abbrev logged_user : User → LoggedUser
  logged_user user = record {
    id = user.id;
    email = user.email;
    display_name = shown_name user.profile;
    user_type = user.user_type;
  }

  unfoldable pub login :
      String → String → Option String → Option String → Action AuthState LoginResponse
  unfolding on_db
  login email password mfa_code ip = do
    outcome ← on_db (authenticate hmac env email password mfa_code ip)
    respond outcome
    where
      respond : SignIn → Action AuthState LoginResponse
      respond (mfa_required user) = pure (
          mfa_response (create_mfa_token user.id) (or_else user.security.mfa_method totp)
            mfa_token_expiry)
      respond (signed_in user) = do
        tokens ← generate_tokens user
        on_db (announce "USER_LOGIN" user.id "login")
        pure (login_response tokens (logged_user user))

  unfoldable pub accept_claims : String → String → Option Claims → Action AuthState Claims
  accept_claims kind message none = throw (unauthorized (text message))
  accept_claims kind message (some claims) =
      if or_else claims.token_type "" == kind && claims.tenant_id == env.tenant_id
      then pure claims
      else throw (unauthorized (text message))

  -- The claims of a token of this kind and tenant, or a throw.
  unfoldable pub require_claims : String → String → String → Action AuthState Claims
  unfolding accept_claims
  require_claims kind message token = accept_claims kind message (verify_jwt jose env.now token)

  -- UserService.getById
  unfoldable pub require_user : String → Action AuthState User
  require_user id =
      on_db (do or_throw (← gets (user_by_id env id)) (not_found (naming "User not found" id)))

  unfoldable pub verify_mfa :
      String → String → Bool → Option String → Action AuthState LoginResponse
  unfolding require_claims require_user
  verify_mfa mfa_token code use_backup_code ip = do
    claims ← require_claims "mfa" "Token MFA inválido ou expirado" mfa_token
    user ← require_user claims.subject
    throw_if (use_backup_code && not (verify_backup_code hmac env user code))
        (unauthorized (text "Código de backup inválido"))
    throw_if (not use_backup_code && not (verify_mfa_code hmac env user code))
        (unauthorized (text "Código MFA inválido"))
    on_db (record_login_attempt hmac env user.email true (known_ip ip))
    tokens ← generate_tokens user
    pure (login_response tokens (logged_user user))

  abbrev stored_token : Claims → AuthState → Option StoredToken
  stored_token claims s = elim claims.jti [ none ↦ none | some jti ↦ lookup jti s.refresh_tokens ]

  -- The store has the token of these claims, as the subject's.
  unfoldable pub stored_for : Claims → AuthState → Bool
  stored_for claims s = elim (stored_token claims s) [
    | none ↦ false
    | some stored ↦ stored.user_id == claims.subject
  ]

  unfoldable pub refresh : String → Action AuthState TokenResponse
  unfolding require_claims require_user stored_for
  refresh refresh_token = do
    claims ← require_claims "refresh" "Refresh token inválido ou expirado" refresh_token
    stored ← gets (stored_for claims)
    throw_if (not stored) (unauthorized (text "Refresh token revogado"))
    user ← require_user claims.subject
    throw_if (not (same_status user.status active)) (unauthorized (text "Conta não está ativa"))
    modify (λ s. record s { refresh_tokens = erase (or_else claims.jti "") s.refresh_tokens })
    generate_tokens user

  unfoldable pub revoke : Option String → Action AuthState (Unit {0})
  revoke none = pure tt
  revoke (some token) = elim (verify_jwt jose env.now token) [
    | none ↦ pure tt
    | some claims ↦ elim claims.jti [
      | none ↦ pure tt
      | some jti ↦ modify (λ s. record s { refresh_tokens = erase jti s.refresh_tokens })
    ]
  ]

  unfoldable pub logout : String → Option String → Action AuthState (Unit {0})
  unfolding revoke
  logout user_id refresh_token = do
    revoke refresh_token
    on_db (announce "USER_LOGOUT" user_id "logout")

  abbrev is_of_user : String → String × StoredToken → Bool
  is_of_user user_id (_, stored) = stored.user_id == user_id && stored.tenant_id == env.tenant_id

  -- logoutAllDevices
  unfoldable pub logout_all_devices : String → Action AuthState (Unit {0})
  logout_all_devices user_id = do
    modify (λ s. record s {
      refresh_tokens = filter (λ e. not (is_of_user user_id e)) s.refresh_tokens;
    })
    on_db (announce "USER_LOGOUT" user_id "logout_all")
