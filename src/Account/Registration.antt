-- ===== src/Account/Registration.antt =====
-- services/RegistrationService.ts. What the code logs is left out; the codes go to the user by
-- email, which the source has as a TODO.
use gcdr.Base.{
  ℕ, String, Bool, not, ◌||◌, none, some, Option, List, ◌++◌, [], ◌∷◌, ◌*◌, leb, is_some, eqb,
  or_else, map, if◌then◌else◌,
}
use gcdr.Base.Errors.{
  Action, ◌>>=◌, ◌>>◌, gets, pure, modify, throw, throw_if, or_throw, validation, unauthorized,
  text, counting,
}
use gcdr.Account.Data.{
  User, UserStatus, unverified, pending_approval, active, locked, email_verification,
  password_reset, Db, Env,
}
use gcdr.Account.Users.{
  user_by_id, user_by_email, create_self_registered, set_email_verified, approve_row, reject_row,
  lock_account, reset_password_row, increment_failed, unlock_row, record_login, same_status,
  user_not_found, pending_users,
}
use gcdr.Account.Codes.{create_token, verify, Verdict, count_recent_tokens}

abbrev pub max_failed_login_attempts : ℕ
max_failed_login_attempts = 6

abbrev pub max_resend_per_hour : ℕ
max_resend_per_hour = 3

abbrev code_lifetime : ℕ
code_lifetime = 15 * 60

pub record RegisterResponse : Type 0 where
  pub user_id : String
  pub email : String
  pub status : UserStatus
  pub message : String
  pub expires_in : ℕ

pub record VerifyEmailResponse : Type 0 where
  pub status : UserStatus
  pub message : String

pub record ResendVerificationResponse : Type 0 where
  pub message : String
  pub expires_in : ℕ

pub record PasswordResetResponse : Type 0 where
  pub message : String
  pub unlocked : Option Bool

pub record PendingUser : Type 0 where
  pub id : String
  pub email : String
  pub first_name : String
  pub last_name : String
  pub registered_at : Option ℕ
  pub email_verified_at : Option ℕ
  pub registration_ip : Option String

abbrev pub announce : String → String → String → Action Db (Unit {0})
announce event_type entity_id action = modify (λ db. record db {
  events =
      db.events ++ record { event_type = event_type; entity_id = entity_id; action = action } ∷ [];
})

-- The throw of verifyEmail and of resetPassword where the code is refused.
unfoldable pub require_valid : String → Verdict → Action Db (Unit {0})
require_valid expired v = if v.valid then pure tt else elim v.attempts_remaining [
  | none ↦ throw (unauthorized (text (or_else v.reason "Código inválido ou expirado")))
  | some n ↦
      if eqb n 0
      then throw (unauthorized (text expired))
      else throw (unauthorized (counting "Código inválido" n))
]

abbrev pub can_reset : UserStatus → Bool
can_reset status = same_status status active || same_status status locked

module _ (env : Env) where
  unfoldable pub register :
      String
      → String
      → String
      → String
      → Option String
      → Option String
      → Option String
      → Option String
      → Action Db RegisterResponse
  register email password first_name last_name phone customer_id ip_address user_agent = do
    existing ← gets (user_by_email env email)
    throw_if (is_some existing) (validation (text "Email já está em uso"))
    let password_hash = env.sha256 password
    user ←
        create_self_registered env email password_hash first_name last_name phone customer_id
          ip_address
    create_token env user.id email_verification ip_address user_agent
    announce "USER_CREATED" user.id "register"
    pure (record {
      user_id = user.id;
      email = user.email;
      status = unverified;
      message = "Código de verificação enviado para o email";
      expires_in = code_lifetime;
    })

  -- The end of verifyEmail.
  unfoldable pub email_confirmed : User → Action Db VerifyEmailResponse
  unfolding set_email_verified
  email_confirmed user = do
    set_email_verified env user.id
    announce "USER_UPDATED" user.id "email_verified"
    pure (record {
      status = pending_approval;
      message = "Email verificado com sucesso. Seu cadastro está aguardando aprovação.";
    })

  -- verifyEmail once the code is looked up.
  unfoldable pub confirm_email : User → Verdict → Action Db VerifyEmailResponse
  unfolding require_valid email_confirmed
  confirm_email user result = do
    require_valid "Código expirado. Solicite um novo código de verificação." result
    email_confirmed user

  unfoldable pub verify_email : String → String → Action Db VerifyEmailResponse
  unfolding confirm_email
  verify_email email code = do
    user ← or_throw (← gets (user_by_email env email)) (validation (text "Email não encontrado"))
    throw_if (not (same_status user.status unverified)) (
        if user.email_verified
        then validation (text "Email já foi verificado")
        else validation (text "Usuário não está em estado de verificação"))
    result ← verify env user.id email_verification code
    confirm_email user result

  abbrev resent : ResendVerificationResponse
  resent = record {
    message = "Se o email existir e não estiver verificado, um novo código será enviado";
    expires_in = code_lifetime;
  }

  -- resendVerificationCode
  unfoldable pub resend_verification_code :
      String → Option String → Option String → Action Db ResendVerificationResponse
  resend_verification_code email ip_address user_agent = do
    found ← gets (user_by_email env email)
    elim found [
      | none ↦ pure resent
      | some user ↦ if not (same_status user.status unverified) then pure resent else (do
        recent ← gets (count_recent_tokens env user.id email_verification 60)
        throw_if (leb max_resend_per_hour recent)
            (validation (text "Limite de reenvio excedido. Aguarde 1 hora para tentar novamente."))
        create_token env user.id email_verification ip_address user_agent
        pure resent)
    ]

  unfoldable pub request_password_reset :
      String → Option String → Option String → Action Db (Unit {0})
  request_password_reset email ip_address user_agent = do
    found ← gets (user_by_email env email)
    elim found [
      | none ↦ pure tt
      | some user ↦ if not (can_reset user.status) then pure tt else (do
        create_token env user.id password_reset ip_address user_agent
        announce "USER_UPDATED" user.id "password_reset_requested")
    ]

  -- The end of resetPassword.
  unfoldable pub password_replaced : User → String → Action Db PasswordResetResponse
  unfolding reset_password_row
  password_replaced user new_password = do
    let password_hash = env.sha256 new_password
    let was_locked = same_status user.status locked
    reset_password_row env user.id password_hash
    announce "USER_UPDATED" user.id "password_reset_completed"
    pure (record { message = "Senha alterada com sucesso"; unlocked = some was_locked })

  -- resetPassword once the code is looked up.
  unfoldable pub replace_password : User → String → Verdict → Action Db PasswordResetResponse
  unfolding require_valid password_replaced
  replace_password user new_password result = do
    require_valid "Código expirado. Solicite um novo código de recuperação." result
    password_replaced user new_password

  unfoldable pub reset_password : String → String → String → Action Db PasswordResetResponse
  unfolding replace_password
  reset_password email code new_password = do
    user ← or_throw (← gets (user_by_email env email)) (validation (text "Email não encontrado"))
    throw_if (not (can_reset user.status))
        (validation (text "Usuário não pode redefinir a senha neste estado"))
    result ← verify env user.id password_reset code
    replace_password user new_password result

  -- recordFailedLogin after the failure is counted.
  unfoldable pub after_failure : String → ℕ → Action Db ℕ
  unfolding lock_account
  after_failure user_id attempts =
      if leb max_failed_login_attempts attempts
      then (do
        lock_account env user_id "Conta bloqueada após 6 tentativas de login incorretas"
        announce "USER_UPDATED" user_id "account_locked"
        pure attempts)
      else pure attempts

  unfoldable pub record_failed_login : String → Action Db ℕ
  unfolding increment_failed after_failure
  record_failed_login user_id = do
    attempts ← increment_failed env user_id
    after_failure user_id attempts

  unfoldable pub record_successful_login : String → String → Action Db (Unit {0})
  record_successful_login user_id ip = do record_login env user_id ip; pure tt

  -- The checks that open approveUser, rejectUser and unlockUser.
  unfoldable pub require_status : String → UserStatus → String → Action Db User
  require_status user_id status message = do
    user ← or_throw (← gets (user_by_id env user_id)) user_not_found
    throw_if (not (same_status user.status status)) (validation (text message))
    pure user

  unfoldable pub approve_user : String → String → Action Db (Unit {0})
  unfolding require_status
  approve_user user_id approved_by = do
    require_status user_id pending_approval "Usuário não está aguardando aprovação"
    approve_row env user_id approved_by
    announce "USER_UPDATED" user_id "approved"

  unfoldable pub reject_user : String → String → String → Action Db (Unit {0})
  unfolding require_status
  reject_user user_id rejected_by reason = do
    require_status user_id pending_approval "Usuário não está aguardando aprovação"
    reject_row env user_id rejected_by (some reason)
    announce "USER_UPDATED" user_id "rejected"

  unfoldable pub unlock_user : String → String → Action Db (Unit {0})
  unfolding require_status
  unlock_user user_id unlocked_by = do
    require_status user_id locked "Usuário não está bloqueado"
    unlock_row env user_id
    announce "USER_UPDATED" user_id "unlocked"

  -- listPendingApproval
  unfoldable pub list_pending_approval : Db → List PendingUser
  list_pending_approval db =
      map
        (λ (u : User). record {
          id = u.id;
          email = u.email;
          first_name = u.profile.first_name;
          last_name = u.profile.last_name;
          registered_at = u.security.registered_at;
          email_verified_at = u.security.email_verified_at;
          registration_ip = u.security.registration_ip;
        })
        (pending_users env db)
