-- ===== src/Account/SignIn.antt =====
-- The part of services/AuthService.ts that decides a sign-in: status, password, the count of
-- failures, and the second factor; with `recordLoginAttempt` of services/UserService.ts. A message
-- with a time put in is kept with the time in milliseconds.
pub mod Accepted
pub mod Lockout
use gcdr.Base.{
  ◌+◌, ◌-◌, ◌*◌, ◌/◌, ◌%◌, ◌==◌, ℕ, String, List, [], ◌∷◌, Bool, true, false, ◌||◌, not, none, some,
  Option, ltb, leb, or_else, get_elem?, includes, length, if◌then◌else◌,
}
use gcdr.Base.Errors.{
  Result, throw_some, Action, ◌>>=◌, ◌>>◌, gets, pure, throw, throw_if, or_throw, unauthorized,
  text, counting, ok, err, AppError,
}
use gcdr.Base.Text.{decimal, pad_start, upper_case}
use gcdr.Account.Data.{
  MfaMethod, User, UserStatus, unverified, pending_approval, active, inactive, locked, totp, by_sms,
  by_email, Db, Env,
}
use gcdr.Account.Users.{user_by_email, increment_failed, record_login, lock_user, reset_failed}
use gcdr.Account.Registration.{
  record_failed_login, record_successful_login, announce, max_failed_login_attempts,
}

abbrev max_failed_attempts : ℕ
max_failed_attempts = 5

abbrev lock_duration_minutes : ℕ
lock_duration_minutes = 30

abbrev pub locked_out : String
locked_out =
    "Conta bloqueada devido a tentativas de login incorretas. Redefina sua senha para desbloquear."

-- `ip || 'unknown'`
abbrev pub known_ip : Option String → String
known_ip none = "unknown"
known_ip (some ip) = if ip == "" then "unknown" else ip

-- `createHmac('sha1', …).digest()`: the key in hexadecimal, and bytes.
abbrev pub HmacSha1 : Type 0
HmacSha1 = String → List ℕ → List ℕ

abbrev byte_at : List ℕ → ℕ → ℕ
byte_at bytes i = or_else (get_elem? bytes i) 0

-- The six digits for one counter. The four bytes are put together without the sign bit.
unfoldable pub one_time_code : HmacSha1 → String → ℕ → String
unfolding decimal pad_start
one_time_code hmac secret counter =
    let hash = hmac secret (
      counter / 16777216 % 256
      ∷ counter / 65536 % 256
      ∷ counter / 256 % 256
      ∷ counter % 256
      ∷ []) in
    let offset = byte_at hash (length hash - 1) % 16 in
    let binary =
      byte_at hash offset % 128 * 16777216
      + byte_at hash (offset + 1) % 256 * 65536
      + byte_at hash (offset + 2) % 256 * 256
      + byte_at hash (offset + 3) % 256 in
    pad_start 6 (decimal 6 (binary % 1000000) "")

-- verifyTOTP: the codes of the last, this and the next half minute.
unfoldable pub verify_totp : HmacSha1 → ℕ → String → String → Bool
unfolding one_time_code
verify_totp hmac now secret code =
    let counter = now / 30000 in
    one_time_code hmac secret (counter - 1) == code
    || (one_time_code hmac secret counter == code
        || one_time_code hmac secret (counter + 1) == code)

pub data SignIn : Type 0 where
  mfa_required : User → SignIn
  signed_in : User → SignIn

module _ (hmac : HmacSha1) (env : Env) where
  -- verifyPassword
  unfoldable pub verify_password : String → String → Bool
  verify_password password hash = env.sha256 password == hash

  -- The switch on the method.
  abbrev pub verify_by_method : Option MfaMethod → String → String → Bool
  verify_by_method none secret code = false
  verify_by_method (some totp) secret code = verify_totp hmac env.now secret code
  verify_by_method (some by_sms) secret code = false
  verify_by_method (some by_email) secret code = false

  -- verifyMfaCode, where an empty secret is no secret
  unfoldable pub verify_mfa_code : User → String → Bool
  verify_mfa_code user code = elim user.security.mfa_secret [
    | none ↦ false
    | some secret ↦
        if secret == "" then false else verify_by_method user.security.mfa_method secret code
  ]

  -- verifyBackupCode
  unfoldable pub verify_backup_code : User → String → Bool
  verify_backup_code user code = elim user.security.mfa_backup_codes [
    | none ↦ false
    | some codes ↦ includes codes (upper_case code)
  ]

  -- UserService.recordLoginAttempt after a failure is counted.
  unfoldable pub after_attempt : User → ℕ → Action Db (Unit {0})
  unfolding lock_user
  after_attempt user attempts =
      if leb max_failed_attempts attempts
      then (do
        lock_user env user.id (env.now + lock_duration_minutes * 60 * 1000)
        announce "USER_LOCKED" user.id "locked"
        pure tt)
      else pure tt

  unfoldable pub record_attempt_of : User → Bool → String → Action Db (Unit {0})
  unfolding after_attempt record_login reset_failed
  record_attempt_of user true ip = do record_login env user.id ip; reset_failed env user.id; pure tt
  record_attempt_of user false ip = do
    attempts ← increment_failed env user.id
    after_attempt user attempts

  -- UserService.recordLoginAttempt
  unfoldable pub record_login_attempt : String → Bool → String → Action Db (Unit {0})
  unfolding record_attempt_of
  record_login_attempt email success ip = do
    found ← gets (user_by_email env email)
    elim found [ none ↦ pure tt | some user ↦ record_attempt_of user success ip ]

  -- The switch on the status at the head of login.
  unfoldable pub status_error : UserStatus → Option AppError
  status_error unverified =
      some (unauthorized (text "Email não verificado. Por favor, verifique seu email."))
  status_error pending_approval =
      some (unauthorized (text "Seu cadastro está aguardando aprovação."))
  status_error inactive =
      some (unauthorized (text "Conta desativada. Entre em contato com o suporte."))
  status_error locked = some (unauthorized (text locked_out))
  status_error active = none

  -- `user.security.lockedUntil` in the future
  unfoldable pub still_locked : User → Bool
  still_locked user = ltb env.now (or_else user.security.locked_until 0)

  unfoldable pub password_matches : User → String → Bool
  unfolding verify_password
  password_matches user password = elim user.security.password_hash [
    | none ↦ false
    | some hash ↦ if hash == "" then false else verify_password password hash
  ]

  -- What login throws after a wrong password, with the attempts counted.
  unfoldable pub wrong_password : String → ℕ → AppError
  wrong_password email attempts =
      if leb max_failed_login_attempts attempts
      then unauthorized (text locked_out)
      else unauthorized (counting "Credenciais inválidas" (max_failed_login_attempts - attempts))

  -- The `try … catch` around the count of failures, given how that ended: an error there falls back
  -- to recordLoginAttempt.
  unfoldable pub refuse_with : String → String → Result ℕ × Db → Result SignIn × Db
  unfolding wrong_password record_login_attempt
  refuse_with email ip (ok attempts, after) = throw (wrong_password email attempts) after
  refuse_with email ip (err e, after) =
      (do record_login_attempt email false ip; throw (unauthorized (text "Credenciais inválidas")))
        after

  unfoldable pub refuse_password : User → String → String → Action Db SignIn
  unfolding refuse_with
  refuse_password user email ip db = refuse_with email ip (record_failed_login env user.id db)

  -- The second factor, where the user has one; true where login ends here with an MFA token.
  unfoldable pub second_factor : User → String → Option String → String → Action Db Bool
  unfolding verify_mfa_code record_login_attempt
  second_factor user email mfa_code ip =
      if not user.security.mfa_enabled then pure false else elim mfa_code [
        | none ↦ pure true
        | some code ↦
            if code == ""
            then pure true
            else (if verify_mfa_code user code then pure false else (do
              record_login_attempt email false ip
              throw (unauthorized (text "Código MFA inválido"))))
      ]

  unfoldable pub finish : User → String → Bool → Action Db SignIn
  finish user ip true = pure (mfa_required user)
  finish user ip false = do record_successful_login env user.id ip; pure (signed_in user)

  -- login once the password is right.
  unfoldable pub admit : User → String → Option String → String → Action Db SignIn
  unfolding finish second_factor
  admit user email mfa_code ip = do
    pending ← second_factor user email mfa_code ip
    finish user ip pending

  -- login, up to the tokens.
  unfoldable pub authenticate : String → String → Option String → Option String → Action Db SignIn
  unfolding status_error still_locked password_matches admit refuse_password
  authenticate email password mfa_code ip = do
    user ← or_throw (← gets (user_by_email env email)) (unauthorized (text "Credenciais inválidas"))
    throw_some (status_error user.status)
    throw_if (still_locked user)
        (unauthorized (counting "Conta bloqueada até" (or_else user.security.locked_until 0)))
    if password_matches user password
        then admit user email mfa_code (known_ip ip)
        else refuse_password user email (known_ip ip)
