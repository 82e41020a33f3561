-- ===== src/Account/Codes.antt =====
-- repositories/VerificationTokenRepository.ts: six-digit codes that are sent by email, kept as their
-- hash, with an expiry and a bound on wrong attempts.
pub mod Single
pub mod Guesses
use gcdr.Base.{
  ap, ◌≡◌, ◌+◌, ◌-◌, ◌*◌, ◌%◌, ◌==◌, ℕ, String, [], ◌∷◌, ◌++◌, Bool, true, false, ◌&&◌, not, none,
  some, Option, find, filter, length, ltb, leb, is_some, if◌then◌else◌,
}
use gcdr.Base.Errors.{Action, ◌>>=◌, ◌>>◌, gets, pure, modify}
use gcdr.Base.Rows.{update_where}
use gcdr.Base.Text.{decimal, pad_start}
use gcdr.Account.Data.{
  VerificationToken, VerificationTokenType, email_verification, password_reset, account_unlock, Db,
  Env,
}

abbrev token_expiry_minutes : ℕ
token_expiry_minutes = 15

abbrev max_verification_attempts : ℕ
max_verification_attempts = 5

-- A number below a million has at most six digits.
unfoldable pub generate_verification_code : ℕ → String
unfolding decimal pad_start
generate_verification_code random = pad_start 6 (decimal 6 (random % 1000000) "")

abbrev pub same_type : VerificationTokenType → VerificationTokenType → Bool
same_type email_verification email_verification = true
same_type password_reset password_reset = true
same_type account_unlock account_unlock = true
same_type _ _ = false

-- The result of `verify`.
pub record Verdict : Type 0 where
  pub valid : Bool
  pub reason : Option String
  pub attempts_remaining : Option ℕ

abbrev pub accepted : Verdict
accepted = record { valid = true; reason = none; attempts_remaining = none }

abbrev pub refused : String → Option ℕ → Verdict
refused reason remaining = record {
  valid = false;
  reason = some reason;
  attempts_remaining = remaining;
}

module _ (env : Env) (user_id : String) (kind : VerificationTokenType) where
  unfoldable pub is_of : VerificationToken → Bool
  is_of t = t.tenant_id == env.tenant_id && (t.user_id == user_id && same_type t.token_type kind)

  unfoldable pub is_unused : VerificationToken → Bool
  unfolding is_of
  is_unused t = is_of t && not (is_some t.used_at)

  unfoldable pub is_active_token : VerificationToken → Bool
  unfolding is_unused
  is_active_token t = is_unused t && ltb env.now t.expires_at

  unfoldable pub use_token : VerificationToken → VerificationToken
  use_token t = record t { used_at = some env.now }

  -- invalidateExisting
  unfoldable pub invalidate_existing : Action Db (Unit {0})
  invalidate_existing =
      modify (λ db. record db { tokens = update_where is_unused use_token db.tokens })

  unfoldable pub new_token : Option String → Option String → String → VerificationToken
  new_token ip_address user_agent code = record {
    id = env.token_id;
    tenant_id = env.tenant_id;
    user_id = user_id;
    token_type = kind;
    code_hash = env.sha256 code;
    expires_at = env.now + token_expiry_minutes * 60 * 1000;
    used_at = none;
    attempts = 0;
    max_attempts = max_verification_attempts;
    ip_address = ip_address;
    user_agent = user_agent;
    created_at = env.now;
  }

  -- create: the plain code goes to the user.
  unfoldable pub create_token :
      Option String → Option String → Action Db (VerificationToken × String)
  unfolding invalidate_existing new_token generate_verification_code
  create_token ip_address user_agent = do
    invalidate_existing
    let code = generate_verification_code env.random
    let token = new_token ip_address user_agent code
    modify (λ db. record db { tokens = db.tokens ++ token ∷ [] })
    pure (token, code)

  -- getActiveToken
  unfoldable pub active_token : Db → Option VerificationToken
  active_token db = find is_active_token db.tokens

  unfoldable pub add_attempt : VerificationToken → VerificationToken → VerificationToken
  add_attempt old t = record t { attempts = old.attempts + 1 }

  abbrev pub has_id : String → VerificationToken → Bool
  has_id id t = t.id == id

  -- The part of verify after the token is found.
  unfoldable pub verify_token : String → VerificationToken → Action Db Verdict
  verify_token code token db =
      if leb token.max_attempts token.attempts
      then pure (refused "Maximum verification attempts exceeded" (some 0)) db
      else (if env.sha256 code == token.code_hash
          then (do
            modify (λ s. record s { tokens = update_where (has_id token.id) use_token s.tokens })
            pure accepted)
              db
          else (do
            modify (λ s. record s {
              tokens = update_where (has_id token.id) (add_attempt token) s.tokens;
            })
            pure (
                refused "Invalid verification code"
                  (some (token.max_attempts - token.attempts - 1))))
              db)

  unfoldable pub verify_found : String → Option VerificationToken → Action Db Verdict
  unfolding verify_token
  verify_found code none = pure (refused "No active verification token found or token expired" none)
  verify_found code (some token) = verify_token code token

  -- verify
  unfoldable pub verify : String → Action Db Verdict
  unfolding verify_found active_token
  verify code = do found ← gets active_token; verify_found code found

  pub verify_active :
      (code : String) (db : Db) (found : Option VerificationToken)
      → active_token db ≡ found
      → verify code db ≡ verify_found code found db
  unfolding verify
  verify_active code db found h = ap (λ x. verify_found code x db) h

  -- countRecentTokens
  unfoldable pub count_recent_tokens : ℕ → Db → ℕ
  count_recent_tokens minutes db =
      length (filter (λ t. is_of t && ltb env.now (t.created_at + minutes * 60 * 1000)) db.tokens)

-- cleanupExpired: the number of rows deleted.
unfoldable pub cleanup_expired : Env → ℕ → Action Db ℕ
cleanup_expired env older_than_days = do
  let cutoff = env.now - older_than_days * 24 * 60 * 60 * 1000
  expired ← gets (λ db. filter (λ (t : VerificationToken). ltb t.expires_at cutoff) db.tokens)
  modify (λ db. record db {
    tokens = filter (λ (t : VerificationToken). not (ltb t.expires_at cutoff)) db.tokens;
  })
  pure (length expired)
