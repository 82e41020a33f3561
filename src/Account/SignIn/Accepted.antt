-- ===== src/Account/SignIn/Accepted.antt =====
-- Which sign-ins succeed.
use gcdr.Account.Machine.Journeys.{found_by_email, same_status_eq}
use gcdr.Account.Machine.{IsSound}
use gcdr.Base.{
  ap, sym, subst, ◌∙◌, ◌↔◌, Bool-cases, inr, inl, Option-cases, ℕ, refl, ◌≡◌, String, Option, none,
  some, Bool, true, false, not, ◌==◌, arith, if◌then◌else◌,
}
use gcdr.Base.Actions.{Ends-value, bind-Ends}
use gcdr.Base.Errors.{Result, ok, err, pure}
use gcdr.Account.Data.{active, User, Env, Db}
use gcdr.Account.Users.{
  same_status, user_by_email, user_by_id, write_user, write_user_found, record_login, login_change,
}
use gcdr.Account.Registration.{record_failed_login, record_successful_login}
use gcdr.Account.SignIn.{
  mfa_required, SignIn, password_matches, still_locked, refuse_password, known_ip, status_error,
  authenticate, HmacSha1, signed_in, admit, finish, second_factor, refuse_with, verify_mfa_code,
}

signed_in_injective : (u v : User) → ok (signed_in u) ≡ ok (signed_in v) → u ≡ v
signed_in_injective u v e = ap (user_of u) e
  where
    user_of : User → Result SignIn → User
    user_of default (ok (signed_in w)) = w
    user_of default (ok (mfa_required w)) = default
    user_of default (err x) = default

module _ (hmac : HmacSha1) (env : Env) where
  -- The user needs no second factor, or the code is given and right.
  abbrev pub passes : User → Option String → Bool
  passes user none = not user.security.mfa_enabled
  passes user (some code) =
      if user.security.mfa_enabled
      then (if code == "" then false else verify_mfa_code hmac env user code)
      else true

  finish-value :
      (user : User) (ip : String) (db : Db)
      → user_by_id env user.id db ≡ some user
      → (finish hmac env user ip false db).0 ≡ ok (signed_in user)
  unfolding finish record_successful_login record_login
  finish-value user ip db found = Ends-value (signed_in user) _ (
      bind-Ends (λ a _. a ≡ signed_in user) (λ _. ⊥) (λ _ _. Unit)
        (record_successful_login env user.id ip) (λ _. pure (signed_in user)) db
        (bind-Ends (λ _ _. Unit) (λ _. ⊥) (λ _ _. Unit)
          (write_user env user.id (login_change env ip)) (λ _. pure tt) db
          (rw (write_user_found env user.id (login_change env ip) db user found) tt) (λ _ _ _. tt))
        (λ _ _ _. refl))

  admit-passes :
      (user : User) (email : String) (mfa_code : Option String) (ip : String) (db : Db)
      → passes user mfa_code ≡ true
      → (admit hmac env user email mfa_code ip db).0 ≡ (finish hmac env user ip false db).0
  unfolding admit second_factor finish
  admit-passes user email mfa_code ip db h = ground arith

  admit_fails :
      (user v : User) (email : String) (mfa_code : Option String) (ip : String) (db : Db)
      → passes user mfa_code ≡ false
      → (admit hmac env user email mfa_code ip db).0 ≡ ok (signed_in v)
      → ⊥
  unfolding admit second_factor finish
  admit_fails user v email mfa_code ip db h e = ground arith

  refuse_fails :
      (v : User) (email ip : String) (r : Result ℕ × Db)
      → (refuse_with hmac env email ip r).0 ≡ ok (signed_in v)
      → ⊥
  unfolding refuse_with
  refuse_fails v email ip (ok attempts, after) e = ground arith
  refuse_fails v email ip (err x, after) e = ground arith

  module _ (email password : String) (mfa_code ip : Option String) (db : Db) where
    -- What a sign-in asks of the user.
    abbrev Fits : User → Type 0
    Fits user =
        (user_by_email env email db ≡ some user)
        × (user.status ≡ active)
        × (still_locked hmac env user ≡ false)
        × (password_matches hmac env user password ≡ true)
        × (passes user mfa_code ≡ true)

    Fits-admitted :
        (user : User)
        → Fits user
        → (authenticate hmac env email password mfa_code ip db).0
          ≡ (admit hmac env user email mfa_code (known_ip ip) db).0
    unfolding authenticate status_error
    Fits-admitted user (found, status, free, good, _) = ground arith

    accepted_as :
        (user : User)
        → IsSound env db.users
        → Fits user
        → (authenticate hmac env email password mfa_code ip db).0 ≡ ok (signed_in user)
    accepted_as user sound (found, status, free, good, factor) =
        Fits-admitted user (found, status, free, good, factor)
        ∙ admit-passes user email mfa_code (known_ip ip) db factor
        ∙ finish-value user (known_ip ip) db (found_by_email env email db user sound found)

    signed_in_Fits :
        (v : User)
        → IsSound env db.users
        → (authenticate hmac env email password mfa_code ip db).0 ≡ ok (signed_in v)
        → Fits v
    unfolding authenticate status_error refuse_password
    signed_in_Fits v sound e = elim (Option-cases (user_by_email env email db)) [
      | inl missing ↦ absurd (ground arith)
      | inr (user, found) ↦ elim (Bool-cases (same_status user.status active)) [
        | inr other ↦ absurd (ground arith)
        | inl fits ↦ elim (Bool-cases (still_locked hmac env user)) [
          | inl waits ↦ absurd (ground arith)
          | inr free ↦ elim (Bool-cases (password_matches hmac env user password)) [
            | inr wrong ↦ absurd (
                refuse_fails v email (known_ip ip) (record_failed_login env user.id db)
                  (ground arith))
            | inl good ↦ elim (Bool-cases (passes user mfa_code)) [
              | inr no_factor ↦
                  absurd
                    (admit_fails user v email mfa_code (known_ip ip) db no_factor (ground arith))
              | inl factor ↦
                  let is_fit : Fits user =
                    (found, same_status_eq user.status active fits, free, good, factor) in
                  subst Fits (signed_in_injective user v (sym (accepted_as user sound is_fit) ∙ e))
                    is_fit
            ]
          ]
        ]
      ]
    ]

    -- A sign-in of a sound table yields this user exactly where the email is the user's, the account is
    -- active and under no timed lock, the password is right, and the second factor, where the user
    -- has one, is given and right.
    pub authenticate_iff :
        (user : User)
        → IsSound env db.users
        → ((authenticate hmac env email password mfa_code ip db).0 ≡ ok (signed_in user)) ↔ (
            (user_by_email env email db ≡ some user)
            × (user.status ≡ active)
            × (still_locked hmac env user ≡ false)
            × (password_matches hmac env user password ≡ true)
            × (passes user mfa_code ≡ true))
    authenticate_iff user sound = (signed_in_Fits user sound, accepted_as user sound)
