-- ===== src/Account/Machine/SigningIn.antt =====
-- Sign-in, along the machine's steps: only an active account is counted against or locked.
use gcdr.Base.{
  Option-cases, arith, ◌⊎◌, Option, ℕ, ◌≡◌, inl, inr, String, List, false, some, Bool-cases, leb,
}
use gcdr.Base.Actions.{Ends, bind_rule, bind-Ends}
use gcdr.Base.Errors.{err, ok, Result, pure}
use gcdr.Account.Data.{User, active, Env, Db}
use gcdr.Account.Users.{
  same_status, user_by_email, user_by_id, write_user, failed_change, increment_failed, lock_account,
  lock_user, record_login, login_change,
}
use gcdr.Account.Registration.{
  record_failed_login, after_failure, record_successful_login, max_failed_login_attempts,
}
use gcdr.Account.SignIn.{
  password_matches, still_locked, known_ip, refuse_password, status_error, authenticate,
  record_login_attempt, second_factor, finish, refuse_with, admit, HmacSha1, record_attempt_of,
  after_attempt,
}
use gcdr.Account.Machine.{stay, IsSound, missing, locking, locking_until, entering}
use gcdr.Account.Machine.Journeys.{
  same_status_eq, found_by_email, write_announce-Ends, Along, write_Along, write_announce-Along,
}

module _ (env : Env) where
  -- What is known of an active user after a failure is counted.
  abbrev Counted : List User → String → ℕ → Db → Type 0
  Counted users id attempts db =
      Along env users db × ((u : User) × (user_by_id env id db ≡ some u) × (u.status ≡ active))

  increment_Counted :
      (bad : Db → Type 0) (users : List User) (id : String) (old : User) (db : Db)
      → Along env users db
      → user_by_id env id db ≡ some old
      → old.status ≡ active
      → Ends (Counted users id) bad (increment_failed env id db)
  unfolding increment_failed failed_change
  increment_Counted bad users id old db along found status =
      bind-Ends (Counted users id) bad
        (λ u db'.
          (u ≡ failed_change env old old)
          × Along env users db'
          × (user_by_id env id db' ≡ some (failed_change env old old)))
        (write_user env id (failed_change env))
        (λ updated. pure updated.security.failed_login_attempts) db
        (write_Along env bad users id (failed_change env) old db along found missing)
        (λ u db' (_, along', found'). (along', (_, found', status)))

  after_failure-Ends :
      (users : List User) (id : String) (attempts : ℕ) (db : Db)
      → Counted users id attempts db
      → Ends (λ _. Along env users) (λ _. ⊥) (after_failure env id attempts db)
  unfolding after_failure lock_account
  after_failure-Ends users id attempts db (along, (u, found, status)) =
      elim (Bool-cases (leb max_failed_login_attempts attempts)) [
        | inl many ↦ rw many (
            write_announce-Ends env _ _ _ attempts users id _ u db along found
              (locking "Conta bloqueada após 6 tentativas de login incorretas" status))
        | inr few ↦ rw few along
      ]

  -- The count of a failure never throws for a user that is there.
  record_failed_Ends :
      (users : List User) (id : String) (old : User) (db : Db)
      → Along env users db
      → user_by_id env id db ≡ some old
      → old.status ≡ active
      → Ends (λ _. Along env users) (λ _. ⊥) (record_failed_login env id db)
  unfolding record_failed_login
  record_failed_Ends users id old db along found status =
      bind-Ends (λ _. Along env users) (λ _. ⊥) (Counted users id) (increment_failed env id)
        (after_failure env id) db (increment_Counted (λ _. ⊥) users id old db along found status)
        (λ attempts db' counted. after_failure-Ends users id attempts db' counted)

  after_attempt-Along :
      (hmac : HmacSha1) (users : List User) (user : User) (attempts : ℕ) (db : Db)
      → Counted users user.id attempts db
      → Along env users (after_attempt hmac env user attempts db).1
  unfolding after_attempt lock_user
  after_attempt-Along hmac users user attempts db (along, (u, found, status)) =
      elim (Bool-cases (leb 5 attempts)) [
        | inl many ↦ rw many (
            write_announce-Along env _ _ _ tt users user.id _ u db along found
              (locking_until _ status))
        | inr few ↦ rw few along
      ]

  record_attempt_Along :
      (hmac : HmacSha1) (users : List User) (user : User) (ip : String) (db : Db)
      → Along env users db
      → user_by_id env user.id db ≡ some user
      → user.status ≡ active
      → Along env users (record_attempt_of hmac env user false ip db).1
  unfolding record_attempt_of
  record_attempt_Along hmac users user ip db along found status =
      bind_rule (Along env users) (Counted users user.id) (increment_failed env user.id)
        (after_attempt hmac env user) db
        (increment_Counted (Along env users) users user.id user db along found status)
        (λ attempts db' counted. after_attempt-Along hmac users user attempts db' counted)

  success_Along :
      (users : List User) (id ip : String) (old : User) (db : Db)
      → Along env users db
      → user_by_id env id db ≡ some old
      → Along env users (record_successful_login env id ip db).1
  unfolding record_successful_login record_login
  success_Along users id ip old db along found =
      bind_rule (Along env users)
        (λ u db'.
          (u ≡ login_change env ip old old)
          × Along env users db'
          × (user_by_id env id db' ≡ some (login_change env ip old old)))
        (write_user env id (login_change env ip)) (λ _. pure tt) db
        (write_Along env (Along env users) users id (login_change env ip) old db along found
          (entering ip))
        (λ _ db' done. done.1)

  refuse_with-Along :
      (hmac : HmacSha1) (users : List User) (email ip : String) (r : Result ℕ × Db)
      → Ends (λ _. Along env users) (λ _. ⊥) r
      → Along env users (refuse_with hmac env email ip r).1
  unfolding refuse_with
  refuse_with-Along hmac users email ip (ok attempts, after) h = h
  refuse_with-Along hmac users email ip (err e, after) h = absurd h

  attempt_found :
      (hmac : HmacSha1) (user : User) (email ip : String) (db : Db)
      → user_by_email env email db ≡ some user
      → (record_login_attempt hmac env email false ip db).1
        ≡ (record_attempt_of hmac env user false ip db).1
  unfolding record_login_attempt
  attempt_found hmac user email ip db found = ground arith

  admit_cases :
      (hmac : HmacSha1) (user : User) (email : String) (mfa_code : Option String) (ip : String)
      (db : Db)
      → ((admit hmac env user email mfa_code ip db).1 ≡ db)
        ⊎ (((admit hmac env user email mfa_code ip db).1
              ≡ (record_login_attempt hmac env email false ip db).1)
            ⊎ ((admit hmac env user email mfa_code ip db).1
                ≡ (record_successful_login env user.id ip db).1))
  unfolding admit finish second_factor
  admit_cases hmac user email mfa_code ip db = ground arith

  authenticate_cases :
      (hmac : HmacSha1) (email password : String) (mfa_code ip : Option String) (db : Db)
      → ((authenticate hmac env email password mfa_code ip db).1 ≡ db)
        ⊎ ((user : User) × (user_by_email env email db ≡ some user)
            × (user.status ≡ active)
            × (((authenticate hmac env email password mfa_code ip db).1
                  ≡ (admit hmac env user email mfa_code (known_ip ip) db).1)
                ⊎ ((authenticate hmac env email password mfa_code ip db).1
                    ≡ (refuse_with hmac env email
                        (known_ip ip)
                        (record_failed_login env user.id db)).1)))
  unfolding authenticate status_error refuse_password
  authenticate_cases hmac email password mfa_code ip db =
      elim (Option-cases (user_by_email env email db)) [
        | inl none_found ↦ inl (ground arith)
        | inr (user, found) ↦ elim (Bool-cases (same_status user.status active)) [
          | inl fits ↦ elim (Bool-cases (still_locked hmac env user)) [
            | inl waits ↦ inl (ground arith)
            | inr free ↦ elim (Bool-cases (password_matches hmac env user password)) [
              | inl good ↦ inr (user, found, same_status_eq _ _ fits, inl (ground arith))
              | inr wrong ↦ inr (user, found, same_status_eq _ _ fits, inr (ground arith))
            ]
          ]
          | inr other ↦ inl (ground arith)
        ]
      ]

  admit-Along :
      (hmac : HmacSha1) (user : User) (email : String) (mfa_code : Option String) (ip : String)
      (db : Db)
      → user_by_email env email db ≡ some user
      → user_by_id env user.id db ≡ some user
      → user.status ≡ active
      → Along env db.users (admit hmac env user email mfa_code ip db).1
  admit-Along hmac user email mfa_code ip db found found_id status =
      elim (admit_cases hmac user email mfa_code ip db) [
        | inl same ↦ rw same stay
        | inr moved ↦ elim moved [
          | inl failed ↦
              rw (failed, attempt_found hmac user email ip db found)
                (record_attempt_Along hmac db.users user ip db stay found_id status)
          | inr entered ↦ rw entered (success_Along db.users user.id ip user db stay found_id)
        ]
      ]

  pub authenticate-Along :
      (hmac : HmacSha1) (email password : String) (mfa_code ip : Option String) (db : Db)
      → IsSound env db.users
      → Along env db.users (authenticate hmac env email password mfa_code ip db).1
  authenticate-Along hmac email password mfa_code ip db sound =
      elim (authenticate_cases hmac email password mfa_code ip db) [
        | inl same ↦ rw same stay
        | inr (user, found, status, ended) ↦
            let found_id = found_by_email env email db user sound found in
            elim ended [
              | inl admitted ↦
                  rw admitted
                    (admit-Along hmac user email mfa_code (known_ip ip) db found found_id status)
              | inr refused ↦ rw refused (
                  refuse_with-Along hmac db.users email (known_ip ip)
                    (record_failed_login env user.id db)
                    (record_failed_Ends db.users user.id user db stay found_id status))
            ]
      ]
