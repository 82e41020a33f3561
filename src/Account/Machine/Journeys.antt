-- ===== src/Account/Machine/Journeys.antt =====
-- The operations of registration take the users only along the machine's steps.
use gcdr.Base.{
  ◌∙◌, Bool-cases, inr, Option-cases, inl, ◌⊎◌, arith, refl, sym, subst, ◌≡◌, not, eq_iff, &&_iff,
  find_sound, String, List, Bool, true, false, some, Option,
}
use gcdr.Base.Actions.{Ends-returned, bind-Ends, Ends, bind_rule}
use gcdr.Base.Errors.{◌>>=◌, ◌>>◌, pure, ok, err, Result}
use gcdr.Account.Data.{
  email_verification, User, UserStatus, unverified, Env, Db, VerificationTokenType,
}
use gcdr.Account.Users.{
  is_user, user_by_id, user_by_email, write_user, write_user_found, same_status, set_email_verified,
}
use gcdr.Account.Codes.{verify, create_token, Verdict}
use gcdr.Account.Registration.{
  announce, email_confirmed, confirm_email, verify_email, require_valid,
}
use gcdr.Account.Machine.Sound.{find_id-rewrite}
use gcdr.Base.Rows.{update_where}
use gcdr.Account.Machine.{
  Allowed-keeps, Allowed, verifying, changing, Journey, stay, then_step, IsSound,
}

pub same_status_eq : (s t : UserStatus) → same_status s t ≡ true → s ≡ t
same_status_eq s t h = ground arith

not-false : (b : Bool) → not b ≡ false → b ≡ true
not-false b h = ground arith

module _ (env : Env) where
  -- The users that a call has left are reached from `users` along steps.
  abbrev pub Along : List User → Db → Type 0
  Along users db = Journey env users db.users

  pub verify_users :
      (user_id : String) (kind : VerificationTokenType) (code : String) (db : Db)
      → (verify env user_id kind code db).1.users ≡ db.users
  unfolding verify
  verify_users user_id kind code db = ground arith

  pub create_token_users :
      (user_id : String) (kind : VerificationTokenType) (ip agent : Option String) (db : Db)
      → (create_token env user_id kind ip agent db).1.users ≡ db.users
  unfolding create_token
  create_token_users user_id kind ip agent db = refl

  -- A user of a sound table who is found by email is found by the id, too.
  pub found_by_email :
      (email : String) (db : Db) (u : User)
      → IsSound env db.users
      → user_by_email env email db ≡ some u
      → user_by_id env u.id db ≡ some u
  unfolding user_by_email user_by_id
  found_by_email email db u sound found =
      let (member, hit) = find_sound _ db.users found in
      let (tenant, _) = (&&_iff _ _).0 hit in (sound u member ((eq_iff _ _).0 tenant)).by_id

  pub same_users :
      {A : Type 0} (db : Db) (r : Result A × Db)
      → r.1.users ≡ db.users
      → Ends (λ _ db'. db'.users ≡ db.users) (Along db.users) r
  same_users db (ok a, db') h = h
  same_users db (err e, db') h = rw h stay

  pub found_same :
      (db db' : Db) (u : User)
      → db'.users ≡ db.users
      → user_by_id env u.id db ≡ some u
      → user_by_id env u.id db' ≡ some u
  unfolding user_by_id
  found_same db db' u same found = rw same found

  pub require_valid_same :
      (users : List User) (expired : String) (v : Verdict) (db : Db)
      → Along users db
      → Ends (λ _ db'. db' ≡ db) (Along users) (require_valid expired v db)
  unfolding require_valid
  require_valid_same users expired v db along = ground arith

  pub found_after :
      (id : String) (change : User → User → User) (old : User) (db : Db)
      → user_by_id env id db ≡ some old
      → Allowed env old change
      → user_by_id env id
          (record db { users = update_where (is_user env id) (change old) db.users })
        ≡ some (change old old)
  unfolding user_by_id
  found_after id change old db found allowed =
      let (_, hit) = find_sound _ db.users found in
      find_id-rewrite env db.users (is_user env id) (change old) id
        (Allowed-keeps env old change allowed)
      ∙ rw found (rw hit)

  -- An allowed write is one step, after which the row is found as it was rewritten.
  pub write_Along :
      (bad : Db → Type 0) (users : List User) (id : String) (change : User → User → User)
      (old : User) (db : Db)
      → Along users db
      → user_by_id env id db ≡ some old
      → Allowed env old change
      → Ends
          (λ u db'.
            (u ≡ change old old)
            × Along users db'
            × (user_by_id env id db' ≡ some (change old old)))
          bad
          (write_user env id change db)
  unfolding user_by_id
  write_Along bad users id change old db along found allowed =
      rw (write_user_found env id change db old found) (
        refl,
        then_step along (changing id old change found allowed),
        found_after id change old db found allowed,
      )

  -- The same with what an operation does after its write.
  pub write_announce-Ends :
      {B : Type 0} (event_type about action : String) (answer : B) (users : List User) (id : String)
      (change : User → User → User) (old : User) (db : Db)
      → Along users db
      → user_by_id env id db ≡ some old
      → Allowed env old change
      → Ends
          (λ _. Along users)
          (λ _. ⊥)
          ((write_user env id change >> (announce event_type about action >> pure answer)) db)
  write_announce-Ends event_type about action answer users id change old db along found allowed =
      bind-Ends (λ _. Along users) (λ _. ⊥)
        (λ u db'.
          (u ≡ change old old) × Along users db' × (user_by_id env id db' ≡ some (change old old)))
        (write_user env id change) (λ _. announce event_type about action >> pure answer) db
        (write_Along (λ _. ⊥) users id change old db along found allowed) (λ _ db' done. done.1)

  pub write_announce-Along :
      {B : Type 0} (event_type about action : String) (answer : B) (users : List User) (id : String)
      (change : User → User → User) (old : User) (db : Db)
      → Along users db
      → user_by_id env id db ≡ some old
      → Allowed env old change
      → Along users
          ((write_user env id change >> (announce event_type about action >> pure answer)) db).1
  write_announce-Along event_type about action answer users id change old db along found allowed =
      Ends-returned (Along users) _ (
        write_announce-Ends event_type about action answer users id change old db along found
          allowed)

  email_confirmed-Along :
      (users : List User) (user : User) (db : Db)
      → Along users db
      → user_by_id env user.id db ≡ some user
      → user.status ≡ unverified
      → Along users (email_confirmed env user db).1
  unfolding email_confirmed set_email_verified
  email_confirmed-Along users user db along found status =
      write_announce-Along _ _ _ _ users user.id _ user db along found (verifying status)

  confirm_email-Along :
      (users : List User) (user : User) (result : Verdict) (db : Db)
      → Along users db
      → user_by_id env user.id db ≡ some user
      → user.status ≡ unverified
      → Along users (confirm_email env user result db).1
  unfolding confirm_email
  confirm_email-Along users user result db along found status =
      bind_rule (Along users) (λ _ db'. db' ≡ db) (require_valid _ result)
        (λ _. email_confirmed env user) db (require_valid_same users _ result db along)
        (λ _ db' same.
          subst (λ d. Along users (email_confirmed env user d).1) (sym same)
            (email_confirmed-Along users user db along found status))

  verify_email_cases :
      (email code : String) (db : Db)
      → ((verify_email env email code db).1 ≡ db)
        ⊎ ((user : User) × (user_by_email env email db ≡ some user)
            × (user.status ≡ unverified)
            × ((verify_email env email code db).1
                ≡ ((verify env user.id email_verification code >>= confirm_email env user) db).1))
  unfolding verify_email
  verify_email_cases email code db = elim (Option-cases (user_by_email env email db)) [
    | inl missing ↦ inl (ground arith)
    | inr (user, found) ↦ elim (Bool-cases (same_status user.status unverified)) [
      | inl fits ↦ inr (user, found, same_status_eq _ _ fits, ground arith)
      | inr other ↦ inl (ground arith)
    ]
  ]

  pub verify_email-Along :
      (email code : String) (db : Db)
      → IsSound env db.users
      → Along db.users (verify_email env email code db).1
  verify_email-Along email code db sound = elim (verify_email_cases email code db) [
    | inl same ↦ rw same stay
    | inr (user, found, status, same) ↦ rw same (
        bind_rule (Along db.users) (λ _ db'. db'.users ≡ db.users)
          (verify env user.id email_verification code) (confirm_email env user) db
          (same_users db (verify env user.id email_verification code db)
            (verify_users user.id email_verification code db))
          (λ result db' kept.
            confirm_email-Along db.users user result db' (rw kept stay)
              (found_same db db' user kept (found_by_email email db user sound found)) status))
  ]
