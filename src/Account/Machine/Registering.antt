-- ===== src/Account/Machine/Registering.antt =====
-- The other operations of registration, along the machine's steps.
use gcdr.Base.{
  refl, ◌⊎◌, sym, subst, ◌≡◌, inl, inr, String, List, [], ◌∷◌, ◌++◌, true, none, some, Option,
  Bool-cases, Option-cases, arith,
}
use gcdr.Base.Actions.{bind_rule}
use gcdr.Base.Errors.{◌>>=◌}
use gcdr.Account.Data.{User, UserStatus, pending_approval, active, locked, Env, Db, password_reset}
use gcdr.Account.Users.{
  user_by_id, user_by_email, write_user, write_user_found, same_status, self_registered,
  create_self_registered, approve_row, reject_row, unlock_row, reset_password_row, approved_change,
  rejected_change, unlocked_change,
}
use gcdr.Account.Codes.{verify, create_token, Verdict}
use gcdr.Account.Registration.{
  register, resend_verification_code, request_password_reset, reset_password, replace_password,
  password_replaced, approve_user, reject_user, unlock_user, require_valid, can_reset,
}
use gcdr.Account.Machine.{
  IsFreshId, Allowed, approving, rejecting, unlocking, resetting, registering, changing, stay,
  then_step, IsSound,
}
use gcdr.Account.Machine.Journeys.{
  Along, verify_users, found_by_email, same_users, found_same, require_valid_same,
  write_announce-Along, same_status_eq,
}

module _ (env : Env) where
  register_cases :
      (email password first_name last_name : String) (phone customer_id ip agent : Option String)
      (db : Db)
      → ((register env email password first_name last_name phone customer_id ip agent db).1 ≡ db)
        ⊎ ((user_by_email env email db ≡ none)
            × ((register env email password first_name last_name phone customer_id ip agent
                  db).1.users
                ≡ db.users
                  ++ self_registered env email
                      (env.sha256 password)
                      first_name
                      last_name
                      phone
                      customer_id
                      ip
                    ∷ []))
  unfolding register create_self_registered create_token
  register_cases email password first_name last_name phone customer_id ip agent db =
      elim (Option-cases (user_by_email env email db)) [
        | inl free ↦ inr (free, ground arith)
        | inr (user, found) ↦ inl (ground arith)
      ]

  pub register-Along :
      (email password first_name last_name : String) (phone customer_id ip agent : Option String)
      (db : Db)
      → IsFreshId env db.users
      → Along env db.users
          (register env email password first_name last_name phone customer_id ip agent db).1
  unfolding user_by_email self_registered
  register-Along email password first_name last_name phone customer_id ip agent db fresh =
      elim (register_cases email password first_name last_name phone customer_id ip agent db) [
        | inl same ↦ rw same stay
        | inr (free, users) ↦
            rw users (then_step stay (registering _ refl refl refl refl free fresh))
      ]

  pub resend_users :
      (email : String) (ip agent : Option String) (db : Db)
      → (resend_verification_code env email ip agent db).1.users ≡ db.users
  unfolding resend_verification_code create_token
  resend_users email ip agent db = ground arith

  pub request_users :
      (email : String) (ip agent : Option String) (db : Db)
      → (request_password_reset env email ip agent db).1.users ≡ db.users
  unfolding request_password_reset create_token
  request_users email ip agent db = ground arith

  approve_cases :
      (id by : String) (db : Db)
      → ((approve_user env id by db).1 ≡ db)
        ⊎ ((user : User) × (user_by_id env id db ≡ some user)
            × (user.status ≡ pending_approval)
            × ((approve_user env id by db).1.users
                ≡ (write_user env id (approved_change env by) db).1.users))
  unfolding approve_user approve_row
  approve_cases id by db = elim (Option-cases (user_by_id env id db)) [
    | inl missing ↦ inl (ground arith)
    | inr (user, found) ↦ elim (Bool-cases (same_status user.status pending_approval)) [
      | inl fits ↦ inr (user, found, same_status_eq _ _ fits, ground arith)
      | inr other ↦ inl (ground arith)
    ]
  ]

  reject_cases :
      (id by reason : String) (db : Db)
      → ((reject_user env id by reason db).1 ≡ db)
        ⊎ ((user : User) × (user_by_id env id db ≡ some user)
            × (user.status ≡ pending_approval)
            × ((reject_user env id by reason db).1.users
                ≡ (write_user env id (rejected_change env by (some reason)) db).1.users))
  unfolding reject_user reject_row
  reject_cases id by reason db = elim (Option-cases (user_by_id env id db)) [
    | inl missing ↦ inl (ground arith)
    | inr (user, found) ↦ elim (Bool-cases (same_status user.status pending_approval)) [
      | inl fits ↦ inr (user, found, same_status_eq _ _ fits, ground arith)
      | inr other ↦ inl (ground arith)
    ]
  ]

  unlock_cases :
      (id by : String) (db : Db)
      → ((unlock_user env id by db).1 ≡ db)
        ⊎ ((user : User) × (user_by_id env id db ≡ some user)
            × (user.status ≡ locked)
            × ((unlock_user env id by db).1.users
                ≡ (write_user env id (unlocked_change env) db).1.users))
  unfolding unlock_user unlock_row
  unlock_cases id by db = elim (Option-cases (user_by_id env id db)) [
    | inl missing ↦ inl (ground arith)
    | inr (user, found) ↦ elim (Bool-cases (same_status user.status locked)) [
      | inl fits ↦ inr (user, found, same_status_eq _ _ fits, ground arith)
      | inr other ↦ inl (ground arith)
    ]
  ]

  -- The users after an allowed write.
  pub written :
      (id : String) (change : User → User → User) (old : User) (db : Db)
      → user_by_id env id db ≡ some old
      → Allowed env old change
      → Along env db.users (write_user env id change db).1
  unfolding user_by_id
  written id change old db found allowed =
      rw (write_user_found env id change db old found)
        (then_step stay (changing id old change found allowed))

  pub approve_Along : (id by : String) (db : Db) → Along env db.users (approve_user env id by db).1
  approve_Along id by db = elim (approve_cases id by db) [
    | inl same ↦ rw same stay
    | inr (user, found, status, users) ↦
        rw users (written id (approved_change env by) user db found (approving by status))
  ]

  pub reject_Along :
      (id by reason : String) (db : Db) → Along env db.users (reject_user env id by reason db).1
  reject_Along id by reason db = elim (reject_cases id by reason db) [
    | inl same ↦ rw same stay
    | inr (user, found, status, users) ↦ rw users (
        written id (rejected_change env by (some reason)) user db found
          (rejecting by (some reason) status))
  ]

  pub unlock_Along : (id by : String) (db : Db) → Along env db.users (unlock_user env id by db).1
  unlock_Along id by db = elim (unlock_cases id by db) [
    | inl same ↦ rw same stay
    | inr (user, found, status, users) ↦
        rw users (written id (unlocked_change env) user db found (unlocking status))
  ]

  can_reset_cases : (s : UserStatus) → can_reset s ≡ true → (s ≡ active) ⊎ (s ≡ locked)
  can_reset_cases s h = ground arith

  password_replaced-Along :
      (users : List User) (user : User) (new_password : String) (db : Db)
      → Along env users db
      → user_by_id env user.id db ≡ some user
      → (user.status ≡ active) ⊎ (user.status ≡ locked)
      → Along env users (password_replaced env user new_password db).1
  unfolding password_replaced reset_password_row
  password_replaced-Along users user new_password db along found status =
      write_announce-Along env _ _ _ _ users user.id _ user db along found
        (resetting (env.sha256 new_password) status)

  replace_password-Along :
      (users : List User) (user : User) (new_password : String) (result : Verdict) (db : Db)
      → Along env users db
      → user_by_id env user.id db ≡ some user
      → (user.status ≡ active) ⊎ (user.status ≡ locked)
      → Along env users (replace_password env user new_password result db).1
  unfolding replace_password
  replace_password-Along users user new_password result db along found status =
      bind_rule (Along env users) (λ _ db'. db' ≡ db) (require_valid _ result)
        (λ _. password_replaced env user new_password) db
        (require_valid_same env users _ result db along)
        (λ _ db' same.
          subst (λ d. Along env users (password_replaced env user new_password d).1) (sym same)
            (password_replaced-Along users user new_password db along found status))

  reset_cases :
      (email code new_password : String) (db : Db)
      → ((reset_password env email code new_password db).1 ≡ db)
        ⊎ ((user : User) × (user_by_email env email db ≡ some user)
            × (can_reset user.status ≡ true)
            × ((reset_password env email code new_password db).1
                ≡ ((verify env user.id password_reset code
                      >>= replace_password env user new_password)
                    db).1))
  unfolding reset_password
  reset_cases email code new_password db = elim (Option-cases (user_by_email env email db)) [
    | inl missing ↦ inl (ground arith)
    | inr (user, found) ↦ elim (Bool-cases (can_reset user.status)) [
      | inl fits ↦ inr (user, found, fits, ground arith)
      | inr other ↦ inl (ground arith)
    ]
  ]

  pub reset_Along :
      (email code new_password : String) (db : Db)
      → IsSound env db.users
      → Along env db.users (reset_password env email code new_password db).1
  reset_Along email code new_password db sound = elim (reset_cases email code new_password db) [
    | inl same ↦ rw same stay
    | inr (user, found, fits, same) ↦ rw same (
        bind_rule (Along env db.users) (λ _ db'. db'.users ≡ db.users)
          (verify env user.id password_reset code) (replace_password env user new_password) db
          (same_users env db (verify env user.id password_reset code db)
            (verify_users env user.id password_reset code db))
          (λ result db' kept.
            replace_password-Along db.users user new_password result db' (rw kept stay)
              (found_same env db db' user kept (found_by_email env email db user sound found))
              (can_reset_cases user.status fits)))
  ]
