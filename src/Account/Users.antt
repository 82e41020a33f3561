-- ===== src/Account/Users.antt =====
-- The queries and writes of repositories/UserRepository.ts that registration and sign-in use. A
-- write reads the row by its id, builds `security` from what it read, and updates the rows of that
-- tenant and id.
mod Changes
unfoldable pub use Changes.*
use gcdr.Base.{
  ap, ◌≡◌, ◌+◌, ◌==◌, ℕ, String, List, [], ◌∷◌, ◌++◌, Bool, true, false, ◌&&◌, none, some, Option,
  find, filter,
}
use gcdr.Base.Errors.{ok, err, throw, Action, ◌>>=◌, ◌>>◌, gets, pure, modify, app, text, AppError}
use gcdr.Base.Rows.{update_where}
use gcdr.Base.Text.{lower_case}
use gcdr.Account.Data.{
  User, UserStatus, Db, Env, unverified, pending_approval, active, inactive, locked,
}

abbrev pub user_not_found : AppError
user_not_found = app "USER_NOT_FOUND" (text "User not found") 404

abbrev pub same_status : UserStatus → UserStatus → Bool
same_status unverified unverified = true
same_status pending_approval pending_approval = true
same_status active active = true
same_status inactive inactive = true
same_status locked locked = true
same_status _ _ = false

module _ (env : Env) where
  abbrev pub is_user : String → User → Bool
  is_user id u = u.tenant_id == env.tenant_id && u.id == id

  abbrev pub has_email : String → User → Bool
  has_email email u = u.tenant_id == env.tenant_id && u.email == email

  -- getById
  unfoldable pub user_by_id : String → Db → Option User
  user_by_id id db = find (is_user id) db.users

  -- getByEmail
  unfoldable pub user_by_email : String → Db → Option User
  user_by_email email db = find (has_email (lower_case email)) db.users

  -- listPendingApproval
  unfoldable pub pending_users : Db → List User
  pending_users db =
      filter (λ u. u.tenant_id == env.tenant_id && same_status u.status pending_approval) db.users

  write_found : Option User → String → (User → User → User) → Action Db User
  write_found none id change = throw user_not_found
  write_found (some existing) id change = do
    modify (λ db. record db { users = update_where (is_user id) (change existing) db.users })
    pure (change existing existing)

  -- `update … set … where tenantId = … and id = …` after `getById`: the change is given the row that
  -- was read and the row to rewrite.
  unfoldable pub write_user : String → (User → User → User) → Action Db User
  unfolding write_found user_by_id
  write_user id change = do existing ← gets (user_by_id id); write_found existing id change

  pub write_user_found :
      (id : String) (change : User → User → User) (db : Db) (u : User)
      → user_by_id id db ≡ some u
      → write_user id change db
        ≡ (ok (change u u), record db { users = update_where (is_user id) (change u) db.users })
  unfolding write_user write_found
  write_user_found id change db u h = ap (λ x. write_found x id change db) h

  pub write_user_missing :
      (id : String) (change : User → User → User) (db : Db)
      → user_by_id id db ≡ none
      → write_user id change db ≡ (err user_not_found, db)
  unfolding write_user write_found
  write_user_missing id change db h = ap (λ x. write_found x id change db) h

  -- createSelfRegistered
  unfoldable pub create_self_registered :
      String
      → String
      → String
      → String
      → Option String
      → Option String
      → Option String
      → Action Db User
  unfolding self_registered
  create_self_registered email password_hash first_name last_name phone customer_id ip_address = do
    let user =
        self_registered env email password_hash first_name last_name phone customer_id ip_address
    modify (λ db. record db { users = db.users ++ user ∷ [] })
    pure user

  -- setEmailVerifiedPendingApproval
  unfoldable pub set_email_verified : String → Action Db User
  set_email_verified id = write_user id (email_verified_change env)

  -- approveUser
  unfoldable pub approve_row : String → String → Action Db User
  approve_row id approved_by = write_user id (approved_change env approved_by)

  -- rejectUser
  unfoldable pub reject_row : String → String → Option String → Action Db User
  reject_row id rejected_by reason = write_user id (rejected_change env rejected_by reason)

  -- lockAccountDueToFailedAttempts
  unfoldable pub lock_account : String → String → Action Db User
  lock_account id reason = write_user id (locked_change env reason)

  -- resetPasswordAndUnlock
  unfoldable pub reset_password_row : String → String → Action Db User
  reset_password_row id password_hash = write_user id (reset_change env password_hash)

  -- incrementFailedLoginAttempts
  unfoldable pub increment_failed : String → Action Db ℕ
  increment_failed id = do
    updated ← write_user id (failed_change env)
    pure updated.security.failed_login_attempts

  -- unlockUser
  unfoldable pub unlock_row : String → Action Db User
  unlock_row id = write_user id (unlocked_change env)

  -- recordLogin
  unfoldable pub record_login : String → String → Action Db User
  record_login id ip = write_user id (login_change env ip)

  -- lockUser
  unfoldable pub lock_user : String → ℕ → Action Db User
  lock_user id until = write_user id (timed_lock_change env until)

  -- resetFailedLoginAttempts
  unfoldable pub reset_failed : String → Action Db User
  reset_failed id = write_user id (forgiven_change env)
