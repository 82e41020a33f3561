-- ===== src/Account/SignIn/Lockout.antt =====
-- Wrong passwords in a row lock the account.
pub mod Sequence
use gcdr.Base.{
  ◌∷◌, false, ◌<◌, refl, ◌≡◌, ◌⊎◌, ◌+◌, ◌≤◌, ℕ, suc, sym, ap, subst, ◌∙◌, String, some, Bool, true,
  inl, inr, arith, Bool-cases, leb, find_sound, find,
}
use gcdr.Base.Rows.{update_where, rewrite, option_map}
use gcdr.Base.Actions.{Ends, bind-Ends}
use gcdr.Base.Errors.{pure, ◌>>◌}
use gcdr.Base.Text.{lower_case}
use gcdr.Account.Data.{User, active, locked, Env, Db}
use gcdr.Account.Users.{
  user_by_email, user_by_id, is_user, write_user, write_user_found, failed_change, locked_change,
  increment_failed, lock_account,
}
use gcdr.Account.Registration.{
  record_failed_login, after_failure, announce, max_failed_login_attempts,
}
use gcdr.Account.SignIn.{HmacSha1}
use gcdr.Account.Machine.Sound.{Keeps, find_id-rewrite, find_email-rewrite}

leb-false : (a b : ℕ) → leb a b ≡ false → b < a
leb-false a b h = ground arith

the_rewritten :
    (test : User → Bool) (f : User → User) (u : User)
    → test u ≡ true
    → option_map (rewrite test f) (some u) ≡ some (f u)
the_rewritten test f u hit = rw hit

module _ (hmac : HmacSha1) (env : Env) (email : String) where
  -- The row that the email finds is the one that its id finds.
  abbrev Current : User → Db → Type 0
  Current u db = (user_by_email env email db ≡ some u) × (user_by_id env u.id db ≡ some u)

  write-Current :
      (bad : Db → Type 0) (change : User → User → User) (u : User) (db : Db)
      → Keeps (change u)
      → Current u db
      → Ends
          (λ r db'. (r ≡ change u u) × Current (change u u) db')
          bad
          (write_user env u.id change db)
  unfolding user_by_id user_by_email
  write-Current bad change u db keeps (by_email, by_id) =
      let (_, hit) = find_sound _ db.users by_id in
      let (_, same_id, _) = keeps u in
      let ours = is_user env u.id in
      let hits = the_rewritten ours (change u) u hit in
      rw (write_user_found env u.id change db u by_id) (
        refl,
        (
          find_email-rewrite env db.users ours (change u) (lower_case email) keeps
              ∙ ap (option_map (rewrite ours (change u))) by_email
              ∙ hits,
          subst
              (λ i.
                find (is_user env i) (update_where ours (change u) db.users) ≡ some (change u u))
              (sym same_id)
              (find_id-rewrite env db.users ours (change u) u.id keeps
                ∙ ap (option_map (rewrite ours (change u))) by_id
                ∙ hits),
        ),
      )

  -- The account is locked, or is still open with at most `n` wrong passwords to go.
  abbrev Closing : User → ℕ → Db → Type 0
  Closing before n db =
      (u : User) × Current u db
      × ((u.status ≡ locked)
          ⊎ ((u.status ≡ active)
              × (u.security.password_hash ≡ before.security.password_hash)
              × (u.security.locked_until ≡ before.security.locked_until)
              × (6 ≤ u.security.failed_login_attempts + n)
              × (u.security.failed_login_attempts < 6)))

  failed_Keeps : (u : User) → Keeps (failed_change env u)
  unfolding failed_change
  failed_Keeps u x = (refl, refl, refl)

  locked_Keeps : (reason : String) (u : User) → Keeps (locked_change env reason u)
  unfolding locked_change
  locked_Keeps reason u x = (refl, refl, refl)

  -- The user after a failure, which the count in `attempts` tells of.
  abbrev Failed : User → ℕ → Db → Type 0
  Failed u attempts db =
      Current (failed_change env u u) db × (attempts ≡ u.security.failed_login_attempts + 1)

  count_of :
      (v r : User)
      → r ≡ failed_change env v v
      → r.security.failed_login_attempts ≡ v.security.failed_login_attempts + 1
  unfolding failed_change
  count_of v r same = ap (λ (x : User). x.security.failed_login_attempts) same

  increment-Failed :
      (u : User) (db : Db) → Current u db → Ends (Failed u) (λ _. ⊥) (increment_failed env u.id db)
  unfolding increment_failed
  increment-Failed u db current =
      bind-Ends (Failed u) (λ _. ⊥)
        (λ r db'. (r ≡ failed_change env u u) × Current (failed_change env u u) db')
        (write_user env u.id (failed_change env))
        (λ updated. pure updated.security.failed_login_attempts) db
        (write-Current (λ _. ⊥) (failed_change env) u db (failed_Keeps u) current)
        (λ r db' (same, current'). (current', count_of u r same))

  lock-Closing :
      (reason : String) (u v : User) (n attempts : ℕ) (db : Db)
      → v.id ≡ u.id
      → Current v db
      → Ends
          (λ _. Closing u n)
          (λ _. ⊥)
          ((write_user env v.id (locked_change env reason)
              >> (announce "USER_UPDATED" u.id "account_locked" >> pure attempts))
            db)
  unfolding locked_change user_by_email user_by_id
  lock-Closing reason u v n attempts db same_id current =
      bind-Ends (λ _. Closing u n) (λ _. ⊥)
        (λ r db'. (r ≡ locked_change env reason v v) × Current (locked_change env reason v v) db')
        (write_user env v.id (locked_change env reason))
        (λ _. announce "USER_UPDATED" u.id "account_locked" >> pure attempts) db
        (write-Current (λ _. ⊥) (locked_change env reason) v db (locked_Keeps reason v) current)
        (λ r db' (_, current'). (locked_change env reason v v, current', inl refl))

  after_failure-Closing :
      (u : User) (n attempts : ℕ) (db : Db)
      → u.status ≡ active
      → 6 ≤ u.security.failed_login_attempts + suc n
      → Failed u attempts db
      → Ends (λ _. Closing u n) (λ _. ⊥) (after_failure env u.id attempts db)
  unfolding after_failure lock_account failed_change
  after_failure-Closing u n attempts db open_ room (current, count) =
      elim (Bool-cases (leb max_failed_login_attempts attempts)) [
        | inl many ↦ rw many (lock-Closing _ u (failed_change env u u) n attempts db refl current)
        | inr few ↦ rw few (
          failed_change env u u,
          current,
          inr (open_, refl, refl, omega arith, subst (λ k. k < 6) count (leb-false 6 attempts few)),
        )
      ]

  record_failed-Closing :
      (u : User) (n : ℕ) (db : Db)
      → u.status ≡ active
      → 6 ≤ u.security.failed_login_attempts + suc n
      → Current u db
      → Ends (λ _. Closing u n) (λ _. ⊥) (record_failed_login env u.id db)
  unfolding record_failed_login
  record_failed-Closing u n db open_ room current =
      bind-Ends (λ _. Closing u n) (λ _. ⊥) (Failed u) (increment_failed env u.id)
        (after_failure env u.id) db (increment-Failed u db current)
        (λ attempts db' failed. after_failure-Closing u n attempts db' open_ room failed)
