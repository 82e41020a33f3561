-- ===== src/Account/SignIn/Lockout/Sequence.antt =====
-- One wrong password after another, up to the lock.
use gcdr.Account.SignIn.Lockout.{Closing, record_failed-Closing}
use gcdr.Base.{
  [], length, Elem, ◌∷◌, length, List, none, false, Option, ◌<◌, refl, ◌≡◌, ◌+◌, ◌≤◌, ℕ, suc, ◌∙◌,
  String, some, inl, inr, arith,
}
use gcdr.Account.Codes.Single.{at_time}
use gcdr.Account.Machine.{IsSound}
use gcdr.Account.Machine.Journeys.{found_by_email}
use gcdr.Base.Actions.{Ends}
use gcdr.Base.Errors.{text, unauthorized, ok, err}
use gcdr.Account.Data.{User, active, locked, Env, Db}
use gcdr.Account.Users.{user_by_id, user_by_email}
use gcdr.Account.Registration.{record_failed_login}
use gcdr.Account.SignIn.{
  locked_out, known_ip, refuse_password, status_error, Result, still_locked, refuse_with,
  password_matches, authenticate, HmacSha1,
}

module _ (hmac : HmacSha1) (env : Env) (email : String) where
  refuse_with-Closing :
      (before : User) (n : ℕ) (ip : String) (r : Result ℕ × Db)
      → Ends (λ _. Closing hmac env email before n) (λ _. ⊥) r
      → Closing hmac env email before n (refuse_with hmac env email ip r).1
  unfolding refuse_with
  refuse_with-Closing before n ip (ok attempts, after) h = h
  refuse_with-Closing before n ip (err e, after) h = absurd h

  wrong_refused :
      (u : User) (password : String) (ip : Option String) (db : Db)
      → user_by_email env email db ≡ some u
      → u.status ≡ active
      → still_locked hmac env u ≡ false
      → password_matches hmac env u password ≡ false
      → (authenticate hmac env email password none ip db).1
        ≡ (refuse_with hmac env email (known_ip ip) (record_failed_login env u.id db)).1
  unfolding authenticate status_error refuse_password
  wrong_refused u password ip db found open_ free wrong = ground arith

  locked_refused :
      (u : User) (password : String) (code ip : Option String) (db : Db)
      → user_by_email env email db ≡ some u
      → u.status ≡ locked
      → authenticate hmac env email password code ip db ≡ (err (unauthorized (text locked_out)), db)
  unfolding authenticate status_error
  locked_refused u password code ip db found shut = ground arith

  same_password :
      (u before : User) (password : String)
      → u.security.password_hash ≡ before.security.password_hash
      → password_matches hmac env u password ≡ password_matches hmac env before password
  unfolding password_matches
  same_password u before password same = rw same refl

  same_lock :
      (u before : User)
      → u.security.locked_until ≡ before.security.locked_until
      → still_locked hmac env u ≡ still_locked hmac env before
  unfolding still_locked
  same_lock u before same = rw same refl

  Closing-trans :
      (u before : User) (n : ℕ) (db : Db)
      → u.security.password_hash ≡ before.security.password_hash
      → u.security.locked_until ≡ before.security.locked_until
      → Closing hmac env email u n db
      → Closing hmac env email before n db
  Closing-trans u before n db hash until (v, current, inl shut) = (v, current, inl shut)
  Closing-trans u before n db hash until (v, current, inr (open_, h, t, room, few)) =
      (v, current, inr (open_, h ∙ hash, t ∙ until, room, few))

  one_wrong :
      (before : User) (password : String) (ip : Option String) (n : ℕ) (db : Db)
      → still_locked hmac env before ≡ false
      → password_matches hmac env before password ≡ false
      → Closing hmac env email before (suc n) db
      → Closing hmac env email before n (authenticate hmac env email password none ip db).1
  one_wrong before password ip n db free wrong (u, (by_email, by_id), inl shut) =
      rw (locked_refused u password none ip db by_email shut) (u, (by_email, by_id), inl shut)
  one_wrong before password ip n db free wrong
        (u, (by_email, by_id), inr (open_, hash, until, room, few)) =
      rw
        (wrong_refused u password ip db by_email open_ (same_lock u before until ∙ free)
          (same_password u before password hash ∙ wrong))
        (Closing-trans u before n _ hash until (
          refuse_with-Closing u n (known_ip ip) (record_failed_login env u.id db)
            (record_failed-Closing hmac env email u n db open_ room (by_email, by_id))))

  Closing-end :
      (before : User) (db : Db)
      → Closing hmac env email before 0 db
      → (u : User) × (user_by_email env email db ≡ some u) × (u.status ≡ locked)
  Closing-end before db (u, (by_email, _), inl shut) = (u, by_email, shut)
  Closing-end before db (u, _, inr (_, _, _, room, few)) = absurd (omega arith)

-- A sign-in with a password alone, at its own time and from its own address.
pub record Attempt : Type 0 where
  pub at : ℕ
  pub ip : Option String
  pub password : String

module _ (hmac : HmacSha1) (env : Env) (email : String) where
  -- One sign-in after another.
  abbrev pub sign_ins : List Attempt → Db → Db
  sign_ins [] db = db
  sign_ins (a ∷ attempts) db =
      sign_ins attempts (authenticate hmac (at_time env a.at) email a.password none a.ip db).1

  -- What is looked up does not depend on the time.
  Closing-at :
      (t : ℕ) (before : User) (n : ℕ) (db : Db)
      → Closing hmac env email before n db
      → Closing hmac (at_time env t) email before n db
  unfolding user_by_email user_by_id
  Closing-at t before n db closing = closing

  Closing-from :
      (t : ℕ) (before : User) (n : ℕ) (db : Db)
      → Closing hmac (at_time env t) email before n db
      → Closing hmac env email before n db
  unfolding user_by_email user_by_id
  Closing-from t before n db closing = closing

  found_at :
      (t : ℕ) (u : User) (db : Db)
      → user_by_email env email db ≡ some u
      → user_by_email (at_time env t) email db ≡ some u
  unfolding user_by_email
  found_at t u db found = found

  -- No timed lock is on at the attempt, and its password is wrong.
  abbrev pub IsWrong : User → Attempt → Type 0
  IsWrong u a =
      (still_locked hmac (at_time env a.at) u ≡ false)
      × (password_matches hmac (at_time env a.at) u a.password ≡ false)

  all_wrong :
      (before : User) (attempts : List Attempt) (db : Db)
      → ((a : Attempt) → Elem a attempts → IsWrong before a)
      → Closing hmac env email before (length attempts) db
      → Closing hmac env email before 0 (sign_ins attempts db)
  all_wrong before [] db wrong closing = closing
  all_wrong before (a ∷ attempts) db wrong closing =
      let (free, bad) = wrong a (inl refl) in
      all_wrong before attempts
        (authenticate hmac (at_time env a.at) email a.password none a.ip db).1
        (λ b m. wrong b (inr m))
        (Closing-from a.at before (length attempts) _ (
          one_wrong hmac (at_time env a.at) email before a.password a.ip (length attempts) db free
            bad (Closing-at a.at before (suc (length attempts)) db closing)))

  -- In a sound table, an active account whose count of failures is below six is locked once wrong
  -- passwords in a row, each at its own time at which no timed lock is on, bring the count to six. From
  -- there on every sign-in, at any time, from any address and with any password and code, is refused and
  -- changes nothing: the lock does not lift by itself.
  pub sign_ins_lock :
      (u : User) (attempts : List Attempt) (db : Db)
      → IsSound env db.users
      → user_by_email env email db ≡ some u
      → u.status ≡ active
      → u.security.failed_login_attempts < 6
      → 6 ≤ u.security.failed_login_attempts + length attempts
      → ((a : Attempt) → Elem a attempts → IsWrong u a)
      → ((v : User) × (user_by_email env email (sign_ins attempts db) ≡ some v)
          × (v.status ≡ locked))
        × ((t : ℕ) (password : String) (code ip : Option String)
            → authenticate hmac (at_time env t) email password code ip (sign_ins attempts db)
              ≡ (err (unauthorized (text locked_out)), sign_ins attempts db))
  sign_ins_lock u attempts db sound found open_ few room wrong =
      let closing = all_wrong u attempts db wrong (
        u,
        (found, found_by_email env email db u sound found),
        inr (open_, refl, refl, room, few),
      ) in
      let (v, by_email, shut) = Closing-end hmac env email u _ closing in
      (
        (v, by_email, shut),
        λ t password code ip.
            locked_refused hmac (at_time env t) email v password code ip (sign_ins attempts db)
              (found_at t v (sign_ins attempts db) by_email) shut,
      )
