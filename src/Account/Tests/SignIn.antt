-- ===== src/Account/Tests/SignIn.antt =====
-- Runs of the sign-in, and its theorems at these inputs.
use gcdr.Account.Tests.{env, no_hmac, user}
use gcdr.Base.{Option, List, ℕ, ◌↔◌, find}
use gcdr.Base.Text.{lower_case}
use gcdr.Base.Errors.{err, unauthorized, text}
use gcdr.Account.Data.{locked}
use gcdr.Account.Codes.Single.{at_time}
use gcdr.Account.Users.{user_by_email}
use gcdr.Account.SignIn.{still_locked, password_matches, authenticate, signed_in, locked_out}
use gcdr.Account.SignIn.Accepted.{authenticate_iff, passes}
use gcdr.Account.SignIn.Lockout.Sequence.{sign_ins, sign_ins_lock, Attempt, IsWrong}
use gcdr.Base.{
  find, refl, subst, sym, ◌≡◌, String, [], ◌∷◌, none, some, true, false, inl, inr, arith, Elem,
}
use gcdr.Base.Errors.{ok}
use gcdr.Account.Data.{User, active, Db, create_default_security}
use gcdr.Account.Machine.{IsSound, IsSoundUser}

-- An active user with everything that the status claims.
abbrev ana : User
ana = record (user active) {
  security = record create_default_security {
    password_hash = some "secret";
    email_verified_at = some 20;
    approved_at = some 30;
    approved_by = some "admin";
    failed_login_attempts = 4;
  };
}

abbrev tables : Db
tables = record { users = ana ∷ []; tokens = []; events = [] }

tables-IsSound : IsSound env (ana ∷ [])
unfolding find
tables-IsSound u member tenant = elim member [
  | inl e ↦
      subst (λ x. IsSoundUser env (ana ∷ []) x) (sym e)
        (record { by_id = refl; by_email = refl; vetted = (refl, refl, refl) })
  | inr nowhere ↦ absurd nowhere
]

ana_found : user_by_email env "Ana@x.com" tables ≡ some ana
unfolding user_by_email find lower_case
ana_found = refl

ana_free : still_locked no_hmac env ana ≡ false
unfolding still_locked
ana_free = refl

ana_password : password_matches no_hmac env ana "secret" ≡ true
unfolding password_matches
ana_password = refl

abbrev guesses : List Attempt
guesses =
    record { at = 500; ip = none; password = "a" }
    ∷ record { at = 90_000_000; ip = some "10.0.0.7"; password = "b" }
    ∷ []

guesses-IsWrong : (a : Attempt) → Elem a guesses → IsWrong no_hmac env "Ana@x.com" ana a
unfolding password_matches still_locked
guesses-IsWrong a member = elim member [
  | inl one ↦ subst (IsWrong no_hmac env "Ana@x.com" ana) (sym one) (refl, refl)
  | inr more ↦ elim more [
    | inl two ↦ subst (IsWrong no_hmac env "Ana@x.com" ana) (sym two) (refl, refl)
    | inr nowhere ↦ absurd nowhere
  ]
]

authenticate_iff_example :
    ((authenticate no_hmac env "Ana@x.com" "secret" none none tables).0 ≡ ok (signed_in ana)) ↔ (
      (user_by_email env "Ana@x.com" tables ≡ some ana)
      × (active ≡ active)
      × (still_locked no_hmac env ana ≡ false)
      × (password_matches no_hmac env ana "secret" ≡ true)
      × (passes no_hmac env ana none ≡ true))
authenticate_iff_example =
    authenticate_iff no_hmac env "Ana@x.com" "secret" none none tables ana tables-IsSound

-- The right side holds, so that the sign-in goes well.
ana_signs_in :
    (authenticate no_hmac env "Ana@x.com" "secret" none none tables).0 ≡ ok (signed_in ana)
ana_signs_in =
    (authenticate_iff no_hmac env "Ana@x.com" "secret" none none tables ana tables-IsSound).1
      (ana_found, refl, ana_free, ana_password, refl)

sign_ins_lock_example :
    ((v : User) × (user_by_email env "Ana@x.com" (sign_ins no_hmac env "Ana@x.com" guesses tables)
        ≡ some v)
      × (v.status ≡ locked))
    × ((t : ℕ) (password : String) (code ip : Option String)
        → authenticate no_hmac
            (at_time env t)
            "Ana@x.com"
            password
            code
            ip
            (sign_ins no_hmac env "Ana@x.com" guesses tables)
          ≡ (err (unauthorized (text locked_out)), sign_ins no_hmac env "Ana@x.com" guesses tables))
sign_ins_lock_example =
    sign_ins_lock no_hmac env "Ana@x.com" ana guesses tables tables-IsSound ana_found refl
      (omega arith) (omega arith) guesses-IsWrong
