-- ===== src/Account/Tests.antt =====
-- Runs of the account model on a small tenant, and its theorems at these inputs: the tenant, the codes
-- and the machine.
mod Sessions
mod SignIn
use gcdr.Base.{◌↔◌, find}
use gcdr.Base.{
  refl, subst, sym, ap, ◌∙◌, ◌≡◌, ◌≢◌, ℕ, String, [], ◌∷◌, none, some, true, inl, inr, arith,
  eq_iff, Elem, if◌then◌else◌,
}
use gcdr.Base.Errors.{ok}
use gcdr.Base.Records.{Entity}
use gcdr.Account.Data.{
  User, UserStatus, unverified, pending_approval, active, customer, Env, Db,
  create_default_preferences, create_default_security, create_default_profile, VerificationToken,
  email_verification,
}
use gcdr.Account.Codes.{
  is_active_token, verify, create_token, generate_verification_code, accepted, refused,
  active_token,
}
use gcdr.Account.Codes.Single.{create-verify_once, at_time}
use gcdr.Account.Codes.Guesses.{guess_all, guess_all-exhausts}
use gcdr.Account.SignIn.{HmacSha1}
use gcdr.Account.Machine.{Journey, IsSound, IsSoundUser}
use gcdr.Account.Machine.Run.{run_op, approve_op, run_op-Journey, run_op-IsSound}

abbrev env : Env
env = record {
  tenant_id = "t1";
  now = 1000;
  user_id = "u9";
  token_id = "k9";
  random = 4000000042;
  sha256 = λ s. s;
}

abbrev no_hmac : HmacSha1
no_hmac _ _ = []

abbrev row : String → Entity
row id = record {
  id = id;
  tenant_id = "t1";
  created_at = 10;
  updated_at = 10;
  created_by = none;
  updated_by = none;
  version = 1;
}

abbrev user : UserStatus → User
user status = record {
  entity = row "u1";
  customer_id = none;
  email = "ana@x.com";
  email_verified = true;
  user_type = customer;
  status = status;
  profile = create_default_profile "Ana" "Lima";
  security = record create_default_security {
    password_hash = some "secret";
    email_verified_at = some 20;
  };
  preferences = create_default_preferences;
  active_sessions = 0;
  tags = [];
  metadata = [];
}

abbrev token : VerificationToken
token = record {
  id = "k1";
  tenant_id = "t1";
  user_id = "u1";
  token_type = email_verification;
  code_hash = "123456";
  expires_at = 9000;
  used_at = none;
  attempts = 3;
  max_attempts = 5;
  ip_address = none;
  user_agent = none;
  created_at = 100;
}

abbrev db : UserStatus → Db
db status = record { users = user status ∷ []; tokens = token ∷ []; events = [] }

code_test : generate_verification_code env.random ≡ "000042"
unfolding generate_verification_code
code_test = refl

pending-IsSound : IsSound env (user pending_approval ∷ [])
unfolding find
pending-IsSound u member tenant = elim member [
  | inl e ↦
      subst (λ x. IsSoundUser env (user pending_approval ∷ []) x) (sym e)
        (record { by_id = refl; by_email = refl; vetted = (refl, refl) })
  | inr nowhere ↦ absurd nowhere
]

other_id : ◌≢◌ {A = String} "u1" "u9"
other_id = ground (arith, eq_iff "u1" "u9")

fresh_id : (u : User) → Elem u (user pending_approval ∷ []) → u.id ≢ "u9"
fresh_id u member e = elim member [
  | inl same ↦ other_id (ap (λ (x : User). x.id) (sym same) ∙ e)
  | inr nowhere ↦ nowhere
]

run_op-Journey_example :
    Journey env
      (user pending_approval ∷ [])
      (run_op no_hmac env (approve_op "u1" "admin") (db pending_approval)).users
run_op-Journey_example =
    run_op-Journey no_hmac env (approve_op "u1" "admin") (db pending_approval) pending-IsSound
      fresh_id

run_op-IsSound_example :
    IsSound env (run_op no_hmac env (approve_op "u1" "admin") (db pending_approval)).users
run_op-IsSound_example =
    run_op-IsSound no_hmac env (approve_op "u1" "admin") (db pending_approval) pending-IsSound
      fresh_id

create-verify_once_example :
    ((verify
        (at_time env 5000)
        "u1"
        email_verification
        (generate_verification_code 4000000042)
        (create_token env "u1" email_verification none none (db unverified)).1).0
      ≡ ok accepted)
    × ((later : ℕ) (guess : String)
        → (verify
            (at_time env later)
            "u1"
            email_verification
            guess
            (verify
              (at_time env 5000)
              "u1"
              email_verification
              (generate_verification_code 4000000042)
              (create_token env "u1" email_verification none none (db unverified)).1).1).0
          ≡ ok (refused "No active verification token found or token expired" none))
create-verify_once_example =
    create-verify_once env "u1" email_verification none none (db unverified) 5000 (omega arith)

wrong_one : ◌≢◌ {A = String} "111111" "123456"
wrong_one = ground (arith, eq_iff "111111" "123456")

wrong_two : ◌≢◌ {A = String} "222222" "123456"
wrong_two = ground (arith, eq_iff "222222" "123456")

wrong_codes : (c : String) → Elem c ("111111" ∷ "222222" ∷ []) → c ≢ "123456"
wrong_codes c member e = elim member [
  | inl one ↦ wrong_one (sym one ∙ e)
  | inr more ↦ elim more [ inl two ↦ wrong_two (sym two ∙ e) | inr nowhere ↦ nowhere ]
]

token_is_active : active_token env "u1" email_verification (db unverified) ≡ some token
unfolding active_token find is_active_token
token_is_active = refl

guess_all-exhausts_example :
    verify env "u1" email_verification "123456"
      (guess_all env "u1" email_verification ("111111" ∷ "222222" ∷ []) (db unverified))
    ≡ (
      ok (refused "Maximum verification attempts exceeded" (some 0)),
      guess_all env "u1" email_verification ("111111" ∷ "222222" ∷ []) (db unverified),
    )
guess_all-exhausts_example =
    guess_all-exhausts env "u1" email_verification ("111111" ∷ "222222" ∷ []) (db unverified) token
      "123456" token_is_active wrong_codes (omega arith)
