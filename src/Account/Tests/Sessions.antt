-- ===== src/Account/Tests/Sessions.antt =====
-- Runs of the sessions and of their tokens, and the theorems at these inputs.
use gcdr.Account.Tests.{env, no_hmac, db}
use gcdr.Base.{find}
use gcdr.Base.Errors.{text}
use gcdr.Base.Dict.{erase, lookup}
use Prim.Native.Char.{Char, code}
use package.text.Mathlib.TextEquality.{Char-path}
use package.text.Mathlib.TextLemmas.{cons≢nil}
use gcdr.Base.{
  find, refl, ap, ◌∙◌, ◌≡◌, ◌≢◌, String, [], ◌∷◌, none, some, true, false, Bool-cases, inl, inr,
  arith, eq_iff, eqb, if◌then◌else◌,
}
use gcdr.Base.Split.{Lacks}
use gcdr.Base.Errors.{is_ok}
use gcdr.Account.Data.{active}
use gcdr.Account.Codes.Single.{at_time}
use gcdr.Account.Users.{user_by_id}
use gcdr.Account.Jwt.{Jose, Claims, create_jwt, verify_jwt, full_payload}
use gcdr.Account.Jwt.Verified.{IsJose, verify_jwt-create_jwt}
use gcdr.Account.Sessions.{on_db, AuthState, refresh, generate_tokens, on_db, logout_all_devices}
use gcdr.Account.Sessions.Revoked.{refresh_once, refresh-logout_all_devices}

abbrev claims : Claims
claims = record {
  subject = "u1";
  tenant_id = "t1";
  email = none;
  roles = none;
  token_type = some "refresh";
  jti = some "j1";
  iat = 1;
  exp = 604801;
  iss = "gcdr";
  aud = "gcdr-api" ∷ [];
}

-- A stand-in for the libraries under which every token of three parts is the claims above.
abbrev toy : Jose
toy = record {
  header = "h";
  issuer = "gcdr";
  audience = "gcdr-api" ∷ [];
  sign = λ _. "s";
  encode = λ s. s;
  decode = λ s. s;
  write = λ _. "p";
  read = λ _. some claims;
}

abbrev session : AuthState
session = record {
  db = db active;
  refresh_tokens = ("j1", record { user_id = "u1"; tenant_id = "t1"; expires_at = 604801000 }) ∷ [];
}

read_now : verify_jwt toy 1000 "h.p.s" ≡ some claims
unfolding verify_jwt
read_now = refl

read_later : verify_jwt toy 2000 "h.p.s" ≡ some claims
unfolding verify_jwt
read_later = refl

other_token : ◌≢◌ {A = String} "j2" "j1"
other_token = ground (arith, eq_iff "j2" "j1")

refresh_works : is_ok (refresh no_hmac toy env "j2" "h.p.s" session).0 ≡ true
unfolding refresh verify_jwt on_db find lookup erase user_by_id generate_tokens
refresh_works = refl

refresh_once_example :
    is_ok
      (refresh no_hmac toy
        (at_time env 2000)
        "j3"
        "h.p.s"
        (refresh no_hmac toy env "j2" "h.p.s" session).1).0
    ≡ false
refresh_once_example =
    refresh_once no_hmac toy env "j2" "h.p.s" "j1" claims session (at_time env 2000) "j3" read_now
      read_later refl other_token refresh_works

refresh-logout_all_devices_example :
    is_ok
      (refresh no_hmac toy
        (at_time env 2000)
        "j3"
        "h.p.s"
        (logout_all_devices no_hmac toy env "j2" "u1" session).1).0
    ≡ false
refresh-logout_all_devices_example =
    refresh-logout_all_devices no_hmac toy env "j2" "u1" "h.p.s" claims session (at_time env 2000)
      "j3" ((λ _. refl), tt) read_later refl

-- A coding without dots that can be undone: two characters for one, "dd" for a dot and "x" before any
-- other. Like base64url it is empty for the empty text alone.
escape : String → String
escape String.[] = ""
escape (String.◌∷◌ c s) =
    let rest = escape s in
    if eqb (code c) b'.'
    then String.◌∷◌ "d" (String.◌∷◌ "d" rest)
    else String.◌∷◌ "x" (String.◌∷◌ c rest)

unescape : String → String
unescape String.[] = ""
unescape (String.◌∷◌ x String.[]) = ""
unescape (String.◌∷◌ x (String.◌∷◌ c r)) =
    let rest = unescape r in if eqb (code x) b'd' then String.◌∷◌ "." rest else String.◌∷◌ c rest

escape_dotless : (s : String) → Lacks b'.' (escape s)
unfolding escape
escape_dotless String.[] = tt
escape_dotless (String.◌∷◌ c s) = elim (Bool-cases (eqb (code c) b'.')) [
  | inl e ↦ rw e ((λ q. absurd (omega arith)), ((λ q. absurd (omega arith)), escape_dotless s))
  | inr e ↦ rw e ((λ q. absurd (omega arith)), ((λ q. absurd (ground arith)), escape_dotless s))
]

dot_code : (c : Char) → eqb (code c) b'.' ≡ true → code "." ≡ code c
dot_code c e = ground arith

unescape-escape : (s : String) → unescape (escape s) ≡ s
unfolding escape unescape
unescape-escape String.[] = refl
unescape-escape (String.◌∷◌ c s) = elim (Bool-cases (eqb (code c) b'.')) [
  | inl e ↦ rw e (
      ap (λ r. String.◌∷◌ "." r) (unescape-escape s)
      ∙ ap (λ d. String.◌∷◌ d s) (Char-path "." c (dot_code c e)))
  | inr e ↦ rw e (ap (λ r. String.◌∷◌ c r) (unescape-escape s))
]

escape_filled : (s : String) → s ≢ "" → escape s ≢ ""
unfolding escape
escape_filled String.[] nonempty e = nonempty refl
escape_filled (String.◌∷◌ c s) nonempty e = elim (Bool-cases (eqb (code c) b'.')) [
  | inl q ↦ cons≢nil (rw q at e)
  | inr q ↦ cons≢nil (rw q at e)
]

-- A stand-in for the libraries, with this coding.
abbrev library : Jose
library = record toy {
  header = "{}";
  encode = escape;
  decode = unescape;
  sign = λ _. "s";
  write = λ _. "c";
  read = λ _. some (full_payload toy 1000 claims 604800);
}

library_laws : IsJose library
library_laws = record {
  encode_dotless = escape_dotless;
  encode_filled = escape_filled;
  header_filled = λ e. cons≢nil e;
  write_filled = λ _ e. cons≢nil e;
  sign_filled = λ _ e. cons≢nil e;
  decode-encode = unescape-escape;
}

verify_jwt-create_jwt_example :
    verify_jwt library 604000000 (create_jwt library 1000 claims 604800)
    ≡ some (full_payload library 1000 claims 604800)
unfolding full_payload
verify_jwt-create_jwt_example =
    verify_jwt-create_jwt library library_laws 1000 claims 604800 604000000 (omega arith) refl
