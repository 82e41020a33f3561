-- ===== src/Account/Jwt.antt =====
-- The JSON web tokens of services/AuthService.ts. What Node supplies, HMAC-SHA256, base64 and JSON,
-- is a parameter; the assembly and the checks of a token are the code's.
pub mod Verified
use Prim.Native.String.{◌++◌}
use gcdr.Base.{
  ◌+◌, ◌/◌, ◌==◌, ℕ, String, List, [], ◌∷◌, none, some, Option, ltb, ◌||◌, if◌then◌else◌,
}
use gcdr.Base.Split.{split}

-- `JWTPayload`, `RefreshTokenPayload` and `MfaTokenPayload`: the claims of each kind of token, a
-- claim that a kind lacks being absent.
pub record Claims : Type 0 where
  pub subject : String
  pub tenant_id : String
  pub email : Option String
  pub roles : Option (List String)
  pub token_type : Option String
  pub jti : Option String
  pub iat : ℕ
  pub exp : ℕ
  pub iss : String
  pub aud : List String

-- `sign` is the HMAC under the secret, as bytes; `encode` and `decode` are base64url; `write` and
-- `read` are the JSON of claims, `read` failing where the code's parse throws.
pub record Jose : Type 0 where
  pub header : String
  pub issuer : String
  pub audience : List String
  pub sign : String → String
  pub encode : String → String
  pub decode : String → String
  pub write : Claims → String
  pub read : String → Option Claims

abbrev pub seconds : ℕ → ℕ
seconds now = now / 1000

module _ (jose : Jose) (now : ℕ) where
  unfoldable pub full_payload : Claims → ℕ → Claims
  full_payload claims expires_in = record claims {
    iat = seconds now;
    exp = seconds now + expires_in;
    iss = jose.issuer;
    aud = jose.audience;
  }

  -- createJWT
  unfoldable pub create_jwt : Claims → ℕ → String
  unfolding full_payload
  create_jwt claims expires_in =
      let header_b64 = jose.encode jose.header in
      let payload_b64 = jose.encode (jose.write (full_payload claims expires_in)) in
      let signature_b64 = jose.encode (jose.sign (header_b64 ++ ("." ++ payload_b64))) in
      header_b64 ++ ("." ++ (payload_b64 ++ ("." ++ signature_b64)))

  unfoldable pub check_expiry : Option Claims → Option Claims
  check_expiry none = none
  check_expiry (some claims) = if ltb claims.exp (seconds now) then none else some claims

  unfoldable pub verify_parts : List String → Option Claims
  unfolding check_expiry
  verify_parts (header ∷ (payload ∷ (signature ∷ []))) =
      if header == "" || (payload == "" || signature == "")
      then none
      else (if jose.sign (header ++ ("." ++ payload)) == jose.decode signature
          then check_expiry (jose.read (jose.decode payload))
          else none)
  verify_parts _ = none

  -- verifyJWT
  unfoldable pub verify_jwt : String → Option Claims
  unfolding verify_parts split
  verify_jwt token = verify_parts (split b'.' token)
