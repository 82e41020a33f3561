-- ===== src/Account/Jwt/Verified.antt =====
-- A token that create made is read back until it expires.
use Prim.Native.String.{◌++◌}
use gcdr.Base.{
  refl, ◌≡◌, ◌≢◌, ◌∙◌, ◌+◌, ◌≤◌, ap, ℕ, String, [], ◌∷◌, some, eq_refl, eq_iff, ◌==◌, false,
  Bool-cases, inl, inr, arith, ltb,
}
use gcdr.Base.Split.{split, split-Lacks, split-separated, Lacks}
use gcdr.Account.Jwt.{
  Claims, Jose, create_jwt, verify_jwt, verify_parts, full_payload, check_expiry, seconds,
}

-- What the code relies on: base64url has no dot, is empty for the empty text alone, and is undone; the
-- header and the JSON of claims are not empty, and an HMAC has 32 bytes.
pub record IsJose (jose : Jose) : Type 0 where
  pub encode_dotless : (s : String) → Lacks b'.' (jose.encode s)
  pub encode_filled : (s : String) → s ≢ "" → jose.encode s ≢ ""
  pub header_filled : jose.header ≢ ""
  pub write_filled : (c : Claims) → jose.write c ≢ ""
  pub sign_filled : (s : String) → jose.sign s ≢ ""
  pub decode-encode : (s : String) → jose.decode (jose.encode s) ≡ s

ltb-false : (a b : ℕ) → b ≤ a → ltb a b ≡ false
ltb-false a b h = ground arith

module _ (jose : Jose) (laws : IsJose jose) (now : ℕ) (claims : Claims) (expires_in : ℕ) where
  abbrev full : Claims
  full = full_payload jose now claims expires_in

  abbrev header : String
  header = jose.encode jose.header

  abbrev payload : String
  payload = jose.encode (jose.write full)

  abbrev signature : String
  signature = jose.encode (jose.sign (header ++ ("." ++ payload)))

  three_parts :
      split b'.' (create_jwt jose now claims expires_in) ≡ header ∷ payload ∷ signature ∷ []
  unfolding create_jwt
  three_parts =
      split-separated b'.' header _ (payload ++ ("." ++ signature)) (laws.encode_dotless _) refl
      ∙ ap (λ r. header ∷ r)
          (split-separated b'.' payload _ signature (laws.encode_dotless _) refl
            ∙ ap (λ r. payload ∷ r) (split-Lacks b'.' signature (laws.encode_dotless _)))

  filled : (s : String) → s ≢ "" → (jose.encode s == "") ≡ false
  filled s nonempty = elim (Bool-cases (jose.encode s == "")) [
    | inl e ↦ absurd (laws.encode_filled s nonempty ((eq_iff _ _).0 e))
    | inr e ↦ e
  ]

  -- A token is read back as the claims that were put in, with its times, issuer and audience, at any
  -- later time whose second is not past its expiry, where base64url, JSON and HMAC do what they
  -- document and the JSON of these claims is read back.
  pub verify_jwt-create_jwt :
      (later : ℕ)
      → seconds later ≤ seconds now + expires_in
      → jose.read (jose.write full) ≡ some full
      → verify_jwt jose later (create_jwt jose now claims expires_in)
        ≡ some (full_payload jose now claims expires_in)
  unfolding verify_jwt verify_parts check_expiry full_payload
  verify_jwt-create_jwt later fresh parsed =
      rw
        (
          three_parts,
          filled jose.header laws.header_filled,
          filled (jose.write full) (laws.write_filled full),
          filled (jose.sign (header ++ ("." ++ payload))) (laws.sign_filled _),
        )
        (rw (laws.decode-encode (jose.sign (header ++ ("." ++ payload)))) (
          rw (eq_refl (jose.sign (header ++ ("." ++ payload))))
            (rw (laws.decode-encode (jose.write full), parsed) (rw (ltb-false _ _ fresh)))))
