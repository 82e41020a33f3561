-- ===== src/Account/Codes/Guesses.antt =====
-- Wrong guesses at a code use it up.
use gcdr.Base.{
  suc, le→leb, refl, ◌∙◌, ◌≡◌, ◌≢◌, ◌+◌, ◌≤◌, ℕ, List, [], ◌∷◌, some, String, arith, Elem, length,
  eq_refl, eq_iff, inl, inr, leb, leb→le, if◌then◌else◌, Bool-cases, ◌==◌,
}
use gcdr.Base.Errors.{ok}
use gcdr.Base.Rows.{find-update_where, update_where}
use gcdr.Account.Data.{VerificationToken, VerificationTokenType, Env, Db}
use gcdr.Account.Codes.{
  verify_active, verify_found, refused, verify_token, verify, active_token, has_id, add_attempt,
  is_active_token, is_unused, is_of,
}

module _ (env : Env) (user_id : String) (kind : VerificationTokenType) where
  -- The tables after one guess after another.
  abbrev pub guess_all : List String → Db → Db
  guess_all [] db = db
  guess_all (code ∷ codes) db = guess_all codes (verify env user_id kind code db).1

  -- The token after a wrong guess.
  abbrev missed : VerificationToken → VerificationToken
  missed t = if leb t.max_attempts t.attempts then t else add_attempt env user_id kind t t

  active_kept :
      (old x : VerificationToken)
      → is_active_token env user_id kind (add_attempt env user_id kind old x)
        ≡ is_active_token env user_id kind x
  unfolding is_active_token is_unused is_of add_attempt
  active_kept old x = refl

  counted :
      (db : Db) (t : VerificationToken)
      → active_token env user_id kind db ≡ some t
      → active_token env user_id kind (record db {
        tokens =
            update_where (has_id env user_id kind t.id) (add_attempt env user_id kind t) db.tokens;
      })
        ≡ some (add_attempt env user_id kind t t)
  unfolding active_token
  counted db t h =
      find-update_where _ (has_id env user_id kind t.id) (add_attempt env user_id kind t) db.tokens
        (active_kept t)
      ∙ rw h (rw (eq_refl t.id))

  wrong_guess :
      (db : Db) (t : VerificationToken) (code : String)
      → active_token env user_id kind db ≡ some t
      → env.sha256 code ≢ t.code_hash
      → active_token env user_id kind (verify env user_id kind code db).1 ≡ some (missed t)
  unfolding verify_found verify_token
  wrong_guess db t code h wrong =
      rw (verify_active env user_id kind code db (some t) h)
        (elim (Bool-cases (leb t.max_attempts t.attempts)) [
          | inl e ↦ rw e h
          | inr e ↦ elim (Bool-cases (env.sha256 code == t.code_hash)) [
            | inl same ↦ absurd (wrong ((eq_iff _ _).0 same))
            | inr other ↦ rw (e, other) (counted db t h)
          ]
        ])

  used_up :
      (db : Db) (t : VerificationToken) (code : String)
      → active_token env user_id kind db ≡ some t
      → t.max_attempts ≤ t.attempts
      → verify env user_id kind code db
        ≡ (ok (refused "Maximum verification attempts exceeded" (some 0)), db)
  unfolding verify_found verify_token
  used_up db t code h full =
      verify_active env user_id kind code db (some t) h ∙ rw (le→leb _ _ full)

  missed_hash : (t : VerificationToken) → (missed t).code_hash ≡ t.code_hash
  unfolding add_attempt
  missed_hash t = elim (Bool-cases (leb t.max_attempts t.attempts)) [
    | inl e ↦ rw e refl
    | inr e ↦ rw e refl
  ]

  missed_room :
      (t : VerificationToken) (n : ℕ)
      → t.max_attempts ≤ t.attempts + suc n
      → (missed t).max_attempts ≤ (missed t).attempts + n
  unfolding add_attempt
  missed_room t n h = elim (Bool-cases (leb t.max_attempts t.attempts)) [
    | inl e ↦ let full = leb→le _ _ e in rw e (omega arith)
    | inr e ↦ rw e (omega arith)
  ]

  -- After as many wrong guesses as a token has attempts left, every code is refused, the right one
  -- too, and a further guess changes nothing.
  pub guess_all-exhausts :
      (codes : List String) (db : Db) (t : VerificationToken) (code : String)
      → active_token env user_id kind db ≡ some t
      → ((c : String) → Elem c codes → env.sha256 c ≢ t.code_hash)
      → t.max_attempts ≤ t.attempts + length codes
      → verify env user_id kind code (guess_all codes db)
        ≡ (ok (refused "Maximum verification attempts exceeded" (some 0)), guess_all codes db)
  guess_all-exhausts [] db t code h wrong enough = used_up db t code h (omega arith)
  guess_all-exhausts (c ∷ codes) db t code h wrong enough =
      guess_all-exhausts codes (verify env user_id kind c db).1 (missed t) code
        (wrong_guess db t c h (wrong c (inl refl)))
        (λ c' m same. wrong c' (inr m) (same ∙ missed_hash t)) (missed_room t (length codes) enough)
