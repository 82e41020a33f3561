-- ===== src/Account/Codes/Single.antt =====
-- A code that was just made is accepted, once.
use gcdr.Base.Errors.{ok, Result}
use gcdr.Base.{
  refl, ap, subst, sym, some, ◌∙◌, [], eq_refl, ◌∷◌, ◌++◌, eq_iff, true, ◌+◌, ◌<◌, ℕ, Option, inr,
  inl, Bool-cases, ◌≡◌, List, none, String, arith, find, false,
}
use gcdr.Base.Rows.{
  find-update_still_none, find-append_missing, update_where-append, rewrite, find-update_none,
  update_where,
}
use gcdr.Account.Data.{VerificationToken, VerificationTokenType, Env}
use gcdr.Account.Codes.{
  Verdict, refused, verify_active, verify_found, accepted, verify_token, verify, active_token,
  has_id, new_token, same_type, is_of, generate_verification_code, create_token, Db,
  is_active_token, is_unused, use_token,
}

-- The same tenant at another time.
abbrev pub at_time : Env → ℕ → Env
at_time env t = record env { now = t }

module _ (env : Env) (user_id : String) (kind : VerificationTokenType) (t : ℕ) where
  active_unused :
      (x : VerificationToken)
      → is_unused env user_id kind x ≡ false
      → is_active_token (at_time env t) user_id kind x ≡ false
  unfolding is_active_token is_unused is_of
  active_unused x h = rw h

  used_inactive :
      (now : ℕ) (x : VerificationToken)
      → is_active_token (at_time env t) user_id kind (use_token (at_time env now) user_id kind x)
        ≡ false
  unfolding is_active_token is_unused use_token
  used_inactive now x = ground arith

  invalidated :
      (x : VerificationToken)
      → is_active_token
          (at_time env t)
          user_id
          kind
          (rewrite (is_unused env user_id kind) (use_token env user_id kind) x)
        ≡ false
  invalidated x = elim (Bool-cases (is_unused env user_id kind x)) [
    | inl e ↦ rw e (used_inactive env.now x)
    | inr e ↦ rw e (active_unused x e)
  ]

  -- Once the tokens in use are invalidated none is active.
  none_active :
      (tokens : List VerificationToken)
      → find
          (is_active_token (at_time env t) user_id kind)
          (update_where (is_unused env user_id kind) (use_token env user_id kind) tokens)
        ≡ none
  none_active tokens = find-update_none _ _ _ tokens invalidated

same_type_refl : (k : VerificationTokenType) → same_type k k ≡ true
same_type_refl k = ground arith

module _ (env : Env) (user_id : String) (kind : VerificationTokenType) (ip agent : Option String)
    (db : Db) where
  abbrev code : String
  code = generate_verification_code env.random

  abbrev token : VerificationToken
  token = new_token env user_id kind ip agent code

  abbrev old_tokens : List VerificationToken
  old_tokens = update_where (is_unused env user_id kind) (use_token env user_id kind) db.tokens

  create_token_lem :
      create_token env user_id kind ip agent db
      ≡ (ok (token, code), record db { tokens = old_tokens ++ token ∷ [] })
  unfolding create_token
  create_token_lem = refl

  module _ (t : ℕ) (soon : t < env.now + 900000) where
    token_active : is_active_token (at_time env t) user_id kind token ≡ true
    unfolding is_active_token is_unused is_of new_token
    token_active =
        ground
          (arith, eq_iff env.tenant_id env.tenant_id, eq_iff user_id user_id, same_type_refl kind)

    new_active :
        active_token (at_time env t) user_id kind (record db { tokens = old_tokens ++ token ∷ [] })
        ≡ some token
    unfolding active_token find
    new_active =
        find-append_missing _ old_tokens (token ∷ []) (none_active env user_id kind t db.tokens)
        ∙ rw token_active

    abbrev accepted_db : Db
    accepted_db = record db {
      tokens =
          update_where (has_id (at_time env t) user_id kind token.id)
            (use_token (at_time env t) user_id kind) (old_tokens ++ token ∷ []);
    }

    first_try :
        verify (at_time env t) user_id kind code (create_token env user_id kind ip agent db).1
        ≡ (ok accepted, accepted_db)
    unfolding verify_found verify_token new_token
    first_try = rw create_token_lem (
        verify_active _ user_id kind code _ (some token) new_active
        ∙ rw (eq_refl (env.sha256 code)))

    spent : (later : ℕ) → active_token (at_time env later) user_id kind accepted_db ≡ none
    unfolding active_token find update_where
    spent later =
        let uses = use_token (at_time env t) user_id kind in
        let ours = has_id (at_time env t) user_id kind token.id in
        rw update_where-append (
          find-append_missing _ (update_where ours uses old_tokens) _ (
            find-update_still_none _ ours uses old_tokens (used_inactive env user_id kind later t)
              (none_active env user_id kind later db.tokens))
          ∙ rw (eq_refl token.id) (rw (used_inactive env user_id kind later t token)))

    abbrev first : Result Verdict × Db
    first = verify (at_time env t) user_id kind code (create_token env user_id kind ip agent db).1

    abbrev second : ℕ → String → Result Verdict
    second later guess = (verify (at_time env later) user_id kind guess first.1).0

    abbrev Refuses : ℕ → String → Result Verdict × Db → Type 0
    Refuses later guess r =
        (verify (at_time env later) user_id kind guess r.1).0
        ≡ ok (refused "No active verification token found or token expired" none)

    -- The code that create made is accepted within its fifteen minutes, whatever tokens there were
    -- before, and no code is accepted after it, at any time, until a token is made again.
    pub create-verify_once :
        (first.0 ≡ ok accepted)
        × ((later : ℕ) (guess : String)
            → second later guess
              ≡ ok (refused "No active verification token found or token expired" none))
    unfolding verify_found
    create-verify_once = (
      ap (λ r. r.0) first_try,
      λ later guess. subst (Refuses later guess) (sym first_try) (
          ap (λ r. r.0)
            (verify_active (at_time env later) user_id kind guess accepted_db none (spent later))),
    )
