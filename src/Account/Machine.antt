-- ===== src/Account/Machine.antt =====
-- The life of an account as a machine: the changes of a user's row that are allowed, the steps that
-- make them, and the paths of steps.
pub mod Sound
pub mod Journeys
pub mod Registering
pub mod SigningIn
pub mod Run
use gcdr.Base.{
  inr, inl, refl, subst, ◌≡◌, ◌≢◌, ◌⊎◌, ℕ, String, List, [], ◌∷◌, ◌++◌, Bool, true, false, none,
  some, Option, Elem, find, is_some,
}
use gcdr.Base.Rows.{update_where}
use gcdr.Account.Data.{
  User, UserStatus, UserSecurity, unverified, pending_approval, active, inactive, locked, Env,
}
use gcdr.Account.Users.{
  unlock_status, is_user, has_email, email_verified_change, approved_change, rejected_change,
  locked_change, reset_change, failed_change, unlocked_change, login_change, timed_lock_change,
  forgiven_change,
}

-- What may happen to the row `old`.
pub data Allowed (env : Env) (old : User) : (User → User → User) → Type 0 where
  verifying : old.status ≡ unverified → Allowed env old (email_verified_change env)
  approving :
      (by : String) → old.status ≡ pending_approval → Allowed env old (approved_change env by)
  rejecting :
      (by : String) (reason : Option String)
      → old.status ≡ pending_approval
      → Allowed env old (rejected_change env by reason)
  locking : (reason : String) → old.status ≡ active → Allowed env old (locked_change env reason)
  locking_until : (t : ℕ) → old.status ≡ active → Allowed env old (timed_lock_change env t)
  unlocking : old.status ≡ locked → Allowed env old (unlocked_change env)
  resetting :
      (hash : String)
      → (old.status ≡ active) ⊎ (old.status ≡ locked)
      → Allowed env old (reset_change env hash)
  missing : Allowed env old (failed_change env)
  entering : (ip : String) → Allowed env old (login_change env ip)
  forgiving : Allowed env old (forgiven_change env)

-- `generateId()` gives an id that no user has.
abbrev pub IsFreshId : Env → List User → Type 0
IsFreshId env users = (u : User) → Elem u users → u.id ≢ env.user_id

-- One step: a registration under an email and an id that are free, or an allowed change of one row.
pub data Step (env : Env) (users : List User) : List User → Type 0 where
  registering :
      (new : User)
      → new.status ≡ unverified
      → new.email_verified ≡ false
      → new.tenant_id ≡ env.tenant_id
      → new.id ≡ env.user_id
      → find (has_email env new.email) users ≡ none
      → IsFreshId env users
      → Step env users (users ++ new ∷ [])
  changing :
      (id : String) (old : User) (change : User → User → User)
      → find (is_user env id) users ≡ some old
      → Allowed env old change
      → Step env users (update_where (is_user env id) (change old) users)

pub data Journey (env : Env) (users : List User) : List User → Type 0 where
  stay : Journey env users users
  then_step :
      {middle after : List User}
      → Journey env users middle
      → Step env middle after
      → Journey env users after

abbrev Needs : UserStatus → Bool → UserSecurity → Type 0
Needs unverified verified s = verified ≡ false
Needs pending_approval verified s = (verified ≡ true) × (is_some s.email_verified_at ≡ true)
Needs active verified s =
    (verified ≡ true) × (is_some s.email_verified_at ≡ true) × (is_some s.approved_at ≡ true)
Needs locked verified s =
    (verified ≡ true) × (is_some s.email_verified_at ≡ true) × (is_some s.approved_at ≡ true)
Needs inactive verified s =
    (verified ≡ true) × (is_some s.email_verified_at ≡ true) × (is_some s.rejected_at ≡ true)

-- What the status of a user claims did happen.
abbrev pub IsVetted : User → Type 0
IsVetted u = Needs u.status u.email_verified u.security

-- Each row of the tenant is the one that its id and its email find, and is vetted.
pub record IsSoundUser (env : Env) (users : List User) (u : User) : Type 0 where
  pub by_id : find (is_user env u.id) users ≡ some u
  pub by_email : find (has_email env u.email) users ≡ some u
  pub vetted : IsVetted u

abbrev pub IsSound : Env → List User → Type 0
IsSound env users =
    (u : User) → Elem u users → u.tenant_id ≡ env.tenant_id → IsSoundUser env users u

-- Of `security` only these three fields count.
Needs-same :
    (status : UserStatus) (verified : Bool) (old new : UserSecurity)
    → new.email_verified_at ≡ old.email_verified_at
    → new.approved_at ≡ old.approved_at
    → new.rejected_at ≡ old.rejected_at
    → Needs status verified old
    → Needs status verified new
Needs-same unverified verified old new a b c h = h
Needs-same pending_approval verified old new a b c h = rw a h
Needs-same active verified old new a b c h = rw (a, b) h
Needs-same locked verified old new a b c h = rw (a, b) h
Needs-same inactive verified old new a b c h = rw (a, c) h

given :
    (old : User) (s : UserStatus)
    → old.status ≡ s
    → IsVetted old
    → Needs s old.email_verified old.security
given old s e v = subst (λ x. Needs x old.email_verified old.security) e v

pub Allowed-IsVetted :
    (env : Env) (old : User) (change : User → User → User)
    → Allowed env old change
    → IsVetted old
    → IsVetted (change old old)
unfolding email_verified_change approved_change rejected_change locked_change timed_lock_change
    unlocked_change reset_change failed_change login_change forgiven_change unlock_status
Allowed-IsVetted env old _ (verifying e) v = (refl, refl)
Allowed-IsVetted env old _ (approving by e) v =
    let (x, y) = given old pending_approval e v in (x, y, refl)
Allowed-IsVetted env old _ (rejecting by reason e) v =
    let (x, y) = given old pending_approval e v in (x, y, refl)
Allowed-IsVetted env old _ (locking reason e) v = given old active e v
Allowed-IsVetted env old _ (locking_until t e) v = given old active e v
Allowed-IsVetted env old _ (unlocking e) v = given old locked e v
Allowed-IsVetted env old _ (resetting hash (inl was)) v = rw was (given old active was v)
Allowed-IsVetted env old _ (resetting hash (inr was)) v = rw was (given old locked was v)
Allowed-IsVetted env old _ missing v = Needs-same old.status _ old.security _ refl refl refl v
Allowed-IsVetted env old _ (entering ip) v = Needs-same old.status _ old.security _ refl refl refl v
Allowed-IsVetted env old _ forgiving v = Needs-same old.status _ old.security _ refl refl refl v

-- No change touches what a row is found by.
pub Allowed-keeps :
    (env : Env) (old : User) (change : User → User → User)
    → Allowed env old change
    → (u : User)
    → ((change old u).tenant_id ≡ u.tenant_id)
      × ((change old u).id ≡ u.id)
      × ((change old u).email ≡ u.email)
unfolding email_verified_change approved_change rejected_change locked_change timed_lock_change
    unlocked_change reset_change failed_change login_change forgiven_change
Allowed-keeps env old _ (verifying e) u = (refl, refl, refl)
Allowed-keeps env old _ (approving by e) u = (refl, refl, refl)
Allowed-keeps env old _ (rejecting by reason e) u = (refl, refl, refl)
Allowed-keeps env old _ (locking reason e) u = (refl, refl, refl)
Allowed-keeps env old _ (locking_until t e) u = (refl, refl, refl)
Allowed-keeps env old _ (unlocking e) u = (refl, refl, refl)
Allowed-keeps env old _ (resetting hash e) u = (refl, refl, refl)
Allowed-keeps env old _ missing u = (refl, refl, refl)
Allowed-keeps env old _ (entering ip) u = (refl, refl, refl)
Allowed-keeps env old _ forgiving u = (refl, refl, refl)
