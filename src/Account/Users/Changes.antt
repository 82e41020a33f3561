-- ===== src/Account/Users/Changes.antt =====
-- What each write of repositories/UserRepository.ts does to a row: the change is given the row that was
-- read first and the row to rewrite.
use gcdr.Base.{◌+◌, ℕ, String, [], ◌∷◌, true, false, none, some, Option, or_else}
use gcdr.Base.Records.{Entity}
use gcdr.Base.Text.{lower_case}
use gcdr.Account.Data.{
  User, UserStatus, Env, unverified, pending_approval, active, inactive, locked, customer,
  create_default_profile, create_default_security, create_default_preferences,
}

module _ (env : Env) where
  -- `updatedAt`, and `version: existing.version + 1`
  abbrev pub next_version : Entity → Entity → Entity
  next_version old row = record row { updated_at = env.now; version = old.version + 1 }

  abbrev pub updated_now : Entity → Entity
  updated_now row = record row { updated_at = env.now }

  unfoldable pub self_registered :
      String → String → String → String → Option String → Option String → Option String → User
  self_registered email password_hash first_name last_name phone customer_id ip_address = record {
    entity = record {
      id = env.user_id;
      tenant_id = env.tenant_id;
      created_at = env.now;
      updated_at = env.now;
      created_by = none;
      updated_by = none;
      version = 1;
    };
    customer_id = customer_id;
    email = lower_case email;
    email_verified = false;
    user_type = customer;
    status = unverified;
    profile = record (create_default_profile first_name last_name) { phone = phone };
    security = record create_default_security {
      password_hash = some password_hash;
      registered_at = some env.now;
      registration_ip = ip_address;
      failed_login_attempts = 0;
      lockout_count = some 0;
    };
    preferences = create_default_preferences;
    active_sessions = 0;
    tags = [];
    metadata = ("selfRegistered", "true") ∷ [];
  }

  unfoldable pub email_verified_change : User → User → User
  email_verified_change old row = record row {
    entity = next_version old.entity row.entity;
    email_verified = true;
    security = record old.security { email_verified_at = some env.now };
    status = pending_approval;
  }

  unfoldable pub approved_change : String → User → User → User
  approved_change approved_by old row = record row {
    entity = record (next_version old.entity row.entity) { updated_by = some approved_by };
    security = record old.security { approved_at = some env.now; approved_by = some approved_by };
    status = active;
  }

  unfoldable pub rejected_change : String → Option String → User → User → User
  rejected_change rejected_by reason old row = record row {
    entity = record (next_version old.entity row.entity) { updated_by = some rejected_by };
    security = record old.security {
      rejected_at = some env.now;
      rejected_by = some rejected_by;
      rejection_reason = reason;
    };
    status = inactive;
  }

  unfoldable pub locked_change : String → User → User → User
  locked_change reason old row = record row {
    entity = next_version old.entity row.entity;
    security = record old.security {
      locked_at = some env.now;
      locked_reason = some reason;
      lockout_count = some (or_else old.security.lockout_count 0 + 1);
    };
    status = locked;
  }

  unfoldable pub unlock_status : UserStatus → UserStatus
  unlock_status locked = active
  unlock_status unverified = unverified
  unlock_status pending_approval = pending_approval
  unlock_status active = active
  unlock_status inactive = inactive

  unfoldable pub reset_change : String → User → User → User
  unfolding unlock_status
  reset_change password_hash old row = record row {
    entity = next_version old.entity row.entity;
    security = record old.security {
      password_hash = some password_hash;
      password_changed_at = some env.now;
      failed_login_attempts = 0;
      locked_until = none;
      locked_at = none;
      locked_reason = none;
    };
    status = unlock_status old.status;
  }

  unfoldable pub failed_change : User → User → User
  failed_change old row = record row {
    entity = updated_now row.entity;
    security = record old.security {
      failed_login_attempts = old.security.failed_login_attempts + 1;
    };
  }

  unfoldable pub unlocked_change : User → User → User
  unlocked_change old row = record row {
    entity = updated_now row.entity;
    security = record old.security { failed_login_attempts = 0; locked_until = none };
    status = active;
  }

  unfoldable pub login_change : String → User → User → User
  login_change ip old row = record row {
    entity = updated_now row.entity;
    security = record old.security {
      last_login_at = some env.now;
      last_login_ip = some ip;
      failed_login_attempts = 0;
    };
  }

  unfoldable pub timed_lock_change : ℕ → User → User → User
  timed_lock_change until old row = record row {
    entity = updated_now row.entity;
    security = record old.security { locked_until = some until };
    status = locked;
  }

  unfoldable pub forgiven_change : User → User → User
  forgiven_change old row = record row {
    entity = updated_now row.entity;
    security = record old.security { failed_login_attempts = 0 };
  }
