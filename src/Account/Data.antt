-- ===== src/Account/Data.antt =====
-- domain/entities/User.ts, the token of repositories/VerificationTokenRepository.ts, and the tables
-- that hold them. The legacy token fields of `UserSecurity`, which the code deprecates, the
-- invitation fields and `partnerId` are left out: no operation here reads or writes them.
use gcdr.Base.{ℕ, String, Bool, Option, List, true, false, none, some}
use Prim.Native.String.{◌++◌}
use gcdr.Base.Dict.{Dict}
use gcdr.Base.Records.{Entity, Event}

pub data UserStatus : Type 0 where
  unverified pending_approval active inactive locked : UserStatus

pub data UserType : Type 0 where
  internal customer partner service_account : UserType

pub record Notifications : Type 0 where
  pub email : Bool
  pub push : Bool
  pub sms : Bool
  pub in_app : Bool

pub record UserPreferences : Type 0 where
  pub language : String
  pub timezone : String
  pub date_format : String
  pub time_format : String
  pub theme : String
  pub notifications : Notifications

pub record UserProfile : Type 0 where
  pub first_name : String
  pub last_name : String
  pub display_name : Option String
  pub phone : Option String

pub data MfaMethod : Type 0 where
  totp by_sms by_email : MfaMethod

pub record UserSecurity : Type 0 where
  pub password_hash : Option String
  pub password_changed_at : Option ℕ
  pub mfa_enabled : Bool
  pub mfa_method : Option MfaMethod
  pub mfa_secret : Option String
  pub mfa_backup_codes : Option (List String)
  pub last_login_at : Option ℕ
  pub last_login_ip : Option String
  pub failed_login_attempts : ℕ
  pub locked_until : Option ℕ
  pub locked_at : Option ℕ
  pub locked_reason : Option String
  pub lockout_count : Option ℕ
  pub email_verified_at : Option ℕ
  pub registered_at : Option ℕ
  pub registration_ip : Option String
  pub approved_at : Option ℕ
  pub approved_by : Option String
  pub rejected_at : Option ℕ
  pub rejected_by : Option String
  pub rejection_reason : Option String

-- A value of `metadata` is kept as its JSON text.
pub record User : Type 0 where
  pub entity : Entity
  pub open entity use *
  pub customer_id : Option String
  pub email : String
  pub email_verified : Bool
  pub user_type : UserType
  pub status : UserStatus
  pub profile : UserProfile
  pub security : UserSecurity
  pub preferences : UserPreferences
  pub active_sessions : ℕ
  pub tags : List String
  pub metadata : Dict String

abbrev pub create_default_preferences : UserPreferences
create_default_preferences = record {
  language = "pt-BR";
  timezone = "America/Sao_Paulo";
  date_format = "DD/MM/YYYY";
  time_format = "24h";
  theme = "system";
  notifications = record { email = true; push = true; sms = false; in_app = true };
}

abbrev pub create_default_security : UserSecurity
create_default_security = record {
  password_hash = none;
  password_changed_at = none;
  mfa_enabled = false;
  mfa_method = none;
  mfa_secret = none;
  mfa_backup_codes = none;
  last_login_at = none;
  last_login_ip = none;
  failed_login_attempts = 0;
  locked_until = none;
  locked_at = none;
  locked_reason = none;
  lockout_count = some 0;
  email_verified_at = none;
  registered_at = none;
  registration_ip = none;
  approved_at = none;
  approved_by = none;
  rejected_at = none;
  rejected_by = none;
  rejection_reason = none;
}

abbrev pub create_default_profile : String → String → UserProfile
create_default_profile first_name last_name = record {
  first_name = first_name;
  last_name = last_name;
  display_name = some (first_name ++ (" " ++ last_name));
  phone = none;
}

pub data VerificationTokenType : Type 0 where
  email_verification password_reset account_unlock : VerificationTokenType

pub record VerificationToken : Type 0 where
  pub id : String
  pub tenant_id : String
  pub user_id : String
  pub token_type : VerificationTokenType
  pub code_hash : String
  pub expires_at : ℕ
  pub used_at : Option ℕ
  pub attempts : ℕ
  pub max_attempts : ℕ
  pub ip_address : Option String
  pub user_agent : Option String
  pub created_at : ℕ

-- The tables `users` and `verification_tokens`, rows in order of creation, and the events
-- published so far.
pub record Db : Type 0 where
  pub users : List User
  pub tokens : List VerificationToken
  pub events : List Event

-- What a call takes from outside: the tenant, the clock, the ids that `generateId()` gives to a user
-- and to a token, the number of `randomBytes(4)`, and SHA-256 as a hexadecimal text.
pub record Env : Type 0 where
  pub tenant_id : String
  pub now : ℕ
  pub user_id : String
  pub token_id : String
  pub random : ℕ
  pub sha256 : String → String
