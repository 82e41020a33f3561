-- ===== src/Authorization/Data.antt =====
-- domain/entities/Role.ts, Policy.ts, RoleAssignment.ts, and the tables that hold them. A time is
-- in milliseconds; the ISO texts of the source compare as these numbers do. `conditions`, tags
-- and texts for display are kept as the code stores them.
use gcdr.Base.{ℕ, String, Bool, Option, List}
use gcdr.Base.Records.{Entity, Event}

pub data RiskLevel : Type 0 where
  low medium high critical : RiskLevel

pub record Role : Type 0 where
  pub entity : Entity
  pub open entity use *
  pub key : String
  pub display_name : String
  pub description : String
  pub policies : List String
  pub tags : List String
  pub risk_level : RiskLevel
  pub is_system : Bool

pub record PolicyConditions : Type 0 where
  pub requires_mfa : Option Bool
  pub only_business_hours : Option Bool
  pub allowed_device_types : Option (List String)
  pub ip_allowlist : Option (List String)
  pub max_session_duration : Option ℕ

pub record Policy : Type 0 where
  pub entity : Entity
  pub open entity use *
  pub key : String
  pub display_name : String
  pub description : String
  pub allow : List String
  pub deny : List String
  pub conditions : Option PolicyConditions
  pub risk_level : RiskLevel
  pub is_system : Bool

pub data AssignmentStatus : Type 0 where
  active inactive expired : AssignmentStatus

pub record RoleAssignment : Type 0 where
  pub entity : Entity
  pub open entity use *
  pub user_id : String
  pub role_key : String
  pub scope : String
  pub status : AssignmentStatus
  pub expires_at : Option ℕ
  pub granted_by : String
  pub granted_at : ℕ
  pub reason : Option String

-- The tables `roles`, `policies` and `role_assignments`, rows in order of creation, and the events
-- published so far.
pub record Db : Type 0 where
  pub roles : List Role
  pub policies : List Policy
  pub assignments : List RoleAssignment
  pub events : List Event

-- What a call takes from outside: `generateId()`, the clock, and the tenant.
pub record Env : Type 0 where
  pub new_id : String
  pub now : ℕ
  pub tenant_id : String
