-- ===== src/Simulator/Data.antt =====
-- domain/entities/Simulator.ts, the bundle of domain/entities/AlarmBundle.ts as the simulator reads
-- it, and the state of services/SimulatorEngine.ts and services/SimulatorBundleFetcher.ts.
use gcdr.Base.{ℕ, String, Bool, Option, List}
use gcdr.Base.Dict.{Dict}

-- `SimulatorSessionStatus`
pub data SessionStatus : Type 0 where
  pending running stopped expired broken : SessionStatus

-- `SimulatorConfig`; of a device the profile only steers the random readings.
pub record Config : Type 0 where
  pub bundle_refresh_interval_ms : ℕ
  pub device_scan_interval_ms : ℕ
  pub devices : List String
  pub customer_id : String

-- `SimulatorQuotas`
pub record Quotas : Type 0 where
  pub max_concurrent_sessions : ℕ
  pub min_scan_interval_ms : ℕ
  pub min_bundle_refresh_interval_ms : ℕ
  pub max_devices_per_session : ℕ
  pub max_scans_per_hour : ℕ
  pub session_expire_hours : ℕ

abbrev pub default_quotas : Quotas
default_quotas = record {
  max_concurrent_sessions = 3;
  min_scan_interval_ms = 30_000;
  min_bundle_refresh_interval_ms = 60_000;
  max_devices_per_session = 50;
  max_scans_per_hour = 1_000;
  session_expire_hours = 24;
}

abbrev pub premium_quotas : Quotas
premium_quotas = record {
  max_concurrent_sessions = 10;
  min_scan_interval_ms = 10_000;
  min_bundle_refresh_interval_ms = 30_000;
  max_devices_per_session = 200;
  max_scans_per_hour = 10_000;
  session_expire_hours = 72;
}

-- `SimulatorSession`
pub record Session : Type 0 where
  pub id : String
  pub tenant_id : String
  pub customer_id : String
  pub created_by : String
  pub name : String
  pub status : SessionStatus
  pub config : Config
  pub scans_count : ℕ
  pub scans_limit : ℕ
  pub bundle_version : Option String
  pub bundle_signature : Option String
  pub bundle_fetched_at : Option ℕ
  pub alarms_triggered_count : ℕ
  pub last_scan_at : Option ℕ
  pub started_at : Option ℕ
  pub expires_at : ℕ
  pub stopped_at : Option ℕ
  pub created_at : ℕ
  pub updated_at : ℕ

-- `QuotaErrorCode`
pub data QuotaErrorCode : Type 0 where
  max_sessions_exceeded min_scan_interval_violation : QuotaErrorCode
  min_bundle_refresh_violation max_devices_exceeded : QuotaErrorCode
  max_scans_exceeded session_expired : QuotaErrorCode

-- `QuotaValidationResult`; a refusal keeps the number that its message names.
pub data Validation : Type 0 where
  valid : Validation
  refused : QuotaErrorCode → ℕ → Validation

-- `SimulatorEvent`: the type with the data that the engine puts in.
pub data SimulatorEvent : Type 0 where
  bundle_fetched bundle_unchanged : String → String → String → SimulatorEvent
  device_scanned : String → String → SimulatorEvent
  alarm_candidate_raised : String → String → String → String → SimulatorEvent
  quota_warning : String → QuotaErrorCode → SimulatorEvent
  session_started : String → Config → ℕ → ℕ → SimulatorEvent
  session_stopped : String → String → ℕ → ℕ → SimulatorEvent
  session_expired_event : String → ℕ → ℕ → SimulatorEvent
  session_error : String → String → SimulatorEvent

-- `ActiveSession`; the two timers are set and cleared together.
pub record ActiveSession : Type 0 where
  pub session : Session
  pub timers : Bool
  pub scans_this_hour : ℕ
  pub hour_start_time : ℕ

-- `SimpleBundleAlarmRule`, over the numbers of the telemetry.
pub record Rule (V : Type 0) : Type 0 where
  pub id : String
  pub name : String
  pub value : V
  pub value_high : Option V

-- An entry of `deviceIndex`.
pub record DeviceEntry : Type 0 where
  pub device_name : String
  pub rule_ids : List String

-- `SimpleAlarmRulesBundle`
pub record Bundle (V : Type 0) : Type 0 where
  pub version : String
  pub signature : String
  pub device_index : Dict DeviceEntry
  pub rules : Dict (Rule V)

-- `SimulatorAlarmCandidate`, with the parts that vary.
pub record Candidate (V : Type 0) : Type 0 where
  pub simulation_id : String
  pub tenant_id : String
  pub device_id : String
  pub device_identifier : String
  pub rule_id : String
  pub field : String
  pub value : V
  pub threshold : V

-- The tables of sessions and events, the active sessions, the cached bundles, and the candidates that
-- the handler has been given.
pub record Engine (V : Type 0) : Type 0 where
  pub sessions : List Session
  pub events : List SimulatorEvent
  pub active : Dict ActiveSession
  pub bundles : Dict (Bundle V)
  pub candidates : List (Candidate V)

-- What a call draws from outside: the clock, an id, the bundle that `generateSimplifiedBundle` gives
-- for a tenant and a customer (or `none` where it throws), and the readings of a device.
pub record SimulatorEnv (V : Type 0) : Type 0 where
  pub now : ℕ
  pub new_id : String
  pub generate : String → String → Option (Bundle V)
  pub readings : String → Dict V
