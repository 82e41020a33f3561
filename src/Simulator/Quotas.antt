-- ===== src/Simulator/Quotas.antt =====
-- services/SimulatorQuotaService.ts: which sessions are admitted.
use gcdr.Base.{
  zero, suc, ap, ap, suc, ℕ, ◌+◌, ◌-◌, ◌*◌, ◌≤◌, ◌<◌, ◌≡◌, ◌↔◌, refl, String, Bool, false, List, [],
  ◌∷◌, length, take, if◌then◌else◌, ltb, leb, arith,
}
use gcdr.Simulator.Data.{
  Config, Quotas, default_quotas, premium_quotas, max_sessions_exceeded,
  min_scan_interval_violation, min_bundle_refresh_violation, max_devices_exceeded, Validation,
  valid, refused,
}

-- `isPremiumTenant`; every tenant has the default quotas.
abbrev pub is_premium_tenant : String → Bool
is_premium_tenant tenant = false

abbrev pub get_quotas_for_tenant : String → Quotas
get_quotas_for_tenant tenant = if is_premium_tenant tenant then premium_quotas else default_quotas

-- The checks, for the number of active sessions of the tenant.
unfoldable pub validate_new_session : Quotas → ℕ → Config → Validation
validate_new_session quotas active config =
    if leb quotas.max_concurrent_sessions active
    then refused max_sessions_exceeded quotas.max_concurrent_sessions
    else if ltb quotas.max_devices_per_session (length config.devices)
    then refused max_devices_exceeded quotas.max_devices_per_session
    else if ltb config.device_scan_interval_ms quotas.min_scan_interval_ms
    then refused min_scan_interval_violation quotas.min_scan_interval_ms
    else if ltb config.bundle_refresh_interval_ms quotas.min_bundle_refresh_interval_ms
    then refused min_bundle_refresh_violation quotas.min_bundle_refresh_interval_ms
    else valid

abbrev pub max : ℕ → ℕ → ℕ
max a b = if ltb a b then b else a

unfoldable pub normalize_config : Quotas → Config → Config
normalize_config quotas config = record config {
  device_scan_interval_ms = max config.device_scan_interval_ms quotas.min_scan_interval_ms;
  bundle_refresh_interval_ms =
      max config.bundle_refresh_interval_ms quotas.min_bundle_refresh_interval_ms;
  devices = take quotas.max_devices_per_session config.devices;
}

-- `setHours`, on a day of 24 hours.
abbrev pub hour_ms : ℕ
hour_ms = 3_600_000

abbrev pub calculate_session_expiration : Quotas → ℕ → ℕ
calculate_session_expiration quotas now = now + quotas.session_expire_hours * hour_ms

abbrev pub calculate_scans_limit : Quotas → ℕ
calculate_scans_limit quotas = quotas.max_scans_per_hour * quotas.session_expire_hours

-- `getQuotaSummary`
pub record QuotaSummary : Type 0 where
  pub quotas : Quotas
  pub is_premium : Bool
  pub active_sessions : ℕ
  pub available_sessions : ℕ

unfoldable pub get_quota_summary : String → ℕ → QuotaSummary
get_quota_summary tenant active =
    let quotas = get_quotas_for_tenant tenant in
    record {
      quotas = quotas;
      is_premium = is_premium_tenant tenant;
      active_sessions = active;
      available_sessions = max 0 (quotas.max_concurrent_sessions - active);
    }

-- What the quotas ask of a configuration.
pub record Fits (quotas : Quotas) (config : Config) : Type 0 where
  pub devices : length config.devices ≤ quotas.max_devices_per_session
  pub scans : quotas.min_scan_interval_ms ≤ config.device_scan_interval_ms
  pub refreshes : quotas.min_bundle_refresh_interval_ms ≤ config.bundle_refresh_interval_ms

length-take-le : {A : Type 0} (n : ℕ) (xs : List A) → length (take n xs) ≤ n
length-take-le zero xs = omega arith
length-take-le (suc n) [] = omega arith
length-take-le (suc n) (x ∷ xs) = omega (arith, length-take-le n xs)

take_all : {A : Type 0} (n : ℕ) (xs : List A) → length xs ≤ n → take n xs ≡ xs
take_all zero [] h = refl
take_all zero (x ∷ xs) h = absurd (omega arith)
take_all (suc n) [] h = refl
take_all (suc n) (x ∷ xs) h = ap (λ r. x ∷ r) (take_all n xs (omega arith))

-- A session is admitted exactly if the tenant has fewer active sessions than it may have and the
-- configuration keeps to the limits on devices and on both intervals.
pub validate_new_session_iff :
    (quotas : Quotas) (active : ℕ) (config : Config)
    → (validate_new_session quotas active config ≡ valid)
      ↔ ((active < quotas.max_concurrent_sessions) × Fits quotas config)
unfolding validate_new_session
validate_new_session_iff quotas active config = (sound, complete)
  where
    sound :
        validate_new_session quotas active config ≡ valid
        → (active < quotas.max_concurrent_sessions) × Fits quotas config
    sound h = ground arith

    complete :
        (active < quotas.max_concurrent_sessions) × Fits quotas config
        → validate_new_session quotas active config ≡ valid
    complete (h, f) = ground (arith, f.devices, f.scans, f.refreshes)

-- A normalised configuration keeps to the limits, one that keeps to them is left as it is, and so
-- normalising twice is normalising once.
pub normalize_config_lem :
    (quotas : Quotas) (config : Config)
    → Fits quotas (normalize_config quotas config)
      × (Fits quotas config → normalize_config quotas config ≡ config)
      × (normalize_config quotas (normalize_config quotas config) ≡ normalize_config quotas config)
unfolding normalize_config
normalize_config_lem quotas config = (fits config, kept config, kept _ (fits config))
  where
    fits : (c : Config) → Fits quotas (normalize_config quotas c)
    fits c = record {
      devices = length-take-le quotas.max_devices_per_session c.devices;
      scans = ground arith;
      refreshes = ground arith;
    }

    kept : (c : Config) → Fits quotas c → normalize_config quotas c ≡ c
    kept c f =
        ground
          (arith, take_all quotas.max_devices_per_session c.devices f.devices, f.scans, f.refreshes)
