-- ===== src/Simulator/Engine/Service.antt =====
-- services/SimulatorEngine.ts and services/SimulatorBundleFetcher.ts: sessions that start, stop,
-- expire and recover, and what their two timers do. A call runs alone; the ticks of a timer are calls.
use gcdr.Base.{
  ◌==◌, ◌||◌, ℕ, String, Bool, true, false, ◌&&◌, not, Option, none, some, [], ◌∷◌, ◌++◌,
  if◌then◌else◌, ltb, text_is, any,
}
use gcdr.Base.Dict.{Dict, lookup, insert, erase}
use gcdr.Base.Errors.{text, Result, ok, err, plain, counting, AppError}
use gcdr.Simulator.Data.{
  max_sessions_exceeded, max_devices_exceeded, min_scan_interval_violation,
  min_bundle_refresh_violation, SessionStatus, running, stopped, expired, Config, Session,
  QuotaErrorCode, max_scans_exceeded, session_expired, Validation, valid, refused, SimulatorEvent,
  bundle_fetched, bundle_unchanged, session_started, session_stopped, session_expired_event,
  session_error, ActiveSession, Bundle, Engine, SimulatorEnv,
}
use gcdr.Simulator.Quotas.{
  get_quotas_for_tenant, validate_new_session, normalize_config, calculate_session_expiration,
  calculate_scans_limit,
}
use gcdr.Simulator.Rows.{
  same_status, has_id, count_active_sessions_by_tenant, get_session_by_id_internal, new_session,
  set_running, set_ended, set_broken, set_bundle, update_session, create_event,
}

-- The error of `startSession`, with the number that its message names.
abbrev pub quota_error : QuotaErrorCode → ℕ → AppError
quota_error max_sessions_exceeded n = plain (counting "Maximum concurrent sessions exceeded" n)
quota_error max_devices_exceeded n = plain (counting "Maximum devices per session exceeded" n)
quota_error min_scan_interval_violation n = plain (counting "Scan interval is below minimum" n)
quota_error min_bundle_refresh_violation n =
    plain (counting "Bundle refresh interval is below minimum" n)
quota_error max_scans_exceeded n = plain (counting "Maximum scans per hour exceeded" n)
quota_error session_expired n = plain (text "Session has expired")

-- `isBundleUpdated`
-- A text that is missing or empty is falsy.
abbrev is_blank : Option String → Bool
is_blank none = true
is_blank (some t) = t == ""

abbrev pub is_bundle_updated : Session → String → String → Bool
is_bundle_updated s version signature =
    is_blank s.bundle_version
    || is_blank s.bundle_signature
    || not (text_is s.bundle_version version && text_is s.bundle_signature signature)

abbrev pub entry_for : ℕ → Session → Bool → ActiveSession
entry_for now s timers = record {
  session = s;
  timers = timers;
  scans_this_hour = 0;
  hour_start_time = now;
}

module _ {V : Type 0} where
  -- `fetchBundle`, and whether it threw.
  abbrev pub fetched : ℕ → Session → Option (Bundle V) → Engine V → Bool × Engine V
  fetched now s none e = (false, create_event (session_error s.id "BUNDLE_FETCH_FAILED") e)
  fetched now s (some b) e = (
    true,
    record (if is_bundle_updated s b.version b.signature
        then create_event (bundle_fetched s.id b.version b.signature)
            (update_session s.id (set_bundle b.version b.signature now) e)
        else create_event (bundle_unchanged s.id b.version b.signature) e) {
          bundles = insert s.id b e.bundles;
        },
  )

  unfoldable pub fetch_bundle : SimulatorEnv V → Session → Engine V → Bool × Engine V
  fetch_bundle env s e = fetched env.now s (env.generate s.tenant_id s.customer_id) e

  abbrev pub set_active : String → ActiveSession → Engine V → Engine V
  set_active id a e = record e { active = insert id a e.active }

  -- After the first fetch the timers are set; where it throws they are not, and the entry stays.
  abbrev pub with_timers : ℕ → Session → Bool × Engine V → Bool × Engine V
  with_timers now s (true, e) = (true, set_active s.id (entry_for now s true) e)
  with_timers now s (false, e) = (false, e)

  unfoldable pub initialize_session : SimulatorEnv V → Session → Engine V → Bool × Engine V
  initialize_session env s e =
      with_timers env.now s (fetch_bundle env s (set_active s.id (entry_for env.now s false) e))

  -- The rest of `startSession` and its `catch`; `session.status = 'RUNNING'` reaches the entry, which
  -- holds the same object.
  abbrev pub started : ℕ → Session → Bool × Engine V → Result Session × Engine V
  started now s (true, e) = (
    ok (record s { status = running; started_at = some now }),
    set_active s.id (entry_for now (record s { status = running; started_at = some now }) true) (
        update_session s.id (set_running now)
          (create_event (session_started s.id s.config s.expires_at s.scans_limit) e)),
  )
  started now s (false, e) = (
    err (plain (text "Bundle generation failed")),
    create_event (session_error s.id "INITIALIZATION_FAILED")
        (update_session s.id (set_broken now) e),
  )

  -- `createSession`: the id is the primary key.
  abbrev pub create_session : Session → Engine V → Engine V
  create_session s e = record e { sessions = e.sessions ++ (s ∷ []) }

  abbrev pub admitted : SimulatorEnv V → Validation → Session → Engine V → Result Session × Engine V
  admitted env (refused code n) s e = (err (quota_error code n), e)
  admitted env valid s e =
      if any (has_id s.id) e.sessions
      then (err (plain (text "duplicate key")), e)
      else started env.now s (initialize_session env s (create_session s e))

  abbrev pub session_for : SimulatorEnv V → String → String → String → String → Config → Session
  session_for env tenant customer created_by name config =
      let quotas = get_quotas_for_tenant tenant in
      new_session env.new_id env.now tenant customer created_by name
        (normalize_config quotas config) (calculate_scans_limit quotas)
        (calculate_session_expiration quotas env.now)

  unfoldable pub start_session :
      SimulatorEnv V
      → String
      → String
      → String
      → String
      → Config
      → Engine V
      → Result Session × Engine V
  start_session env tenant customer created_by name config e =
      admitted env
        (validate_new_session (get_quotas_for_tenant tenant)
          (count_active_sessions_by_tenant tenant e.sessions) config)
        (session_for env tenant customer created_by name config) e

  -- What ending a session does, for the status and the event.
  abbrev pub end_session : String → SessionStatus → ℕ → SimulatorEvent → Engine V → Engine V
  end_session id status now event e =
      let ended = create_event event (update_session id (set_ended status now) e) in
      record ended { bundles = erase id ended.bundles; active = erase id ended.active }

  abbrev pub stop_active : ℕ → String → String → Option ActiveSession → Engine V → Engine V
  stop_active now id reason none e = e
  stop_active now id reason (some a) e =
      end_session id stopped now
        (session_stopped id reason a.session.scans_count a.session.alarms_triggered_count) e

  unfoldable pub stop_session : ℕ → String → String → Engine V → Engine V
  stop_session now id reason e = stop_active now id reason (lookup id e.active) e

  abbrev pub expire_active : ℕ → String → Option ActiveSession → Engine V → Engine V
  expire_active now id none e = e
  expire_active now id (some a) e =
      end_session id expired now
        (session_expired_event id a.session.scans_count a.session.alarms_triggered_count) e

  unfoldable pub expire_session : ℕ → String → Engine V → Engine V
  expire_session now id e = expire_active now id (lookup id e.active) e

  abbrev pub stop_each : ℕ → String → Dict ActiveSession → Engine V → Engine V
  stop_each now reason [] e = e
  stop_each now reason ((id, _) ∷ rest) e = stop_each now reason rest (stop_session now id reason e)

  unfoldable pub stop_all_sessions : ℕ → String → Engine V → Engine V
  stop_all_sessions now reason e = stop_each now reason e.active e

  abbrev pub refresh_row : SimulatorEnv V → String → Option Session → Engine V → Engine V
  refresh_row env id none e = stop_session env.now id "SESSION_INVALID" e
  refresh_row env id (some s) e =
      if same_status s.status running
      then (if ltb s.expires_at env.now
          then expire_session env.now id e
          else (fetch_bundle env s e).1)
      else stop_session env.now id "SESSION_INVALID" e

  abbrev pub refresh_active : SimulatorEnv V → String → Option ActiveSession → Engine V → Engine V
  refresh_active env id none e = e
  refresh_active env id (some _) e = refresh_row env id (get_session_by_id_internal id e.sessions) e

  unfoldable pub refresh_bundle : SimulatorEnv V → String → Engine V → Engine V
  refresh_bundle env id e = refresh_active env id (lookup id e.active) e
