-- ===== src/Simulator/Engine/Ticks.antt =====
-- services/SimulatorEngine.ts: the scan of the devices, the recovery after a restart, and the calls.
use gcdr.Base.{
  ℕ, ◌+◌, String, Bool, true, false, Option, none, some, List, [], ◌∷◌, if◌then◌else◌, ltb, leb,
}
use gcdr.Base.Dict.{lookup}
use gcdr.Simulator.Data.{
  expired, Config, Quotas, Session, max_scans_exceeded, session_expired, Validation, valid, refused,
  quota_warning, ActiveSession, Bundle, Engine, SimulatorEnv,
}
use gcdr.Simulator.Quotas.{get_quotas_for_tenant, hour_ms}
use gcdr.Simulator.Rows.{
  get_session_by_id, find_running_sessions, set_ended, set_broken, count_scan, update_session,
  create_event, mark_expired_sessions,
}
use gcdr.Simulator.Scan.{scan_each}
use gcdr.Simulator.Engine.Service.{
  set_active, initialize_session, expire_session, start_session, stop_session, stop_all_sessions,
  refresh_bundle,
}

-- services/SimulatorQuotaService.ts, `canPerformScan`, for the row of the session.
abbrev pub session_in_time : ℕ → Option Session → Validation
session_in_time now none = refused session_expired 0
session_in_time now (some s) = if ltb s.expires_at now then refused session_expired 1 else valid

unfoldable pub can_perform_scan : Quotas → ℕ → Option Session → ℕ → Validation
can_perform_scan quotas now row scans =
    if leb quotas.max_scans_per_hour scans
    then refused max_scans_exceeded quotas.max_scans_per_hour
    else session_in_time now row

abbrev pub hour_passed : ℕ → ActiveSession → ActiveSession
hour_passed now a =
    if leb (a.hour_start_time + hour_ms) now
    then record a { scans_this_hour = 0; hour_start_time = now }
    else a

abbrev pub is_ticking : Option ActiveSession → Bool
is_ticking none = false
is_ticking (some a) = a.timers

-- What happens to the engine: requests, ticks of the timers that are set, a restart of the server (the
-- maps are empty again), and the cleanup.
pub data Op : Type 0 where
  start : String → String → String → String → Config → Op
  stop : String → String → Op
  refresh_tick scan_tick : String → Op
  shut_down restart clean_up : Op

module _ {V : Type 0} where
  abbrev pub recovered : ℕ → Session → Bool × Engine V → Engine V
  recovered now s (true, e) = e
  recovered now s (false, e) = update_session s.id (set_broken now) e

  abbrev pub recover_each : SimulatorEnv V → List Session → Engine V → Engine V
  recover_each env [] e = e
  recover_each env (s ∷ rest) e = recover_each env rest (
      if ltb s.expires_at env.now
      then update_session s.id (set_ended expired env.now) e
      else recovered env.now s (initialize_session env s e))

  -- services/SimulatorStartup.ts, before the recovery: the maps of a new process are empty.
  abbrev pub rebooted : ℕ → Engine V → Engine V
  rebooted now e = record (mark_expired_sessions now e).1 { active = []; bundles = [] }

  unfoldable pub recover_sessions : SimulatorEnv V → Engine V → Engine V
  recover_sessions env e = recover_each env (find_running_sessions e.sessions) e

module _ {V : Type 0} (less : V → V → Bool) where
  abbrev pub scan_bundle :
      SimulatorEnv V → String → ActiveSession → Option (Bundle V) → Engine V → Engine V
  scan_bundle env id a none e = e
  scan_bundle env id a (some b) e = update_session id (count_scan env.now) (
      set_active id (record a { scans_this_hour = a.scans_this_hour + 1 })
        (scan_each less env a.session b a.session.config.devices e))

  abbrev pub scan_allowed :
      SimulatorEnv V → String → ActiveSession → Validation → Engine V → Engine V
  scan_allowed env id a valid e = scan_bundle env id a (lookup id e.bundles) e
  scan_allowed env id a (refused session_expired _) e = expire_session env.now id e
  scan_allowed env id a (refused code _) e = create_event (quota_warning id code) e

  abbrev pub scan_active : SimulatorEnv V → String → Option ActiveSession → Engine V → Engine V
  scan_active env id none e = e
  scan_active env id (some a) e =
      let b = hour_passed env.now a in
      scan_allowed env id b
        (can_perform_scan (get_quotas_for_tenant a.session.tenant_id) env.now
          (get_session_by_id a.session.tenant_id id e.sessions) b.scans_this_hour)
        (set_active id b e)

  unfoldable pub scan_devices : SimulatorEnv V → String → Engine V → Engine V
  scan_devices env id e = scan_active env id (lookup id e.active) e

  abbrev pub run_op : SimulatorEnv V → Op → Engine V → Engine V
  run_op env (start tenant customer created_by name config) e =
      (start_session env tenant customer created_by name config e).1
  run_op env (stop id reason) e = stop_session env.now id reason e
  run_op env (refresh_tick id) e =
      if is_ticking (lookup id e.active) then refresh_bundle env id e else e
  run_op env (scan_tick id) e = if is_ticking (lookup id e.active) then scan_devices env id e else e
  run_op env shut_down e = stop_all_sessions env.now "SERVER_SHUTDOWN" e
  run_op env restart e = recover_sessions env (rebooted env.now e)
  run_op env clean_up e = (mark_expired_sessions env.now e).1

  unfoldable pub run : List (SimulatorEnv V × Op) → Engine V → Engine V
  run [] e = e
  run ((env, op) ∷ rest) e = run rest (run_op env op e)
