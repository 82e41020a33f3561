-- ===== src/Simulator/Engine/Hours.antt =====
-- No session scans its devices more often in an hour than its quota allows.
use gcdr.Base.{
  ℕ, ◌+◌, ◌≡◌, ◌<◌, refl, sym, subst, ◌∙◌, String, Bool, Option, none, some, List, [], ◌∷◌, arith,
  if_either,
}
use gcdr.Base.Dict.{Dict, lookup}
use gcdr.Simulator.Data.{
  device_scanned, Session, Validation, valid, refused, max_sessions_exceeded, max_devices_exceeded,
  min_scan_interval_violation, min_bundle_refresh_violation, max_scans_exceeded, session_expired,
  ActiveSession, Bundle, Rule, DeviceEntry, Engine, SimulatorEnv,
}
use gcdr.Simulator.Quotas.{get_quotas_for_tenant}
use gcdr.Simulator.Rows.{
  mark_expired_sessions, create_event, get_session_by_id, find_running_sessions,
}
use gcdr.Simulator.Scan.{
  raise_found, evaluate_rule, first_triggered, evaluate_named, evaluate_rules, scan_mapped,
  scan_device, scan_each,
}
use gcdr.Simulator.Engine.Service.{start_session, set_active, stop_all_sessions, refresh_bundle}
use gcdr.Simulator.Engine.Ticks.{
  hour_passed, is_ticking, scan_bundle, scan_allowed, scan_active, scan_devices, recover_sessions,
  rebooted, Op, start, stop, refresh_tick, scan_tick, shut_down, restart, clean_up, run_op, run,
}
use gcdr.Simulator.Engine.Pace.{
  hourly, EachWithin, EachWithin-insert, EachWithin-lookup, hour_passed-within, allowed_below,
  IsPaced, stop_session-IsPaced, expire_session-IsPaced, stop_each-IsPaced, admitted-IsPaced,
  refresh_active-IsPaced, recover_each-IsPaced,
}

module _ {V : Type 0} (less : V → V → Bool) where
  evaluate_rules-active :
      (now : ℕ) (s : Session) (d i : String) (telemetry : Dict V) (rules : Dict (Rule V))
      (ids : List String) (e : Engine V)
      → (evaluate_rules less now s d i telemetry rules ids e).active ≡ e.active
  unfolding evaluate_rules evaluate_rule
  evaluate_rules-active now s d i telemetry rules [] e = refl
  evaluate_rules-active now s d i telemetry rules (r ∷ rest) e =
      evaluate_rules-active now s d i telemetry rules rest _ ∙ named (lookup r rules)
    where
      found :
          (rule : Rule V) (o : Option (String × V))
          → (raise_found now s d i rule o e).active ≡ e.active
      found rule none = refl
      found rule (some (field, value)) = refl

      named :
          (o : Option (Rule V)) → (evaluate_named less now s d i telemetry o e).active ≡ e.active
      named none = refl
      named (some rule) = found rule (first_triggered less rule telemetry)

  scan_each-active :
      (env : SimulatorEnv V) (s : Session) (b : Bundle V) (ds : List String) (e : Engine V)
      → (scan_each less env s b ds e).active ≡ e.active
  unfolding scan_each scan_device
  scan_each-active env s b [] e = refl
  scan_each-active env s b (d ∷ ds) e =
      scan_each-active env s b ds _
      ∙ mapped (lookup d b.device_index) (create_event (device_scanned s.id d) e)
    where
      mapped :
          (o : Option DeviceEntry) (f : Engine V)
          → (scan_mapped less env s b d o f).active ≡ f.active
      mapped none f = refl
      mapped (some entry) f =
          evaluate_rules-active env.now s d _ (env.readings d) b.rules entry.rule_ids f

  scan_allowed-IsPaced :
      (env : SimulatorEnv V) (id : String) (a : ActiveSession) (v : Validation) (e : Engine V)
      → (v ≡ valid → a.scans_this_hour < hourly a)
      → IsPaced e
      → IsPaced (scan_allowed less env id a v e)
  scan_allowed-IsPaced env id a valid e room w = bundled (lookup id e.bundles)
    where
      bundled : (o : Option (Bundle V)) → IsPaced (scan_bundle less env id a o e)
      bundled none = w
      bundled (some b) =
          EachWithin-insert id (record a { scans_this_hour = a.scans_this_hour + 1 })
            (scan_each less env a.session b a.session.config.devices e).active
            (omega (arith, room refl))
            (subst EachWithin (sym (scan_each-active env a.session b a.session.config.devices e)) w)
  scan_allowed-IsPaced env id a (refused max_sessions_exceeded _) e room w = w
  scan_allowed-IsPaced env id a (refused max_devices_exceeded _) e room w = w
  scan_allowed-IsPaced env id a (refused min_scan_interval_violation _) e room w = w
  scan_allowed-IsPaced env id a (refused min_bundle_refresh_violation _) e room w = w
  scan_allowed-IsPaced env id a (refused max_scans_exceeded _) e room w = w
  scan_allowed-IsPaced env id a (refused session_expired _) e room w =
      expire_session-IsPaced env.now id e w

  scan_active-IsPaced :
      (env : SimulatorEnv V) (id : String) (o : Option ActiveSession) (e : Engine V)
      → lookup id e.active ≡ o
      → IsPaced e
      → IsPaced (scan_active less env id o e)
  scan_active-IsPaced env id none e h w = w
  scan_active-IsPaced env id (some a) e h w =
      let fresh = hour_passed env.now a in
      let row = get_session_by_id a.session.tenant_id id e.sessions in
      scan_allowed-IsPaced env id fresh _ (set_active id fresh e)
        (λ ok.
          allowed_below (get_quotas_for_tenant a.session.tenant_id) env.now row
            fresh.scans_this_hour ok)
        (EachWithin-insert id fresh e.active
          (hour_passed-within env.now a (EachWithin-lookup id a e.active h w)) w)

  run_op-IsPaced :
      (env : SimulatorEnv V) (op : Op) (e : Engine V) → IsPaced e → IsPaced (run_op less env op e)
  unfolding start_session refresh_bundle scan_devices stop_all_sessions recover_sessions
      mark_expired_sessions
  run_op-IsPaced env (start tenant customer created_by name config) e w =
      admitted-IsPaced env _ _ e w
  run_op-IsPaced env (stop id reason) e w = stop_session-IsPaced env.now id reason e w
  run_op-IsPaced env (refresh_tick id) e w =
      if_either IsPaced (is_ticking (lookup id e.active))
        (λ _. refresh_active-IsPaced env id (lookup id e.active) e w) λ _. w
  run_op-IsPaced env (scan_tick id) e w =
      if_either IsPaced (is_ticking (lookup id e.active))
        (λ _. scan_active-IsPaced env id (lookup id e.active) e refl w) λ _. w
  run_op-IsPaced env shut_down e w = stop_each-IsPaced env.now _ e.active e w
  run_op-IsPaced env restart e w =
      recover_each-IsPaced env (find_running_sessions (rebooted env.now e).sessions)
        (rebooted env.now e) tt
  run_op-IsPaced env clean_up e w = w

  -- Whatever the sequence of requests, ticks, restarts and cleanups, no active session has counted more
  -- scans in its hour than the hourly quota of its tenant, if none had at the start.
  pub run-IsPaced :
      (ops : List (SimulatorEnv V × Op)) (e : Engine V) → IsPaced e → IsPaced (run less ops e)
  unfolding run
  run-IsPaced [] e w = w
  run-IsPaced ((env, op) ∷ rest) e w =
      run-IsPaced rest (run_op less env op e) (run_op-IsPaced env op e w)
