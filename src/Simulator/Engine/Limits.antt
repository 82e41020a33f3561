-- ===== src/Simulator/Engine/Limits.antt =====
-- A tenant never has more running sessions than its quota.
use gcdr.Base.{
  ℕ, ◌≡◌, ◌≤◌, refl, String, Bool, true, false, Option, none, some, List, [], ◌∷◌, ltb, arith,
  Bool-cases, inl, inr, if_either,
}
use gcdr.Base.Dict.{Dict, lookup}
use gcdr.Base.Rows.{update_where}
use gcdr.Simulator.Data.{
  device_scanned, running, stopped, expired, Session, Validation, valid, refused,
  max_sessions_exceeded, max_devices_exceeded, min_scan_interval_violation,
  min_bundle_refresh_violation, max_scans_exceeded, session_expired, ActiveSession, Bundle, Rule,
  DeviceEntry, Engine, SimulatorEnv,
}
use gcdr.Simulator.Rows.{
  create_event, same_status, has_id, count_active_sessions_by_tenant, set_ended, set_broken,
  count_scan, count_alarm, set_bundle, is_overdue, mark_expired_sessions,
  get_session_by_id_internal,
}
use gcdr.Simulator.Scan.{
  raise_found, evaluate_rule, first_triggered, evaluate_named, evaluate_rules, scan_mapped,
  scan_device, scan_each,
}
use gcdr.Simulator.Engine.Service.{
  fetched, fetch_bundle, initialize_session, with_timers, stop_active, stop_session, expire_active,
  expire_session, stop_each, refresh_row, refresh_active, entry_for, set_active, is_bundle_updated,
}
use gcdr.Simulator.Engine.Ticks.{
  hour_passed, scan_bundle, scan_allowed, scan_active, recovered, recover_each,
}
use gcdr.Simulator.Engine.Counts.{Calms, set_ended-Calms, set_broken-Calms, count-update_where-le}

module _ {V : Type 0} where
  -- No tenant has more running sessions than before.
  pub record Fewer (e f : Engine V) : Type 0 where
    pub fewer :
        (t : String)
        → count_active_sessions_by_tenant t f.sessions
          ≤ count_active_sessions_by_tenant t e.sessions

  pub same : (e f : Engine V) → f.sessions ≡ e.sessions → Fewer e f
  same e f h = record { fewer = λ t. rw h (omega arith) }

  pub chain : {e f g : Engine V} → Fewer e f → Fewer f g → Fewer e g
  chain h k = record { fewer = λ t. omega (arith, h.fewer t, k.fewer t) }

  updated :
      (test : Session → Bool) (f : Session → Session) (e g : Engine V)
      → Calms f
      → g.sessions ≡ update_where test f e.sessions
      → Fewer e g
  updated test f e g calm h = record {
    fewer = λ t. rw h (count-update_where-le t test f e.sessions calm);
  }

  pub fetched-Fewer :
      (now : ℕ) (s : Session) (b : Option (Bundle V)) (e : Engine V) → Fewer e (fetched now s b e).1
  fetched-Fewer now s none e = same e _ refl
  fetched-Fewer now s (some b) e = elim (Bool-cases (is_bundle_updated s b.version b.signature)) [
    | inl u ↦
        updated (has_id s.id) (set_bundle b.version b.signature now) e _ (λ t r h. h) (rw u refl)
    | inr u ↦ same e _ (rw u refl)
  ]

  pub with_timers-Fewer :
      (now : ℕ) (s : Session) (e : Engine V) (r : Bool × Engine V)
      → Fewer e r.1
      → Fewer e (with_timers now s r).1
  with_timers-Fewer now s e (true, f) h = chain h (same f _ refl)
  with_timers-Fewer now s e (false, f) h = h

  pub initialize_session-Fewer :
      (env : SimulatorEnv V) (s : Session) (e : Engine V) → Fewer e (initialize_session env s e).1
  unfolding initialize_session fetch_bundle
  initialize_session-Fewer env s e =
      let opened : Engine V = set_active s.id (entry_for env.now s false) e in
      with_timers-Fewer env.now s e (fetch_bundle env s opened) (
        chain (same e opened refl)
          (fetched-Fewer env.now s (env.generate s.tenant_id s.customer_id) opened))

  pub stop_active-Fewer :
      (now : ℕ) (id reason : String) (o : Option ActiveSession) (e : Engine V)
      → Fewer e (stop_active now id reason o e)
  stop_active-Fewer now id reason none e = same e _ refl
  stop_active-Fewer now id reason (some a) e =
      updated (has_id id) (set_ended stopped now) e _ (set_ended-Calms stopped now refl) refl

  pub expire_active-Fewer :
      (now : ℕ) (id : String) (o : Option ActiveSession) (e : Engine V)
      → Fewer e (expire_active now id o e)
  expire_active-Fewer now id none e = same e _ refl
  expire_active-Fewer now id (some a) e =
      updated (has_id id) (set_ended expired now) e _ (set_ended-Calms expired now refl) refl

  pub stop_session-Fewer :
      (now : ℕ) (id reason : String) (e : Engine V) → Fewer e (stop_session now id reason e)
  unfolding stop_session
  stop_session-Fewer now id reason e = stop_active-Fewer now id reason (lookup id e.active) e

  pub expire_session-Fewer :
      (now : ℕ) (id : String) (e : Engine V) → Fewer e (expire_session now id e)
  unfolding expire_session
  expire_session-Fewer now id e = expire_active-Fewer now id (lookup id e.active) e

  pub stop_each-Fewer :
      (now : ℕ) (reason : String) (d : Dict ActiveSession) (e : Engine V)
      → Fewer e (stop_each now reason d e)
  stop_each-Fewer now reason [] e = same e _ refl
  stop_each-Fewer now reason ((id, _) ∷ rest) e =
      chain (stop_session-Fewer now id reason e)
        (stop_each-Fewer now reason rest (stop_session now id reason e))

  pub refresh_row-Fewer :
      (env : SimulatorEnv V) (id : String) (o : Option Session) (e : Engine V)
      → Fewer e (refresh_row env id o e)
  unfolding fetch_bundle
  refresh_row-Fewer env id none e = stop_session-Fewer env.now id _ e
  refresh_row-Fewer env id (some s) e =
      if_either (Fewer e) (same_status s.status running)
        (λ _.
          if_either (Fewer e) (ltb s.expires_at env.now) (λ _. expire_session-Fewer env.now id e)
            λ _. fetched-Fewer env.now s (env.generate s.tenant_id s.customer_id) e)
        λ _. stop_session-Fewer env.now id "SESSION_INVALID" e

  pub refresh_active-Fewer :
      (env : SimulatorEnv V) (id : String) (o : Option ActiveSession) (e : Engine V)
      → Fewer e (refresh_active env id o e)
  refresh_active-Fewer env id none e = same e _ refl
  refresh_active-Fewer env id (some _) e =
      refresh_row-Fewer env id (get_session_by_id_internal id e.sessions) e

  pub recovered-Fewer :
      (now : ℕ) (s : Session) (e : Engine V) (r : Bool × Engine V)
      → Fewer e r.1
      → Fewer e (recovered now s r)
  recovered-Fewer now s e (true, f) h = h
  recovered-Fewer now s e (false, f) h =
      chain h (updated (has_id s.id) (set_broken now) f _ (set_broken-Calms now) refl)

  pub recover_each-Fewer :
      (env : SimulatorEnv V) (rows : List Session) (e : Engine V)
      → Fewer e (recover_each env rows e)
  recover_each-Fewer env [] e = same e _ refl
  recover_each-Fewer env (s ∷ rest) e =
      chain
        (if_either (Fewer e) (ltb s.expires_at env.now)
          (λ _.
            updated (has_id s.id) (set_ended expired env.now) e _
              (set_ended-Calms expired env.now refl) refl)
          λ _. recovered-Fewer env.now s e _ (initialize_session-Fewer env s e))
        (recover_each-Fewer env rest _)

  pub mark_expired-Fewer : (now : ℕ) (e : Engine V) → Fewer e (mark_expired_sessions now e).1
  unfolding mark_expired_sessions
  mark_expired-Fewer now e =
      updated (is_overdue now) (set_ended expired now) e _ (set_ended-Calms expired now refl) refl

  pub raise_found-Fewer :
      (now : ℕ) (s : Session) (d i : String) (rule : Rule V) (o : Option (String × V))
      (e : Engine V)
      → Fewer e (raise_found now s d i rule o e)
  raise_found-Fewer now s d i rule none e = same e _ refl
  raise_found-Fewer now s d i rule (some (field, value)) e =
      updated (has_id s.id) (count_alarm now) e _ (λ t r h. h) refl

module _ {V : Type 0} (less : V → V → Bool) where
  pub evaluate_rule-Fewer :
      (now : ℕ) (s : Session) (d i : String) (telemetry : Dict V) (rule : Rule V) (e : Engine V)
      → Fewer e (evaluate_rule less now s d i telemetry rule e)
  unfolding evaluate_rule
  evaluate_rule-Fewer now s d i telemetry rule e =
      raise_found-Fewer now s d i rule (first_triggered less rule telemetry) e

  pub evaluate_rules-Fewer :
      (now : ℕ) (s : Session) (d i : String) (telemetry : Dict V) (rules : Dict (Rule V))
      (ids : List String) (e : Engine V)
      → Fewer e (evaluate_rules less now s d i telemetry rules ids e)
  unfolding evaluate_rules
  evaluate_rules-Fewer now s d i telemetry rules [] e = same e _ refl
  evaluate_rules-Fewer now s d i telemetry rules (r ∷ rest) e =
      chain (named (lookup r rules)) (evaluate_rules-Fewer now s d i telemetry rules rest _)
    where
      named : (o : Option (Rule V)) → Fewer e (evaluate_named less now s d i telemetry o e)
      named none = same e _ refl
      named (some rule) = evaluate_rule-Fewer now s d i telemetry rule e

  pub scan_mapped-Fewer :
      (env : SimulatorEnv V) (s : Session) (b : Bundle V) (d : String) (o : Option DeviceEntry)
      (e : Engine V)
      → Fewer e (scan_mapped less env s b d o e)
  scan_mapped-Fewer env s b d none e = same e _ refl
  scan_mapped-Fewer env s b d (some entry) e =
      evaluate_rules-Fewer env.now s d _ _ _ entry.rule_ids e

  pub scan_each-Fewer :
      (env : SimulatorEnv V) (s : Session) (b : Bundle V) (ds : List String) (e : Engine V)
      → Fewer e (scan_each less env s b ds e)
  unfolding scan_each scan_device
  scan_each-Fewer env s b [] e = same e _ refl
  scan_each-Fewer env s b (d ∷ ds) e =
      let noted : Engine V = create_event (device_scanned s.id d) e in
      chain (same e noted refl) (
        chain (scan_mapped-Fewer env s b d (lookup d b.device_index) noted)
          (scan_each-Fewer env s b ds (scan_mapped less env s b d (lookup d b.device_index) noted)))

  pub scan_allowed-Fewer :
      (env : SimulatorEnv V) (id : String) (a : ActiveSession) (v : Validation) (e : Engine V)
      → Fewer e (scan_allowed less env id a v e)
  scan_allowed-Fewer env id a valid e = bundled (lookup id e.bundles)
    where
      bundled : (o : Option (Bundle V)) → Fewer e (scan_bundle less env id a o e)
      bundled none = same e _ refl
      bundled (some b) = chain (scan_each-Fewer env a.session b a.session.config.devices e) (
          updated (has_id id) (count_scan env.now)
            (scan_each less env a.session b a.session.config.devices e) _ (λ t r h. h) refl)
  scan_allowed-Fewer env id a (refused max_sessions_exceeded _) e = same e _ refl
  scan_allowed-Fewer env id a (refused max_devices_exceeded _) e = same e _ refl
  scan_allowed-Fewer env id a (refused min_scan_interval_violation _) e = same e _ refl
  scan_allowed-Fewer env id a (refused min_bundle_refresh_violation _) e = same e _ refl
  scan_allowed-Fewer env id a (refused max_scans_exceeded _) e = same e _ refl
  scan_allowed-Fewer env id a (refused session_expired _) e = expire_session-Fewer env.now id e

  pub scan_active-Fewer :
      (env : SimulatorEnv V) (id : String) (o : Option ActiveSession) (e : Engine V)
      → Fewer e (scan_active less env id o e)
  scan_active-Fewer env id none e = same e _ refl
  scan_active-Fewer env id (some a) e =
      let fresh = hour_passed env.now a in
      chain (same e (set_active id fresh e) refl)
        (scan_allowed-Fewer env id fresh _ (set_active id fresh e))
