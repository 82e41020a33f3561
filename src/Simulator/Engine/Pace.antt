-- ===== src/Simulator/Engine/Pace.antt =====
-- How the writes of the engine keep the hourly counts of the active sessions within the quota.
use gcdr.Base.{
  ℕ, ◌≡◌, ◌≤◌, ◌<◌, String, Bool, true, false, Option, none, some, List, [], ◌∷◌, ◌==◌, any, arith,
  Bool-cases, inl, inr, if_either, ltb,
}
use gcdr.Base.Dict.{Dict, lookup, insert, erase}
use gcdr.Base.Errors.{Result}
use gcdr.Simulator.Data.{
  running, Session, Validation, valid, refused, ActiveSession, Bundle, Engine, SimulatorEnv, Quotas,
}
use gcdr.Simulator.Quotas.{get_quotas_for_tenant}
use gcdr.Simulator.Rows.{same_status, has_id, get_session_by_id_internal}
use gcdr.Simulator.Engine.Service.{
  fetched, fetch_bundle, with_timers, initialize_session, started, admitted, create_session,
  entry_for, set_active, stop_active, stop_session, expire_active, expire_session, stop_each,
  refresh_row, refresh_active, is_bundle_updated,
}
use gcdr.Simulator.Engine.Ticks.{can_perform_scan, hour_passed, recovered, recover_each}

-- The quota of the session's tenant.
abbrev pub hourly : ActiveSession → ℕ
hourly a = (get_quotas_for_tenant a.session.tenant_id).max_scans_per_hour

abbrev pub EachWithin : Dict ActiveSession → Type 0
EachWithin [] = Unit {0}
EachWithin ((_, a) ∷ rest) = (a.scans_this_hour ≤ hourly a) × EachWithin rest

pub EachWithin-insert :
    (id : String) (a : ActiveSession) (d : Dict ActiveSession)
    → a.scans_this_hour ≤ hourly a
    → EachWithin d
    → EachWithin (insert id a d)
unfolding insert
EachWithin-insert id a [] h w = (h, tt)
EachWithin-insert id a ((k, old) ∷ rest) h w =
    if_either EachWithin (k == id) (λ _. (h, w.1)) λ _. (w.0, EachWithin-insert id a rest h w.1)

pub EachWithin-erase :
    (id : String) (d : Dict ActiveSession) → EachWithin d → EachWithin (erase id d)
unfolding erase
EachWithin-erase id [] w = tt
EachWithin-erase id ((k, old) ∷ rest) w =
    if_either EachWithin (k == id) (λ _. EachWithin-erase id rest w.1)
      λ _. (w.0, EachWithin-erase id rest w.1)

pub EachWithin-lookup :
    (id : String) (a : ActiveSession) (d : Dict ActiveSession)
    → lookup id d ≡ some a
    → EachWithin d
    → a.scans_this_hour ≤ hourly a
unfolding lookup
EachWithin-lookup id a [] h w = absurd (cc)
EachWithin-lookup id a ((k, old) ∷ rest) h w = elim (Bool-cases (k == id)) [
  | inl e ↦ ground (arith, w.0)
  | inr e ↦ EachWithin-lookup id a rest (rw e at h) w.1
]

pub hour_passed-within :
    (now : ℕ) (a : ActiveSession)
    → a.scans_this_hour ≤ hourly a
    → (hour_passed now a).scans_this_hour ≤ hourly (hour_passed now a)
hour_passed-within now a h = ground arith

-- A scan is allowed only below the quota.
pub allowed_below :
    (q : Quotas) (now : ℕ) (row : Option Session) (scans : ℕ)
    → can_perform_scan q now row scans ≡ valid
    → scans < q.max_scans_per_hour
unfolding can_perform_scan
allowed_below q now row scans h = ground arith

module _ {V : Type 0} where
  abbrev pub IsPaced : Engine V → Type 0
  IsPaced e = EachWithin e.active

  pub stop_active-IsPaced :
      (now : ℕ) (id reason : String) (o : Option ActiveSession) (e : Engine V)
      → IsPaced e
      → IsPaced (stop_active now id reason o e)
  stop_active-IsPaced now id reason none e w = w
  stop_active-IsPaced now id reason (some a) e w = EachWithin-erase id e.active w

  pub expire_active-IsPaced :
      (now : ℕ) (id : String) (o : Option ActiveSession) (e : Engine V)
      → IsPaced e
      → IsPaced (expire_active now id o e)
  expire_active-IsPaced now id none e w = w
  expire_active-IsPaced now id (some a) e w = EachWithin-erase id e.active w

  pub stop_session-IsPaced :
      (now : ℕ) (id reason : String) (e : Engine V)
      → IsPaced e
      → IsPaced (stop_session now id reason e)
  unfolding stop_session
  stop_session-IsPaced now id reason e w =
      stop_active-IsPaced now id reason (lookup id e.active) e w

  pub expire_session-IsPaced :
      (now : ℕ) (id : String) (e : Engine V) → IsPaced e → IsPaced (expire_session now id e)
  unfolding expire_session
  expire_session-IsPaced now id e w = expire_active-IsPaced now id (lookup id e.active) e w

  pub stop_each-IsPaced :
      (now : ℕ) (reason : String) (d : Dict ActiveSession) (e : Engine V)
      → IsPaced e
      → IsPaced (stop_each now reason d e)
  stop_each-IsPaced now reason [] e w = w
  stop_each-IsPaced now reason ((id, _) ∷ rest) e w =
      stop_each-IsPaced now reason rest (stop_session now id reason e)
        (stop_session-IsPaced now id reason e w)

  pub fetched-IsPaced :
      (now : ℕ) (s : Session) (b : Option (Bundle V)) (e : Engine V)
      → IsPaced e
      → IsPaced (fetched now s b e).1
  fetched-IsPaced now s none e w = w
  fetched-IsPaced now s (some b) e w =
      if_either IsPaced (is_bundle_updated s b.version b.signature) (λ _. w) λ _. w

  pub initialize_session-IsPaced :
      (env : SimulatorEnv V) (s : Session) (e : Engine V)
      → IsPaced e
      → IsPaced (initialize_session env s e).1
  unfolding initialize_session fetch_bundle
  initialize_session-IsPaced env s e w =
      timed (fetched env.now s (env.generate s.tenant_id s.customer_id) opened) (
        fetched-IsPaced env.now s (env.generate s.tenant_id s.customer_id) opened
          (EachWithin-insert s.id (entry_for env.now s false) e.active (omega arith) w))
    where
      opened : Engine V
      opened = set_active s.id (entry_for env.now s false) e

      timed : (r : Bool × Engine V) → IsPaced r.1 → IsPaced (with_timers env.now s r).1
      timed (true, f) h = EachWithin-insert s.id (entry_for env.now s true) f.active (omega arith) h
      timed (false, f) h = h

  pub started-IsPaced :
      (now : ℕ) (s : Session) (r : Bool × Engine V) → IsPaced r.1 → IsPaced (started now s r).1
  started-IsPaced now s (true, f) h = EachWithin-insert s.id _ f.active (omega arith) h
  started-IsPaced now s (false, f) h = h

  pub admitted-IsPaced :
      (env : SimulatorEnv V) (v : Validation) (s : Session) (e : Engine V)
      → IsPaced e
      → IsPaced (admitted env v s e).1
  admitted-IsPaced env (refused _ _) s e w = w
  admitted-IsPaced env valid s e w =
      if_either (λ (r : Result Session × Engine V). IsPaced r.1) (any (has_id s.id) e.sessions)
        (λ _. w)
        λ _. started-IsPaced env.now s _ (initialize_session-IsPaced env s (create_session s e) w)

  pub refresh_row-IsPaced :
      (env : SimulatorEnv V) (id : String) (o : Option Session) (e : Engine V)
      → IsPaced e
      → IsPaced (refresh_row env id o e)
  unfolding fetch_bundle
  refresh_row-IsPaced env id none e w = stop_session-IsPaced env.now id _ e w
  refresh_row-IsPaced env id (some s) e w =
      if_either IsPaced (same_status s.status running)
        (λ _.
          if_either IsPaced (ltb s.expires_at env.now) (λ _. expire_session-IsPaced env.now id e w)
            λ _. fetched-IsPaced env.now s (env.generate s.tenant_id s.customer_id) e w)
        λ _. stop_session-IsPaced env.now id "SESSION_INVALID" e w

  pub refresh_active-IsPaced :
      (env : SimulatorEnv V) (id : String) (o : Option ActiveSession) (e : Engine V)
      → IsPaced e
      → IsPaced (refresh_active env id o e)
  refresh_active-IsPaced env id none e w = w
  refresh_active-IsPaced env id (some _) e w =
      refresh_row-IsPaced env id (get_session_by_id_internal id e.sessions) e w

  pub recover_each-IsPaced :
      (env : SimulatorEnv V) (rows : List Session) (e : Engine V)
      → IsPaced e
      → IsPaced (recover_each env rows e)
  recover_each-IsPaced env [] e w = w
  recover_each-IsPaced env (s ∷ rest) e w = recover_each-IsPaced env rest _ (
      if_either IsPaced (ltb s.expires_at env.now) (λ _. w)
        λ _. back (initialize_session env s e) (initialize_session-IsPaced env s e w))
    where
      back : (r : Bool × Engine V) → IsPaced r.1 → IsPaced (recovered env.now s r)
      back (true, f) h = h
      back (false, f) h = h
