-- ===== src/Simulator/Engine/Admission.antt =====
-- The quota on running sessions, through every call of the engine.
use gcdr.Base.{
  ap, ◌∙◌, ℕ, ◌+◌, ◌≡◌, ◌≤◌, ◌<◌, refl, subst, String, Bool, true, false, Option, none, some, List,
  [], ◌∷◌, if◌then◌else◌, ◌==◌, any, arith, Bool-cases, inl, inr, if_either, eq_iff,
}
use gcdr.Base.Dict.{lookup}
use gcdr.Simulator.Data.{
  pending, Session, Config, Validation, valid, refused, Bundle, Engine, SimulatorEnv,
}
use gcdr.Simulator.Quotas.{get_quotas_for_tenant, validate_new_session_iff}
use gcdr.Simulator.Rows.{
  find_running_sessions, has_id, count_active_sessions_by_tenant, set_broken, set_bundle,
}
use gcdr.Simulator.Engine.Service.{
  fetched, fetch_bundle, initialize_session, with_timers, started, admitted, start_session,
  session_for, create_session, stop_all_sessions, refresh_bundle, is_bundle_updated, entry_for,
  set_active,
}
use gcdr.Simulator.Engine.Ticks.{
  rebooted, is_ticking, scan_devices, recover_sessions, Op, start, stop, refresh_tick, scan_tick,
  shut_down, restart, clean_up, run_op, run,
}
use gcdr.Simulator.Engine.Counts.{
  set_broken-Calms, count-update_where-le, rows_with, rows_with-update_where, count-set_running-le,
  rows_with_fresh, count-append_pending, rows_with-append,
}
use gcdr.Simulator.Engine.Limits.{
  chain, same, mark_expired-Fewer, recover_each-Fewer, refresh_active-Fewer, scan_active-Fewer,
  stop_each-Fewer, Fewer, initialize_session-Fewer, stop_session-Fewer,
}

module _ {V : Type 0} where
  -- Every tenant keeps to its quota of running sessions.
  pub record IsLimited (e : Engine V) : Type 0 where
    pub limited :
        (t : String)
        → count_active_sessions_by_tenant t e.sessions
          ≤ (get_quotas_for_tenant t).max_concurrent_sessions

  Fewer-IsLimited : {e f : Engine V} → Fewer e f → IsLimited e → IsLimited f
  Fewer-IsLimited h l = record { limited = λ t. omega (arith, h.fewer t, l.limited t) }

  rows_with-fetched :
      (t id : String) (now : ℕ) (s : Session) (b : Option (Bundle V)) (e : Engine V)
      → rows_with t id (fetched now s b e).1.sessions ≡ rows_with t id e.sessions
  rows_with-fetched t id now s none e = refl
  rows_with-fetched t id now s (some b) e =
      elim (Bool-cases (is_bundle_updated s b.version b.signature)) [
        | inl u ↦ rw u (
            rows_with-update_where t id (has_id s.id) (set_bundle b.version b.signature now)
              e.sessions (λ r. refl) (λ r. refl))
        | inr u ↦ rw u refl
      ]

  rows_with-with_timers :
      (t id : String) (now : ℕ) (s : Session) (r : Bool × Engine V)
      → rows_with t id (with_timers now s r).1.sessions ≡ rows_with t id r.1.sessions
  rows_with-with_timers t id now s (true, e) = refl
  rows_with-with_timers t id now s (false, e) = refl

  rows_with-initialize_session :
      (t id : String) (env : SimulatorEnv V) (s : Session) (e : Engine V)
      → rows_with t id (initialize_session env s e).1.sessions ≡ rows_with t id e.sessions
  unfolding initialize_session fetch_bundle
  rows_with-initialize_session t id env s e =
      rows_with-with_timers t id env.now s
        (fetch_bundle env s (set_active s.id (entry_for env.now s false) e))
      ∙ rows_with-fetched t id env.now s (env.generate s.tenant_id s.customer_id)
          (set_active s.id (entry_for env.now s false) e)

  started_count :
      (t : String) (now : ℕ) (s : Session) (r : Bool × Engine V)
      → count_active_sessions_by_tenant t (started now s r).1.sessions
        ≤ count_active_sessions_by_tenant t r.1.sessions + rows_with t s.id r.1.sessions
  started_count t now s (true, e) = count-set_running-le t s.id now e.sessions
  started_count t now s (false, e) = omega (
    arith,
    count-update_where-le t (has_id s.id) (set_broken now) e.sessions (set_broken-Calms now),
  )

  admitted-IsLimited :
      (env : SimulatorEnv V) (v : Validation) (s : Session) (e : Engine V)
      → s.status ≡ pending
      → (v ≡ valid
          → count_active_sessions_by_tenant s.tenant_id e.sessions
            < (get_quotas_for_tenant s.tenant_id).max_concurrent_sessions)
      → IsLimited e
      → IsLimited (admitted env v s e).1
  admitted-IsLimited env (refused _ _) s e p room l = l
  admitted-IsLimited env valid s e p room l = elim (Bool-cases (any (has_id s.id) e.sessions)) [
    | inl known ↦ rw known l
    | inr fresh ↦ rw fresh (record { limited = bounded fresh })
  ]
    where
      created : Engine V
      created = create_session s e

      -- What is left of the rows with the new id, and of those that run.
      total :
          (t : String)
          → count_active_sessions_by_tenant t
              (started env.now s (initialize_session env s created)).1.sessions
            ≤ count_active_sessions_by_tenant t e.sessions + rows_with t s.id created.sessions
      total t = omega (
        arith,
        started_count t env.now s (initialize_session env s created),
        (initialize_session-Fewer env s created).fewer t,
        rows_with-initialize_session t s.id env s created,
        count-append_pending t e.sessions s p,
      )

      fresh_row :
          any (has_id s.id) e.sessions ≡ false
          → (t : String) → rows_with t s.id created.sessions ≤ (if s.tenant_id == t then 1 else 0)
      fresh_row fresh t =
          omega
            (arith, rows_with-append t s.id e.sessions s, rows_with_fresh t s.id e.sessions fresh)

      bounded :
          any (has_id s.id) e.sessions ≡ false
          → (t : String)
          → count_active_sessions_by_tenant t
              (started env.now s (initialize_session env s created)).1.sessions
            ≤ (get_quotas_for_tenant t).max_concurrent_sessions
      bounded fresh t = elim (Bool-cases (s.tenant_id == t)) [
        | inl same_tenant ↦ omega (
          arith,
          total t,
          fresh_row fresh t,
          ap (λ (b : Bool). if b then ◌+◌ 1 0 else 0) same_tenant,
          subst (λ u. count_active_sessions_by_tenant u e.sessions < 3)
              ((eq_iff s.tenant_id t).0 same_tenant) (room refl),
        )
        | inr other ↦ omega (
          arith,
          total t,
          fresh_row fresh t,
          ap (λ (b : Bool). if b then ◌+◌ 1 0 else 0) other,
          l.limited t,
        )
      ]

  start_session-IsLimited :
      (env : SimulatorEnv V) (tenant customer created_by name : String) (config : Config)
      (e : Engine V)
      → IsLimited e
      → IsLimited (start_session env tenant customer created_by name config e).1
  unfolding start_session
  start_session-IsLimited env tenant customer created_by name config e l =
      admitted-IsLimited env _ (session_for env tenant customer created_by name config) e refl
        (λ ok. ((validate_new_session_iff _ _ config).0 ok).0) l

  restarted-IsLimited :
      (env : SimulatorEnv V) (e : Engine V)
      → IsLimited e
      → IsLimited (recover_sessions env (rebooted env.now e))
  unfolding recover_sessions
  restarted-IsLimited env e l =
      Fewer-IsLimited
        (chain (mark_expired-Fewer env.now e) (
          chain (same _ (rebooted env.now e) refl) (
            recover_each-Fewer env (find_running_sessions (rebooted env.now e).sessions)
              (rebooted env.now e))))
        l

module _ {V : Type 0} (less : V → V → Bool) where
  run_op-IsLimited :
      (env : SimulatorEnv V) (op : Op) (e : Engine V)
      → IsLimited e
      → IsLimited (run_op less env op e)
  unfolding refresh_bundle scan_devices stop_all_sessions
  run_op-IsLimited env (start tenant customer created_by name config) e l =
      start_session-IsLimited env tenant customer created_by name config e l
  run_op-IsLimited env (stop id reason) e l =
      Fewer-IsLimited (stop_session-Fewer env.now id reason e) l
  run_op-IsLimited env (refresh_tick id) e l =
      if_either IsLimited (is_ticking (lookup id e.active))
        (λ _. Fewer-IsLimited (refresh_active-Fewer env id (lookup id e.active) e) l) λ _. l
  run_op-IsLimited env (scan_tick id) e l =
      if_either IsLimited (is_ticking (lookup id e.active))
        (λ _. Fewer-IsLimited (scan_active-Fewer less env id (lookup id e.active) e) l) λ _. l
  run_op-IsLimited env shut_down e l = Fewer-IsLimited (stop_each-Fewer env.now _ e.active e) l
  run_op-IsLimited env restart e l = restarted-IsLimited env e l
  run_op-IsLimited env clean_up e l = Fewer-IsLimited (mark_expired-Fewer env.now e) l

  -- Whatever the sequence of requests, ticks, restarts and cleanups, a tenant never gets more running
  -- sessions than its quota if it had no more at the start.
  pub run-IsLimited :
      (ops : List (SimulatorEnv V × Op)) (e : Engine V) → IsLimited e → IsLimited (run less ops e)
  unfolding run
  run-IsLimited [] e l = l
  run-IsLimited ((env, op) ∷ rest) e l =
      run-IsLimited rest (run_op less env op e) (run_op-IsLimited env op e l)
