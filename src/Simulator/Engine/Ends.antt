-- ===== src/Simulator/Engine/Ends.antt =====
-- Sessions that have ended, are overdue, or failed to start.
use gcdr.Base.{
  leb, ℕ, ◌≡◌, ◌<◌, refl, ap, ◌∙◌, String, Bool, Option, none, some, arith, Bool-cases, inl, inr,
}
use gcdr.Base.Dict.{lookup, lookup-erase_self}
use gcdr.Simulator.Data.{
  Session, refused, QuotaErrorCode, max_sessions_exceeded, max_devices_exceeded,
  min_scan_interval_violation, min_bundle_refresh_violation, max_scans_exceeded, session_expired,
  ActiveSession, Engine, SimulatorEnv, Quotas,
}
use gcdr.Simulator.Quotas.{get_quotas_for_tenant}
use gcdr.Simulator.Rows.{get_session_by_id}
use gcdr.Simulator.Engine.Service.{
  stop_active, stop_session, expire_active, expire_session, set_active,
}
use gcdr.Simulator.Engine.Ticks.{
  can_perform_scan, hour_passed, scan_allowed, scan_active, scan_devices,
}

module _ {V : Type 0} where
  stop_active-forgets :
      (now : ℕ) (id reason : String) (o : Option ActiveSession) (e : Engine V)
      → lookup id e.active ≡ o
      → lookup id (stop_active now id reason o e).active ≡ none
  stop_active-forgets now id reason none e h = h
  stop_active-forgets now id reason (some a) e h = lookup-erase_self id e.active

  pub stop_session-forgets :
      (now : ℕ) (id reason : String) (e : Engine V)
      → lookup id (stop_session now id reason e).active ≡ none
  unfolding stop_session
  stop_session-forgets now id reason e = stop_active-forgets now id reason _ e refl

  expire_active-quiet :
      (now : ℕ) (id : String) (o : Option ActiveSession) (e : Engine V)
      → (expire_active now id o e).candidates ≡ e.candidates
  expire_active-quiet now id none e = refl
  expire_active-quiet now id (some a) e = refl

module _ {V : Type 0} (less : V → V → Bool) where
  refusal_quiet :
      (env : SimulatorEnv V) (id : String) (a : ActiveSession) (code : QuotaErrorCode) (n : ℕ)
      (e : Engine V)
      → (scan_allowed less env id a (refused code n) e).candidates ≡ e.candidates
  unfolding expire_session
  refusal_quiet env id a max_sessions_exceeded n e = refl
  refusal_quiet env id a max_devices_exceeded n e = refl
  refusal_quiet env id a min_scan_interval_violation n e = refl
  refusal_quiet env id a min_bundle_refresh_violation n e = refl
  refusal_quiet env id a max_scans_exceeded n e = refl
  refusal_quiet env id a session_expired n e = expire_active-quiet env.now id (lookup id e.active) e

  overdue_refused :
      (q : Quotas) (now scans : ℕ) (s : Session)
      → s.expires_at < now
      → (code : QuotaErrorCode) × (n : ℕ) × (can_perform_scan q now (some s) scans ≡ refused code n)
  unfolding can_perform_scan
  overdue_refused q now scans s h = elim (Bool-cases (leb q.max_scans_per_hour scans)) [
    | inl full ↦ (max_scans_exceeded, q.max_scans_per_hour, rw full refl)
    | inr room ↦ (session_expired, 1, ground arith)
  ]

  -- A session that has outlived its time raises no more candidates.
  pub scan_devices-overdue :
      (env : SimulatorEnv V) (id : String) (a : ActiveSession) (s : Session) (e : Engine V)
      → lookup id e.active ≡ some a
      → get_session_by_id a.session.tenant_id id e.sessions ≡ some s
      → s.expires_at < env.now
      → (scan_devices less env id e).candidates ≡ e.candidates
  unfolding scan_devices
  scan_devices-overdue env id a s e h row late =
      let fresh = hour_passed env.now a in
      let (code, n, r) =
        overdue_refused (get_quotas_for_tenant a.session.tenant_id) env.now fresh.scans_this_hour s
          late in
      ap (λ o. (scan_active less env id o e).candidates) h
      ∙ ap
          (λ o.
            (scan_allowed less env id fresh
              (can_perform_scan (get_quotas_for_tenant a.session.tenant_id) env.now o
                fresh.scans_this_hour)
              (set_active id fresh e)).candidates)
          row
      ∙ ap (λ v. (scan_allowed less env id fresh v (set_active id fresh e)).candidates) r
      ∙ refusal_quiet env id fresh code n (set_active id fresh e)
