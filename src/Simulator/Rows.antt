-- ===== src/Simulator/Rows.antt =====
-- repositories/SimulatorRepository.ts: the rows of the sessions.
use gcdr.Base.{
  ℕ, ◌+◌, String, Bool, true, false, ◌&&◌, Option, none, some, List, [], ◌∷◌, ◌++◌, filter, find,
  length, ltb, ◌==◌,
}
use gcdr.Base.Rows.{update_where}
use gcdr.Simulator.Data.{
  SessionStatus, pending, running, stopped, expired, broken, Config, Session, Engine,
  SimulatorEvent,
}

abbrev pub same_status : SessionStatus → SessionStatus → Bool
same_status pending pending = true
same_status running running = true
same_status stopped stopped = true
same_status expired expired = true
same_status broken broken = true
same_status _ _ = false

abbrev pub has_id : String → Session → Bool
has_id id s = s.id == id

abbrev pub is_running_of : String → Session → Bool
is_running_of tenant s = s.tenant_id == tenant && same_status s.status running

unfoldable pub count_active_sessions_by_tenant : String → List Session → ℕ
count_active_sessions_by_tenant tenant rows = length (filter (is_running_of tenant) rows)

abbrev pub get_session_by_id : String → String → List Session → Option Session
get_session_by_id tenant id = find (λ s. s.tenant_id == tenant && s.id == id)

abbrev pub get_session_by_id_internal : String → List Session → Option Session
get_session_by_id_internal id = find (has_id id)

unfoldable pub find_running_sessions : List Session → List Session
find_running_sessions = filter (λ s. same_status s.status running)

abbrev pub new_session : String → ℕ → String → String → String → String → Config → ℕ → ℕ → Session
new_session id now tenant customer created_by name config scans_limit expires_at = record {
  id = id;
  tenant_id = tenant;
  customer_id = customer;
  created_by = created_by;
  name = name;
  status = pending;
  config = config;
  scans_count = 0;
  scans_limit = scans_limit;
  bundle_version = none;
  bundle_signature = none;
  bundle_fetched_at = none;
  alarms_triggered_count = 0;
  last_scan_at = none;
  started_at = none;
  expires_at = expires_at;
  stopped_at = none;
  created_at = now;
  updated_at = now;
}

-- The fields that `updateSessionStatus` sets beside the status.
abbrev pub set_running : ℕ → Session → Session
set_running now s = record s { status = running; started_at = some now; updated_at = now }

abbrev pub set_ended : SessionStatus → ℕ → Session → Session
set_ended status now s = record s { status = status; stopped_at = some now; updated_at = now }

abbrev pub set_broken : ℕ → Session → Session
set_broken now s = record s { status = broken; updated_at = now }

abbrev pub count_scan : ℕ → Session → Session
count_scan now s = record s {
  scans_count = s.scans_count + 1;
  last_scan_at = some now;
  updated_at = now;
}

abbrev pub count_alarm : ℕ → Session → Session
count_alarm now s = record s {
  alarms_triggered_count = s.alarms_triggered_count + 1;
  updated_at = now;
}

abbrev pub set_bundle : String → String → ℕ → Session → Session
set_bundle version signature now s = record s {
  bundle_version = some version;
  bundle_signature = some signature;
  bundle_fetched_at = some now;
  updated_at = now;
}

abbrev pub is_overdue : ℕ → Session → Bool
is_overdue now s = same_status s.status running && ltb s.expires_at now

module _ {V : Type 0} where
  -- `update … where id = …`
  abbrev pub update_session : String → (Session → Session) → Engine V → Engine V
  update_session id f e = record e { sessions = update_where (has_id id) f e.sessions }

  abbrev pub create_event : SimulatorEvent → Engine V → Engine V
  create_event event e = record e { events = e.events ++ (event ∷ []) }

  -- `markExpiredSessions`, and the number of rows that it sets.
  unfoldable pub mark_expired_sessions : ℕ → Engine V → ℕ × Engine V
  mark_expired_sessions now e = (
    length (filter (is_overdue now) e.sessions),
    record e { sessions = update_where (is_overdue now) (set_ended expired now) e.sessions },
  )
