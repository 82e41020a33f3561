-- ===== src/Simulator/Tests.antt =====
-- Runs of the simulator, and its theorems at these inputs.
use gcdr.Base.{
  ℕ, ◌≡◌, refl, false, none, some, List, [], ◌∷◌, length, arith, ltb, any, filter, find,
}
use gcdr.Base.Dict.{lookup, insert}
use gcdr.Base.Errors.{is_ok}
use gcdr.Base.Rows.{update_where}
use gcdr.Simulator.Data.{Config, Bundle, Engine, SimulatorEnv, default_quotas}
use gcdr.Simulator.Quotas.{validate_new_session, normalize_config, normalize_config_lem, Fits}
use gcdr.Simulator.Rows.{count_active_sessions_by_tenant}
use gcdr.Simulator.Scan.{
  check_threshold, first_triggered, evaluate_rule, evaluate_rules, scan_device, scan_each,
}
use gcdr.Simulator.Engine.Service.{start_session, initialize_session, fetch_bundle}
use gcdr.Simulator.Engine.Ticks.{Op, start, scan_tick, run, scan_devices, can_perform_scan}
use gcdr.Simulator.Engine.Admission.{IsLimited, run-IsLimited}
use gcdr.Simulator.Engine.Failed.{LeftBehind, start_session-fails}
use gcdr.Simulator.Engine.Pace.{IsPaced}
use gcdr.Simulator.Engine.Hours.{run-IsPaced}

abbrev fast_config : Config
fast_config = record {
  bundle_refresh_interval_ms = 60_000;
  device_scan_interval_ms = 1_000;
  devices = "d1" ∷ [];
  customer_id = "c1";
}

abbrev good_config : Config
good_config = record fast_config { device_scan_interval_ms = 30_000 }

abbrev bundle : Bundle ℕ
bundle = record {
  version = "v1";
  signature = "s1";
  device_index = ("d1", record { device_name = "Meter"; rule_ids = "r1" ∷ [] }) ∷ [];
  rules = ("r1", record { id = "r1"; name = "hot"; value = 50; value_high = none }) ∷ [];
}

abbrev env : SimulatorEnv ℕ
env = record {
  now = 1_000;
  new_id = "s1";
  generate = λ _ _. some bundle;
  readings = λ _. ("temperature", 70) ∷ [];
}

abbrev no_bundle : SimulatorEnv ℕ
no_bundle = record env { generate = λ _ _. none }

abbrev empty : Engine ℕ
empty = record { sessions = []; events = []; active = []; bundles = []; candidates = [] }

abbrev ops : List (SimulatorEnv ℕ × Op)
ops =
    (env, start "t1" "c1" "u1" "demo" good_config)
    ∷ (record env { now = 40_000 }, scan_tick "s1")
    ∷ []

one_running : count_active_sessions_by_tenant "t1" (run ltb ops empty).sessions ≡ 1
unfolding run start_session validate_new_session count_active_sessions_by_tenant filter any
    initialize_session fetch_bundle normalize_config insert lookup update_where scan_devices
    can_perform_scan find scan_each scan_device evaluate_rules evaluate_rule first_triggered
    check_threshold
one_running = refl

one_candidate : length (run ltb ops empty).candidates ≡ 1
unfolding run start_session validate_new_session count_active_sessions_by_tenant filter any
    initialize_session fetch_bundle normalize_config insert lookup update_where scan_devices
    can_perform_scan find scan_each scan_device evaluate_rules evaluate_rule first_triggered
    check_threshold
one_candidate = refl

too_fast : normalize_config default_quotas fast_config ≡ good_config
unfolding normalize_config
too_fast = refl

normalize_config_lem_example :
    Fits default_quotas (normalize_config default_quotas fast_config)
    × (Fits default_quotas fast_config → normalize_config default_quotas fast_config ≡ fast_config)
    × (normalize_config default_quotas (normalize_config default_quotas fast_config)
        ≡ normalize_config default_quotas fast_config)
normalize_config_lem_example = normalize_config_lem default_quotas fast_config

empty-IsLimited : IsLimited empty
unfolding count_active_sessions_by_tenant filter
empty-IsLimited = record { limited = λ t. omega arith }

run-IsLimited_example : IsLimited (run ltb ops empty)
run-IsLimited_example = run-IsLimited ltb ops empty empty-IsLimited

run-IsPaced_example : IsPaced (run ltb ops empty)
run-IsPaced_example = run-IsPaced ltb ops empty tt

start_session-fails_example :
    (is_ok (start_session no_bundle "t1" "c1" "u1" "demo" good_config empty).0 ≡ false)
    × LeftBehind "s1" (start_session no_bundle "t1" "c1" "u1" "demo" good_config empty).1
unfolding validate_new_session count_active_sessions_by_tenant filter any
start_session-fails_example =
    start_session-fails no_bundle "t1" "c1" "u1" "demo" good_config empty refl refl refl
