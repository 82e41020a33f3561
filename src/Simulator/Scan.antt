-- ===== src/Simulator/Scan.antt =====
-- services/SimulatorEngine.ts: the evaluation of rules against the readings of a device.
use gcdr.Base.{◌==◌, ℕ, String, Bool, ◌||◌, Option, none, some, List, [], ◌∷◌, ◌++◌, if◌then◌else◌}
use gcdr.Base.Dict.{Dict, lookup}
use gcdr.Simulator.Data.{
  Session, Rule, DeviceEntry, Bundle, Candidate, device_scanned, alarm_candidate_raised, Engine,
  SimulatorEnv,
}
use gcdr.Simulator.Rows.{update_session, create_event, count_alarm}

-- `deviceMapping?.deviceName || device.deviceId`
abbrev pub identifier_of : Option DeviceEntry → String → String
identifier_of none device = device
identifier_of (some entry) device = if entry.device_name == "" then device else entry.device_name

module _ {V : Type 0} where
  abbrev pub candidate_for : Session → String → String → Rule V → String → V → Candidate V
  candidate_for s device identifier rule field value = record {
    simulation_id = s.id;
    tenant_id = s.tenant_id;
    device_id = device;
    device_identifier = identifier;
    rule_id = rule.id;
    field = field;
    value = value;
    threshold = rule.value;
  }

  abbrev pub raise_candidate : ℕ → Candidate V → Engine V → Engine V
  raise_candidate now c e =
      let counted =
        update_session c.simulation_id (count_alarm now)
          (create_event (alarm_candidate_raised c.simulation_id c.device_id c.rule_id c.field) e) in
      record counted { candidates = counted.candidates ++ (c ∷ []) }

  abbrev pub raise_found :
      ℕ → Session → String → String → Rule V → Option (String × V) → Engine V → Engine V
  raise_found now s device identifier rule none e = e
  raise_found now s device identifier rule (some (field, value)) e =
      raise_candidate now (candidate_for s device identifier rule field value) e

-- `less a b` is `a < b` on the numbers of the telemetry.
module _ {V : Type 0} (less : V → V → Bool) where
  unfoldable pub check_threshold : V → V → Option V → Bool
  check_threshold value threshold none = less threshold value
  check_threshold value threshold (some high) = less value threshold || less high value

  -- The first reading that triggers the rule; the loop breaks there.
  unfoldable pub first_triggered : Rule V → Dict V → Option (String × V)
  first_triggered rule [] = none
  first_triggered rule ((field, value) ∷ rest) =
      let later = first_triggered rule rest in
      if check_threshold value rule.value rule.value_high then some (field, value) else later

  unfoldable pub evaluate_rule :
      ℕ → Session → String → String → Dict V → Rule V → Engine V → Engine V
  evaluate_rule now s device identifier telemetry rule e =
      raise_found now s device identifier rule (first_triggered rule telemetry) e

  abbrev pub evaluate_named :
      ℕ → Session → String → String → Dict V → Option (Rule V) → Engine V → Engine V
  evaluate_named now s device identifier telemetry none e = e
  evaluate_named now s device identifier telemetry (some rule) e =
      evaluate_rule now s device identifier telemetry rule e

  unfoldable pub evaluate_rules :
      ℕ → Session → String → String → Dict V → Dict (Rule V) → List String → Engine V → Engine V
  evaluate_rules now s device identifier telemetry rules [] e = e
  evaluate_rules now s device identifier telemetry rules (r ∷ rest) e =
      evaluate_rules now s device identifier telemetry rules rest
        (evaluate_named now s device identifier telemetry (lookup r rules) e)

  abbrev pub scan_mapped :
      SimulatorEnv V → Session → Bundle V → String → Option DeviceEntry → Engine V → Engine V
  scan_mapped env s bundle device none e = e
  scan_mapped env s bundle device (some entry) e =
      evaluate_rules env.now s device (identifier_of (some entry) device) (env.readings device)
        bundle.rules entry.rule_ids e

  unfoldable pub scan_device : SimulatorEnv V → Session → Bundle V → String → Engine V → Engine V
  scan_device env s bundle device e =
      scan_mapped env s bundle device (lookup device bundle.device_index)
        (create_event (device_scanned s.id device) e)

  unfoldable pub scan_each : SimulatorEnv V → Session → Bundle V → List String → Engine V → Engine V
  scan_each env s bundle [] e = e
  scan_each env s bundle (d ∷ ds) e = scan_each env s bundle ds (scan_device env s bundle d e)
