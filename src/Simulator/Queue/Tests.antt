-- ===== src/Simulator/Queue/Tests.antt =====
-- Runs of the queue, and its theorems at these inputs.
use gcdr.Base.{
  false, ◌≡◌, ℕ, refl, String, Option, none, some, List, [], ◌∷◌, true, false, arith, length,
  filter,
}
use gcdr.Simulator.Queue.Data.{
  clear_all, idle, processing, Job, Call, add, register, settle, Service,
}
use gcdr.Simulator.Queue.Service.{
  new_service, call, calls, process_queue, add_simulated_alarm_candidate, register_processor,
  settled, skip_done, modify_at, clear_queue, get_queue_stats, get_recent_jobs,
}
use gcdr.Simulator.Queue.Sound.{any_calls-IsSound}
use gcdr.Simulator.Queue.Turn.{IsSound}
use gcdr.Simulator.Queue.Line.{line, line_calls, Shows}
use gcdr.Simulator.Queue.Fifo.{calls-Shows-line}
use gcdr.Simulator.Queue.Drains.{settles, AllDone, calls_drain}
use gcdr.Simulator.Queue.Ends.{loop_ends}
use gcdr.Simulator.Queue.Stranded.{Left, clear_queue-strands}

abbrev two_calls : List (Call String)
two_calls = register 1 ∷ add "j1" 2 "hot" ∷ add "j2" 3 "cold" ∷ []

abbrev outcomes : List (Option String × ℕ)
outcomes = (none, 4) ∷ (some "refused", 5) ∷ []

abbrev after_two : Service String
after_two = calls (settles outcomes) (calls two_calls new_service)

first_in_hand : (calls two_calls new_service).is_processing ≡ true
unfolding calls call register_processor add_simulated_alarm_candidate process_queue skip_done
first_in_hand = refl

stats_after_two : get_queue_stats after_two ≡ record {
  pending_jobs = 0;
  processing_jobs = 0;
  completed_jobs = 1;
  failed_jobs = 1;
  total_processed = 2;
}
unfolding calls call register_processor add_simulated_alarm_candidate process_queue skip_done
    modify_at settled get_queue_stats filter
stats_after_two = refl

recent_one : get_recent_jobs 1 (calls two_calls new_service) ≡ 1 ∷ []
unfolding calls call register_processor add_simulated_alarm_candidate process_queue skip_done
    modify_at get_recent_jobs
recent_one = refl

any_calls-IsSound_example : IsSound after_two
unfolding calls
any_calls-IsSound_example = any_calls-IsSound (
    register 1
    ∷ add "j1" 2 "hot"
    ∷ add "j2" 3 "cold"
    ∷ settle none 4
    ∷ settle (some "refused") 5
    ∷ [])

abbrev taken : Job String
taken = record {
  id = "j1";
  payload = "hot";
  status = processing;
  created_at = 2;
  processed_at = some 2;
  completed_at = none;
  error = none;
  attempts = 1;
}

calls-Shows-line_example :
    Shows (calls two_calls new_service) (line_calls two_calls (line false [] none []))
calls-Shows-line_example = calls-Shows-line two_calls tt

calls_drain_example : AllDone (length (calls two_calls new_service).jobs) after_two
unfolding calls call register_processor add_simulated_alarm_candidate process_queue skip_done
    modify_at
calls_drain_example = calls_drain two_calls outcomes tt refl (omega arith)

clear_queue-strands_example : Left 2 (
    calls
      (settles outcomes)
      (add_simulated_alarm_candidate "j3" 6 "warm" (clear_queue (calls two_calls new_service)).1))
unfolding calls call register_processor add_simulated_alarm_candidate process_queue skip_done
    modify_at
clear_queue-strands_example =
    clear_queue-strands two_calls "j3" 6 "warm" outcomes tt refl (omega arith)

-- The queue is cleared while a job is in hand.
abbrev cleared_calls : List (Call String)
cleared_calls = register 1 ∷ add "j1" 2 "hot" ∷ add "j2" 3 "cold" ∷ clear_all ∷ []

loop_ends_example :
    ((calls (settles outcomes) (calls cleared_calls new_service)).is_processing ≡ false)
    × ((calls (settles outcomes) (calls cleared_calls new_service)).loop ≡ idle)
unfolding calls call register_processor add_simulated_alarm_candidate process_queue skip_done
    modify_at clear_queue
loop_ends_example = loop_ends cleared_calls outcomes (omega arith)
