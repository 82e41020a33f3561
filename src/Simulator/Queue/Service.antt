-- ===== src/Simulator/Queue/Service.antt =====
-- services/SimulatorQueueService.ts: the calls. A call runs to its end or to the `await` of the
-- processor; the fulfilment or the rejection of that promise is a call of its own, `settled`.
use gcdr.Base.{
  drop, eqb, length, if◌then◌else◌, filter, is_empty, get_elem?, ℕ, zero, suc, ◌+◌, ◌-◌, String,
  Bool, true, false, ◌||◌, Option, none, some, List, [], ◌∷◌, ◌++◌,
}
use gcdr.Simulator.Queue.Data.{
  loop_with, queue_with, JobStatus, pending, processing, completed, failed, same_status, Job,
  job_added, job_processing, idle, on_queue, Service, count_end, end_event, held, drop_array,
  QueueStats, Call, add, register, settle, clear_done, clear_all,
}

module _ {T : Type 0} where
  -- Writes through the address of an object.
  unfoldable pub modify_at : ℕ → (Job T → Job T) → List (Job T) → List (Job T)
  modify_at _ f [] = []
  modify_at zero f (j ∷ js) = f j ∷ js
  modify_at (suc i) f (j ∷ js) = j ∷ modify_at i f js

  abbrev pub status_is : JobStatus → Job T → Bool
  status_is st j = same_status j.status st

  abbrev pub at_is : JobStatus → Option (Job T) → Bool
  at_is st none = false
  at_is st (some j) = status_is st j

  abbrev pub id_of : Option (Job T) → String
  id_of none = ""
  id_of (some j) = j.id

  -- The constructor of the service.
  abbrev pub new_service : Service T
  new_service = record {
    jobs = [];
    queue = [];
    has_processor = false;
    stats = record { done = 0; broken = 0 };
    is_processing = false;
    loop = idle;
    emitted = [];
  }

  abbrev pub new_job : String → ℕ → T → Job T
  new_job id now candidate = record {
    id = id;
    payload = candidate;
    status = pending;
    created_at = now;
    processed_at = none;
    completed_at = none;
    error = none;
    attempts = 0;
  }

  abbrev pub start_job : ℕ → Job T → Job T
  start_job now j = record j {
    status = processing;
    processed_at = some now;
    attempts = j.attempts + 1;
  }

  -- The `try` around the processor, and its `catch`.
  abbrev pub end_job : Option String → ℕ → Job T → Job T
  end_job none now j = record j { status = completed; completed_at = some now }
  end_job (some message) now j = record j { status = failed; error = some message }

  -- `if (job.status !== 'pending') { queue.shift(); continue; }`
  unfoldable pub skip_done : List (Job T) → List ℕ → List ℕ
  skip_done jobs [] = []
  skip_done jobs (r ∷ rest) =
      let later = skip_done jobs rest in
      if at_is pending (get_elem? jobs r) then r ∷ rest else later

  abbrev pub put_array : List ℕ → Service T → Service T
  put_array array s = record s {
    loop = loop_with array s.loop;
    queue = queue_with array s.loop s.queue;
  }

  -- The loop with its array, up to the next `await` or to the `finally`.
  abbrev pub turn : ℕ → List ℕ → Service T → Service T
  turn now [] s = record (put_array [] s) { is_processing = false; loop = idle }
  turn now (r ∷ rest) s = record (put_array (r ∷ rest) s) {
    jobs = modify_at r (start_job now) s.jobs;
    emitted = s.emitted ++ (job_processing (id_of (get_elem? s.jobs r)) ∷ []);
  }

  abbrev pub go_on : ℕ → List ℕ → Service T → Service T
  go_on now array s = turn now (skip_done s.jobs array) s

  unfoldable pub process_queue : ℕ → Service T → Service T
  process_queue now s =
      if s.is_processing
      then s
      else if s.has_processor
      then (if is_empty s.queue
          then s
          else go_on now s.queue (record s { is_processing = true; loop = on_queue }))
      else s

  abbrev pub enqueue : String → ℕ → T → Service T → Service T
  enqueue id now candidate s = record s {
    jobs = s.jobs ++ (new_job id now candidate ∷ []);
    queue = s.queue ++ (length s.jobs ∷ []);
    emitted = s.emitted ++ (job_added id ∷ []);
  }

  unfoldable pub add_simulated_alarm_candidate : String → ℕ → T → Service T → Service T
  add_simulated_alarm_candidate id now candidate s = process_queue now (enqueue id now candidate s)

  unfoldable pub register_processor : ℕ → Service T → Service T
  register_processor now s = process_queue now (record s { has_processor = true })

  abbrev pub finish : Option String → ℕ → ℕ → Service T → Service T
  finish outcome now r s = record s {
    jobs = modify_at r (end_job outcome now) s.jobs;
    stats = count_end outcome s.stats;
    emitted = s.emitted ++ (end_event outcome (id_of (get_elem? s.jobs r)) ∷ []);
  }

  abbrev pub resume : Option String → ℕ → List ℕ → Service T → Service T
  resume outcome now [] s = s
  resume outcome now (r ∷ rest) s = go_on now rest (finish outcome now r s)

  -- The promise of the processor is settled, with the message of an error where it is rejected.
  unfoldable pub settled : Option String → ℕ → Service T → Service T
  settled outcome now s = resume outcome now (held s.loop s.queue) s

  abbrev pub replace_queue : List ℕ → Service T → Service T
  replace_queue array s = record s { queue = array; loop = drop_array s.loop s.queue }

  abbrev pub unfinished : List (Job T) → ℕ → Bool
  unfinished jobs r = at_is pending (get_elem? jobs r) || at_is processing (get_elem? jobs r)

  unfoldable pub clear_processed_jobs : Service T → ℕ × Service T
  clear_processed_jobs s =
      let kept = filter (unfinished s.jobs) s.queue in
      (length s.queue - length kept, replace_queue kept s)

  unfoldable pub clear_queue : Service T → ℕ × Service T
  clear_queue s = (length s.queue, replace_queue [] s)

  abbrev pub count_in : JobStatus → List (Job T) → List ℕ → ℕ
  count_in st jobs array = length (filter (λ r. at_is st (get_elem? jobs r)) array)

  abbrev pub is_queue_empty : Service T → Bool
  is_queue_empty s = is_empty s.queue

  unfoldable pub get_pending_count : Service T → ℕ
  get_pending_count s = count_in pending s.jobs s.queue

  unfoldable pub get_queue_stats : Service T → QueueStats
  get_queue_stats s = record {
    pending_jobs = count_in pending s.jobs s.queue;
    processing_jobs = count_in processing s.jobs s.queue;
    completed_jobs = s.stats.done;
    failed_jobs = s.stats.broken;
    total_processed = s.stats.done + s.stats.broken;
  }

  -- `queue.slice(-limit)` for a limit from 1 on; `slice(-0)` is the whole array.
  unfoldable pub get_recent_jobs : ℕ → Service T → List ℕ
  get_recent_jobs limit s = if eqb limit 0 then s.queue else drop (length s.queue - limit) s.queue

  unfoldable pub call : Call T → Service T → Service T
  call (add id now candidate) = add_simulated_alarm_candidate id now candidate
  call (register now) = register_processor now
  call (settle outcome now) = settled outcome now
  call clear_done = λ s. (clear_processed_jobs s).1
  call clear_all = λ s. (clear_queue s).1

  unfoldable pub calls : List (Call T) → Service T → Service T
  calls [] s = s
  calls (c ∷ cs) s = calls cs (call c s)
