-- ===== src/Simulator/Queue/Data.antt =====
-- services/SimulatorQueueService.ts: the state of the queue of simulated alarm candidates.
use gcdr.Base.{ℕ, ◌+◌, String, Bool, true, false, Option, none, some, List, []}

-- `QueueJobStatus`
pub data JobStatus : Type 0 where
  pending processing completed failed : JobStatus

abbrev pub same_status : JobStatus → JobStatus → Bool
same_status pending pending = true
same_status processing processing = true
same_status completed completed = true
same_status failed failed = true
same_status _ _ = false

-- `QueueJob<T>`; `payload` is its `data`.
pub record Job (T : Type 0) : Type 0 where
  pub id : String
  pub payload : T
  pub status : JobStatus
  pub created_at : ℕ
  pub processed_at : Option ℕ
  pub completed_at : Option ℕ
  pub error : Option String
  pub attempts : ℕ

-- What `emit` tells the listeners; these do not call back.
pub data JobEvent : Type 0 where
  job_added job_processing job_completed : String → JobEvent
  job_failed : String → String → JobEvent

-- An entry of `stats`.
pub record Counters : Type 0 where
  pub done : ℕ
  pub broken : ℕ

-- Where the loop of `processQueue` stands: at its end, or at the `await` with the array that `queues`
-- holds, or with one that `queues` has dropped since.
pub data Loop : Type 0 where
  idle on_queue : Loop
  on_old : List ℕ → Loop

-- The service. The maps have one key, the name of the simulated queue. Jobs are objects that two
-- arrays can share: `jobs` is their store in the order of creation, and an array holds addresses.
pub record Service (T : Type 0) : Type 0 where
  pub jobs : List (Job T)
  pub queue : List ℕ
  pub has_processor : Bool
  pub stats : Counters
  pub is_processing : Bool
  pub loop : Loop
  pub emitted : List JobEvent

abbrev pub count_end : Option String → Counters → Counters
count_end none c = record c { done = c.done + 1 }
count_end (some _) c = record c { broken = c.broken + 1 }

abbrev pub end_event : Option String → String → JobEvent
end_event none id = job_completed id
end_event (some message) id = job_failed id message

abbrev pub held : Loop → List ℕ → List ℕ
held idle queue = []
held on_queue queue = queue
held (on_old array) queue = array

-- A write through the reference that the loop has.
abbrev pub loop_with : List ℕ → Loop → Loop
loop_with array (on_old _) = on_old array
loop_with _ loop = loop

abbrev pub queue_with : List ℕ → Loop → List ℕ → List ℕ
queue_with array on_queue queue = array
queue_with _ _ queue = queue

-- `queues.set(name, array)`: the loop keeps the array that it has.
abbrev pub drop_array : Loop → List ℕ → Loop
drop_array on_queue array = on_old array
drop_array idle array = idle
drop_array (on_old old) array = on_old old

-- `QueueStats`
pub record QueueStats : Type 0 where
  pub pending_jobs : ℕ
  pub processing_jobs : ℕ
  pub completed_jobs : ℕ
  pub failed_jobs : ℕ
  pub total_processed : ℕ

-- The calls, in the order in which the event loop runs them.
pub data Call (T : Type 0) : Type 0 where
  add : String → ℕ → T → Call T
  register : ℕ → Call T
  settle : Option String → ℕ → Call T
  clear_done clear_all : Call T
