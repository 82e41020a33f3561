-- ===== src/Simulator/Queue/Line.antt =====
-- The promise of the queue: a line of jobs, of which one at a time is in hand. While nobody clears
-- the queue, the service is this line.
use gcdr.Base.{
  ℕ, zero, suc, ◌≡◌, String, Bool, true, false, Option, none, some, List, [], ◌∷◌, ◌++◌, map,
  length,
}
use gcdr.Simulator.Queue.Data.{
  pending, Job, JobEvent, job_processing, Loop, idle, on_queue, Service, Call, add, register,
  settle, clear_done, clear_all,
}
use gcdr.Simulator.Queue.Service.{new_job, start_job, end_job}
use gcdr.Simulator.Queue.Counts.{count}

-- Whether somebody serves, the jobs that have ended, the one in hand, and those that wait.
pub data Line (T : Type 0) : Type 0 where
  line : Bool → List (Job T) → Option (Job T) → List (Job T) → Line T

abbrev pub seq : ℕ → ℕ → List ℕ
seq k zero = []
seq k (suc n) = k ∷ seq (suc k) n

-- The ids of the jobs that were handed out, in order.
abbrev pub started : List JobEvent → List String
started [] = []
started (job_processing id ∷ rest) = id ∷ started rest
started (_ ∷ rest) = started rest

module _ {T : Type 0} where
  abbrev pub hand_out : ℕ → Line T → Line T
  hand_out now (line true ended none (j ∷ rest)) = line true ended (some (start_job now j)) rest
  hand_out now l = l

  abbrev pub line_settle : Option String → ℕ → Line T → Line T
  line_settle outcome now (line p ended none rest) = line p ended none rest
  line_settle outcome now (line p ended (some j) rest) =
      hand_out now (line true (ended ++ (end_job outcome now j ∷ [])) none rest)

  abbrev pub line_call : Call T → Line T → Line T
  line_call (add id now candidate) (line p ended hand rest) =
      hand_out now (line p ended hand (rest ++ (new_job id now candidate ∷ [])))
  line_call (register now) (line p ended hand rest) = hand_out now (line true ended hand rest)
  line_call (settle outcome now) l = line_settle outcome now l
  line_call _ l = l

  unfoldable pub line_calls : List (Call T) → Line T → Line T
  line_calls [] l = l
  line_calls (c ∷ cs) l = line_calls cs (line_call c l)

  abbrev pub NoClear : List (Call T) → Type 0
  NoClear [] = Unit {0}
  NoClear (clear_done ∷ _) = ⊥
  NoClear (clear_all ∷ _) = ⊥
  NoClear (_ ∷ cs) = NoClear cs

  abbrev pub AllPending : List (Job T) → Type 0
  AllPending [] = Unit {0}
  AllPending (j ∷ js) = (j.status ≡ pending) × AllPending js

  abbrev pub ids : List (Job T) → List String
  ids = map (λ j. j.id)

  abbrev pub in_hand : Option (Job T) → List (Job T)
  in_hand none = []
  in_hand (some j) = j ∷ []

  abbrev pub loop_for : Option (Job T) → Loop
  loop_for none = idle
  loop_for (some _) = on_queue

  abbrev pub busy_for : Option (Job T) → Bool
  busy_for none = false
  busy_for (some _) = true

  -- How the service stands for a line.
  pub record Stands (s : Service T) (p : Bool) (ended : List (Job T)) (hand : Option (Job T))
      (rest : List (Job T)) : Type 0 where
    pub stored : s.jobs ≡ ended ++ (in_hand hand ++ rest)
    pub queued : s.queue ≡ seq (length ended) (length (in_hand hand ++ rest))
    pub served : s.has_processor ≡ p
    pub attended : busy_for hand ≡ true → p ≡ true
    pub looping : s.loop ≡ loop_for hand
    pub flagged : s.is_processing ≡ busy_for hand
    pub in_order : started s.emitted ≡ ids (ended ++ in_hand hand)
    pub all_ended : count pending ended ≡ 0
    pub all_wait : AllPending rest

  abbrev pub Shows : Service T → Line T → Type 0
  Shows s (line p ended hand rest) = Stands s p ended hand rest
