-- ===== src/Simulator/Queue/Turn.antt =====
-- One turn of the loop of `processQueue` keeps the counters and the job in hand in step.
use gcdr.Base.{
  inl, inr, inr, inl, Bool-cases, ℕ, ◌+◌, ◌≡◌, refl, Bool, true, false, some, List, [], ◌∷◌, arith,
  get_elem?,
}
use gcdr.Simulator.Queue.Data.{
  held, drop_array, queue_with, loop_with, JobStatus, pending, processing, completed, failed, Job,
  Loop, idle, on_queue, on_old, Service,
}
use gcdr.Simulator.Queue.Service.{go_on, turn, skip_done, modify_at, at_is, status_is, start_job}
use gcdr.Simulator.Queue.Counts.{
  one, of_pending, count, EachTried, found_at, count-modify_at, get_elem?-modify_at,
  EachTried-start,
}

abbrev pub is_busy : Loop → Bool
is_busy idle = false
is_busy _ = true

pub is_busy-loop_with :
    (array : List ℕ) (loop : Loop) → is_busy (loop_with array loop) ≡ is_busy loop
is_busy-loop_with array idle = refl
is_busy-loop_with array on_queue = refl
is_busy-loop_with array (on_old _) = refl

pub held-idle : (loop : Loop) (queue : List ℕ) → is_busy loop ≡ false → held loop queue ≡ []
held-idle idle queue h = refl
held-idle on_queue queue h = absurd (cc)
held-idle (on_old _) queue h = absurd (cc)

pub is_busy-drop_array :
    (loop : Loop) (array : List ℕ) → is_busy (drop_array loop array) ≡ is_busy loop
is_busy-drop_array idle array = refl
is_busy-drop_array on_queue array = refl
is_busy-drop_array (on_old _) array = refl

module _ {T : Type 0} where
  -- The address at the head is that of a job with this status.
  abbrev pub AtHead : JobStatus → List ℕ → List (Job T) → Type 0
  AtHead st [] jobs = ⊥
  AtHead st (r ∷ _) jobs = at_is st (get_elem? jobs r) ≡ true

  abbrev pub Hand : Loop → List ℕ → List (Job T) → Type 0
  Hand idle queue jobs = Unit {0}
  Hand on_queue queue jobs = AtHead processing queue jobs
  Hand (on_old array) queue jobs = AtHead processing array jobs

  pub record IsSound (s : Service T) : Type 0 where
    pub flag : s.is_processing ≡ is_busy s.loop
    pub done : s.stats.done ≡ count completed s.jobs
    pub broken : s.stats.broken ≡ count failed s.jobs
    pub single : count processing s.jobs ≡ one (is_busy s.loop)
    pub hand : Hand s.loop s.queue s.jobs
    pub tried : EachTried s.jobs

  -- Between two jobs the loop has none in hand.
  pub record Between (s : Service T) : Type 0 where
    pub flag : s.is_processing ≡ true
    pub busy : is_busy s.loop ≡ true
    pub done : s.stats.done ≡ count completed s.jobs
    pub broken : s.stats.broken ≡ count failed s.jobs
    pub none_in_hand : count processing s.jobs ≡ 0
    pub tried : EachTried s.jobs

  abbrev pub Ready : List ℕ → List (Job T) → Type 0
  Ready [] jobs = Unit {0}
  Ready (r ∷ _) jobs = at_is pending (get_elem? jobs r) ≡ true

  pub Ready-skip_done : (jobs : List (Job T)) (array : List ℕ) → Ready (skip_done jobs array) jobs
  unfolding skip_done
  Ready-skip_done jobs [] = tt
  Ready-skip_done jobs (r ∷ rest) = elim (Bool-cases (at_is pending (get_elem? jobs r))) [
    | inl e ↦ rw e e
    | inr e ↦ rw e (Ready-skip_done jobs rest)
  ]

  pub Hand-put :
      (loop : Loop) (queue : List ℕ) (r : ℕ) (rest : List ℕ) (jobs : List (Job T))
      → is_busy loop ≡ true
      → at_is processing (get_elem? jobs r) ≡ true
      → Hand (loop_with (r ∷ rest) loop) (queue_with (r ∷ rest) loop queue) jobs
  Hand-put idle queue r rest jobs b h = absurd (cc)
  Hand-put on_queue queue r rest jobs b h = h
  Hand-put (on_old array) queue r rest jobs b h = h

  pub turn-IsSound :
      (now : ℕ) (array : List ℕ) (s : Service T)
      → Between s
      → Ready array s.jobs
      → IsSound (turn now array s)
  turn-IsSound now [] s b ready = record {
    flag = refl;
    done = b.done;
    broken = b.broken;
    single = b.none_in_hand;
    hand = tt;
    tried = b.tried;
  }
  turn-IsSound now (r ∷ rest) s b ready = record {
    flag = ground (arith, b.flag, b.busy, is_busy-loop_with (r ∷ rest) s.loop);
    done = ground (arith, counted completed, of_pending j.status was, b.done);
    broken = ground (arith, counted failed, of_pending j.status was, b.broken);
    single = ground (
      arith,
      counted processing,
      of_pending j.status was,
      b.none_in_hand,
      b.busy,
      is_busy-loop_with (r ∷ rest) s.loop,
    );
    hand =
        Hand-put s.loop s.queue r rest _ b.busy
          (ground (arith, get_elem?-modify_at (start_job now) r s.jobs j at));
    tried = EachTried-start now r s.jobs ready b.tried;
  }
    where
      j : Job T
      j = (found_at pending _ ready).0

      at : get_elem? s.jobs r ≡ some j
      at = (found_at pending _ ready).1

      was : status_is pending j ≡ true
      was = (found_at pending _ ready).2

      counted :
          (st : JobStatus)
          → count st (modify_at r (start_job now) s.jobs) + one (status_is st j)
            ≡ count st s.jobs + one (status_is st (start_job now j))
      counted st = count-modify_at st (start_job now) r s.jobs j at

  pub go_on-IsSound :
      (now : ℕ) (array : List ℕ) (s : Service T) → Between s → IsSound (go_on now array s)
  go_on-IsSound now array s b =
      turn-IsSound now (skip_done s.jobs array) s b (Ready-skip_done s.jobs array)
