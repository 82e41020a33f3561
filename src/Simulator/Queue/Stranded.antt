-- ===== src/Simulator/Queue/Stranded.antt =====
-- `clearQueue` puts a new array into `queues`, and a loop that waits for its processor keeps the old.
use gcdr.Base.{
  ℕ, zero, suc, ◌+◌, ◌≡◌, ◌≢◌, ◌≤◌, refl, String, true, false, Option, none, some, List, [], ◌∷◌,
  arith, length, get_elem?, ap, sym, subst, ◌∙◌, ◌⊎◌, inl, inr, if_either,
}
use gcdr.Simulator.Queue.Data.{pending, Job, idle, on_old, held, Service, Call}
use gcdr.Simulator.Queue.Service.{
  modify_at, at_is, new_service, new_job, skip_done, turn, finish, resume, settled, enqueue, call,
  calls, clear_queue, add_simulated_alarm_candidate,
}
use gcdr.Simulator.Queue.Line.{Line, line, seq, NoClear, Shows}
use gcdr.Simulator.Queue.Begins.{process_busy}
use gcdr.Simulator.Queue.Fifo.{calls-Shows-line}
use gcdr.Simulator.Queue.Positions.{length-skip_done-le, get_elem?-length, length-append}
use gcdr.Simulator.Queue.Drains.{settles}

abbrev Avoids : ℕ → List ℕ → Type 0
Avoids n [] = Unit {0}
Avoids n (r ∷ rest) = (r ≢ n) × Avoids n rest

Avoids-seq : (n k m : ℕ) → k + m ≤ n → Avoids n (seq k m)
Avoids-seq n k zero h = tt
Avoids-seq n k (suc m) h = (λ e. absurd (omega arith), Avoids-seq n (suc k) m (omega arith))

module _ {T : Type 0} where
  get_elem?-modify_at_ne :
      (f : Job T → Job T) (r n : ℕ) (xs : List (Job T))
      → r ≢ n
      → get_elem? (modify_at r f xs) n ≡ get_elem? xs n
  unfolding modify_at
  get_elem?-modify_at_ne f r n [] d = refl
  get_elem?-modify_at_ne f zero zero (x ∷ xs) d = absurd (d refl)
  get_elem?-modify_at_ne f zero (suc n) (x ∷ xs) d = refl
  get_elem?-modify_at_ne f (suc r) zero (x ∷ xs) d = refl
  get_elem?-modify_at_ne f (suc r) (suc n) (x ∷ xs) d =
      get_elem?-modify_at_ne f r n xs (λ e. d (ap suc e))

  Avoids-skip_done :
      (n : ℕ) (jobs : List (Job T)) (a : List ℕ) → Avoids n a → Avoids n (skip_done jobs a)
  unfolding skip_done
  Avoids-skip_done n jobs [] h = tt
  Avoids-skip_done n jobs (r ∷ rest) h =
      if_either (Avoids n) (at_is pending (get_elem? jobs r)) (λ _. h)
        λ _. Avoids-skip_done n jobs rest h.1

  -- The loop has ended, or has at most `k` jobs of an old array before it, the job `n` not among them.
  abbrev OnOld : ℕ → ℕ → Service T → Type 0
  OnOld n k u =
      ((u.loop ≡ idle) × (u.is_processing ≡ false))
      ⊎ ((r : ℕ) × (rest : List ℕ) × (u.loop ≡ on_old (r ∷ rest))
          × (u.is_processing ≡ true)
          × (suc (length rest) ≤ k)
          × (r ≢ n)
          × Avoids n rest)

  record Strands (n k : ℕ) (u : Service T) : Type 0 where
    alone : u.queue ≡ n ∷ []
    waits : at_is pending (get_elem? u.jobs n) ≡ true
    away : OnOld n k u

  turn-Strands :
      (n k now : ℕ) (a old : List ℕ) (u : Service T)
      → u.loop ≡ on_old old
      → u.is_processing ≡ true
      → u.queue ≡ n ∷ []
      → at_is pending (get_elem? u.jobs n) ≡ true
      → Avoids n a
      → length a ≤ k
      → Strands n k (turn now a u)
  turn-Strands n k now [] old u l f q w v h = record {
    alone = rw l q;
    waits = w;
    away = inl (refl, refl);
  }
  turn-Strands n k now (r ∷ rest) old u l f q w v h = record {
    alone = rw l q;
    waits = ap (at_is pending) (get_elem?-modify_at_ne _ r n u.jobs v.0) ∙ w;
    away = inr (r, rest, (rw l refl), f, h, v.0, v.1);
  }

  settled-Strands :
      (outcome : Option String) (n k now : ℕ) (u : Service T)
      → Strands n (suc k) u
      → Strands n k (settled outcome now u)
  unfolding settled
  settled-Strands outcome n k now u s = elim s.away [
    | inl (l, f) ↦
        subst (λ a. Strands n k (resume outcome now (held a u.queue) u)) (sym l)
          (record { alone = s.alone; waits = s.waits; away = inl (l, f) })
    | inr (r, rest, l, f, h, d, v) ↦
        subst (λ a. Strands n k (resume outcome now (held a u.queue) u)) (sym l)
          (turn-Strands n k now (skip_done (finish outcome now r u).jobs rest) (r ∷ rest)
            (finish outcome now r u) l f s.alone
            (ap (at_is pending) (get_elem?-modify_at_ne _ r n u.jobs d) ∙ s.waits)
            (Avoids-skip_done n (finish outcome now r u).jobs rest v)
            (omega (arith, length-skip_done-le (finish outcome now r u).jobs rest)))
  ]

  settles-Strands :
      (outcomes : List (Option String × ℕ)) (n : ℕ) (u : Service T)
      → Strands n (length outcomes) u
      → Strands n 0 (calls (settles outcomes) u)
  unfolding calls call
  settles-Strands [] n u s = s
  settles-Strands ((o, now) ∷ os) n u s =
      settles-Strands os n (settled o now u) (settled-Strands o n (length os) now u s)

  -- The queue holds one job, pending, and nothing will take it up by itself.
  abbrev pub Left : ℕ → Service T → Type 0
  Left n t =
      (t.is_processing ≡ false)
      × (t.loop ≡ idle)
      × (t.queue ≡ n ∷ [])
      × (at_is pending (get_elem? t.jobs n) ≡ true)

  Strands-Left : (n : ℕ) (t : Service T) → Strands n 0 t → Left n t
  Strands-Left n t s = elim s.away [
    | inl (l, f) ↦ (f, l, s.alone, s.waits)
    | inr (r, rest, l, f, h, d, v) ↦ absurd (omega arith)
  ]

  cleared_flag : (s : Service T) → s.is_processing ≡ true → (clear_queue s).1.is_processing ≡ true
  unfolding clear_queue
  cleared_flag s f = f

  cleared-Strands :
      (s : Service T) (l : Line T) (id : String) (now k : ℕ) (candidate : T)
      → Shows s l
      → s.is_processing ≡ true
      → length s.queue ≤ k
      → Strands (length s.jobs) k (enqueue id now candidate (clear_queue s).1)
  unfolding clear_queue
  cleared-Strands s (line p ended none rest) id now k candidate v f h = absurd (cc (v.flagged))
  cleared-Strands s (line p ended (some j) rest) id now k candidate v f h = record {
    alone = refl;
    waits = ap (at_is pending) (get_elem?-length s.jobs (new_job id now candidate) []);
    away = inr (
      length ended,
      seq (suc (length ended)) (length rest),
      (rw (v.looping, v.queued) refl),
      f,
      omega (arith, h, ap length v.queued),
      (λ e. absurd (omega (arith, stored))),
      Avoids-seq (length s.jobs) (suc (length ended)) (length rest) (omega (arith, stored)),
    );
  }
    where
      stored : length s.jobs ≡ length ended + suc (length rest)
      stored = ap length v.stored ∙ length-append ended (j ∷ rest)

  -- If neither clearQueue nor clearProcessedJobs has been called before and a job is in hand when the queue
  -- is cleared, then a job that is added next is left over: when at least as many promises have been settled as the
  -- cleared array had jobs, the loop has ended, and the new job is still the one pending job of the queue.
  pub clear_queue-strands :
      (cs : List (Call T)) (id : String) (now : ℕ) (candidate : T)
      (outcomes : List (Option String × ℕ))
      → NoClear cs
      → (calls cs new_service).is_processing ≡ true
      → length (calls cs new_service).queue ≤ length outcomes
      → Left (length (calls cs new_service).jobs) (
          calls
            (settles outcomes)
            (add_simulated_alarm_candidate id now candidate (clear_queue (calls cs new_service)).1))
  unfolding add_simulated_alarm_candidate
  clear_queue-strands cs id now candidate outcomes c f h = Strands-Left _ _ (
      settles-Strands outcomes _ _ (
        subst (Strands _ (length outcomes))
          (sym (process_busy now _ (cleared_flag (calls cs new_service) f)))
          (cleared-Strands (calls cs new_service) _ id now _ candidate (calls-Shows-line cs c) f
            h)))
