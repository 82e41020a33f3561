-- ===== src/Simulator/Queue/Fifo.antt =====
-- The queue is served first come, first served: without clearing, the service is a line.
use gcdr.Base.{
  false, Bool, String, Option, ℕ, suc, ◌≡◌, refl, true, none, some, List, [], ◌∷◌, ◌++◌, arith,
  length, ap, sym, subst, ◌∙◌,
}
use mathlib.Core.List.{append_assoc, append-nil}
use gcdr.Simulator.Queue.Data.{
  clear_done, clear_all, settle, register, add, Call, held, pending, Job, Service,
}
use gcdr.Simulator.Queue.Service.{
  register_processor, add_simulated_alarm_candidate, call, new_job, new_service, enqueue, calls,
  finish, resume, end_job, settled, process_queue, modify_at, go_on,
}
use gcdr.Simulator.Queue.Counts.{count-append, count}
use gcdr.Simulator.Queue.Line.{
  line_call, Line, in_hand, line_calls, NoClear, line_settle, Stands, line, seq, started, hand_out,
  ids, Shows,
}
use gcdr.Simulator.Queue.Positions.{
  seq-snoc, started-append, started-end, modify_at-length, ids-append, length-snoc, length-append,
  AllPending-snoc,
}
use gcdr.Simulator.Queue.Begins.{go_on-Shows, process_queue-Shows}

module _ {T : Type 0} where
  count-end :
      (outcome : Option String) (now : ℕ) (j : Job T) (xs : List (Job T))
      → count pending (xs ++ (end_job outcome now j ∷ [])) ≡ count pending xs
  count-end none now j xs = omega (arith, count-append pending xs (end_job none now j ∷ []))
  count-end (some m) now j xs = omega (arith, count-append pending xs (end_job (some m) now j ∷ []))

  id-end : (outcome : Option String) (now : ℕ) (j : Job T) → (end_job outcome now j).id ≡ j.id
  id-end none now j = refl
  id-end (some m) now j = refl

  ids-end :
      (outcome : Option String) (now : ℕ) (j : Job T) (xs : List (Job T))
      → ids (xs ++ (j ∷ [])) ≡ ids (xs ++ (end_job outcome now j ∷ []))
  ids-end none now j xs = ids-append xs _ ∙ sym (ids-append xs _)
  ids-end (some m) now j xs = ids-append xs _ ∙ sym (ids-append xs _)

  settled-Shows :
      (outcome : Option String) (now : ℕ) (s : Service T) (p : Bool) (ended : List (Job T))
      (hand : Option (Job T)) (rest : List (Job T))
      → Stands s p ended hand rest
      → Shows (settled outcome now s) (line_settle outcome now (line p ended hand rest))
  unfolding settled
  settled-Shows outcome now s p ended none rest v =
      subst (λ l. Shows (resume outcome now (held l s.queue) s) (line p ended none rest))
        (sym v.looping) v
  settled-Shows outcome now s p ended (some j) rest v =
      subst
        (λ a. Shows (resume outcome now a s) (line_settle outcome now (line p ended (some j) rest)))
        (sym holding)
        (subst
          (λ (n : ℕ).
            Shows (go_on now (seq n (length rest)) (finish outcome now (length ended) s))
              (hand_out now (line true (ended ++ (end_job outcome now j ∷ [])) none rest)))
          (length-snoc ended (end_job outcome now j))
          (go_on-Shows now (finish outcome now (length ended) s)
            (ended ++ (end_job outcome now j ∷ [])) rest
            (ap (modify_at (length ended) (end_job outcome now)) v.stored
              ∙ modify_at-length (end_job outcome now) ended j rest
              ∙ sym (append_assoc ended (end_job outcome now j ∷ []) rest))
            (v.served ∙ v.attended refl) v.looping v.flagged
            (started-end outcome _ s.emitted ∙ v.in_order ∙ ids-end outcome now j ended)
            (count-end outcome now j ended ∙ v.all_ended) v.all_wait))
    where
      holding : held s.loop s.queue ≡ length ended ∷ seq (suc (length ended)) (length rest)
      holding = rw (v.looping, v.queued) refl

  enqueue-Stands :
      (id : String) (now : ℕ) (candidate : T) (s : Service T) (p : Bool) (ended : List (Job T))
      (hand : Option (Job T)) (rest : List (Job T))
      → Stands s p ended hand rest
      → Stands (enqueue id now candidate s) p ended hand (rest ++ (new_job id now candidate ∷ []))
  enqueue-Stands id now candidate s p ended hand rest v = record {
    stored =
        ap (λ js. js ++ (new ∷ [])) v.stored
        ∙ append_assoc ended _ _
        ∙ ap (λ r. ended ++ r) (append_assoc (in_hand hand) rest _);
    queued =
        ap (λ q. q ++ (length s.jobs ∷ [])) v.queued
        ∙ seq-snoc (length ended) (length (in_hand hand ++ rest)) (length s.jobs)
            (ap length v.stored ∙ length-append ended _)
        ∙ ap (λ (n : ℕ). seq (length ended) n)
            (sym (
              ap length (sym (append_assoc (in_hand hand) rest (new ∷ [])))
              ∙ length-snoc (in_hand hand ++ rest) new));
    served = v.served;
    attended = v.attended;
    looping = v.looping;
    flagged = v.flagged;
    in_order = started-append s.emitted _ ∙ append-nil (started s.emitted) ∙ v.in_order;
    all_ended = v.all_ended;
    all_wait = AllPending-snoc rest new v.all_wait refl;
  }
    where
      new : Job T
      new = new_job id now candidate

  registered-Stands :
      (s : Service T) (p : Bool) (ended : List (Job T)) (hand : Option (Job T))
      (rest : List (Job T))
      → Stands s p ended hand rest
      → Stands (record s { has_processor = true }) true ended hand rest
  registered-Stands s p ended hand rest v = record {
    stored = v.stored;
    queued = v.queued;
    served = refl;
    attended = λ _. refl;
    looping = v.looping;
    flagged = v.flagged;
    in_order = v.in_order;
    all_ended = v.all_ended;
    all_wait = v.all_wait;
  }

  pub calls-Shows :
      (cs : List (Call T)) (s : Service T) (l : Line T)
      → NoClear cs
      → Shows s l
      → Shows (calls cs s) (line_calls cs l)
  unfolding calls line_calls call add_simulated_alarm_candidate register_processor
  calls-Shows [] s l c v = v
  calls-Shows (add id now candidate ∷ cs) s (line p ended hand rest) c v =
      calls-Shows cs (process_queue now (enqueue id now candidate s))
        (line_call (add id now candidate) (line p ended hand rest)) c
        (process_queue-Shows now _ p ended hand _
          (enqueue-Stands id now candidate s p ended hand rest v))
  calls-Shows (register now ∷ cs) s (line p ended hand rest) c v =
      calls-Shows cs (process_queue now (record s { has_processor = true }))
        (line_call (register now) (line p ended hand rest)) c
        (process_queue-Shows now _ true ended hand rest (registered-Stands s p ended hand rest v))
  calls-Shows (settle outcome now ∷ cs) s (line p ended hand rest) c v =
      calls-Shows cs (settled outcome now s) (line_settle outcome now (line p ended hand rest)) c
        (settled-Shows outcome now s p ended hand rest v)
  calls-Shows (clear_done ∷ _) s l c v = absurd c
  calls-Shows (clear_all ∷ _) s l c v = absurd c

  new_service-Stands : Stands (new_service {T = T}) false [] none []
  new_service-Stands = record {
    stored = refl;
    queued = refl;
    served = refl;
    attended = λ h. absurd (cc);
    looping = refl;
    flagged = refl;
    in_order = refl;
    all_ended = refl;
    all_wait = tt;
  }

  -- While nobody clears the queue, the service does what a line does: the processor is handed the jobs
  -- one at a time and in the order in which they were added, and the flag, the array and the store of
  -- the service are those of the line, in which the ended jobs stand before the one in hand and this
  -- one before the pending ones.
  pub calls-Shows-line :
      (cs : List (Call T))
      → NoClear cs
      → Shows (calls cs new_service) (line_calls cs (line false [] none []))
  calls-Shows-line cs c = calls-Shows cs new_service (line false [] none []) c new_service-Stands
