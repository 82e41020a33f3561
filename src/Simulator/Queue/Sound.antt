-- ===== src/Simulator/Queue/Sound.antt =====
-- What holds after any calls: the counters, the flag and the job in hand agree, and a job is handed
-- to the processor once at most.
use gcdr.Base.{
  Elem, inl, inr, ◌≤◌, sym, subst, if_either, is_empty, inr, inl, Bool-cases, ℕ, ◌+◌, ◌≡◌, refl,
  String, true, false, Option, some, List, [], ◌∷◌, ◌++◌, arith, get_elem?,
}
use gcdr.Simulator.Queue.Data.{
  clear_done, clear_all, settle, register, add, Call, held, drop_array, JobStatus, processing,
  completed, failed, Job, Loop, idle, on_queue, on_old, Service,
}
use gcdr.Simulator.Queue.Service.{
  clear_queue, clear_processed_jobs, register_processor, new_job, add_simulated_alarm_candidate,
  new_service, call, calls, settled, finish, replace_queue, enqueue, resume, process_queue,
  modify_at, status_is, end_job,
}
use gcdr.Simulator.Queue.Counts.{
  one, of_processing, count, EachTried, count-append, EachTried-append, at_is-append, found_at,
  count-modify_at, EachTried-end,
}
use gcdr.Simulator.Queue.Turn.{
  is_busy, held-idle, is_busy-drop_array, AtHead, Hand, IsSound, Between, go_on-IsSound,
}

module _ {T : Type 0} where
  process_queue-IsSound : (now : ℕ) (s : Service T) → IsSound s → IsSound (process_queue now s)
  unfolding process_queue
  process_queue-IsSound now s v =
      if_either IsSound s.is_processing (λ _. v)
        λ e.
          if_either IsSound s.has_processor
            (λ _.
              if_either IsSound (is_empty s.queue) (λ _. v)
                λ _. go_on-IsSound now s.queue _ (begun e))
            λ _. v
    where
      begun : s.is_processing ≡ false → Between (record s { is_processing = true; loop = on_queue })
      begun e = record {
        flag = refl;
        busy = refl;
        done = v.done;
        broken = v.broken;
        none_in_hand = ground (arith, v.single, v.flag);
        tried = v.tried;
      }

  Hand-held :
      (loop : Loop) (queue : List ℕ) (jobs : List (Job T))
      → is_busy loop ≡ true
      → Hand loop queue jobs
      → AtHead processing (held loop queue) jobs
  Hand-held idle queue jobs b h = absurd (cc)
  Hand-held on_queue queue jobs b h = h
  Hand-held (on_old array) queue jobs b h = h

  finish-Between :
      (outcome : Option String) (now r : ℕ) (s : Service T) (j : Job T)
      → is_busy s.loop ≡ true
      → IsSound s
      → get_elem? s.jobs r ≡ some j
      → status_is processing j ≡ true
      → Between (finish outcome now r s)
  finish-Between outcome now r s j b v at was = record {
    flag = ground (arith, v.flag, b);
    busy = b;
    done = ground (arith, counted completed, of_processing j.status was, v.done);
    broken = ground (arith, counted failed, of_processing j.status was, v.broken);
    none_in_hand = ground (arith, counted processing, of_processing j.status was, v.single, b);
    tried = EachTried-end outcome now r s.jobs (ground (arith, at, was)) v.tried;
  }
    where
      counted :
          (st : JobStatus)
          → count st (modify_at r (end_job outcome now) s.jobs) + one (status_is st j)
            ≡ count st s.jobs + one (status_is st (end_job outcome now j))
      counted st = count-modify_at st (end_job outcome now) r s.jobs j at

  resume-IsSound :
      (outcome : Option String) (now : ℕ) (array : List ℕ) (s : Service T)
      → is_busy s.loop ≡ true
      → IsSound s
      → AtHead processing array s.jobs
      → IsSound (resume outcome now array s)
  resume-IsSound outcome now [] s b v h = v
  resume-IsSound outcome now (r ∷ rest) s b v h =
      let (j, at, was) = found_at processing _ h in
      go_on-IsSound now rest _ (finish-Between outcome now r s j b v at was)

  pub settled-IsSound :
      (outcome : Option String) (now : ℕ) (s : Service T)
      → IsSound s
      → IsSound (settled outcome now s)
  unfolding settled
  settled-IsSound outcome now s v = elim (Bool-cases (is_busy s.loop)) [
    | inl b ↦ resume-IsSound outcome now _ s b v (Hand-held s.loop s.queue s.jobs b v.hand)
    | inr b ↦ subst (λ a. IsSound (resume outcome now a s)) (sym (held-idle s.loop s.queue b)) v
  ]

  Hand-append :
      (loop : Loop) (queue more : List ℕ) (jobs ys : List (Job T))
      → Hand loop queue jobs
      → Hand loop (queue ++ more) (jobs ++ ys)
  Hand-append idle queue more jobs ys h = tt
  Hand-append on_queue [] more jobs ys h = absurd h
  Hand-append on_queue (r ∷ _) more jobs ys h = at_is-append processing jobs ys r h
  Hand-append (on_old []) queue more jobs ys h = absurd h
  Hand-append (on_old (r ∷ _)) queue more jobs ys h = at_is-append processing jobs ys r h

  Hand-drop :
      (loop : Loop) (queue new : List ℕ) (jobs : List (Job T))
      → Hand loop queue jobs
      → Hand (drop_array loop queue) new jobs
  Hand-drop idle queue new jobs h = h
  Hand-drop on_queue queue new jobs h = h
  Hand-drop (on_old _) queue new jobs h = h

  enqueue-IsSound :
      (id : String) (now : ℕ) (candidate : T) (s : Service T)
      → IsSound s
      → IsSound (enqueue id now candidate s)
  enqueue-IsSound id now candidate s v = record {
    flag = v.flag;
    done = omega (arith, count-append completed s.jobs (new_job id now candidate ∷ []), v.done);
    broken = omega (arith, count-append failed s.jobs (new_job id now candidate ∷ []), v.broken);
    single =
        omega (arith, count-append processing s.jobs (new_job id now candidate ∷ []), v.single);
    hand = Hand-append s.loop s.queue _ s.jobs _ v.hand;
    tried = EachTried-append s.jobs _ v.tried (refl, tt);
  }

  replace_queue-IsSound :
      (array : List ℕ) (s : Service T) → IsSound s → IsSound (replace_queue array s)
  replace_queue-IsSound array s v = record {
    flag = ground (arith, v.flag, is_busy-drop_array s.loop s.queue);
    done = v.done;
    broken = v.broken;
    single = ground (arith, v.single, is_busy-drop_array s.loop s.queue);
    hand = Hand-drop s.loop s.queue array s.jobs v.hand;
    tried = v.tried;
  }

  call-IsSound : (c : Call T) (s : Service T) → IsSound s → IsSound (call c s)
  unfolding call add_simulated_alarm_candidate register_processor clear_processed_jobs clear_queue
  call-IsSound (add id now candidate) s v =
      process_queue-IsSound now _ (enqueue-IsSound id now candidate s v)
  call-IsSound (register now) s v = process_queue-IsSound now _ (registered v)
    where
      registered : IsSound s → IsSound (record s { has_processor = true })
      registered w = record {
        flag = w.flag;
        done = w.done;
        broken = w.broken;
        single = w.single;
        hand = w.hand;
        tried = w.tried;
      }
  call-IsSound (settle outcome now) s v = settled-IsSound outcome now s v
  call-IsSound clear_done s v = replace_queue-IsSound _ s v
  call-IsSound clear_all s v = replace_queue-IsSound [] s v

  pub calls-IsSound : (cs : List (Call T)) (s : Service T) → IsSound s → IsSound (calls cs s)
  unfolding calls
  calls-IsSound [] s v = v
  calls-IsSound (c ∷ cs) s v = calls-IsSound cs (call c s) (call-IsSound c s v)

  pub new_service-IsSound : IsSound (new_service {T = T})
  new_service-IsSound = record {
    flag = refl;
    done = refl;
    broken = refl;
    single = refl;
    hand = tt;
    tried = tt;
  }

  -- After any calls the flag is set exactly while the loop waits, the counters are the numbers of the
  -- jobs that completed and failed, one job at most is processing, it is the one at the head of the
  -- loop's array, and a job was handed out once if it is no longer pending, and else never.
  pub any_calls-IsSound : (cs : List (Call T)) → IsSound (calls cs (new_service {T = T}))
  any_calls-IsSound cs = calls-IsSound cs new_service new_service-IsSound

  tried_once : (xs : List (Job T)) (j : Job T) → EachTried xs → Elem j xs → j.attempts ≤ 1
  tried_once [] j t m = absurd m
  tried_once (x ∷ xs) j t (inl e) = rw e (ground (arith, t.0))
  tried_once (x ∷ xs) j t (inr m) = tried_once xs j t.1 m

  -- No job is handed to the processor twice, in any order of the calls.
  pub attempts_bound :
      (cs : List (Call T)) (j : Job T) → Elem j (calls cs new_service).jobs → j.attempts ≤ 1
  attempts_bound cs j m = tried_once _ j (any_calls-IsSound cs).tried m
