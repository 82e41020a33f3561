-- ===== src/Simulator/Queue/Drains.antt =====
-- Every job that is added is processed, once the processor settles often enough.
use gcdr.Base.{
  subst, ℕ, zero, suc, ◌+◌, ◌≡◌, ◌≤◌, refl, String, true, false, Option, none, some, List, [], ◌∷◌,
  ◌++◌, arith, length, ap, ◌∙◌,
}
use mathlib.Core.List.{append-nil}
use gcdr.Simulator.Queue.Data.{
  same_status, same_status, JobStatus, pending, processing, completed, failed, Job, Service, Call,
  add, register, settle, clear_done, clear_all,
}
use gcdr.Simulator.Queue.Service.{new_job, new_service, end_job, start_job, calls}
use gcdr.Simulator.Queue.Counts.{count, one}
use gcdr.Simulator.Queue.Sound.{calls-IsSound, new_service-IsSound}
use gcdr.Simulator.Queue.Line.{
  seq, Line, line, hand_out, line_call, line_calls, NoClear, in_hand, Stands, Shows,
}
use gcdr.Simulator.Queue.Fifo.{calls-Shows, calls-Shows-line}
use gcdr.Simulator.Queue.Turn.{IsSound, is_busy}
use gcdr.Simulator.Queue.Positions.{length-append, length-snoc}

abbrev pub settles : {T : Type 0} → List (Option String × ℕ) → List (Call T)
settles [] = []
settles ((outcome, now) ∷ rest) = settle outcome now ∷ settles rest

length-seq : (k n : ℕ) → length (seq k n) ≡ n
length-seq k zero = refl
length-seq k (suc n) = ap suc (length-seq (suc k) n)

one_status :
    (st : JobStatus) (n a b c d : ℕ)
    → n ≡ a + b + c + d
    → suc n
      ≡ (one (same_status st pending) + a)
        + (one (same_status st processing) + b)
        + (one (same_status st completed) + c)
        + (one (same_status st failed) + d)
one_status pending n a b c d e = omega arith
one_status processing n a b c d e = omega arith
one_status completed n a b c d e = omega arith
one_status failed n a b c d e = omega arith

NoClear-settles :
    (T : Type 0) (outcomes : List (Option String × ℕ)) → NoClear (settles {T = T} outcomes)
NoClear-settles T [] = tt
NoClear-settles T ((o, now) ∷ os) = NoClear-settles T os

module _ {T : Type 0} where
  -- Nobody waits for a processor that has nothing in hand.
  abbrev Live : Line T → Type 0
  Live (line true _ none (_ ∷ _)) = ⊥
  Live _ = Unit {0}

  hand_out-Live : (now : ℕ) (l : Line T) → Live (hand_out now l)
  hand_out-Live now (line true ended none []) = tt
  hand_out-Live now (line true ended none (_ ∷ _)) = tt
  hand_out-Live now (line true ended (some _) rest) = tt
  hand_out-Live now (line false ended hand rest) = tt

  line_call-Live : (c : Call T) (l : Line T) → Live l → Live (line_call c l)
  line_call-Live (add id now candidate) (line p ended hand rest) v =
      hand_out-Live now (line p ended hand (rest ++ (new_job id now candidate ∷ [])))
  line_call-Live (register now) (line p ended hand rest) v =
      hand_out-Live now (line true ended hand rest)
  line_call-Live (settle outcome now) (line p ended none rest) v = v
  line_call-Live (settle outcome now) (line p ended (some j) rest) v =
      hand_out-Live now (line true (ended ++ (end_job outcome now j ∷ [])) none rest)
  line_call-Live clear_done l v = v
  line_call-Live clear_all l v = v

  line_calls-Live : (cs : List (Call T)) (l : Line T) → Live l → Live (line_calls cs l)
  unfolding line_calls
  line_calls-Live [] l v = v
  line_calls-Live (c ∷ cs) l v = line_calls-Live cs (line_call c l) (line_call-Live c l v)

  -- What is left when every job in hand or waiting has been settled.
  abbrev Drained : ℕ → Line T → Type 0
  Drained n l = (ended : List (Job T)) × (l ≡ line true ended none []) × (length ended ≡ n)

  line_drains :
      (outcomes : List (Option String × ℕ)) (ended : List (Job T)) (hand : Option (Job T))
      (rest : List (Job T))
      → Live (line true ended hand rest)
      → length (in_hand hand) + length rest ≤ length outcomes
      → (n : ℕ) → length ended + length (in_hand hand) + length rest ≡ n
      → Drained n (line_calls (settles outcomes) (line true ended hand rest))
  unfolding line_calls
  line_drains [] ended none [] v h n e = (ended, refl, omega arith)
  line_drains [] ended none (_ ∷ _) v h n e = absurd v
  line_drains [] ended (some j) rest v h n e = absurd (omega arith)
  line_drains ((o, now) ∷ os) ended none [] v h n e =
      line_drains os ended none [] tt (omega arith) n e
  line_drains ((o, now) ∷ os) ended none (_ ∷ _) v h n e = absurd v
  line_drains ((o, now) ∷ os) ended (some j) [] v h n e =
      line_drains os (ended ++ (end_job o now j ∷ [])) none [] tt (omega arith) n
        (omega (arith, length-snoc ended (end_job o now j)))
  line_drains ((o, now) ∷ os) ended (some j) (r ∷ rest) v h n e =
      line_drains os (ended ++ (end_job o now j ∷ [])) (some (start_job now r)) rest tt
        (omega arith) n (omega (arith, length-snoc ended (end_job o now j)))

  count_total :
      (xs : List (Job T))
      → length xs ≡ count pending xs + count processing xs + count completed xs + count failed xs
  count_total [] = omega arith
  count_total (x ∷ xs) = one_status x.status _ _ _ _ _ (count_total xs)

  abbrev pub AllDone : ℕ → Service T → Type 0
  AllDone n t =
      (t.is_processing ≡ false)
      × (t.queue ≡ [])
      × (t.stats.done + t.stats.broken ≡ n)
      × (count pending t.jobs ≡ 0)

  Drained-AllDone :
      (t : Service T) (l : Line T) (n : ℕ) → IsSound t → Shows t l → Drained n l → AllDone n t
  Drained-AllDone t l n v w (ended, e, k) = (
    z.flagged,
    z.queued,
    omega (
      arith,
      v.done,
      v.broken,
      v.single,
      ap (λ x. one (is_busy x)) z.looping,
      count_total t.jobs,
      waits,
      ap length z.stored,
      length-append ended [],
      k,
    ),
    waits,
  )
    where
      z : Stands t true ended none []
      z = subst (Shows t) e w

      waits : count pending t.jobs ≡ 0
      waits = ap (count pending) (z.stored ∙ append-nil ended) ∙ z.all_ended

  drains_from :
      (s : Service T) (l : Line T) (outcomes : List (Option String × ℕ))
      → Shows s l
      → Live l
      → IsSound s
      → s.has_processor ≡ true
      → length s.queue ≤ length outcomes
      → AllDone (length s.jobs) (calls (settles outcomes) s)
  drains_from s (line true ended hand rest) outcomes w v i p h =
      Drained-AllDone _ _ _ (calls-IsSound (settles outcomes) s i)
        (calls-Shows (settles outcomes) s (line true ended hand rest) (NoClear-settles T outcomes)
          w)
        (line_drains outcomes ended hand rest v
          (omega (
            arith,
            h,
            ap length w.queued,
            length-seq (length ended) (length (in_hand hand ++ rest)),
            length-append (in_hand hand) rest,
          ))
          (length s.jobs)
          (omega (
            arith,
            ap length w.stored,
            length-append ended (in_hand hand ++ rest),
            length-append (in_hand hand) rest,
          )))
  drains_from s (line false ended hand rest) outcomes w v i p h = absurd (cc (w.served))

  -- If nobody clears the queue and a processor has been registered, then after as many settled promises
  -- as the queue has jobs nothing is left: the loop has ended, the queue is empty, no job is pending,
  -- and the counters of completed and of failed jobs add up to the number of jobs ever added.
  pub calls_drain :
      (cs : List (Call T)) (outcomes : List (Option String × ℕ))
      → NoClear cs
      → (calls cs new_service).has_processor ≡ true
      → length (calls cs new_service).queue ≤ length outcomes
      → AllDone
          (length (calls cs new_service).jobs)
          (calls (settles outcomes) (calls cs new_service))
  calls_drain cs outcomes c p h =
      drains_from (calls cs new_service) (line_calls cs (line false [] none [])) outcomes
        (calls-Shows-line cs c) (line_calls-Live cs _ tt)
        (calls-IsSound cs new_service new_service-IsSound) p h
