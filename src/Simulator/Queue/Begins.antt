-- ===== src/Simulator/Queue/Begins.antt =====
-- How the loop starts and takes up the jobs that wait, as the line sees it.
use gcdr.Base.{
  false, is_empty, if_either, Bool, Option, ℕ, suc, ◌≡◌, refl, true, none, some, List, [], ◌∷◌,
  ◌++◌, length, ap, sym, subst, ◌∙◌,
}
use mathlib.Core.List.{append-nil}
use gcdr.Simulator.Queue.Data.{pending, Job, on_queue, Service}
use gcdr.Simulator.Queue.Service.{process_queue, modify_at, start_job, skip_done, turn, go_on}
use gcdr.Simulator.Queue.Counts.{count}
use gcdr.Simulator.Queue.Line.{Stands, line, seq, started, hand_out, AllPending, ids, Shows}
use gcdr.Simulator.Queue.Positions.{
  started-append, get_elem?-length, modify_at-length, ids-append, skip_done-pending,
}

module _ {T : Type 0} where
  -- The loop, with no job in hand, over the array of those that wait.
  pub go_on-Shows :
      (now : ℕ) (s : Service T) (ended rest : List (Job T))
      → s.jobs ≡ ended ++ rest
      → s.has_processor ≡ true
      → s.loop ≡ on_queue
      → s.is_processing ≡ true
      → started s.emitted ≡ ids ended
      → count pending ended ≡ 0
      → AllPending rest
      → Shows
          (go_on now (seq (length ended) (length rest)) s)
          (hand_out now (line true ended none rest))
  unfolding skip_done
  go_on-Shows now s ended [] stored served looping flagged in_order over wait = record {
    stored = stored;
    queued = rw looping refl;
    served = served;
    attended = λ _. refl;
    looping = refl;
    flagged = refl;
    in_order = rw (append-nil ended) in_order;
    all_ended = over;
    all_wait = tt;
  }
  go_on-Shows now s ended (j ∷ rest) stored served looping flagged in_order over wait =
      subst (λ a. Shows (turn now a s) (hand_out now (line true ended none (j ∷ rest))))
        (sym (
          skip_done-pending s.jobs (length ended) (seq (suc (length ended)) (length rest))
            (rw (stored, get_elem?-length ended j rest) (rw wait.0 refl))))
        (record {
          stored =
              ap (modify_at (length ended) (start_job now)) stored
              ∙ modify_at-length (start_job now) ended j rest;
          queued = rw looping refl;
          served = served;
          attended = λ _. refl;
          looping = rw looping refl;
          flagged = flagged;
          in_order =
              started-append s.emitted _
              ∙ (rw
                  (
                    in_order,
                    ids-append ended (start_job now j ∷ []),
                    stored,
                    get_elem?-length ended j rest,
                  )
                  refl);
          all_ended = over;
          all_wait = wait.1;
        })

  -- The guards of `processQueue`.
  pub process_busy : (now : ℕ) (s : Service T) → s.is_processing ≡ true → process_queue now s ≡ s
  unfolding process_queue
  process_busy now s e = if_either (λ t. t ≡ s) s.is_processing (λ _. refl) λ f. absurd (cc)

  pub process_unserved :
      (now : ℕ) (s : Service T) → s.has_processor ≡ false → process_queue now s ≡ s
  unfolding process_queue
  process_unserved now s e =
      if_either (λ t. t ≡ s) s.is_processing (λ _. refl)
        λ _. if_either (λ t. t ≡ s) s.has_processor (λ f. absurd (cc)) λ _. refl

  pub process_empty : (now : ℕ) (s : Service T) → is_empty s.queue ≡ true → process_queue now s ≡ s
  unfolding process_queue
  process_empty now s e =
      if_either (λ t. t ≡ s) s.is_processing (λ _. refl)
        λ _.
          if_either (λ t. t ≡ s) s.has_processor
            (λ _. if_either (λ t. t ≡ s) (is_empty s.queue) (λ _. refl) λ f. absurd (cc)) λ _. refl

  abbrev pub begun : Service T → Service T
  begun s = record s { is_processing = true; loop = on_queue }

  pub process_begins :
      (now : ℕ) (s : Service T)
      → s.is_processing ≡ false
      → s.has_processor ≡ true
      → is_empty s.queue ≡ false
      → process_queue now s ≡ go_on now s.queue (begun s)
  unfolding process_queue
  process_begins now s e p q =
      if_either (λ t. t ≡ go_on now s.queue (begun s)) s.is_processing (λ f. absurd (cc))
        λ _.
          if_either (λ t. t ≡ go_on now s.queue (begun s)) s.has_processor
            (λ _.
              if_either (λ t. t ≡ go_on now s.queue (begun s)) (is_empty s.queue) (λ f. absurd (cc))
                λ _. refl)
            λ f. absurd (cc)

  pub process_queue-Shows :
      (now : ℕ) (s : Service T) (p : Bool) (ended : List (Job T)) (hand : Option (Job T))
      (rest : List (Job T))
      → Stands s p ended hand rest
      → Shows (process_queue now s) (hand_out now (line p ended hand rest))
  process_queue-Shows now s true ended (some j) rest v =
      subst (λ t. Shows t (line true ended (some j) rest)) (sym (process_busy now s v.flagged)) v
  process_queue-Shows now s false ended hand rest v =
      subst (λ t. Shows t (line false ended hand rest)) (sym (process_unserved now s v.served)) v
  process_queue-Shows now s true ended none [] v =
      subst (λ t. Shows t (line true ended none []))
        (sym (process_empty now s (ap is_empty v.queued))) v
  process_queue-Shows now s true ended none (j ∷ rest) v =
      subst (λ t. Shows t (hand_out now (line true ended none (j ∷ rest))))
        (sym (
          process_begins now s v.flagged v.served (ap is_empty v.queued)
          ∙ ap (λ a. go_on now a (begun s)) v.queued))
        (go_on-Shows now (begun s) ended (j ∷ rest) v.stored v.served refl refl
          (v.in_order ∙ ap ids (append-nil ended)) v.all_ended v.all_wait)
