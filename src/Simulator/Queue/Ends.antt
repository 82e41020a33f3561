-- ===== src/Simulator/Queue/Ends.antt =====
-- The loop of `processQueue` ends, also where the queue is cleared under it.
use gcdr.Base.{
  ◌<◌, ℕ, suc, ◌+◌, ◌≡◌, ◌≤◌, refl, sym, ap, subst, ◌∙◌, String, true, false, Option, List, [], ◌∷◌,
  length, arith, Bool-cases, inl, inr,
}
use gcdr.Simulator.Queue.Data.{
  Job, Loop, idle, on_queue, on_old, held, loop_with, queue_with, Service, Call,
}
use gcdr.Simulator.Queue.Service.{
  new_service, skip_done, turn, finish, resume, settled, call, calls,
}
use gcdr.Simulator.Queue.Turn.{IsSound, is_busy, held-idle, Hand}
use gcdr.Simulator.Queue.Sound.{settled-IsSound, any_calls-IsSound}
use gcdr.Simulator.Queue.Drains.{settles}
use gcdr.Simulator.Queue.Positions.{length-skip_done-le}

held-put :
    (array : List ℕ) (loop : Loop) (queue : List ℕ)
    → is_busy loop ≡ true
    → held (loop_with array loop) (queue_with array loop queue) ≡ array
held-put array idle queue b = absurd (cc)
held-put array on_queue queue b = refl
held-put array (on_old _) queue b = refl

module _ {T : Type 0} where
  -- The jobs that the loop still has before it.
  abbrev pub before_it : Service T → ℕ
  before_it s = length (held s.loop s.queue)

  turn_leaves :
      (now : ℕ) (array : List ℕ) (s : Service T)
      → is_busy s.loop ≡ true
      → before_it (turn now array s) ≡ length array
  turn_leaves now [] s b = refl
  turn_leaves now (r ∷ rest) s b = ap length (held-put (r ∷ rest) s.loop s.queue b)

  resume_shrinks :
      (outcome : Option String) (now : ℕ) (array : List ℕ) (s : Service T)
      → is_busy s.loop ≡ true
      → 0 < length array
      → before_it (resume outcome now array s) + 1 ≤ length array
  resume_shrinks outcome now [] s b h = absurd (omega arith)
  resume_shrinks outcome now (r ∷ rest) s b h =
      let t = finish outcome now r s in
      omega (arith, turn_leaves now (skip_done t.jobs rest) t b, length-skip_done-le t.jobs rest)

  -- A loop that is at an `await` has a job in hand.
  busy_has :
      (loop : Loop) (queue : List ℕ) (jobs : List (Job T))
      → is_busy loop ≡ true
      → Hand loop queue jobs
      → 0 < length (held loop queue)
  busy_has idle queue jobs b h = absurd (cc)
  busy_has on_queue [] jobs b h = absurd h
  busy_has on_queue (r ∷ rest) jobs b h = omega arith
  busy_has (on_old []) queue jobs b h = absurd h
  busy_has (on_old (r ∷ rest)) queue jobs b h = omega arith

  settled_shrinks :
      (outcome : Option String) (now k : ℕ) (s : Service T)
      → IsSound s
      → before_it s ≤ suc k
      → before_it (settled outcome now s) ≤ k
  unfolding settled
  settled_shrinks outcome now k s v h = elim (Bool-cases (is_busy s.loop)) [
    | inl b ↦ omega (
      arith,
      h,
      resume_shrinks outcome now (held s.loop s.queue) s b
          (busy_has s.loop s.queue s.jobs b v.hand),
    )
    | inr b ↦
        subst (λ a. before_it (resume outcome now a s) ≤ k) (sym (held-idle s.loop s.queue b))
          (omega (arith, ap length (held-idle s.loop s.queue b)))
  ]

  ended :
      (s : Service T) → IsSound s → before_it s ≤ 0 → (s.is_processing ≡ false) × (s.loop ≡ idle)
  ended s v h = elim (Bool-cases (is_busy s.loop)) [
    | inl b ↦ absurd (omega (arith, h, busy_has s.loop s.queue s.jobs b v.hand))
    | inr b ↦ (v.flag ∙ b, is_idle s.loop b)
  ]
    where
      is_idle : (l : Loop) → is_busy l ≡ false → l ≡ idle
      is_idle idle b = refl
      is_idle on_queue b = absurd (cc)
      is_idle (on_old _) b = absurd (cc)

  settles-end :
      (outcomes : List (Option String × ℕ)) (s : Service T)
      → IsSound s
      → before_it s ≤ length outcomes
      → ((calls (settles outcomes) s).is_processing ≡ false)
        × ((calls (settles outcomes) s).loop ≡ idle)
  unfolding calls call
  settles-end [] s v h = ended s v h
  settles-end ((o, now) ∷ os) s v h =
      settles-end os (settled o now s) (settled-IsSound o now s v)
        (settled_shrinks o now (length os) s v h)

  -- Whatever was called before, clearing the queue included, the loop ends when as many promises have been
  -- settled as there are jobs in its array, however they are settled.
  pub loop_ends :
      (cs : List (Call T)) (outcomes : List (Option String × ℕ))
      → before_it (calls cs new_service) ≤ length outcomes
      → ((calls (settles outcomes) (calls cs new_service)).is_processing ≡ false)
        × ((calls (settles outcomes) (calls cs new_service)).loop ≡ idle)
  loop_ends cs outcomes h = settles-end outcomes (calls cs new_service) (any_calls-IsSound cs) h
