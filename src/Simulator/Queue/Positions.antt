-- ===== src/Simulator/Queue/Positions.antt =====
-- Addresses of jobs by their place in the store.
use gcdr.Base.{
  if_either, ◌≤◌, String, Option, ℕ, zero, suc, ◌+◌, ◌≡◌, refl, true, none, some, List, [], ◌∷◌,
  ◌++◌, arith, length, get_elem?, ap, ◌∙◌,
}
use mathlib.Core.List.{append-nil}
use gcdr.Simulator.Queue.Data.{
  end_event, pending, Job, JobEvent, job_added, job_processing, job_completed, job_failed,
}
use gcdr.Simulator.Queue.Service.{modify_at, at_is, skip_done}
use gcdr.Simulator.Queue.Line.{seq, started, AllPending, ids}

pub seq-snoc : (k n m : ℕ) → m ≡ k + n → seq k n ++ (m ∷ []) ≡ seq k (suc n)
seq-snoc k zero m e = ap (λ (x : ℕ). x ∷ []) (omega arith)
seq-snoc k (suc n) m e = ap (λ r. k ∷ r) (seq-snoc (suc k) n m (omega arith))

pub started-append : (xs ys : List JobEvent) → started (xs ++ ys) ≡ started xs ++ started ys
started-append [] ys = refl
started-append (job_processing id ∷ xs) ys = ap (λ r. id ∷ r) (started-append xs ys)
started-append (job_added id ∷ xs) ys = started-append xs ys
started-append (job_completed id ∷ xs) ys = started-append xs ys
started-append (job_failed id m ∷ xs) ys = started-append xs ys

pub started-end :
    (outcome : Option String) (id : String) (xs : List JobEvent)
    → started (xs ++ (end_event outcome id ∷ [])) ≡ started xs
started-end none id xs = started-append xs _ ∙ append-nil (started xs)
started-end (some m) id xs = started-append xs _ ∙ append-nil (started xs)

module _ {T : Type 0} where
  pub get_elem?-length :
      (xs : List (Job T)) (j : Job T) (ys : List (Job T))
      → get_elem? (xs ++ j ∷ ys) (length xs) ≡ some j
  get_elem?-length [] j ys = refl
  get_elem?-length (x ∷ xs) j ys = get_elem?-length xs j ys

  pub modify_at-length :
      (f : Job T → Job T) (xs : List (Job T)) (j : Job T) (ys : List (Job T))
      → modify_at (length xs) f (xs ++ j ∷ ys) ≡ xs ++ f j ∷ ys
  unfolding modify_at
  modify_at-length f [] j ys = refl
  modify_at-length f (x ∷ xs) j ys = ap (λ r. x ∷ r) (modify_at-length f xs j ys)

  pub ids-append : (xs ys : List (Job T)) → ids (xs ++ ys) ≡ ids xs ++ ids ys
  ids-append [] ys = refl
  ids-append (x ∷ xs) ys = ap (λ r. x.id ∷ r) (ids-append xs ys)

  pub length-snoc : (xs : List (Job T)) (j : Job T) → length (xs ++ (j ∷ [])) ≡ suc (length xs)
  length-snoc [] j = refl
  length-snoc (x ∷ xs) j = ap suc (length-snoc xs j)

  pub length-append : (xs ys : List (Job T)) → length (xs ++ ys) ≡ length xs + length ys
  length-append [] ys = omega arith
  length-append (x ∷ xs) ys = omega (arith, length-append xs ys)

  pub AllPending-snoc :
      (xs : List (Job T)) (j : Job T)
      → AllPending xs
      → j.status ≡ pending
      → AllPending (xs ++ (j ∷ []))
  AllPending-snoc [] j h e = (e, tt)
  AllPending-snoc (x ∷ xs) j h e = (h.0, AllPending-snoc xs j h.1 e)

  pub skip_done-pending :
      (jobs : List (Job T)) (r : ℕ) (rest : List ℕ)
      → at_is pending (get_elem? jobs r) ≡ true
      → skip_done jobs (r ∷ rest) ≡ r ∷ rest
  unfolding skip_done
  skip_done-pending jobs r rest h = rw h refl

  pub length-skip_done-le :
      (jobs : List (Job T)) (a : List ℕ) → length (skip_done jobs a) ≤ length a
  unfolding skip_done
  length-skip_done-le jobs [] = omega arith
  length-skip_done-le jobs (r ∷ rest) =
      if_either (λ l. length l ≤ suc (length rest)) (at_is pending (get_elem? jobs r))
        {x = r ∷ rest} {y = skip_done jobs rest} (λ _. omega arith)
        λ _. omega (arith, length-skip_done-le jobs rest)
