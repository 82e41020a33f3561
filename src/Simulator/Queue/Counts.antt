-- ===== src/Simulator/Queue/Counts.antt =====
-- How many jobs have a status, and writes through an address.
use gcdr.Base.{
  ℕ, zero, suc, ◌+◌, ◌≡◌, refl, String, Bool, true, false, Option, none, some, List, [], ◌∷◌, ◌++◌,
  arith, get_elem?, if◌then◌else◌,
}
use gcdr.Simulator.Queue.Data.{JobStatus, pending, processing, completed, failed, same_status, Job}
use gcdr.Simulator.Queue.Service.{modify_at, at_is, status_is, start_job, end_job}

abbrev pub one : Bool → ℕ
one true = 1
one false = 0

pub of_processing : (st : JobStatus) → same_status st processing ≡ true → st ≡ processing
of_processing pending h = absurd (cc)
of_processing processing h = refl
of_processing completed h = absurd (cc)
of_processing failed h = absurd (cc)

pub of_pending : (st : JobStatus) → same_status st pending ≡ true → st ≡ pending
of_pending pending h = refl
of_pending processing h = absurd (cc)
of_pending completed h = absurd (cc)
of_pending failed h = absurd (cc)

module _ {T : Type 0} where
  abbrev pub count : JobStatus → List (Job T) → ℕ
  count st [] = 0
  count st (j ∷ js) = one (status_is st j) + count st js

  -- A pending job was never handed out, any other once.
  abbrev pub EachTried : List (Job T) → Type 0
  EachTried [] = Unit {0}
  EachTried (j ∷ js) = (j.attempts ≡ (if status_is pending j then 0 else 1)) × EachTried js

  pub count-append :
      (st : JobStatus) (xs ys : List (Job T)) → count st (xs ++ ys) ≡ count st xs + count st ys
  count-append st [] ys = omega arith
  count-append st (x ∷ xs) ys = omega (arith, count-append st xs ys)

  pub EachTried-append : (xs ys : List (Job T)) → EachTried xs → EachTried ys → EachTried (xs ++ ys)
  EachTried-append [] ys t u = u
  EachTried-append (x ∷ xs) ys t u = (t.0, EachTried-append xs ys t.1 u)

  pub at_is-append :
      (st : JobStatus) (xs ys : List (Job T)) (r : ℕ)
      → at_is st (get_elem? xs r) ≡ true
      → at_is st (get_elem? (xs ++ ys) r) ≡ true
  at_is-append st [] ys r h = absurd (cc)
  at_is-append st (x ∷ xs) ys zero h = h
  at_is-append st (x ∷ xs) ys (suc r) h = at_is-append st xs ys r h

  pub found_at :
      (st : JobStatus) (o : Option (Job T))
      → at_is st o ≡ true
      → (j : Job T) × (o ≡ some j) × (status_is st j ≡ true)
  found_at st none h = absurd (cc)
  found_at st (some j) h = (j, refl, h)

  pub count-modify_at :
      (st : JobStatus) (f : Job T → Job T) (r : ℕ) (xs : List (Job T)) (j : Job T)
      → get_elem? xs r ≡ some j
      → count st (modify_at r f xs) + one (status_is st j) ≡ count st xs + one (status_is st (f j))
  unfolding modify_at
  count-modify_at st f r [] j h = absurd (cc)
  count-modify_at st f zero (x ∷ xs) j h = ground arith
  count-modify_at st f (suc r) (x ∷ xs) j h = omega (arith, count-modify_at st f r xs j h)

  pub get_elem?-modify_at :
      (f : Job T → Job T) (r : ℕ) (xs : List (Job T)) (j : Job T)
      → get_elem? xs r ≡ some j
      → get_elem? (modify_at r f xs) r ≡ some (f j)
  unfolding modify_at
  get_elem?-modify_at f r [] j h = absurd (cc)
  get_elem?-modify_at f zero (x ∷ xs) j h = ground arith
  get_elem?-modify_at f (suc r) (x ∷ xs) j h = get_elem?-modify_at f r xs j h

  -- The job that is handed out was pending, and the one that ends was not.
  pub EachTried-start :
      (now r : ℕ) (xs : List (Job T))
      → at_is pending (get_elem? xs r) ≡ true
      → EachTried xs
      → EachTried (modify_at r (start_job now) xs)
  unfolding modify_at
  EachTried-start now r [] h t = absurd (cc)
  EachTried-start now zero (x ∷ xs) h t = ground arith
  EachTried-start now (suc r) (x ∷ xs) h t = (t.0, EachTried-start now r xs h t.1)

  pub EachTried-end :
      (outcome : Option String) (now r : ℕ) (xs : List (Job T))
      → at_is processing (get_elem? xs r) ≡ true
      → EachTried xs
      → EachTried (modify_at r (end_job outcome now) xs)
  unfolding modify_at
  EachTried-end outcome now r [] h t = absurd (cc)
  EachTried-end none now zero (x ∷ xs) h t = (ground (arith, of_processing x.status h), t.1)
  EachTried-end (some message) now zero (x ∷ xs) h t =
      (ground (arith, of_processing x.status h), t.1)
  EachTried-end outcome now (suc r) (x ∷ xs) h t = (t.0, EachTried-end outcome now r xs h t.1)
