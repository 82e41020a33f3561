-- ===== src/Authorization/Evaluation/Batch.antt =====
-- The summary and the results of `evaluate_batch`.
use gcdr.Authorization.Data.{Env, Db}
use gcdr.Authorization.Evaluation.{
  batch_step, BatchResult, check_permission, batch_loop, evaluate_batch, EvaluationResult,
}
use gcdr.Base.{
  some, length, false, String, refl, includes_complete, ◌∙◌, inr, if◌then◌else◌, eq_iff,
  includes_sound, inl, Bool-cases, arith, Elem, any, ◌≡◌, includes, ℕ, ◌+◌, List, [], ◌∷◌,
}
use gcdr.Base.Dict.{lookup-insert, lookup}

-- How many of the permissions are granted.
abbrev pub count_granted : (String → EvaluationResult) → List String → ℕ
count_granted check [] = 0
count_granted check (p ∷ ps) = (if (check p).allowed then 1 else 0) + count_granted check ps

module _ (check : String → EvaluationResult) where
  batch_counts :
      (ps : List String) (b : BatchResult)
      → ((batch_loop check ps b).allowed ≡ b.allowed + count_granted check ps)
        × ((batch_loop check ps b).allowed + (batch_loop check ps b).denied
            ≡ b.allowed + b.denied + length ps)
        × ((batch_loop check ps b).total ≡ b.total)
  unfolding batch_loop
  batch_counts [] b = omega arith
  batch_counts (p ∷ ps) b = ground (arith, batch_counts ps (batch_step check p b))

  batch_other :
      (ps : List String) (q : String) (b : BatchResult)
      → includes ps q ≡ false
      → lookup q (batch_loop check ps b).results ≡ lookup q b.results
  unfolding batch_loop includes any
  batch_other [] q b h = refl
  batch_other (p ∷ ps) q b h = ground (
    arith,
    batch_other ps q (batch_step check p b),
    lookup-insert p q (check p) b.results,
    eq_iff p q,
  )

  batch_finds :
      (ps : List String) (q : String) (b : BatchResult)
      → Elem q ps
      → lookup q (batch_loop check ps b).results ≡ some (check q)
  unfolding batch_loop
  batch_finds [] q b m = absurd m
  batch_finds (p ∷ ps) q b m = elim (Bool-cases (includes ps q)) [
    | inl again ↦ batch_finds ps q (batch_step check p b) (includes_sound ps q again)
    | inr last ↦ elim m [
      | inl e ↦
          batch_other ps q (batch_step check p b) last
          ∙ ground (arith, lookup-insert p q (check p) b.results, eq_iff p q)
      | inr later ↦ absurd (cc (last, includes_complete ps q later))
    ]
  ]

-- The batch gives each permission the result of its own check, counts the granted ones among all
-- that were asked (with repetitions), and splits the total between granted and refused.
pub evaluate_batch_lem :
    (env : Env) (user : String) (permissions : List String) (scope : String) (db : Db)
    → let check = λ (permission : String). check_permission env user permission scope db in
      let b = (evaluate_batch env user permissions scope db).0 in
      ((permission : String)
        → Elem permission permissions
        → lookup permission b.results ≡ some (check permission))
      × (b.allowed ≡ count_granted check permissions)
      × (b.allowed + b.denied ≡ b.total)
      × (b.total ≡ length permissions)
unfolding evaluate_batch
evaluate_batch_lem env user permissions scope db =
    let check = λ (permission : String). check_permission env user permission scope db in
    let empty : BatchResult = record {
      results = [];
      total = length permissions;
      allowed = 0;
      denied = 0;
    } in
    let (granted, both, total) = batch_counts check permissions empty in
    (
      λ permission m. batch_finds check permissions permission empty m,
      omega (arith, granted),
      omega (arith, both),
      total,
    )
