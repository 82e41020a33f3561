-- ===== src/Simulator/Engine/Counts.antt =====
-- How writes change the number of running sessions of a tenant.
use gcdr.Base.{
  suc, ℕ, ◌+◌, ◌≡◌, ◌≤◌, refl, String, Bool, true, false, ◌&&◌, List, [], ◌∷◌, ◌++◌, if◌then◌else◌,
  ◌==◌, any, filter, arith,
}
use gcdr.Base.Rows.{update_where}
use gcdr.Simulator.Data.{SessionStatus, pending, running, stopped, expired, broken, Session}
use gcdr.Simulator.Rows.{
  same_status, has_id, is_running_of, count_active_sessions_by_tenant, set_running, set_ended,
  set_broken,
}

-- No row that was not running for the tenant becomes so.
abbrev pub Calms : (Session → Session) → Type 0
Calms f = (t : String) (s : Session) → is_running_of t (f s) ≡ true → is_running_of t s ≡ true

ended_lem : (b : Bool) (P : Type 0) → (b && false) ≡ true → P
ended_lem true P h = absurd (cc)
ended_lem false P h = absurd (cc)

pub set_ended-Calms :
    (status : SessionStatus) (now : ℕ)
    → same_status status running ≡ false
    → Calms (set_ended status now)
set_ended-Calms pending now e t s h = ended_lem (s.tenant_id == t) _ h
set_ended-Calms stopped now e t s h = ended_lem (s.tenant_id == t) _ h
set_ended-Calms expired now e t s h = ended_lem (s.tenant_id == t) _ h
set_ended-Calms broken now e t s h = ended_lem (s.tenant_id == t) _ h
set_ended-Calms running now e t s h = absurd (cc)

pub set_broken-Calms : (now : ℕ) → Calms (set_broken now)
set_broken-Calms now t s h = ended_lem (s.tenant_id == t) _ h

pub count-update_where-le :
    (t : String) (test : Session → Bool) (f : Session → Session) (xs : List Session)
    → Calms f
    → count_active_sessions_by_tenant t (update_where test f xs)
      ≤ count_active_sessions_by_tenant t xs
unfolding count_active_sessions_by_tenant update_where filter
count-update_where-le t test f [] calm = omega arith
count-update_where-le t test f (x ∷ xs) calm =
    ground (arith, calm t x, count-update_where-le t test f xs calm)

-- The rows of a tenant with an id.
unfoldable pub rows_with : String → String → List Session → ℕ
rows_with t id [] = 0
rows_with t id (x ∷ xs) =
    let rest = rows_with t id xs in if x.tenant_id == t && has_id id x then suc rest else rest

pub rows_with-update_where :
    (t id : String) (test : Session → Bool) (f : Session → Session) (xs : List Session)
    → ((s : Session) → (f s).id ≡ s.id)
    → ((s : Session) → (f s).tenant_id ≡ s.tenant_id)
    → rows_with t id (update_where test f xs) ≡ rows_with t id xs
unfolding rows_with update_where
rows_with-update_where t id test f [] i j = refl
rows_with-update_where t id test f (x ∷ xs) i j =
    ground (arith, i x, j x, rows_with-update_where t id test f xs i j)

pub count-set_running-le :
    (t id : String) (now : ℕ) (xs : List Session)
    → count_active_sessions_by_tenant t (update_where (has_id id) (set_running now) xs)
      ≤ count_active_sessions_by_tenant t xs + rows_with t id xs
unfolding count_active_sessions_by_tenant update_where filter rows_with
count-set_running-le t id now [] = omega arith
count-set_running-le t id now (x ∷ xs) = ground (arith, count-set_running-le t id now xs)

pub rows_with_fresh :
    (t id : String) (xs : List Session) → any (has_id id) xs ≡ false → rows_with t id xs ≡ 0
unfolding rows_with any
rows_with_fresh t id [] h = refl
rows_with_fresh t id (x ∷ xs) h = ground (arith, rows_with_fresh t id xs)

-- A new row is pending.
pub count-append_pending :
    (t : String) (xs : List Session) (s : Session)
    → s.status ≡ pending
    → count_active_sessions_by_tenant t (xs ++ (s ∷ [])) ≡ count_active_sessions_by_tenant t xs
unfolding count_active_sessions_by_tenant filter
count-append_pending t [] s h = ground arith
count-append_pending t (x ∷ xs) s h = ground (arith, count-append_pending t xs s h)

pub rows_with-append :
    (t id : String) (xs : List Session) (s : Session)
    → rows_with t id (xs ++ (s ∷ [])) ≤ rows_with t id xs + (if s.tenant_id == t then 1 else 0)
unfolding rows_with
rows_with-append t id [] s = ground arith
rows_with-append t id (x ∷ xs) s = ground (arith, rows_with-append t id xs s)
