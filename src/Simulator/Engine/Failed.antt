-- ===== src/Simulator/Engine/Failed.antt =====
-- A session whose first bundle cannot be generated.
use gcdr.Base.{
  ℕ, ◌≡◌, refl, sym, ap, subst, ◌∙◌, String, Bool, false, none, some, List, [], ◌∷◌, ◌++◌,
  if◌then◌else◌, any, find, arith, eq_refl,
}
use gcdr.Base.Dict.{lookup, lookup-insert_self}
use gcdr.Base.Errors.{is_ok}
use gcdr.Base.Rows.{rewrite, option_map, update_where, find-update_where, find-append_missing}
use gcdr.Simulator.Data.{broken, Session, Config, valid, ActiveSession, Engine, SimulatorEnv}
use gcdr.Simulator.Quotas.{get_quotas_for_tenant, validate_new_session}
use gcdr.Simulator.Rows.{
  has_id, get_session_by_id_internal, count_active_sessions_by_tenant, set_broken,
}
use gcdr.Simulator.Engine.Service.{
  fetch_bundle, initialize_session, admitted, start_session, session_for, entry_for,
}

find_missing : {A : Type 0} (p : A → Bool) (xs : List A) → any p xs ≡ false → find p xs ≡ none
unfolding find any
find_missing p [] h = refl
find_missing p (x ∷ xs) h = ground (arith, find_missing p xs)

module _ {V : Type 0} where
  -- What is left behind: the row is in error, the entry without timers is among the active ones.
  abbrev pub LeftBehind : String → Engine V → Type 0
  LeftBehind id f =
      ((s : Session) × (get_session_by_id_internal id f.sessions ≡ some s) × (s.status ≡ broken))
      × ((a : ActiveSession) × (lookup id f.active ≡ some a) × (a.timers ≡ false))

  failed_row :
      (now : ℕ) (s : Session) (e : Engine V)
      → any (has_id s.id) e.sessions ≡ false
      → find (has_id s.id) (update_where (has_id s.id) (set_broken now) (e.sessions ++ (s ∷ [])))
        ≡ some (set_broken now s)
  unfolding find
  failed_row now s e fresh =
      find-update_where (has_id s.id) (has_id s.id) (set_broken now) (e.sessions ++ (s ∷ []))
        (λ r. refl)
      ∙ ap (option_map (rewrite (has_id s.id) (set_broken now))) (
          find-append_missing (has_id s.id) e.sessions (s ∷ [])
            (find_missing (has_id s.id) e.sessions fresh))
      ∙ ap (λ b. option_map (rewrite (has_id s.id) (set_broken now)) (if b then some s else none))
          (eq_refl s.id)
      ∙ ap (λ b. some (if b then set_broken now s else s)) (eq_refl s.id)

  admitted-fails :
      (env : SimulatorEnv V) (s : Session) (e : Engine V)
      → any (has_id s.id) e.sessions ≡ false
      → env.generate s.tenant_id s.customer_id ≡ none
      → (is_ok (admitted env valid s e).0 ≡ false) × LeftBehind s.id (admitted env valid s e).1
  unfolding initialize_session fetch_bundle
  admitted-fails env s e fresh no_bundle =
      rw (fresh, no_bundle)
        (
          refl,
          (
            (set_broken env.now s, failed_row env.now s e fresh, refl),
            (entry_for env.now s false, lookup-insert_self s.id _ e.active, refl),
          ),
        )

  -- If the bundle cannot be generated, an admitted request fails with an error and its row is set to
  -- ERROR, yet the session stays among the active ones, with no timer that would ever end it.
  pub start_session-fails :
      (env : SimulatorEnv V) (tenant customer created_by name : String) (config : Config)
      (e : Engine V)
      → validate_new_session
          (get_quotas_for_tenant tenant)
          (count_active_sessions_by_tenant tenant e.sessions)
          config
        ≡ valid
      → any (has_id env.new_id) e.sessions ≡ false
      → env.generate tenant customer ≡ none
      → (is_ok (start_session env tenant customer created_by name config e).0 ≡ false)
        × LeftBehind env.new_id (start_session env tenant customer created_by name config e).1
  unfolding start_session
  start_session-fails env tenant customer created_by name config e v fresh no_bundle =
      subst
        (λ w.
          (is_ok (admitted env w (session_for env tenant customer created_by name config) e).0
            ≡ false)
          × LeftBehind env.new_id
              (admitted env w (session_for env tenant customer created_by name config) e).1)
        (sym v)
        (admitted-fails env (session_for env tenant customer created_by name config) e fresh
          no_bundle)
