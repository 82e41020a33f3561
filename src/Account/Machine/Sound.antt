-- ===== src/Account/Machine/Sound.antt =====
-- Every step keeps all users of the tenant sound.
use mathlib.Core.Option.{some-injective}
use gcdr.Base.{
  find_sound, Option-cases, eq_refl, eq_iff, &&_iff, Elem-append_cases, [], subst, sym, ◌∷◌, ◌++◌,
  none, false, ◌≢◌, some, refl, ap, ◌∙◌, ◌≡◌, inl, inr, String, List, Bool, Elem, find, Bool-cases,
}
use gcdr.Base.Rows.{
  find-append_missing, find-append_found, Elem-update_where_inv, update_where, rewrite,
  find-update_where, option_map,
}
use gcdr.Account.Data.{unverified, User, Env}
use gcdr.Account.Users.{is_user, has_email}
use gcdr.Account.Machine.{
  stay, then_step, Journey, Allowed-IsVetted, changing, registering, Allowed-keeps, Allowed, Step,
  IsVetted, IsSound, IsSoundUser,
}

abbrev pub Keeps : (User → User) → Type 0
Keeps f = (u : User) → ((f u).tenant_id ≡ u.tenant_id) × ((f u).id ≡ u.id) × ((f u).email ≡ u.email)

rewrite-Keeps : (test : User → Bool) (f : User → User) → Keeps f → Keeps (rewrite test f)
rewrite-Keeps test f keeps u = elim (Bool-cases (test u)) [
  | inl e ↦ rw e (keeps u)
  | inr e ↦ rw e (refl, refl, refl)
]

module _ (env : Env) (users : List User) where
  -- What rewriting does to the row that an id or an email finds.
  pub find_id-rewrite :
      (test : User → Bool) (f : User → User) (id : String)
      → Keeps f
      → find (is_user env id) (update_where test f users)
        ≡ option_map (rewrite test f) (find (is_user env id) users)
  find_id-rewrite test f id keeps =
      find-update_where _ test f users (λ x. let (t, i, _) = keeps x in rw (t, i) refl)

  pub find_email-rewrite :
      (test : User → Bool) (f : User → User) (email : String)
      → Keeps f
      → find (has_email env email) (update_where test f users)
        ≡ option_map (rewrite test f) (find (has_email env email) users)
  find_email-rewrite test f email keeps =
      find-update_where _ test f users (λ x. let (t, _, m) = keeps x in rw (t, m) refl)

  module _ (sound : IsSound env users) where
    rewritten :
        (test : User → Bool) (f : User → User) (u : User)
        → Keeps f
        → Elem u users
        → u.tenant_id ≡ env.tenant_id
        → IsVetted (rewrite test f u)
        → IsSoundUser env (update_where test f users) (rewrite test f u)
    rewritten test f u keeps member tenant vetted =
        let (_, same_id, same_email) = rewrite-Keeps test f keeps u in
        let was = sound u member tenant in
        record {
          by_id =
              rw same_id
                (find_id-rewrite test f u.id keeps ∙ ap (option_map (rewrite test f)) was.by_id);
          by_email = rw same_email (
              find_email-rewrite test f u.email keeps
              ∙ ap (option_map (rewrite test f)) was.by_email);
          vetted = vetted;
        }

    changing-IsSound :
        (id : String) (old : User) (change : User → User → User)
        → find (is_user env id) users ≡ some old
        → Allowed env old change
        → IsSound env (update_where (is_user env id) (change old) users)
    changing-IsSound id old change found allowed u' member tenant =
        let ours = is_user env id in
        let keeps = Allowed-keeps env old change allowed in
        let (u, was_member, e) = Elem-update_where_inv ours (change old) u' users member in
        let (t, _, _) = rewrite-Keeps ours (change old) keeps u in
        let was_tenant = sym t ∙ sym (ap (λ (x : User). x.tenant_id) e) ∙ tenant in
        let was = sound u was_member was_tenant in
        subst (λ x. IsSoundUser env (update_where ours (change old) users) x) (sym e)
          (rewritten ours (change old) u keeps was_member was_tenant (elim (Bool-cases (ours u)) [
            | inl hit ↦
                let (_, same_id) = (&&_iff _ _).0 hit in
                let here =
                  subst (λ i. find (is_user env i) users ≡ some old)
                    (sym ((eq_iff u.id id).0 same_id)) found in
                let same = some-injective u old (sym was.by_id ∙ here) in
                rw hit (
                  subst (λ x. IsVetted (change old x)) (sym same)
                    (Allowed-IsVetted env old change allowed (subst IsVetted same was.vetted)))
            | inr other ↦ rw other was.vetted
          ]))

    registering-IsSound :
        (new : User)
        → new.status ≡ unverified
        → new.email_verified ≡ false
        → new.tenant_id ≡ env.tenant_id
        → new.id ≡ env.user_id
        → find (has_email env new.email) users ≡ none
        → ((u : User) → Elem u users → u.id ≢ env.user_id)
        → IsSound env (users ++ new ∷ [])
    unfolding find
    registering-IsSound new status verified new_tenant id free fresh u member tenant =
        elim (Elem-append_cases u users (new ∷ []) member) [
          | inl was_member ↦
              let was = sound u was_member tenant in
              record {
                by_id = find-append_found _ users _ u was.by_id;
                by_email = find-append_found _ users _ u was.by_email;
                vetted = was.vetted;
              }
          | inr is_new ↦ elim is_new [
            | inl e ↦
                subst (λ x. IsSoundUser env (users ++ new ∷ []) x) (sym e)
                  (record {
                    by_id =
                        find-append_missing _ users _ no_id
                        ∙ rw ((eq_iff _ _).1 new_tenant) (rw (eq_refl new.id));
                    by_email =
                        find-append_missing _ users _ free
                        ∙ rw ((eq_iff _ _).1 new_tenant) (rw (eq_refl new.email));
                    vetted = vetted_new new status verified;
                  })
            | inr nowhere ↦ absurd nowhere
          ]
        ]
      where
        no_id : find (is_user env new.id) users ≡ none
        no_id = elim (Option-cases (find (is_user env new.id) users)) [
          | inl missing ↦ missing
          | inr (v, found) ↦
              let (v_member, hit) = find_sound _ users found in
              let (_, same_id) = (&&_iff _ _).0 hit in
              absurd (fresh v v_member ((eq_iff _ _).0 same_id ∙ id))
        ]

        vetted_new : (x : User) → x.status ≡ unverified → x.email_verified ≡ false → IsVetted x
        vetted_new x s v = rw s v

    pub Step-IsSound : {after : List User} → Step env users after → IsSound env after
    Step-IsSound (registering new status verified tenant id free fresh) =
        registering-IsSound new status verified tenant id free fresh
    Step-IsSound (changing id old change found allowed) =
        changing-IsSound id old change found allowed

pub Journey-IsSound :
    (env : Env) (users : List User) {after : List User}
    → Journey env users after
    → IsSound env users
    → IsSound env after
Journey-IsSound env users stay sound = sound
Journey-IsSound env users (then_step {middle} journey step) sound =
    Step-IsSound env middle (Journey-IsSound env users journey sound) step
