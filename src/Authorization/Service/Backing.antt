-- ===== src/Authorization/Service/Backing.antt =====
-- Every active assignment names a role that the tenant has: what a step of each kind on the rows
-- does to this.
pub mod Steps
pub mod Kept
use gcdr.Authorization.Data.{Role, RoleAssignment, active, inactive}
use gcdr.Base.{
  Elem-append_left, sym, Elem-filter_complete, ◌∙◌, Bool-cases, ap, Elem-filter_sound,
  Elem-append_cases, if◌then◌else◌, List, [], ◌∷◌, ◌++◌, Bool, true, ◌≡◌, ◌≢◌, ◌⊎◌, inl, inr, arith,
  Elem, filter,
}
use gcdr.Base.Rows.{Elem-update_where, Elem-update_where_inv, update_where}

pub record IsBacked (roles : List Role) (assignments : List RoleAssignment) : Type 0 where
  -- The id is the primary key.
  pub unique_ids : (r s : Role) → Elem r roles → Elem s roles → r.id ≡ s.id → r ≡ s
  pub backed :
      (a : RoleAssignment)
      → Elem a assignments
      → a.status ≡ active
      → (r : Role) × Elem r roles × (r.tenant_id ≡ a.tenant_id) × (r.key ≡ a.role_key)

module _ (roles : List Role) (assignments : List RoleAssignment)
    (h : IsBacked roles assignments) where
  pub IsBacked-insert_role :
      (new : Role)
      → ((r : Role) → Elem r roles → r.id ≢ new.id)
      → IsBacked (roles ++ new ∷ []) assignments
  IsBacked-insert_role new fresh = record {
    unique_ids = λ r s mr ms e. elim (Elem-append_cases r roles _ mr) [
      | inl old_r ↦ elim (Elem-append_cases s roles _ ms) [
        | inl old_s ↦ h.unique_ids r s old_r old_s e
        | inr new_s ↦ elim new_s [
          | inl same ↦ absurd (fresh r old_r (e ∙ ap (λ (t : Role). t.id) same))
          | inr nowhere ↦ absurd nowhere
        ]
      ]
      | inr new_r ↦ elim new_r [
        | inl same ↦ elim (Elem-append_cases s roles _ ms) [
          | inl old_s ↦ absurd (fresh s old_s (sym e ∙ ap (λ (t : Role). t.id) same))
          | inr new_s ↦ elim new_s [ inl same' ↦ same ∙ sym same' | inr nowhere ↦ absurd nowhere ]
        ]
        | inr nowhere ↦ absurd nowhere
      ]
    ];
    backed = λ a m live.
        let (r, mr, tenant, key) = h.backed a m live in
        (r, Elem-append_left r roles (new ∷ []) mr, tenant, key);
  }

  pub IsBacked-update_roles :
      (test : Role → Bool) (f : Role → Role)
      → ((r : Role) → (f r).id ≡ r.id)
      → ((r : Role) → (f r).tenant_id ≡ r.tenant_id)
      → ((r : Role) → (f r).key ≡ r.key)
      → IsBacked (update_where test f roles) assignments
  IsBacked-update_roles test f same_id same_tenant same_key = record {
    unique_ids = λ r s mr ms e.
        let (r0, mr0, er) = Elem-update_where_inv test f r roles mr in
        let (s0, ms0, es) = Elem-update_where_inv test f s roles ms in
        let same = h.unique_ids r0 s0 mr0 ms0 (
          sym (id_kept r0)
          ∙ sym (ap (λ (t : Role). t.id) er)
          ∙ e
          ∙ ap (λ (t : Role). t.id) es
          ∙ id_kept s0) in
        er ∙ ap step same ∙ sym es;
    backed = λ a m live.
        let (r, mr, tenant, key) = h.backed a m live in
        (step r, Elem-update_where test f r roles mr, tenant_kept r ∙ tenant, key_kept r ∙ key);
  }
    where
      step : Role → Role
      step r = if test r then f r else r

      id_kept : (r : Role) → (step r).id ≡ r.id
      id_kept r = ground (arith, same_id r)

      tenant_kept : (r : Role) → (step r).tenant_id ≡ r.tenant_id
      tenant_kept r = ground (arith, same_tenant r)

      key_kept : (r : Role) → (step r).key ≡ r.key
      key_kept r = ground (arith, same_key r)

  pub IsBacked-filter_roles :
      (keep : Role → Bool)
      → ((a : RoleAssignment) (r : Role)
          → Elem a assignments
          → a.status ≡ active
          → Elem r roles
          → r.tenant_id ≡ a.tenant_id
          → r.key ≡ a.role_key
          → keep r ≡ true)
      → IsBacked (filter keep roles) assignments
  IsBacked-filter_roles keep kept = record {
    unique_ids = λ r s mr ms e.
        h.unique_ids r s (Elem-filter_sound keep r roles mr).0 (Elem-filter_sound keep s roles ms).0
          e;
    backed = λ a m live.
        let (r, mr, tenant, key) = h.backed a m live in
        (r, Elem-filter_complete keep r roles mr (kept a r m live mr tenant key), tenant, key);
  }

  pub IsBacked-insert_assignment :
      (new : RoleAssignment) (role : Role)
      → Elem role roles
      → role.tenant_id ≡ new.tenant_id
      → role.key ≡ new.role_key
      → IsBacked roles (assignments ++ new ∷ [])
  IsBacked-insert_assignment new role member tenant key = record {
    unique_ids = h.unique_ids;
    backed = λ a m live. elim (Elem-append_cases a assignments _ m) [
      | inl old ↦ h.backed a old live
      | inr last ↦ elim last [
        | inl same ↦ (
          role,
          member,
          tenant ∙ sym (ap (λ (b : RoleAssignment). b.tenant_id) same),
          key ∙ sym (ap (λ (b : RoleAssignment). b.role_key) same),
        )
        | inr nowhere ↦ absurd nowhere
      ]
    ];
  }

  pub IsBacked-deactivate :
      (test : RoleAssignment → Bool) (f : RoleAssignment → RoleAssignment)
      → ((a : RoleAssignment) → (f a).status ≡ inactive)
      → IsBacked roles (update_where test f assignments)
  IsBacked-deactivate test f off = record {
    unique_ids = h.unique_ids;
    backed = λ a m live.
        let (b, mb, e) = Elem-update_where_inv test f a assignments m in
        let (untouched, same) = unmoved a b e live in
        let (r, mr, tenant, key) = h.backed b mb untouched in
        (
          r,
          mr,
          tenant ∙ sym (ap (λ (c : RoleAssignment). c.tenant_id) same),
          key ∙ sym (ap (λ (c : RoleAssignment). c.role_key) same),
        );
  }
    where
      unmoved :
          (a b : RoleAssignment)
          → a ≡ (if test b then f b else b)
          → a.status ≡ active
          → (b.status ≡ active) × (a ≡ b)
      unmoved a b e live = elim (Bool-cases (test b)) [
        | inl hit ↦ absurd (cc (off b, rw hit at e, live))
        | inr miss ↦ let same = rw miss at e in (cc same, same)
      ]
