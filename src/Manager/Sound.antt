-- ===== src/Manager/Sound.antt =====
-- The transactions of manager.go, and the administrator that a bootstrapped tenant has.
use amsonia_core.Base.{
  ℕ, ◌≡◌, refl, sym, subst, ◌∙◌, ap, List, [], ◌∷◌, true, false, map, Bool-cases, inl, inr, arith,
}
use amsonia_core.Base.Sort.{sort_by, sort_by-nil}
use amsonia_core.Base.Maps.{contains, values}
use amsonia_core.Text.{Text, text_key, is_empty}
use amsonia_core.Types.Errors.{ok, conflict, require, Result-cases}
use amsonia_core.Types.Records.{Principal, MutationMetadata, RolePermissionGrant, SubjectRoleGrant}
use amsonia_core.Types.Ids.{validate_opaque_id}
use amsonia_core.Store.{lift, ◌>>=◌}
use amsonia_core.Store.Steps.{
  bind-ok, lift-ok, Takes, Takes-bind, Keeps, Keeps-bind, Keeps-if, Keeps-pure, Keeps-lift,
  Keeps-change, Yields-bind,
}
use amsonia_core.Memory.{memory_tx}
use amsonia_core.Memory.State.{clone_grant, TenantState, inner}
use amsonia_core.Memory.Reader.{
  grant_before, get_role, list_role_permission_grants, has_grant_path, has_administrator,
}
use amsonia_core.Memory.Administrator.Defs.{IsValidGrant, IsValidState}
use amsonia_core.Memory.Administrator.Valid.{
  delete_role_permission_grant-idle, delete_subject_role_grant-idle,
  delete_role_permission_grant-IsValidState, delete_subject_role_grant-IsValidState,
}
use amsonia_core.Memory.Administrator.Justified.{has_administrator-Administers}
use amsonia_core.Memory.Administrator.Sound.{
  IsSound, insert_role-IsSound, update_role-IsSound, insert_role_permission_grant-IsSound,
  insert_subject_role_grant-IsSound, insert_grant_edge-IsSound, delete_grant_edge-IsSound,
  tombstone_role-IsSound, insert_role_version-IsSound, insert_mutation_audit-IsSound,
}
use amsonia_core.Manager.{Manager, Readings, Target}
use amsonia_core.Manager.Inputs.{AssignRoleInput, DeleteRoleInput}
use amsonia_core.Manager.Roles.{delete_role_body}
use amsonia_core.Manager.Guards.{guard_last_administrator}
use amsonia_core.Manager.Grants.{revoke_permission_body}
use amsonia_core.Manager.Assignments.{
  bound, refuse_cycle, delete_edge_of, assign_role_body, unassign_role_body,
}
use amsonia_core.Manager.Frame.{
  Growth, require_grant-Keeps, require_role_coverage-Keeps, current_role-Yields, no_change-Keeps,
  new_version-Keeps,
}

map_nil : {A B : Type 0} (f : A → B) (xs : List A) → map f xs ≡ [] → xs ≡ []
map_nil f [] e = refl
map_nil f (x ∷ xs) e = cc

is_empty-nil : {A : Type 0} (xs : List A) → is_empty xs ≡ true → xs ≡ []
is_empty-nil [] e = refl
is_empty-nil (x ∷ xs) e = cc

-- Where the list of a role's grants is empty, the role has none.
no_grants :
    (role_id : Text) (grants : List RolePermissionGrant) (s s' : TenantState)
    → memory_tx.list_role_permission_grants role_id s ≡ ok (grants, s')
    → require (is_empty grants) conflict ≡ ok tt
    → (values (inner role_id s.role_perms) ≡ []) × (s ≡ s')
unfolding list_role_permission_grants
no_grants role_id grants s s' e emptied =
    let held = values (inner role_id s.role_perms) in
    elim (Bool-cases (contains role_id s.roles)) [
      | inr missing ↦ absurd (ground (arith, missing))
      | inl there ↦
          let sorted : sort_by grant_before (map clone_grant held) ≡ grants =
            ground (arith, there) in
          (
            map_nil clone_grant held (
                sort_by-nil grant_before (map clone_grant held)
                  (sorted ∙ is_empty-nil grants (ground arith))),
            ground (arith, there),
          )
    ]

module _ (m : Manager) where
  abbrev Sound : TenantState → Type 0
  Sound = IsSound m.controls

  pub Sound-Growth : Growth Sound IsValidGrant memory_tx
  unfolding get_role list_role_permission_grants has_grant_path has_administrator
  Sound-Growth = record {
    effective = λ x y s a s' e h. subst Sound (ground (arith, e)) h;
    role = λ x s a s' e h. subst Sound (ground (arith, e)) h;
    role_grants = λ x s a s' e h. subst Sound (ground (arith, e)) h;
    role_subjects = λ x s a s' e h. subst Sound (ground (arith, e)) h;
    path = λ x y s a s' e h. subst Sound (ground (arith, e)) h;
    administrator = λ c s a s' e h. subst Sound (ground (arith, e)) h;
    new_role = insert_role-IsSound m.controls;
    updated_role = update_role-IsSound m.controls;
    new_grant = insert_role_permission_grant-IsSound m.controls;
    version = insert_role_version-IsSound m.controls;
    audit = insert_mutation_audit-IsSound m.controls;
  }

  -- Whatever was taken away before it, the guard lets only a tenant with an administrator pass.
  guard-Takes : Takes IsValidState Sound (guard_last_administrator memory_tx m)
  unfolding guard_last_administrator ◌>>=◌ lift
  guard-Takes s a s' e h = elim (Result-cases (has_administrator s m.controls)) [
    | inr (x, f) ↦ absurd (ground (arith, e, f))
    | inl (b, f) ↦
        let yes_said : has_administrator s m.controls ≡ ok true = ground (arith, e, f) in
        subst Sound (ground (arith, e, f)) (record {
          valid = h;
          administered = λ marked. has_administrator-Administers s m.controls yes_said;
        })
  ]

  module _ (t : Readings) where
    bound-Keeps :
        (actor : Principal) (meta : MutationMetadata) (target : Target) (version : ℕ)
        → Keeps Sound (bound memory_tx m t actor meta target version)
    unfolding bound
    bound-Keeps actor meta target version =
        Keeps-bind Sound _ _ (Sound-Growth.audit _) λ _. Keeps-pure Sound _

    delete_edge_of-Keeps :
        (actor : Principal) (input : AssignRoleInput) (removed : SubjectRoleGrant)
        → Keeps Sound (delete_edge_of memory_tx m t actor input removed)
    unfolding delete_edge_of
    delete_edge_of-Keeps actor input removed =
        Keeps-if Sound _ _ _ (delete_grant_edge-IsSound m.controls _) (Keeps-pure Sound tt)

    refuse_cycle-Keeps :
        (actor : Principal) (subject_id : Text)
        → Keeps Sound (refuse_cycle memory_tx m t actor subject_id)
    unfolding refuse_cycle
    refuse_cycle-Keeps actor subject_id =
        Keeps-if Sound _ _ _ (Keeps-pure Sound tt)
          (Keeps-bind Sound _ _ (Sound-Growth.path _ _) λ _. Keeps-lift Sound _)

    pub assign_role_body-IsSound :
        (actor : Principal) (meta : MutationMetadata) (input : AssignRoleInput)
        → validate_opaque_id input.subject_id ≡ ok tt
        → Keeps Sound (assign_role_body memory_tx m t actor meta input)
    unfolding assign_role_body
    assign_role_body-IsSound actor meta input good =
        Keeps-bind Sound _ _
          (require_grant-Keeps Sound IsValidGrant memory_tx Sound-Growth m actor _ _ _ _)
          λ _.
            Yields-bind Sound (λ r. r.deleted ≡ false) _ _
              (current_role-Yields Sound IsValidGrant memory_tx Sound-Growth m _ _)
              λ role live.
                Keeps-bind Sound _ _
                  (require_role_coverage-Keeps Sound IsValidGrant memory_tx Sound-Growth m actor _)
                  λ _. Keeps-bind Sound _ _ (refuse_cycle-Keeps actor _) λ _.
                    Keeps-bind Sound _ _ (insert_subject_role_grant-IsSound m.controls _ good)
                      λ changed.
                        Keeps-if Sound changed _ _
                          (Keeps-bind Sound _ _ (insert_grant_edge-IsSound m.controls _)
                            λ _. bound-Keeps actor meta _ _)
                          (no_change-Keeps Sound IsValidGrant memory_tx Sound-Growth m t actor meta
                            _ _)

    pub unassign_role_body-IsSound :
        (actor : Principal) (meta : MutationMetadata) (input : AssignRoleInput)
        → validate_opaque_id input.subject_id ≡ ok tt
        → Keeps Sound (unassign_role_body memory_tx m t actor meta input)
    unfolding unassign_role_body
    unassign_role_body-IsSound actor meta input good =
        Keeps-bind Sound _ _
          (require_grant-Keeps Sound IsValidGrant memory_tx Sound-Growth m actor _ _ _ _)
          λ _.
            Yields-bind Sound (λ r. r.deleted ≡ false) _ _
              (current_role-Yields Sound IsValidGrant memory_tx Sound-Growth m _ _)
              λ role live.
                Keeps-bind Sound _ _
                  (require_role_coverage-Keeps Sound IsValidGrant memory_tx Sound-Growth m actor _)
                  λ _.
                    Keeps-change Sound IsValidState _ (λ removal. removal.1) _ _
                      (λ s a s' e h.
                        delete_subject_role_grant-IsValidState input.subject_id input.role_id good s
                          a s' e h.valid)
                      (delete_subject_role_grant-idle input.subject_id input.role_id)
                      (λ removal. Takes-bind IsValidState Sound Sound _ _ guard-Takes λ _.
                        Keeps-bind Sound _ _ (delete_edge_of-Keeps actor input removal.0)
                          λ _. bound-Keeps actor meta _ _)
                      (λ removal.
                        no_change-Keeps Sound IsValidGrant memory_tx Sound-Growth m t actor meta _
                          _)

    pub revoke_permission_body-IsSound :
        (actor : Principal) (meta : MutationMetadata) (grant : RolePermissionGrant) (expected : ℕ)
        → Keeps Sound (revoke_permission_body memory_tx m t actor meta grant expected)
    unfolding revoke_permission_body
    revoke_permission_body-IsSound actor meta grant expected =
        Keeps-bind Sound _ _
          (require_grant-Keeps Sound IsValidGrant memory_tx Sound-Growth m actor _ _ _ _)
          λ _.
            Yields-bind Sound (λ r. r.deleted ≡ false) _ _
              (current_role-Yields Sound IsValidGrant memory_tx Sound-Growth m _ _)
              λ role live.
                Keeps-change Sound IsValidState _ (λ changed. changed) _ _
                  (λ s a s' e h. delete_role_permission_grant-IsValidState grant s a s' e h.valid)
                  (delete_role_permission_grant-idle grant)
                  (λ changed. Takes-bind IsValidState Sound Sound _ _ guard-Takes λ _.
                    new_version-Keeps Sound IsValidGrant memory_tx Sound-Growth m t actor meta _
                      role live)
                  (λ changed.
                    no_change-Keeps Sound IsValidGrant memory_tx Sound-Growth m t actor meta _ _)

    pub delete_role_body-IsSound :
        (actor : Principal) (meta : MutationMetadata) (input : DeleteRoleInput)
        → Keeps Sound (delete_role_body memory_tx m t actor meta input)
    unfolding delete_role_body
    delete_role_body-IsSound actor meta input =
        Keeps-bind Sound _ _
          (require_grant-Keeps Sound IsValidGrant memory_tx Sound-Growth m actor _ _ _ _)
          λ _.
            Yields-bind Sound (λ r. r.deleted ≡ false) _ _
              (current_role-Yields Sound IsValidGrant memory_tx Sound-Growth m _ _)
              λ role live s a s' e h.
                let (grants, s1, listed, e1) = bind-ok _ _ e in
                let (u, s2, emptied, e2) = bind-ok _ _ e1 in
                let (subjects, s3, looked, e3) = bind-ok _ _ e2 in
                let (v, s4, unbound, e4) = bind-ok _ _ e3 in
                let (w, s5, gone, e5) = bind-ok _ _ e4 in
                let bare = no_grants role.role_id grants s s1 listed (lift-ok _ emptied).0 in
                let s_s4 : s ≡ s4 =
                  ground (arith, bare.1, lift-ok _ emptied, looked, lift-ok _ unbound) in
                Keeps-bind Sound _ _ (Sound-Growth.version _)
                  (λ _. Keeps-bind Sound _ _ (Sound-Growth.audit _) λ _. Keeps-pure Sound _) s5 a s'
                  e5
                  (tombstone_role-IsSound m.controls role.role_id input.expected_version s4
                    (ap (λ z. values (inner role.role_id z.role_perms)) (sym s_s4) ∙ bare.0) gone
                    (subst Sound s_s4 h))
