-- ===== src/Memory/Administrator/Additions.antt =====
-- The grants and bindings that memory.go adds, and what the subjects wield after.
use amsonia_core.Base.{
  ◌≡◌, ◌≢◌, inl, inr, refl, sym, subst, ◌∙◌, ap, [], Bool, true, false, Some, In, is_yes,
  if◌then◌else◌, none, some, Option-cases, Bool-cases, arith,
}
use amsonia_core.Base.Maps.{
  Map, keys, values, lookup, contains, insert, lookup-insert, Some-insert, Some-insert_self,
  Some-values, values-Some, lookup-Some, lookup-In, In-insert,
}
use amsonia_core.Text.{Text, text_key, text_dec}
use amsonia_core.Types.Errors.{ok}
use amsonia_core.Types.Records.{RolePermissionGrant, SubjectRoleGrant}
use amsonia_core.Memory.State.{TenantState, GrantKey, grant_key_key, clone_grant, inner}
use amsonia_core.Memory.Writer.{
  put_grant, insert_role_permission_grant, insert_subject_role_grant, key_of,
}
use amsonia_core.Memory.Administrator.Defs.{Gives}
use amsonia_core.Memory.Administrator.Extends.{Extends, Extends-same, Holds, Binds, Bound}

module _ (s s' : TenantState) (grant : RolePermissionGrant) where
  abbrev Grants : Type 0
  Grants = Map GrantKey RolePermissionGrant

  -- What the write of a grant did: nothing, as the key was there, or one new entry.
  pub data Written : Bool → Type 0 where
    already :
        (w : RolePermissionGrant)
        → s ≡ s'
        → lookup (key_of grant) (inner grant.role_id s.role_perms) ≡ some w
        → Written false
    fresh :
        (grants : Grants)
        → lookup grant.role_id s.role_perms ≡ some grants
        → lookup (key_of grant) grants ≡ none
        → record s {
          role_perms =
              insert grant.role_id (insert (key_of grant) (clone_grant grant) grants) s.role_perms;
        }
          ≡ s'
        → Written true

  pub insert_role_permission_grant-Written :
      {b : Bool} → insert_role_permission_grant grant s ≡ ok (b, s') → Written b
  unfolding insert_role_permission_grant put_grant contains
  insert_role_permission_grant-Written {b} e = elim (Option-cases (lookup grant.role_id s.roles)) [
    | inl missing ↦ absurd (ground (arith, missing))
    | inr (role, found) ↦ elim (Bool-cases role.deleted) [
      | inl dead ↦ absurd (ground (arith, found, dead))
      | inr live ↦ elim (Option-cases (lookup grant.role_id s.role_perms)) [
        | inl nil ↦ absurd (ground (arith, found, live, nil))
        | inr (grants, held) ↦ elim (Option-cases (lookup (key_of grant) grants)) [
          | inl new ↦
              subst Written (ground (arith, found, live, held, new))
                (fresh grants held new (ground (arith, found, live, held, new)))
          | inr (w, old) ↦
              subst Written (ground (arith, found, live, held, old))
                (already w (ground (arith, found, live, held, old)) (ground (arith, held, old)))
        ]
      ]
    ]
  ]

  Holds-fresh :
      (grants : Grants)
      → lookup grant.role_id s.role_perms ≡ some grants
      → (p r : Text)
      → (grant.role_id ≡ r
          → Some (λ e. Gives p e.1) (insert (key_of grant) (clone_grant grant) grants))
      → (grant.role_id ≢ r → Holds p r s.role_perms)
      → Holds p r
          (insert grant.role_id (insert (key_of grant) (clone_grant grant) grants) s.role_perms)
  Holds-fresh grants held p r there elsewhere =
      let more = insert (key_of grant) (clone_grant grant) grants in
      subst (λ o. Some (Gives p) (values (elim o as (λ x. Grants) [ none ↦ [] | some n ↦ n ])))
        (sym (lookup-insert grant.role_id r more s.role_perms))
        (elim (text_dec grant.role_id r)
          as (λ d. Some (Gives p) (
            values (elim (if is_yes d then some more else lookup r s.role_perms) as (λ x. Grants) [
              | none ↦ []
              | some n ↦ n
            ]))) [
              | yes same ↦ values-Some (Gives p) more (there same)
              | no other ↦ elsewhere other
            ])

  pub Written-Extends : {b : Bool} → Written b → Extends s s'
  Written-Extends (already w same old) = subst (Extends s) same (Extends-same s s refl refl refl)
  Written-Extends (fresh grants held new same) =
      let more = insert (key_of grant) (clone_grant grant) grants in
      let perms = insert grant.role_id more s.role_perms in
      subst (Extends s) same (record {
        live = λ r h. h;
        holds = λ p r l h.
            Holds-fresh grants held p r
              (λ here.
                Some-insert (λ k g. Gives p g) (key_of grant) (clone_grant grant) grants
                  (λ w old given. ground (arith, new, old))
                  (Some-values (Gives p) grants (
                    subst
                      (λ o.
                        Some (Gives p)
                          (values (elim o as (λ x. Grants) [ none ↦ [] | some n ↦ n ])))
                      (ap (λ x. lookup x s.role_perms) (sym here) ∙ held) h)))
              (λ other. h);
        bound = λ x r h. h;
      })

inner-Binds :
    (x r : Text) (m : Map Text (Map Text SubjectRoleGrant)) {g : SubjectRoleGrant}
    → lookup r (inner x m) ≡ some g
    → Binds x r m
unfolding lookup
inner-Binds x r m {g} e = elim (Option-cases (lookup x m)) [
  | inl nil ↦ absurd (ground (arith, nil))
  | inr (bindings, found) ↦
      lookup-Some (λ k b. (k ≡ x) × In (keys b) r) x m found
        (refl, lookup-In r bindings {v = g} (ground (arith, found)))
]

module _ (s s' : TenantState) (grant : SubjectRoleGrant) where
  -- A binding that is written, or that was there, is there after.
  pub insert_subject_role_grant-Binds :
      {b : Bool}
      → insert_subject_role_grant grant s ≡ ok (b, s')
      → Extends s s' × Bound s' grant.subject_id grant.role_id
  unfolding insert_subject_role_grant contains
  insert_subject_role_grant-Binds {b} e =
      let held = inner grant.subject_id s.subject_roles in
      let more = insert grant.role_id grant held in
      elim (Option-cases (lookup grant.role_id s.roles)) [
        | inl missing ↦ absurd (ground (arith, missing))
        | inr (role, found) ↦ elim (Option-cases (lookup grant.role_id held)) [
          | inr (old, there) ↦
              let same : s ≡ s' = ground (arith, found, there) in
              (
                subst (Extends s) same (Extends-same s s refl refl refl),
                subst (λ z. Bound z grant.subject_id grant.role_id) same
                    (inner-Binds grant.subject_id grant.role_id s.subject_roles there),
              )
          | inl new ↦
              let same : record s { subject_roles = insert grant.subject_id more s.subject_roles }
                  ≡ s' =
                ground (arith, found, new) in
              subst (λ z. Extends s z × Bound z grant.subject_id grant.role_id) same
                (
                  record {
                    live = λ r h. h;
                    holds = λ p r l h. h;
                    bound = λ x r h.
                        Some-insert (λ k m. (k ≡ x) × In (keys m) r) grant.subject_id more
                          s.subject_roles
                          (λ w found w_binds. (
                            w_binds.0,
                            In-insert grant.role_id r grant held (
                                inr (
                                  subst
                                    (λ o.
                                      In
                                        (keys (elim o as (λ y. Map Text SubjectRoleGrant) [
                                          | none ↦ []
                                          | some n ↦ n
                                        ]))
                                        r)
                                    (sym found) w_binds.1)),
                          ))
                          h;
                  },
                  Some-insert_self (λ k m. (k ≡ grant.subject_id) × In (keys m) grant.role_id)
                      grant.subject_id more s.subject_roles
                      (refl, In-insert grant.role_id grant.role_id grant held (inl refl)),
                )
        ]
      ]
