-- ===== src/Memory/Administrator/Sound.antt =====
-- A bootstrapped tenant of memory.go with an administrator, under the writes of its transactions.
use amsonia_core.Base.{
  ℕ, Bool, ◌≡◌, sym, subst, ◌∙◌, ap, [], true, false, All, Option-cases, inl, inr, arith,
}
use amsonia_core.Base.Maps.{
  lookup-insert_ne, values, lookup, contains, insert, lookup-All, All-insert, All-values,
  values-All,
}
use amsonia_core.Text.{Text, text_key}
use amsonia_core.Types.Errors.{ok}
use amsonia_core.Types.Records.{
  next_version, Role, RolePermissionGrant, SubjectRoleGrant, RoleVersion, MutationAuditEvent,
  GrantEdge, ControlPermissions,
}
use amsonia_core.Types.Ids.{validate_opaque_id}
use amsonia_core.Store.Steps.{Keeps}
use amsonia_core.Memory.State.{TenantState, grant_key_key, edge_key_key, clone_grant, inner}
use amsonia_core.Memory.Writer.{
  tombstone_role, insert_role, update_role, insert_role_permission_grant, insert_subject_role_grant,
  insert_grant_edge, delete_grant_edge, insert_role_version, insert_mutation_audit, key_of,
}
use amsonia_core.Memory.Administrator.Defs.{Administers, IsValidGrant, IsValidState}
use amsonia_core.Memory.Administrator.Valid.{IsValidState-same}
use amsonia_core.Memory.Administrator.Extends.{
  Administers-but, Extends, Extends-same, Administers-mono, insert_role-Extends,
  update_role-Extends,
}
use amsonia_core.Memory.Administrator.Additions.{
  Written, already, fresh, insert_role_permission_grant-Written, Written-Extends,
  insert_subject_role_grant-Binds,
}

-- What is stored is valid, and a bootstrapped tenant has a subject that wields all three control
-- permissions.
pub record IsSound (controls : ControlPermissions) (s : TenantState) : Type 0 where
  pub valid : IsValidState s
  pub administered : s.bootstrapped ≡ true → (subject : Text) × Administers s controls subject

-- The copy has the same permission, scope and workspace roles.
clone_grant-IsValidGrant : (g : RolePermissionGrant) → IsValidGrant g → IsValidGrant (clone_grant g)
clone_grant-IsValidGrant g h = h

Written-IsValidState :
    (s s' : TenantState) (grant : RolePermissionGrant) {b : Bool}
    → IsValidGrant grant
    → Written s s' grant b
    → IsValidState s
    → IsValidState s'
Written-IsValidState s s' grant good (already w same old) h = subst IsValidState same h
Written-IsValidState s s' grant good (fresh grants held new same) h =
    let more = insert (key_of grant) (clone_grant grant) grants in
    subst IsValidState same (record {
      stored =
          All-insert (λ r m. All IsValidGrant (values m)) grant.role_id more s.role_perms h.stored
            (values-All IsValidGrant more (
              All-insert (λ k g. IsValidGrant g) (key_of grant) (clone_grant grant) grants
                (All-values IsValidGrant grants (
                  lookup-All (λ r m. All IsValidGrant (values m)) grant.role_id s.role_perms
                    h.stored held))
                (clone_grant-IsValidGrant grant good)));
      bound = h.bound;
    })

Written-marked :
    (s s' : TenantState) (grant : RolePermissionGrant) {b : Bool}
    → Written s s' grant b
    → s'.bootstrapped ≡ s.bootstrapped
Written-marked s s' grant (already w same old) = ap (λ z. z.bootstrapped) (sym same)
Written-marked s s' grant (fresh grants held new same) = ap (λ z. z.bootstrapped) (sym same)

binding-IsValidState :
    (grant : SubjectRoleGrant)
    → validate_opaque_id grant.subject_id ≡ ok tt
    → Keeps IsValidState (insert_subject_role_grant grant)
unfolding insert_subject_role_grant contains
binding-IsValidState grant good s a s' e h =
    let held = inner grant.subject_id s.subject_roles in
    let more = insert grant.role_id grant held in
    elim (Option-cases (lookup grant.role_id s.roles)) [
      | inl missing ↦ absurd (ground (arith, missing))
      | inr (role, found) ↦ elim (Option-cases (lookup grant.role_id held)) [
        | inr (old, there) ↦ subst IsValidState (ground (arith, found, there)) h
        | inl new ↦
            let subjects : insert grant.subject_id more s.subject_roles ≡ s'.subject_roles =
              ground (arith, found, new) in
            let perms : s.role_perms ≡ s'.role_perms = ground (arith, found, new) in
            record {
              stored = subst (All (λ e. All IsValidGrant (values e.1))) perms h.stored;
              bound = subst (All (λ e. validate_opaque_id e.0 ≡ ok tt)) subjects (
                  All-insert (λ k m. validate_opaque_id k ≡ ok tt) grant.subject_id more
                    s.subject_roles h.bound good);
            }
      ]
    ]

binding-marked :
    (grant : SubjectRoleGrant) (s : TenantState) (b : Bool) (s' : TenantState)
    → insert_subject_role_grant grant s ≡ ok (b, s')
    → s'.bootstrapped ≡ s.bootstrapped
unfolding insert_subject_role_grant contains
binding-marked grant s b s' e = elim (Option-cases (lookup grant.role_id s.roles)) [
  | inl missing ↦ absurd (ground (arith, missing))
  | inr (role, found) ↦
      elim (Option-cases (lookup grant.role_id (inner grant.subject_id s.subject_roles))) [
        | inr (old, there) ↦ ground (arith, found, there)
        | inl new ↦ ground (arith, found, new)
      ]
]

module _ (controls : ControlPermissions) where
  pub Extends-IsSound :
      (s s' : TenantState)
      → IsValidState s'
      → Extends s s'
      → s'.bootstrapped ≡ s.bootstrapped
      → IsSound controls s
      → IsSound controls s'
  Extends-IsSound s s' valid more same h = record {
    valid = valid;
    administered = λ e.
        let (subject, wields) = h.administered (sym same ∙ e) in
        (subject, Administers-mono s s' controls subject more wields);
  }

  pub IsSound-same :
      (s s' : TenantState)
      → s.roles ≡ s'.roles
      → s.role_perms ≡ s'.role_perms
      → s.subject_roles ≡ s'.subject_roles
      → s'.bootstrapped ≡ s.bootstrapped
      → IsSound controls s
      → IsSound controls s'
  IsSound-same s s' roles perms subjects marked h =
      Extends-IsSound s s' (IsValidState-same s s' perms subjects h.valid)
        (Extends-same s s' roles perms subjects) marked h

  pub insert_role-IsSound : (role : Role) → Keeps (IsSound controls) (insert_role role)
  unfolding insert_role contains
  insert_role-IsSound role s a s' e h =
      let perms : insert role.role_id [] s.role_perms ≡ s'.role_perms = ground arith in
      let subjects : s.subject_roles ≡ s'.subject_roles = ground arith in
      Extends-IsSound s s'
        (record {
          stored = subst (All (λ e. All IsValidGrant (values e.1))) perms (
              All-insert (λ r m. All IsValidGrant (values m)) role.role_id [] s.role_perms
                h.valid.stored tt);
          bound = subst (All (λ e. validate_opaque_id e.0 ≡ ok tt)) subjects h.valid.bound;
        })
        (insert_role-Extends s s' role e) (ground arith) h

  pub update_role-IsSound :
      (role : Role) (v : ℕ) → role.deleted ≡ false → Keeps (IsSound controls) (update_role role v)
  unfolding update_role
  update_role-IsSound role v live s a s' e h = elim (Option-cases (lookup role.role_id s.roles)) [
    | inl missing ↦ absurd (ground (arith, missing))
    | inr (existing, found) ↦
        Extends-IsSound s s'
          (IsValidState-same s s' (ground (arith, found)) (ground (arith, found)) h.valid)
          (update_role-Extends s s' role v live e) (ground (arith, found)) h
  ]

  pub insert_role_permission_grant-IsSound :
      (grant : RolePermissionGrant)
      → IsValidGrant grant
      → Keeps (IsSound controls) (insert_role_permission_grant grant)
  insert_role_permission_grant-IsSound grant good s a s' e h =
      let written = insert_role_permission_grant-Written s s' grant e in
      Extends-IsSound s s' (Written-IsValidState s s' grant good written h.valid)
        (Written-Extends s s' grant written) (Written-marked s s' grant written) h

  pub insert_subject_role_grant-IsSound :
      (grant : SubjectRoleGrant)
      → validate_opaque_id grant.subject_id ≡ ok tt
      → Keeps (IsSound controls) (insert_subject_role_grant grant)
  insert_subject_role_grant-IsSound grant good s a s' e h =
      Extends-IsSound s s' (binding-IsValidState grant good s a s' e h.valid)
        (insert_subject_role_grant-Binds s s' grant e).0 (binding-marked grant s a s' e) h

  pub insert_grant_edge-IsSound :
      (edge : GrantEdge) → Keeps (IsSound controls) (insert_grant_edge edge)
  unfolding insert_grant_edge
  insert_grant_edge-IsSound edge s a s' e h =
      IsSound-same s s' (ground arith) (ground arith) (ground arith) (ground arith) h

  pub delete_grant_edge-IsSound :
      (edge : GrantEdge) → Keeps (IsSound controls) (delete_grant_edge edge)
  unfolding delete_grant_edge
  delete_grant_edge-IsSound edge s a s' e h =
      IsSound-same s s' (ground arith) (ground arith) (ground arith) (ground arith) h

  pub insert_role_version-IsSound :
      (v : RoleVersion) → Keeps (IsSound controls) (insert_role_version v)
  unfolding insert_role_version
  insert_role_version-IsSound v s a s' e h =
      IsSound-same s s' (ground arith) (ground arith) (ground arith) (ground arith) h

  pub insert_mutation_audit-IsSound :
      (event : MutationAuditEvent) → Keeps (IsSound controls) (insert_mutation_audit event)
  unfolding insert_mutation_audit
  insert_mutation_audit-IsSound event s a s' e h =
      IsSound-same s s' (ground arith) (ground arith) (ground arith) (ground arith) h

  -- A role without a grant gives nobody anything.
  pub tombstone_role-IsSound :
      (role_id : Text) (v : ℕ) (s : TenantState) {s' : TenantState} {a : Unit}
      → values (inner role_id s.role_perms) ≡ []
      → tombstone_role role_id v s ≡ ok (a, s')
      → IsSound controls s
      → IsSound controls s'
  unfolding tombstone_role
  tombstone_role-IsSound role_id v s {s'} none_left e h =
      elim (Option-cases (lookup role_id s.roles)) [
        | inl missing ↦ absurd (ground (arith, missing))
        | inr (existing, found) ↦
            let gone = record existing { version = next_version v; deleted = true } in
            let roles : insert role_id gone s.roles ≡ s'.roles = ground (arith, found) in
            let perms : s.role_perms ≡ s'.role_perms = ground (arith, found) in
            let subjects : s.subject_roles ≡ s'.subject_roles = ground (arith, found) in
            let same : s'.bootstrapped ≡ s.bootstrapped = ground (arith, found) in
            record {
              valid = IsValidState-same s s' perms subjects h.valid;
              administered = λ marked.
                  let (subject, wields) = h.administered (sym same ∙ marked) in
                  (
                    subject,
                    Administers-but s s' controls subject role_id none_left
                        (λ r other live. ground (
                          arith,
                          roles,
                          live,
                          lookup-insert_ne role_id r gone s.roles (λ e. other (sym e)),
                        ))
                        perms subjects wields,
                  );
            }
      ]
