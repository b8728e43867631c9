-- ===== src/Manager/LastAdministrator.antt =====
-- `UnassignRole` and `guardLastAdministrator` of manager.go, with `HasAdministrator` of memory.go.
use amsonia_core.Base.{
  ◌++◌, if◌then◌else◌, ℕ, ◌≡◌, refl, ◌∙◌, subst, List, [], ◌∷◌, Bool, true, false, Bool-cases, inl,
  inr, arith,
}
use amsonia_core.Base.Maps.{Map, keys, values, erase}
use amsonia_core.Text.{Text, text_key, codes}
use amsonia_core.Types.Errors.{ok, Result-cases}
use amsonia_core.Types.Records.{
  Principal, MutationMetadata, SubjectRoleGrant, ControlPermissions, GrantEdge, Role,
  MutationAuditEvent,
}
use amsonia_core.AdminPolicy.{Coverage}
use amsonia_core.Store.{lift, pure, ◌>>=◌, ◌>>◌}
use amsonia_core.Store.Steps.{bind-ok, Takes, Takes-bind, Keeps, Keeps-bind, Keeps-if, Keeps-pure}
use amsonia_core.Memory.{MemoryStore, Context, memory_store, memory_tx, state_of}
use amsonia_core.Memory.State.{TenantState, EdgeKey, edge_key_key, inner}
use amsonia_core.Memory.Reader.{
  is_live, cover_grants, cover_roles, cover_subjects, has_administrator, control_list,
}
use amsonia_core.Memory.Writer
use amsonia_core.Manager.{Manager, Readings, MutationResult, Target, record_denied, perform}
use amsonia_core.Manager.Grants.{no_change}
use amsonia_core.Manager.Inputs.{AssignRoleInput}
use amsonia_core.Manager.Guards.{guard_last_administrator}
use amsonia_core.Manager.Assignments.{
  assignment_target, validate_assignment, delete_edge_of, bound, unassign_role_body, unassign_role,
}
use amsonia_core.Manager.Perform.{perform-ok, checked-after}

-- The state with other edges and another audit trail.
abbrev moved : TenantState → Map EdgeKey GrantEdge → List MutationAuditEvent → TenantState
moved s edges audit = record s { grant_edges = edges; audit = audit }

module _ (s : TenantState) (edges : Map EdgeKey GrantEdge) (audit : List MutationAuditEvent) where
  cover_roles-moved :
      (permissions : List Text) (subject : Text) (role_ids : List Text) (c : Coverage)
      → cover_roles (moved s edges audit) permissions subject role_ids c
        ≡ cover_roles s permissions subject role_ids c
  unfolding cover_roles
  cover_roles-moved permissions subject [] c = refl
  cover_roles-moved permissions subject (role_id ∷ role_ids) c =
      let grants = values (inner role_id s.role_perms) in
      elim (Bool-cases (is_live s role_id)) [
        | inr dead ↦ ground (arith, dead, cover_roles-moved permissions subject role_ids c)
        | inl live ↦ elim (Result-cases (cover_grants permissions subject grants c)) [
          | inl (c', h) ↦ ground (arith, live, h, cover_roles-moved permissions subject role_ids c')
          | inr (x, h) ↦ ground (arith, live, h)
        ]
      ]

  cover_subjects-moved :
      (permissions : List Text) (subjects : Map Text (Map Text SubjectRoleGrant)) (c : Coverage)
      → cover_subjects (moved s edges audit) permissions subjects c
        ≡ cover_subjects s permissions subjects c
  unfolding cover_subjects
  cover_subjects-moved permissions [] c = refl
  cover_subjects-moved permissions ((subject, roles) ∷ rest) c =
      let first = cover_roles-moved permissions subject (keys roles) c in
      elim (Result-cases (cover_roles s permissions subject (keys roles) c)) [
        | inl (c', h) ↦ ground (arith, first, h, cover_subjects-moved permissions rest c')
        | inr (x, h) ↦ ground (arith, first, h)
      ]

  has_administrator-moved :
      (controls : ControlPermissions)
      → has_administrator (moved s edges audit) controls ≡ has_administrator s controls
  unfolding has_administrator
  has_administrator-moved controls =
      rw (cover_subjects-moved (control_list controls) s.subject_roles [])

-- Some subject covers the three control permissions at tenant scope.
abbrev pub IsAdministered : ControlPermissions → TenantState → Type 0
IsAdministered controls s = has_administrator s controls ≡ ok true

module _ (m : Manager) (t : Readings) where
  audit-IsAdministered :
      (event : MutationAuditEvent)
      → Keeps (IsAdministered m.controls) (Writer.insert_mutation_audit event)
  unfolding Writer.insert_mutation_audit
  audit-IsAdministered event s a s' e h =
      let same : moved s s.grant_edges (s.audit ++ event ∷ []) ≡ s' = ground (arith, e) in
      subst (IsAdministered m.controls) same
        (has_administrator-moved s s.grant_edges (s.audit ++ event ∷ []) m.controls ∙ h)

  edge-IsAdministered :
      (edge : GrantEdge) → Keeps (IsAdministered m.controls) (Writer.delete_grant_edge edge)
  unfolding Writer.delete_grant_edge
  edge-IsAdministered edge s a s' e h =
      let kept = erase (Writer.edge_key_of edge) s.grant_edges in
      let same : moved s kept s.audit ≡ s' = ground (arith, e) in
      subst (IsAdministered m.controls) same (has_administrator-moved s kept s.audit m.controls ∙ h)

  -- Behind the guard the tenant has an administrator.
  guard_last_administrator-IsAdministered :
      Takes (λ s. Unit {0}) (IsAdministered m.controls) (guard_last_administrator memory_tx m)
  unfolding guard_last_administrator ◌>>=◌ lift
  guard_last_administrator-IsAdministered s a s' e h =
      elim (Result-cases (has_administrator s m.controls)) [
        | inl (b, f) ↦ ground (arith, e, f)
        | inr (x, f) ↦ ground (arith, e, f)
      ]

  tail-IsAdministered :
      (actor : Principal) (meta : MutationMetadata) (input : AssignRoleInput)
      (removed : SubjectRoleGrant) (target : Target) (version : ℕ)
      → Keeps (IsAdministered m.controls) (
          delete_edge_of memory_tx m t actor input removed
          >> bound memory_tx m t actor meta target version)
  unfolding delete_edge_of bound
  tail-IsAdministered actor meta input removed target version =
      Keeps-bind (IsAdministered m.controls) _ _
        (Keeps-if (IsAdministered m.controls) _ _ _ (edge-IsAdministered _)
          (Keeps-pure (IsAdministered m.controls) tt))
        λ _.
          Keeps-bind (IsAdministered m.controls) _ _ (audit-IsAdministered _)
            λ _. Keeps-pure (IsAdministered m.controls) _

  -- A result without a change says so.
  no_change-unchanged :
      (actor : Principal) (meta : MutationMetadata) (target : Target) (version : ℕ)
      (s : TenantState) {s' : TenantState} {a : MutationResult}
      → no_change memory_tx m t actor meta target version s ≡ ok (a, s')
      → a.changed ≡ false
  unfolding no_change ◌>>=◌ pure Writer.insert_mutation_audit
  no_change-unchanged actor meta target version s e = ground (arith, e)

  removal-IsAdministered :
      (actor : Principal) (meta : MutationMetadata) (input : AssignRoleInput) (role : Role)
      (removal : SubjectRoleGrant × Bool) (target : Target) (s s' : TenantState)
      (a : MutationResult)
      → a.changed ≡ true
      → (if removal.1
            then guard_last_administrator memory_tx m
              >> (delete_edge_of memory_tx m t actor input removal.0
                  >> bound memory_tx m t actor meta target role.version)
            else no_change memory_tx m t actor meta target role.version)
          s
        ≡ ok (a, s')
      → IsAdministered m.controls s'
  removal-IsAdministered actor meta input role (removed, true) target s s' a changed e =
      Takes-bind (λ s. Unit {0}) (IsAdministered m.controls) (IsAdministered m.controls) _ _
        guard_last_administrator-IsAdministered
        (λ _. tail-IsAdministered actor meta input removed target role.version) s a s' e tt
  removal-IsAdministered actor meta input role (removed, false) target s s' a changed e =
      ground (arith, no_change-unchanged actor meta target role.version s e, changed)

  unassign_role_body-IsAdministered :
      (actor : Principal) (meta : MutationMetadata) (input : AssignRoleInput) (s : TenantState)
      {s' : TenantState} {a : MutationResult}
      → unassign_role_body memory_tx m t actor meta input s ≡ ok (a, s')
      → a.changed ≡ true
      → IsAdministered m.controls s'
  unfolding unassign_role_body
  unassign_role_body-IsAdministered actor meta input s {s' = s'} {a = a} e changed =
      let (u, s1, asked, e1) = bind-ok _ _ e in
      let (role, s2, current, e2) = bind-ok _ _ e1 in
      let (v, s3, covered, e3) = bind-ok _ _ e2 in
      let (removal, s4, removed, e4) = bind-ok _ _ e3 in
      removal-IsAdministered actor meta input role removal _ s4 s' a changed e4

-- Where the removal of a binding succeeds and changed something, the tenant that it leaves has a
-- subject whose live roles grant all three control permissions at tenant scope.
pub unassign_role-IsAdministered :
    (ctx : Context) (m : Manager) (t : Readings) (actor : Principal) (meta : MutationMetadata)
    (input : AssignRoleInput) (s : MemoryStore) {a : MutationResult}
    → (unassign_role (memory_store ctx) m t actor meta input s).result ≡ ok a
    → a.changed ≡ true
    → IsAdministered m.controls
        (state_of actor.tenant_id (unassign_role (memory_store ctx) m t actor meta input s).store)
unfolding unassign_role
unassign_role-IsAdministered ctx m t actor meta input s e changed =
    let denied =
      record_denied actor meta (assignment_target (codes "unassign.role") input.subject_id)
        input.expected_role_version t.denied_at in
    let body = unassign_role_body memory_tx m t actor meta input in
    checked-after (λ after. IsAdministered m.controls (state_of actor.tenant_id after))
      (validate_assignment actor meta input) s
      (λ _. perform (memory_store ctx) actor.tenant_id body denied s) e
      λ u e1.
        unassign_role_body-IsAdministered m t actor meta input (state_of actor.tenant_id s)
          (perform-ok ctx actor.tenant_id body denied s e1) changed
