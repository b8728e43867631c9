-- ===== src/Manager/Assignments.antt =====
-- `AssignRole` and `UnassignRole`.
use amsonia_core.Base.{ℕ, Bool, true, false, not, ◌&&◌, ◌||◌, ◌==◌, nat_key, if◌then◌else◌}
use amsonia_core.Text.{Text, text_key, codes, is_empty}
use amsonia_core.Types.Errors.{Result, ok, err, grant_cycle, refuse}
use amsonia_core.Types.Enums.{AuditOutcome, GrantProvenance}
use amsonia_core.Types.Records.{Principal, MutationMetadata, SubjectRoleGrant}
use amsonia_core.Store.{Tx, TenantTx, Store, lift, pure, ◌>>=◌, ◌>>◌}
use amsonia_core.Manager.{
  Manager, Readings, MutationResult, Outcome, Target, audit_event, record_denied, perform, checked,
}
use amsonia_core.Manager.Inputs.{AssignRoleInput, require_id, validate_actor}
use amsonia_core.Manager.Guards.{
  require_actor, require_role_coverage, current_role, guard_last_administrator,
}
use amsonia_core.Manager.Grants.{no_change}

abbrev pub assignment_target : Text → Text → Target
assignment_target operation subject_id = record {
  operation = operation;
  target_type = codes "subject_role";
  target_id = subject_id;
}

abbrev pub is_delegated : GrantProvenance → Bool
is_delegated GrantProvenance.delegated = true
is_delegated _ = false

module _ {S : Type 0} (tx : TenantTx S) (m : Manager) (t : Readings) where
  -- The end of an operation that changed a binding.
  unfoldable pub bound : Principal → MutationMetadata → Target → ℕ → Tx S MutationResult
  bound actor meta target version = do
    tx.insert_mutation_audit
        (audit_event actor meta target AuditOutcome.success version t.audited_at)
    pure (record { changed = true; role_version = version })

  -- A chain of grants from the subject to the actor would close a cycle.
  unfoldable pub refuse_cycle : Principal → Text → Tx S (Unit {0})
  refuse_cycle actor subject_id = if actor.subject_id == subject_id then pure tt else do
    has_path ← tx.has_grant_path subject_id actor.subject_id
    lift (refuse has_path grant_cycle)

  unfoldable pub assign_role_body :
      Principal → MutationMetadata → AssignRoleInput → Tx S MutationResult
  assign_role_body actor meta input = do
    let target = assignment_target (codes "assign.role") input.subject_id
    require_actor tx m actor m.controls.assign_roles
    role ← current_role tx m input.role_id (λ r. r.version == input.expected_role_version)
    require_role_coverage tx m actor role.role_id
    refuse_cycle actor input.subject_id
    changed ← tx.insert_subject_role_grant (record {
      tenant_id = actor.tenant_id;
      subject_id = input.subject_id;
      role_id = input.role_id;
      grantor_subject_id = actor.subject_id;
      provenance = GrantProvenance.delegated;
      granted_at = t.granted_at;
    })
    if changed
        then (do
          tx.insert_grant_edge (record {
            tenant_id = actor.tenant_id;
            grantor = actor.subject_id;
            grantee = input.subject_id;
            role_id = input.role_id;
            created_at = t.created_at;
          })
          bound actor meta target role.version)
        else no_change tx m t actor meta target role.version

  -- The edge that a delegated binding left in the graph of grants.
  unfoldable pub delete_edge_of : Principal → AssignRoleInput → SubjectRoleGrant → Tx S (Unit {0})
  delete_edge_of actor input removed =
      if is_delegated removed.provenance && not (is_empty removed.grantor_subject_id)
      then tx.delete_grant_edge (record {
        tenant_id = actor.tenant_id;
        grantor = removed.grantor_subject_id;
        grantee = input.subject_id;
        role_id = input.role_id;
        created_at = 0;
      })
      else pure tt

  -- Version 0 omits the version check.
  unfoldable pub unassign_role_body :
      Principal → MutationMetadata → AssignRoleInput → Tx S MutationResult
  unassign_role_body actor meta input = do
    let target = assignment_target (codes "unassign.role") input.subject_id
    require_actor tx m actor m.controls.assign_roles
    role ←
        current_role tx m input.role_id
          (λ r. input.expected_role_version == 0 || r.version == input.expected_role_version)
    require_role_coverage tx m actor role.role_id
    removal ← tx.delete_subject_role_grant input.subject_id input.role_id
    if removal.1
        then (do
          guard_last_administrator tx m
          delete_edge_of actor input removal.0
          bound actor meta target role.version)
        else no_change tx m t actor meta target role.version

-- What both operations check before their transaction.
unfoldable pub validate_assignment :
    Principal → MutationMetadata → AssignRoleInput → Result (Unit {0})
validate_assignment actor meta input = elim (validate_actor actor meta) [
  | err e ↦ err e
  | ok _ ↦ elim (require_id input.subject_id) [ err e ↦ err e | ok _ ↦ require_id input.role_id ]
]

module _ {S T : Type 0} (store : Store S T) (m : Manager) (t : Readings) where
  unfoldable pub assign_role :
      Principal → MutationMetadata → AssignRoleInput → T → Outcome MutationResult T
  assign_role actor meta input s = checked (validate_assignment actor meta input) s λ _.
      perform store actor.tenant_id (assign_role_body store.tx m t actor meta input)
        (record_denied actor meta (assignment_target (codes "assign.role") input.subject_id)
          input.expected_role_version t.denied_at)
        s

  unfoldable pub unassign_role :
      Principal → MutationMetadata → AssignRoleInput → T → Outcome MutationResult T
  unassign_role actor meta input s = checked (validate_assignment actor meta input) s λ _.
      perform store actor.tenant_id (unassign_role_body store.tx m t actor meta input)
        (record_denied actor meta (assignment_target (codes "unassign.role") input.subject_id)
          input.expected_role_version t.denied_at)
        s
