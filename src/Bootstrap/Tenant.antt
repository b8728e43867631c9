-- ===== src/Bootstrap/Tenant.antt =====
-- The transaction of `BootstrapTenant`.
use amsonia_core.Base.{List, [], false}
use amsonia_core.Text.{codes}
use amsonia_core.Text.Space.{trim_space}
use amsonia_core.Types.Errors.{Result, ok, err, already_bootstrapped, refuse}
use amsonia_core.Types.Enums.{GrantProvenance, AuditOutcome, AuditPhase}
use amsonia_core.Types.Records.{
  Role, RolePermissionGrant, SubjectRoleGrant, MutationAuditEvent, HostProvenance,
}
use amsonia_core.Store.{Tx, TenantTx, Store, pure, lift, ◌>>=◌, ◌>>◌}
use amsonia_core.Manager.Guards.{each_step, sorted_grants}
use amsonia_core.Bootstrap.Inputs.{
  BootstrapInput, Bootstrapper, Readings, owner_role, prepare_bootstrap,
}

abbrev pub owner_binding : Readings → BootstrapInput → SubjectRoleGrant
owner_binding t input = record {
  tenant_id = input.tenant_id;
  subject_id = input.owner_subject_id;
  role_id = input.owner_role_id;
  grantor_subject_id = [];
  provenance = GrantProvenance.bootstrap;
  granted_at = t.granted_at;
}

abbrev pub bootstrap_event : Readings → BootstrapInput → HostProvenance → MutationAuditEvent
bootstrap_event t input provenance = record {
  tenant_id = input.tenant_id;
  actor_subject_id = [];
  host_initiator = provenance.initiator;
  operation = codes "tenant.bootstrap";
  phase = AuditPhase.result;
  target_type = codes "tenant";
  target_id = input.tenant_id;
  outcome = AuditOutcome.success;
  reason_code = input.metadata.reason_code;
  request_id = input.metadata.request_id;
  role_version = 1;
  at = t.audited_at;
}

abbrev pub add_grant : {S : Type 0} → TenantTx S → RolePermissionGrant → Tx S (Unit {0})
add_grant tx g = tx.insert_role_permission_grant g >>= λ _. pure tt

module _ {S : Type 0} (tx : TenantTx S) (t : Readings) where
  unfoldable pub bootstrap_body :
      BootstrapInput → HostProvenance → List RolePermissionGrant → Tx S (Unit {0})
  bootstrap_body input provenance grants = do
    already ← tx.is_bootstrapped
    lift (refuse already already_bootstrapped)
    tx.insert_role (owner_role input)
    each_step (add_grant tx) grants
    bound ← tx.insert_subject_role_grant (owner_binding t input)
    tx.insert_role_version (record {
      tenant_id = input.tenant_id;
      role_id = input.owner_role_id;
      version = 1;
      name = trim_space input.owner_role_name;
      description = trim_space input.owner_role_description;
      grants = sorted_grants grants;
      deleted = false;
      created_at = t.created_at;
      created_by_subject_id = [];
      bootstrap_initiator = provenance.initiator;
    })
    tx.insert_mutation_audit (bootstrap_event t input provenance)
    tx.mark_bootstrapped provenance

-- The answer of the transaction, with the role that the call returns.
abbrev pub answer_with : {A B T : Type 0} → B → Result A × T → Result B × T
answer_with b (err e, s) = (err e, s)
answer_with b (ok a, s) = (ok b, s)

unfoldable pub bootstrap_tenant :
    {S T : Type 0} → Store S T → Bootstrapper → Readings → BootstrapInput → T → Result Role × T
bootstrap_tenant store b t input s = elim (prepare_bootstrap b input) [
  | err e ↦ (err e, s)
  | ok (provenance, grants) ↦ answer_with (owner_role input) (
      store.mutate_tenant (Unit {0}) input.tenant_id
        (bootstrap_body store.tx t input provenance grants) s)
]
