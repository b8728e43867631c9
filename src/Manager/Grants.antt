-- ===== src/Manager/Grants.antt =====
-- `GrantPermission` and `RevokePermission`.
use amsonia_core.Base.{ℕ, true, false, ◌==◌, nat_key, if◌then◌else◌}
use amsonia_core.Text.{Text, codes}
use amsonia_core.Types.Enums.{AuditOutcome}
use amsonia_core.Types.Records.{
  Principal, MutationMetadata, Role, RolePermissionGrant, next_version,
}
use amsonia_core.Store.{Tx, TenantTx, Store, pure, ◌>>=◌, ◌>>◌}
use amsonia_core.Manager.{
  Manager, Readings, MutationResult, Outcome, Target, audit_event, record_denied, perform, checked,
}
use amsonia_core.Manager.Inputs.{GrantPermissionInput, validate_actor, validate_grant_input}
use amsonia_core.Manager.Guards.{
  require_actor_for_grant, current_role, guard_last_administrator, bump_role_version,
}

abbrev pub grant_target : Text → Text → Target
grant_target operation role_id = record {
  operation = operation;
  target_type = codes "role_permission";
  target_id = role_id;
}

module _ {S : Type 0} (tx : TenantTx S) (m : Manager) (t : Readings) where
  -- The end of an operation that found nothing to do.
  unfoldable pub no_change : Principal → MutationMetadata → Target → ℕ → Tx S MutationResult
  no_change actor meta target version = do
    tx.insert_mutation_audit (audit_event actor meta target AuditOutcome.noop version t.audited_at)
    pure (record { changed = false; role_version = version })

  -- The end of an operation that changed the grants of a role.
  unfoldable pub new_version : Principal → MutationMetadata → Target → Role → Tx S MutationResult
  new_version actor meta target role = do
    let next = next_version role.version
    bump_role_version tx m role actor next t.created_at
    tx.insert_mutation_audit (audit_event actor meta target AuditOutcome.success next t.audited_at)
    pure (record { changed = true; role_version = next })

  unfoldable pub grant_permission_body :
      Principal → MutationMetadata → RolePermissionGrant → ℕ → Tx S MutationResult
  grant_permission_body actor meta grant expected = do
    let target = grant_target (codes "grant.permission") grant.role_id
    require_actor_for_grant tx m actor grant.permission grant.scope grant.workspace_roles
    role ← current_role tx m grant.role_id (λ r. r.version == expected)
    changed ← tx.insert_role_permission_grant grant
    if changed then new_version actor meta target role else no_change actor meta target role.version

  unfoldable pub revoke_permission_body :
      Principal → MutationMetadata → RolePermissionGrant → ℕ → Tx S MutationResult
  revoke_permission_body actor meta grant expected = do
    let target = grant_target (codes "revoke.permission") grant.role_id
    require_actor_for_grant tx m actor grant.permission grant.scope grant.workspace_roles
    role ← current_role tx m grant.role_id (λ r. r.version == expected)
    changed ← tx.delete_role_permission_grant grant
    if changed
        then (do guard_last_administrator tx m; new_version actor meta target role)
        else no_change actor meta target role.version

module _ {S T : Type 0} (store : Store S T) (m : Manager) (t : Readings) where
  unfoldable pub grant_permission :
      Principal → MutationMetadata → GrantPermissionInput → T → Outcome MutationResult T
  grant_permission actor meta input s = checked (validate_actor actor meta) s λ _.
      checked (validate_grant_input m.catalog input) s λ grant.
        perform store actor.tenant_id
          (grant_permission_body store.tx m t actor meta grant input.expected_version)
          (record_denied actor meta (grant_target (codes "grant.permission") input.role_id)
            input.expected_version t.denied_at)
          s

  unfoldable pub revoke_permission :
      Principal → MutationMetadata → GrantPermissionInput → T → Outcome MutationResult T
  revoke_permission actor meta input s = checked (validate_actor actor meta) s λ _.
      checked (validate_grant_input m.catalog input) s λ grant.
        perform store actor.tenant_id
          (revoke_permission_body store.tx m t actor meta grant input.expected_version)
          (record_denied actor meta (grant_target (codes "revoke.permission") input.role_id)
            input.expected_version t.denied_at)
          s
