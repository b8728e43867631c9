-- ===== src/Manager/Roles.antt =====
-- `CreateRole`, `CreateRoleWithPermissions`, `UpdateRole` and `DeleteRole`.
use amsonia_core.Base.{ℕ, List, [], true, false, map, ◌==◌, nat_key}
use amsonia_core.Text.{Text, codes, is_empty}
use amsonia_core.Text.Space.{trim_space}
use amsonia_core.Types.Errors.{Error, conflict, require}
use amsonia_core.Types.Enums.{Scope, AuditOutcome}
use amsonia_core.Types.Records.{
  Principal, MutationMetadata, Role, RolePermissionGrant, MutationAuditEvent, next_version,
}
use amsonia_core.Store.{Tx, TenantTx, Store, lift, pure, ◌>>=◌, ◌>>◌}
use amsonia_core.Manager.{
  Manager, Readings, MutationResult, Outcome, Target, audit_event, record_denied, perform, checked,
}
use amsonia_core.Manager.Inputs.{
  CreateRoleInput, CreateRoleWithPermissionsInput, UpdateRoleInput, DeleteRoleInput, require_id,
  validate_actor, validate_named_role, validate_permissions,
}
use amsonia_core.Manager.Guards.{
  sorted_grants, each_step, require_actor, require_actor_for_grant, current_role, snapshot_of,
}

-- The audit's names for these operations.
abbrev pub role_target : Text → Text → Target
role_target operation role_id = record {
  operation = operation;
  target_type = codes "role";
  target_id = role_id;
}

-- The role that a creation inserts.
abbrev pub first_role : Principal → Text → Text → Text → Role
first_role actor role_id name description = record {
  tenant_id = actor.tenant_id;
  role_id = role_id;
  name = trim_space name;
  description = trim_space description;
  version = 1;
  deleted = false;
}

-- A grant of the permission for the whole tenant.
abbrev pub tenant_grant : Text → Text → RolePermissionGrant
tenant_grant role_id permission = record {
  role_id = role_id;
  permission = permission;
  scope = Scope.tenant;
  workspace_roles = [];
}

module _ {S : Type 0} (tx : TenantTx S) (m : Manager) (t : Readings) where
  unfoldable pub create_role_body :
      Principal → MutationMetadata → Role → Tx S (Role × MutationResult)
  create_role_body actor meta role = do
    require_actor tx m actor m.controls.manage_roles
    tx.insert_role role
    tx.insert_role_version (snapshot_of tx m role [] actor t.created_at)
    tx.insert_mutation_audit (
        audit_event actor meta (role_target (codes "role.create") role.role_id) AuditOutcome.success
          1 t.audited_at)
    pure (role, record { changed = true; role_version = 1 })

  -- A grant that is there already is a conflict.
  unfoldable pub insert_new_grant : RolePermissionGrant → Tx S (Unit {0})
  insert_new_grant grant = do
    changed ← tx.insert_role_permission_grant grant
    lift (require changed conflict)

  unfoldable pub create_role_with_permissions_body :
      Principal → MutationMetadata → Role → List Text → Tx S (Role × MutationResult)
  create_role_with_permissions_body actor meta role permissions = do
    let grants = map (tenant_grant role.role_id) permissions
    require_actor tx m actor m.controls.manage_roles
    each_step (λ permission. require_actor_for_grant tx m actor permission Scope.tenant [])
        permissions
    tx.insert_role role
    each_step insert_new_grant grants
    tx.insert_role_version (snapshot_of tx m role (sorted_grants grants) actor t.created_at)
    tx.insert_mutation_audit (
        audit_event actor meta (role_target (codes "role.create") role.role_id) AuditOutcome.success
          1 t.audited_at)
    pure (role, record { changed = true; role_version = 1 })

  unfoldable pub update_role_body :
      Principal → MutationMetadata → UpdateRoleInput → Tx S (Role × MutationResult)
  update_role_body actor meta input = do
    require_actor tx m actor m.controls.manage_roles
    role ← current_role tx m input.role_id (λ r. r.version == input.expected_version)
    let next = next_version input.expected_version
    let updated = record role {
      name = trim_space input.name;
      description = trim_space input.description;
      version = next;
    }
    tx.update_role updated input.expected_version
    grants ← tx.list_role_permission_grants role.role_id
    tx.insert_role_version (snapshot_of tx m updated (sorted_grants grants) actor t.created_at)
    tx.insert_mutation_audit (
        audit_event actor meta (role_target (codes "role.update") input.role_id)
          AuditOutcome.success next t.audited_at)
    pure (updated, record { changed = true; role_version = next })

  unfoldable pub delete_role_body :
      Principal → MutationMetadata → DeleteRoleInput → Tx S MutationResult
  delete_role_body actor meta input = do
    require_actor tx m actor m.controls.manage_roles
    role ← current_role tx m input.role_id (λ r. r.version == input.expected_version)
    grants ← tx.list_role_permission_grants role.role_id
    lift (require (is_empty grants) conflict)
    subjects ← tx.list_role_subject_ids role.role_id
    lift (require (is_empty subjects) conflict)
    tx.tombstone_role role.role_id input.expected_version
    let next = next_version role.version
    let gone = record role { version = next }
    tx.insert_role_version (record (snapshot_of tx m gone [] actor t.created_at) { deleted = true })
    tx.insert_mutation_audit (
        audit_event actor meta (role_target (codes "role.delete") input.role_id)
          AuditOutcome.success next t.audited_at)
    pure (record { changed = true; role_version = next })

module _ {S T : Type 0} (store : Store S T) (m : Manager) (t : Readings) where
  abbrev pub denied : Principal → MutationMetadata → Text → Text → ℕ → Error → MutationAuditEvent
  denied actor meta operation role_id version =
      record_denied actor meta (role_target operation role_id) version t.denied_at

  unfoldable pub create_role :
      Principal → MutationMetadata → CreateRoleInput → T → Outcome (Role × MutationResult) T
  create_role actor meta input s =
      checked (validate_named_role actor meta input.role_id input.name) s λ _.
        perform store actor.tenant_id
          (create_role_body store.tx m t actor meta
            (first_role actor input.role_id input.name input.description))
          (denied actor meta (codes "role.create") input.role_id 0) s

  unfoldable pub create_role_with_permissions :
      Principal
      → MutationMetadata
      → CreateRoleWithPermissionsInput
      → T
      → Outcome (Role × MutationResult) T
  create_role_with_permissions actor meta input s =
      checked (validate_named_role actor meta input.role_id input.name) s λ _.
        checked (validate_permissions m.catalog input.permissions) s λ permissions.
          perform store actor.tenant_id
            (create_role_with_permissions_body store.tx m t actor meta
              (first_role actor input.role_id input.name input.description) permissions)
            (denied actor meta (codes "role.create") input.role_id 0) s

  unfoldable pub update_role :
      Principal → MutationMetadata → UpdateRoleInput → T → Outcome (Role × MutationResult) T
  update_role actor meta input s =
      checked (validate_named_role actor meta input.role_id input.name) s λ _.
        perform store actor.tenant_id (update_role_body store.tx m t actor meta input)
          (denied actor meta (codes "role.update") input.role_id input.expected_version) s

  unfoldable pub delete_role :
      Principal → MutationMetadata → DeleteRoleInput → T → Outcome MutationResult T
  delete_role actor meta input s = checked (validate_actor actor meta) s λ _.
      checked (require_id input.role_id) s λ _.
        perform store actor.tenant_id (delete_role_body store.tx m t actor meta input)
          (denied actor meta (codes "role.delete") input.role_id input.expected_version) s
