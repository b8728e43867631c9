-- ===== src/Manager/Run.antt =====
-- The operations of the manager as one type.
use amsonia_core.Types.Errors.{ok, err}
use amsonia_core.Types.Records.{Principal, MutationMetadata}
use amsonia_core.Store.{Store}
use amsonia_core.Manager.{Manager, Readings, MutationResult, Outcome}
use amsonia_core.Manager.Inputs.{
  CreateRoleInput, CreateRoleWithPermissionsInput, UpdateRoleInput, DeleteRoleInput,
  GrantPermissionInput, AssignRoleInput,
}
use amsonia_core.Manager.Roles.{create_role, create_role_with_permissions, update_role, delete_role}
use amsonia_core.Manager.Grants.{grant_permission, revoke_permission}
use amsonia_core.Manager.Assignments.{assign_role, unassign_role}

pub data Operation : Type 0 where
  creates : CreateRoleInput → Operation
  creates_with : CreateRoleWithPermissionsInput → Operation
  updates : UpdateRoleInput → Operation
  deletes : DeleteRoleInput → Operation
  grants : GrantPermissionInput → Operation
  revokes : GrantPermissionInput → Operation
  assigns : AssignRoleInput → Operation
  unassigns : AssignRoleInput → Operation

-- The outcome without the role that a creation or an update returns beside it.
abbrev pub second : {A B T : Type 0} → Outcome (A × B) T → Outcome B T
second o = record {
  result = elim o.result [ ok (a, b) ↦ ok b | err e ↦ err e ];
  store = o.store;
  security = o.security;
}

-- One call of the manager.
unfoldable pub run :
    {S T : Type 0}
    → Store S T
    → Manager
    → Readings
    → Principal
    → MutationMetadata
    → Operation
    → T
    → Outcome MutationResult T
run store m t actor meta (creates input) s = second (create_role store m t actor meta input s)
run store m t actor meta (creates_with input) s =
    second (create_role_with_permissions store m t actor meta input s)
run store m t actor meta (updates input) s = second (update_role store m t actor meta input s)
run store m t actor meta (deletes input) s = delete_role store m t actor meta input s
run store m t actor meta (grants input) s = grant_permission store m t actor meta input s
run store m t actor meta (revokes input) s = revoke_permission store m t actor meta input s
run store m t actor meta (assigns input) s = assign_role store m t actor meta input s
run store m t actor meta (unassigns input) s = unassign_role store m t actor meta input s
