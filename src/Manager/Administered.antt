-- ===== src/Manager/Administered.antt =====
-- All operations of manager.go, and the administrator of a bootstrapped tenant.
use amsonia_core.Base.{◌≡◌, All-map, arith}
use amsonia_core.Text.{Text}
use amsonia_core.Types.Errors.{ok}
use amsonia_core.Types.Records.{Principal, MutationMetadata}
use amsonia_core.Types.Ids.{validate_opaque_id}
use amsonia_core.Memory.{MemoryStore, Context, memory_store, memory_tx}
use amsonia_core.Memory.Administrator.Defs.{IsValidGrant}
use amsonia_core.Memory.Administrator.Sound.{IsSound}
use amsonia_core.Manager.{Manager, Readings}
use amsonia_core.Manager.Inputs.{AssignRoleInput, validate_named_role}
use amsonia_core.Manager.ValidInputs.{
  require_id-ok, validate_grant_input-IsValidGrant, validate_permissions-All,
  tenant_grant-IsValidGrant,
}
use amsonia_core.Manager.Roles.{create_role, create_role_with_permissions, update_role, delete_role}
use amsonia_core.Manager.Grants.{grant_permission, revoke_permission}
use amsonia_core.Manager.Assignments.{validate_assignment, assign_role, unassign_role}
use amsonia_core.Manager.Frame.{
  create_role_body-Keeps, create_role_with_permissions_body-Keeps, update_role_body-Keeps,
  grant_permission_body-Keeps,
}
use amsonia_core.Manager.Sound.{
  Sound-Growth, assign_role_body-IsSound, unassign_role_body-IsSound,
  revoke_permission_body-IsSound, delete_role_body-IsSound,
}
use amsonia_core.Manager.Run.{Operation, run}
use amsonia_core.Manager.Perform.{
  Everywhere, perform-Everywhere, checked-Everywhere, checked-Everywhere_with,
}

validate_assignment-subject :
    (actor : Principal) (meta : MutationMetadata) (input : AssignRoleInput)
    → validate_assignment actor meta input ≡ ok tt
    → validate_opaque_id input.subject_id ≡ ok tt
unfolding validate_assignment
validate_assignment-subject actor meta input e = require_id-ok input.subject_id (ground (arith, e))

validate_named_role-id :
    (actor : Principal) (meta : MutationMetadata) (role_id name : Text)
    → validate_named_role actor meta role_id name ≡ ok tt
    → validate_opaque_id role_id ≡ ok tt
unfolding validate_named_role
validate_named_role-id actor meta role_id name e = require_id-ok role_id (ground (arith, e))

-- Whatever the operation, its actor, its input and the context: where every bootstrapped tenant has an
-- administrator before it, every bootstrapped tenant has one after it.
pub run-IsSound :
    (ctx : Context) (m : Manager) (t : Readings) (actor : Principal) (meta : MutationMetadata)
    (op : Operation) (s : MemoryStore)
    → Everywhere (IsSound m.controls) s
    → Everywhere (IsSound m.controls) (run (memory_store ctx) m t actor meta op s).store
unfolding run create_role create_role_with_permissions update_role delete_role grant_permission
    revoke_permission assign_role unassign_role
run-IsSound ctx m t actor meta (Operation.creates input) s h =
    let Sound = IsSound m.controls in
    checked-Everywhere Sound ctx _ s _
      (λ _.
        perform-Everywhere Sound ctx actor.tenant_id _ _ s
          (create_role_body-Keeps Sound IsValidGrant memory_tx (Sound-Growth m) m t actor meta _) h)
      h
run-IsSound ctx m t actor meta (Operation.creates_with input) s h =
    let Sound = IsSound m.controls in
    checked-Everywhere_with Sound ctx (validate_named_role actor meta input.role_id input.name) s _
      (λ named valid.
        checked-Everywhere_with Sound ctx _ s _
          (λ permissions collected.
            perform-Everywhere Sound ctx actor.tenant_id _ _ s
              (create_role_with_permissions_body-Keeps Sound IsValidGrant memory_tx (Sound-Growth m)
                m t actor meta _ permissions
                (All-map _ _ permissions
                  (λ p key.
                    tenant_grant-IsValidGrant input.role_id p
                      (validate_named_role-id actor meta input.role_id input.name valid) key)
                  (validate_permissions-All m.catalog input.permissions collected)))
              h)
          h)
      h
run-IsSound ctx m t actor meta (Operation.updates input) s h =
    let Sound = IsSound m.controls in
    checked-Everywhere Sound ctx _ s _
      (λ _.
        perform-Everywhere Sound ctx actor.tenant_id _ _ s
          (update_role_body-Keeps Sound IsValidGrant memory_tx (Sound-Growth m) m t actor meta
            input)
          h)
      h
run-IsSound ctx m t actor meta (Operation.deletes input) s h =
    let Sound = IsSound m.controls in
    checked-Everywhere Sound ctx _ s _
      (λ _.
        checked-Everywhere Sound ctx _ s _
          (λ _.
            perform-Everywhere Sound ctx actor.tenant_id _ _ s
              (delete_role_body-IsSound m t actor meta input) h)
          h)
      h
run-IsSound ctx m t actor meta (Operation.grants input) s h =
    let Sound = IsSound m.controls in
    checked-Everywhere Sound ctx _ s _
      (λ _.
        checked-Everywhere_with Sound ctx _ s _
          (λ grant made.
            perform-Everywhere Sound ctx actor.tenant_id _ _ s
              (grant_permission_body-Keeps Sound IsValidGrant memory_tx (Sound-Growth m) m t actor
                meta grant _ (validate_grant_input-IsValidGrant m.catalog input made))
              h)
          h)
      h
run-IsSound ctx m t actor meta (Operation.revokes input) s h =
    let Sound = IsSound m.controls in
    checked-Everywhere Sound ctx _ s _
      (λ _.
        checked-Everywhere Sound ctx _ s _
          (λ grant.
            perform-Everywhere Sound ctx actor.tenant_id _ _ s
              (revoke_permission_body-IsSound m t actor meta grant _) h)
          h)
      h
run-IsSound ctx m t actor meta (Operation.assigns input) s h =
    let Sound = IsSound m.controls in
    checked-Everywhere_with Sound ctx _ s _
      (λ _ valid.
        perform-Everywhere Sound ctx actor.tenant_id _ _ s
          (assign_role_body-IsSound m t actor meta input
            (validate_assignment-subject actor meta input valid))
          h)
      h
run-IsSound ctx m t actor meta (Operation.unassigns input) s h =
    let Sound = IsSound m.controls in
    checked-Everywhere_with Sound ctx _ s _
      (λ _ valid.
        perform-Everywhere Sound ctx actor.tenant_id _ _ s
          (unassign_role_body-IsSound m t actor meta input
            (validate_assignment-subject actor meta input valid))
          h)
      h
