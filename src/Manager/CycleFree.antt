-- ===== src/Manager/CycleFree.antt =====
-- All operations of manager.go, and the graph of grants.
use amsonia_core.Types.Records.{Principal, MutationMetadata}
use amsonia_core.Memory.{MemoryStore, Context, memory_store, memory_tx}
use amsonia_core.Manager.{Manager, Readings}
use amsonia_core.Manager.Roles.{create_role, create_role_with_permissions, update_role, delete_role}
use amsonia_core.Manager.Grants.{grant_permission, revoke_permission}
use amsonia_core.Manager.Assignments.{assign_role, unassign_role}
use amsonia_core.Base.{All-every}
use amsonia_core.Manager.Frame.{
  AnyGrant, create_role_body-Keeps, create_role_with_permissions_body-Keeps, update_role_body-Keeps,
  delete_role_body-Keeps, grant_permission_body-Keeps, revoke_permission_body-Keeps,
}
use amsonia_core.Manager.Run.{Operation, run}
use amsonia_core.Manager.Perform.{Everywhere, perform-Everywhere, checked-Everywhere}
use amsonia_core.Manager.Delegations.{
  IsCycleFree, frame, assign_role_body-Keeps, unassign_role_body-Keeps,
}

-- Whatever the operation, its actor, its input and the context: it leaves the graph of grants of
-- every tenant without a cycle where it was so before.
pub run-Everywhere :
    (ctx : Context) (m : Manager) (t : Readings) (actor : Principal) (meta : MutationMetadata)
    (op : Operation) (s : MemoryStore)
    → Everywhere IsCycleFree s
    → Everywhere IsCycleFree (run (memory_store ctx) m t actor meta op s).store
unfolding run create_role create_role_with_permissions update_role delete_role grant_permission
    revoke_permission assign_role unassign_role
run-Everywhere ctx m t actor meta (Operation.creates input) s h =
    checked-Everywhere IsCycleFree ctx _ s _
      (λ _.
        perform-Everywhere IsCycleFree ctx actor.tenant_id _ _ s
          (create_role_body-Keeps IsCycleFree AnyGrant memory_tx frame.growth m t actor meta _) h)
      h
run-Everywhere ctx m t actor meta (Operation.creates_with input) s h =
    checked-Everywhere IsCycleFree ctx _ s _
      (λ _.
        checked-Everywhere IsCycleFree ctx _ s _
          (λ permissions.
            perform-Everywhere IsCycleFree ctx actor.tenant_id _ _ s
              (create_role_with_permissions_body-Keeps IsCycleFree AnyGrant memory_tx frame.growth m
                t actor meta _ permissions (All-every _ permissions λ _. tt))
              h)
          h)
      h
run-Everywhere ctx m t actor meta (Operation.updates input) s h =
    checked-Everywhere IsCycleFree ctx _ s _
      (λ _.
        perform-Everywhere IsCycleFree ctx actor.tenant_id _ _ s
          (update_role_body-Keeps IsCycleFree AnyGrant memory_tx frame.growth m t actor meta input)
          h)
      h
run-Everywhere ctx m t actor meta (Operation.deletes input) s h =
    checked-Everywhere IsCycleFree ctx _ s _
      (λ _.
        checked-Everywhere IsCycleFree ctx _ s _
          (λ _.
            perform-Everywhere IsCycleFree ctx actor.tenant_id _ _ s
              (delete_role_body-Keeps IsCycleFree memory_tx frame m t actor meta input) h)
          h)
      h
run-Everywhere ctx m t actor meta (Operation.grants input) s h =
    checked-Everywhere IsCycleFree ctx _ s _
      (λ _.
        checked-Everywhere IsCycleFree ctx _ s _
          (λ grant.
            perform-Everywhere IsCycleFree ctx actor.tenant_id _ _ s
              (grant_permission_body-Keeps IsCycleFree AnyGrant memory_tx frame.growth m t actor
                meta grant _ tt)
              h)
          h)
      h
run-Everywhere ctx m t actor meta (Operation.revokes input) s h =
    checked-Everywhere IsCycleFree ctx _ s _
      (λ _.
        checked-Everywhere IsCycleFree ctx _ s _
          (λ grant.
            perform-Everywhere IsCycleFree ctx actor.tenant_id _ _ s
              (revoke_permission_body-Keeps IsCycleFree memory_tx frame m t actor meta grant _) h)
          h)
      h
run-Everywhere ctx m t actor meta (Operation.assigns input) s h =
    checked-Everywhere IsCycleFree ctx _ s _
      (λ _.
        perform-Everywhere IsCycleFree ctx actor.tenant_id _ _ s
          (assign_role_body-Keeps m t actor meta input) h)
      h
run-Everywhere ctx m t actor meta (Operation.unassigns input) s h =
    checked-Everywhere IsCycleFree ctx _ s _
      (λ _.
        perform-Everywhere IsCycleFree ctx actor.tenant_id _ _ s
          (unassign_role_body-Keeps m t actor meta input) h)
      h
