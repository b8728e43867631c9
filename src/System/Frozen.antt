-- ===== src/System/Frozen.antt =====
-- A purged tenant under the calls of the manager, the bootstrapper and the maintenance.
use amsonia_core.Base.{◌≡◌, refl, ap, ◌∙◌, true, Option-cases, inl, inr, arith}
use amsonia_core.Base.Maps.{lookup}
use amsonia_core.Text.{Text, text_key}
use amsonia_core.Types.Errors.{Error, Result, ok}
use amsonia_core.Types.Records.{Principal, MutationMetadata, MutationAuditEvent, PurgeResult}
use amsonia_core.Store.{Tx}
use amsonia_core.Memory.{MemoryStore, Context, memory_store, state_of}
use amsonia_core.Memory.State.{TenantState}
use amsonia_core.Memory.Maintenance
use amsonia_core.Memory.Maintenance.{maintain_tenant, memory_maintenance}
use amsonia_core.Memory.Isolation.{mutate_tenant-frozen, maintain_tenant-frozen}
use amsonia_core.TenantExport.{Snapshot}
use amsonia_core.Manager.{Manager, Readings, perform}
use amsonia_core.Manager.Roles.{create_role, create_role_with_permissions, update_role, delete_role}
use amsonia_core.Manager.Grants.{grant_permission, revoke_permission}
use amsonia_core.Manager.Assignments.{assign_role, unassign_role}
use amsonia_core.Manager.Run.{Operation, run}
use amsonia_core.System.Stores.{
  checked_after, bootstrap_tenant-after, purge_tenant-after, export_tenant-after,
}
use amsonia_core.System.{Call, serve, Serves, at_first, after}

-- The tenant has the state that it had.
abbrev Same : Text → MemoryStore → MemoryStore → Type 0
Same b before z = state_of b z ≡ state_of b before

module _ (ctx : Context) (b : Text) (s : MemoryStore) (gone : (state_of b s).purged ≡ true) where
  perform-Same :
      {A : Type 0} (tenant_id : Text) (body : Tx TenantState A)
      (denied : Error → MutationAuditEvent)
      → Same b s (perform (memory_store ctx) tenant_id body denied s).store
  unfolding perform
  perform-Same tenant_id body denied = mutate_tenant-frozen ctx tenant_id body s b gone

  module _ (m : Manager) where
    run-Same :
        (t : Readings) (actor : Principal) (meta : MutationMetadata) (op : Operation)
        → Same b s (run (memory_store ctx) m t actor meta op s).store
    unfolding run create_role create_role_with_permissions update_role delete_role grant_permission
        revoke_permission assign_role unassign_role
    run-Same t actor meta (Operation.creates input) =
        checked_after (Same b s) _ s _ refl λ _. perform-Same _ _ _
    run-Same t actor meta (Operation.creates_with input) =
        checked_after (Same b s) _ s _ refl
          λ _. checked_after (Same b s) _ s _ refl λ permissions. perform-Same _ _ _
    run-Same t actor meta (Operation.updates input) =
        checked_after (Same b s) _ s _ refl λ _. perform-Same _ _ _
    run-Same t actor meta (Operation.deletes input) =
        checked_after (Same b s) _ s _ refl
          λ _. checked_after (Same b s) _ s _ refl λ _. perform-Same _ _ _
    run-Same t actor meta (Operation.grants input) =
        checked_after (Same b s) _ s _ refl
          λ _. checked_after (Same b s) _ s _ refl λ grant. perform-Same _ _ _
    run-Same t actor meta (Operation.revokes input) =
        checked_after (Same b s) _ s _ refl
          λ _. checked_after (Same b s) _ s _ refl λ grant. perform-Same _ _ _
    run-Same t actor meta (Operation.assigns input) =
        checked_after (Same b s) _ s _ refl λ _. perform-Same _ _ _
    run-Same t actor meta (Operation.unassigns input) =
        checked_after (Same b s) _ s _ refl λ _. perform-Same _ _ _

-- A purge of a purged tenant finds its entry in the ledger or fails; an export never changes anything.
pub purge_tenant_idle :
    (event : MutationAuditEvent) (s s' : TenantState) (r : PurgeResult)
    → s.purged ≡ true
    → Maintenance.purge_tenant event s ≡ ok (r, s')
    → s' ≡ s
unfolding Maintenance.purge_tenant
purge_tenant_idle event s s' r gone e =
    elim (Option-cases (lookup event.request_id s.purge_ledger)) [
      | inl new ↦ absurd (ground (arith, new))
      | inr (canonical, old) ↦ ground (arith, old)
    ]

pub export_tenant_idle :
    (render : Snapshot → Result Text) (tenant_id : Text) (s s' : TenantState) (bytes : Text)
    → Maintenance.export_tenant render tenant_id s ≡ ok (bytes, s')
    → s' ≡ s
unfolding Maintenance.export_tenant
export_tenant_idle render tenant_id s s' bytes e = ground arith

-- One call.
serve-Same :
    (m : Manager) (render : Snapshot → Result Text) (b : Text) (call : Call) (s : MemoryStore)
    → (state_of b s).purged ≡ true
    → Same b s (serve m render call s)
unfolding serve
serve-Same m render b (Call.manages ctx t actor meta op) s gone =
    run-Same ctx b s gone m t actor meta op
serve-Same m render b (Call.bootstraps ctx authorize t input) s gone =
    bootstrap_tenant-after (Same b s) s refl (memory_store ctx)
      (record { catalog = m.catalog; controls = m.controls; authorize = authorize }) t input
      λ p grants prepared. mutate_tenant-frozen ctx input.tenant_id _ s b gone
serve-Same m render b (Call.purges ctx maintenance t tenant_id meta) s gone =
    purge_tenant-after (Same b s) s refl (memory_maintenance ctx render) maintenance tenant_id t
      meta λ intent. maintain_tenant-frozen ctx tenant_id _ s (purge_tenant_idle intent) b gone
serve-Same m render b (Call.exports ctx maintenance tenant_id) s gone =
    export_tenant-after (Same b s) s refl (memory_maintenance ctx render) maintenance tenant_id (
      maintain_tenant-frozen ctx tenant_id _ s
        (λ s s' bytes gone. export_tenant_idle render tenant_id s s' bytes) b gone)

-- Once a tenant is purged, no sequence of calls of the manager, the bootstrapper and the maintenance, by
-- whomever and in whatever context, changes anything of its state again: the tombstone and the ledger
-- stay, and nothing comes back.
pub Serves-frozen :
    (m : Manager) (render : Snapshot → Result Text) (first : MemoryStore) (tenant_id : Text)
    → (state_of tenant_id first).purged ≡ true
    → {s : MemoryStore} → Serves m render first s
    → state_of tenant_id s ≡ state_of tenant_id first
Serves-frozen m render first tenant_id gone at_first = refl
Serves-frozen m render first tenant_id gone (after {s} call before) =
    let same = Serves-frozen m render first tenant_id gone before in
    serve-Same m render tenant_id call s (ap (λ z. z.purged) same ∙ gone) ∙ same
