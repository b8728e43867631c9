-- ===== src/System/Invariants.antt =====
-- A property of the tenants' states, under the calls of the manager, the bootstrapper and the
-- maintenance.
use amsonia_core.Base.{List, ◌≡◌, subst, sym}
use amsonia_core.Text.{Text, text_key}
use amsonia_core.Types.Errors.{Result, ok}
use amsonia_core.Types.Records.{
  Principal, MutationMetadata, RolePermissionGrant, HostProvenance, MutationAuditEvent,
}
use amsonia_core.Store.Steps.{Keeps}
use amsonia_core.Memory.{Context, MemoryStore, memory_store, memory_tx}
use amsonia_core.Memory.State.{TenantState}
use amsonia_core.Memory.Maintenance
use amsonia_core.Memory.Maintenance.{maintain_tenant, memory_maintenance}
use amsonia_core.Memory.Isolation.{mutate_tenant-Effect, maintain_tenant-Effect}
use amsonia_core.TenantExport.{Snapshot}
use amsonia_core.Manager.{Manager, Readings}
use amsonia_core.Manager.Run.{Operation, run}
use amsonia_core.Manager.Perform.{Everywhere, Effect-Everywhere}
use amsonia_core.Bootstrap.Inputs
use amsonia_core.Bootstrap.Inputs.{BootstrapInput, Bootstrapper, prepare_bootstrap}
use amsonia_core.Bootstrap.Tenant.{bootstrap_body}
use amsonia_core.System.{Call, serve, Serves, at_first, after}
use amsonia_core.System.Stores.{bootstrap_tenant-after, purge_tenant-after, export_tenant-after}
use amsonia_core.System.Frozen.{export_tenant_idle}

-- The bootstrapper that works with the manager.
abbrev pub bootstrapper_of : Manager → (Text → Result HostProvenance) → Bootstrapper
bootstrapper_of m authorize = record {
  catalog = m.catalog;
  controls = m.controls;
  authorize = authorize;
}

module _ (I : TenantState → Type 0) (m : Manager) (render : Snapshot → Result Text)
    (manager_keeps : (ctx : Context) (t : Readings) (actor : Principal) (meta : MutationMetadata)
        (op : Operation) (s : MemoryStore)
      → Everywhere I s
      → Everywhere I (run (memory_store ctx) m t actor meta op s).store)
    (bootstrap_keeps : (authorize : Text → Result HostProvenance) (t : Inputs.Readings)
        (input : BootstrapInput) (p : HostProvenance) (grants : List RolePermissionGrant)
      → prepare_bootstrap (bootstrapper_of m authorize) input ≡ ok (p, grants)
      → Keeps I (bootstrap_body memory_tx t input p grants))
    (purge_keeps : (event : MutationAuditEvent) → Keeps I (Maintenance.purge_tenant event)) where
  -- One call.
  serve-Everywhere :
      (call : Call) (s : MemoryStore) → Everywhere I s → Everywhere I (serve m render call s)
  unfolding serve
  serve-Everywhere (Call.manages ctx t actor meta op) s h = manager_keeps ctx t actor meta op s h
  serve-Everywhere (Call.bootstraps ctx authorize t input) s h =
      bootstrap_tenant-after (Everywhere I) s h (memory_store ctx) (bootstrapper_of m authorize) t
        input
        λ p grants prepared.
          Effect-Everywhere I input.tenant_id (bootstrap_body memory_tx t input p grants) s _
            (bootstrap_keeps authorize t input p grants prepared)
            (mutate_tenant-Effect ctx input.tenant_id (bootstrap_body memory_tx t input p grants) s)
            h
  serve-Everywhere (Call.purges ctx maintenance t tenant_id meta) s h =
      purge_tenant-after (Everywhere I) s h (memory_maintenance ctx render) maintenance tenant_id t
        meta
        λ intent.
          Effect-Everywhere I tenant_id (Maintenance.purge_tenant intent) s _ (purge_keeps intent)
            (maintain_tenant-Effect ctx tenant_id (Maintenance.purge_tenant intent) s) h
  serve-Everywhere (Call.exports ctx maintenance tenant_id) s h =
      export_tenant-after (Everywhere I) s h (memory_maintenance ctx render) maintenance tenant_id (
        Effect-Everywhere I tenant_id (Maintenance.export_tenant render tenant_id) s _
          (λ s bytes s' e kept.
            subst I (sym (export_tenant_idle render tenant_id s s' bytes e)) kept)
          (maintain_tenant-Effect ctx tenant_id (Maintenance.export_tenant render tenant_id) s) h)

  pub Serves-Everywhere :
      (first : MemoryStore)
      → Everywhere I first
      → {s : MemoryStore} → Serves m render first s
      → Everywhere I s
  Serves-Everywhere first h at_first = h
  Serves-Everywhere first h (after {s} call before) =
      serve-Everywhere call s (Serves-Everywhere first h before)
