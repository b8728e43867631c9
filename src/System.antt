-- ===== src/System.antt =====
-- The parts at work on one in-memory store: the calls of the manager, of the bootstrapper and of the
-- maintenance, in any order.
pub mod Stores
pub mod Frozen
pub mod Invariants
pub mod Administered
pub mod CycleFree
mod Tests
use amsonia_core.Text.{Text}
use amsonia_core.Types.Errors.{Result}
use amsonia_core.Types.Records.{Principal, MutationMetadata, HostProvenance}
use amsonia_core.Memory.{MemoryStore, Context, memory_store}
use amsonia_core.Memory.Maintenance.{memory_maintenance}
use amsonia_core.TenantExport.{Snapshot}
use amsonia_core.Manager
use amsonia_core.Manager.{Manager}
use amsonia_core.Manager.Run.{Operation, run}
use amsonia_core.Bootstrap.Inputs
use amsonia_core.Bootstrap.Inputs.{BootstrapInput}
use amsonia_core.Bootstrap.Tenant.{bootstrap_tenant}
use amsonia_core.Maintenance.Purge
use amsonia_core.Maintenance.Purge.{Maintenance, purge_tenant, export_tenant}

-- One call, with the host's answers that it meets.
pub data Call : Type 0 where
  manages : Context → Manager.Readings → Principal → MutationMetadata → Operation → Call
  bootstraps : Context → (Text → Result HostProvenance) → Inputs.Readings → BootstrapInput → Call
  purges : Context → Maintenance → Purge.Readings → Text → MutationMetadata → Call
  exports : Context → Maintenance → Text → Call

-- The store after a call. The bootstrapper has the catalog and the control permissions of the manager.
unfoldable pub serve : Manager → (Snapshot → Result Text) → Call → MemoryStore → MemoryStore
serve m render (manages ctx t actor meta op) s = (run (memory_store ctx) m t actor meta op s).store
serve m render (bootstraps ctx authorize t input) s =
    (bootstrap_tenant (memory_store ctx)
      (record { catalog = m.catalog; controls = m.controls; authorize = authorize }) t input s).1
serve m render (purges ctx maintenance t tenant_id meta) s =
    (purge_tenant (memory_maintenance ctx render) maintenance t tenant_id meta s).store
serve m render (exports ctx maintenance tenant_id) s =
    (export_tenant (memory_maintenance ctx render) maintenance tenant_id s).1

-- The stores that any calls make of a first one.
pub data Serves (m : Manager) (render : Snapshot → Result Text) (first : MemoryStore)
    : MemoryStore → Type 0 where
  at_first : Serves m render first first
  after :
      {s : MemoryStore} (call : Call)
      → Serves m render first s
      → Serves m render first (serve m render call s)
