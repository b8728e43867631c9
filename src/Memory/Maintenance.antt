-- ===== src/Memory/Maintenance.antt =====
-- `maintenanceTx` and `MaintainTenant` of memory.go: the export and the purge of a tenant.
use amsonia_core.Base.{List, [], ◌∷◌, ◌++◌, true, false, none, some, if◌then◌else◌}
use amsonia_core.Base.Maps.{Map, lookup, insert, values}
use amsonia_core.Text.{Text, text_key, codes}
use amsonia_core.Types.Errors.{Result, ok, err, not_found}
use amsonia_core.Types.Records.{MutationAuditEvent, PurgeResult}
use amsonia_core.Store.{Tx, MaintenanceStore}
use amsonia_core.TenantExport.{Slice, Snapshot, canonical}
use amsonia_core.Memory.State.{TenantState, clone_tenant_state}
use amsonia_core.Memory.{MemoryStore, Context, state_of, with_tenant, commit, enter}

-- The values of a map of maps, map by map.
abbrev pub inner_values : {J K V : Type 0} → Map J (Map K V) → List V
inner_values [] = []
inner_values ((j, m) ∷ rest) = values m ++ inner_values rest

-- What `append` makes of a nil slice, element by element: it stays nil where there is none.
abbrev pub appended : {A : Type 0} → List A → Slice A
appended [] = none
appended (x ∷ xs) = some (x ∷ xs)

-- What the loops of `ExportTenant` collect.
unfoldable pub snapshot_of : Text → TenantState → Snapshot
snapshot_of tenant_id s = record {
  format = codes "amsonia.tenant.v1";
  tenant_id = tenant_id;
  roles = appended (values s.roles);
  grants = appended (inner_values s.role_perms);
  versions = appended (inner_values s.role_versions);
  edges = appended (values s.grant_edges);
  audit = appended s.audit;
}

-- `render` stands for `json.MarshalIndent`; the message around its failure keeps the cause.
unfoldable pub export_tenant : (Snapshot → Result Text) → Text → Tx TenantState Text
export_tenant render tenant_id s =
    if s.purged then err not_found else elim (render (canonical (snapshot_of tenant_id s))) [
      | err e ↦ err e
      | ok bytes ↦ ok (bytes, s)
    ]

unfoldable pub purge_tenant : MutationAuditEvent → Tx TenantState PurgeResult
purge_tenant event s = elim (lookup event.request_id s.purge_ledger) [
  | some canonical ↦
      ok (record { changed = false; already_committed = true; canonical_event = canonical }, s)
  | none ↦
      if s.purged
      then err not_found
      else ok (
        record { changed = true; already_committed = false; canonical_event = event },
        record s {
          roles = [];
          role_perms = [];
          subject_roles = [];
          grant_edges = [];
          role_versions = [];
          audit = [];
          bootstrapped = false;
          purged = true;
          purge_ledger = insert event.request_id event s.purge_ledger;
        },
      )
]

unfoldable pub maintain_tenant :
    {A : Type 0} → Context → Text → Tx TenantState A → MemoryStore → Result A × MemoryStore
maintain_tenant ctx tenant_id body store = enter ctx tenant_id store λ s.
    commit ctx tenant_id (body (clone_tenant_state (state_of tenant_id s)))
      (with_tenant tenant_id s)

abbrev pub memory_maintenance :
    Context → (Snapshot → Result Text) → MaintenanceStore TenantState MemoryStore
memory_maintenance ctx render = record {
  tx = record { export_tenant = export_tenant render; purge_tenant = purge_tenant };
  maintain_tenant = λ A tenant_id body store. maintain_tenant ctx tenant_id body store;
}
