-- ===== src/System/Administered.antt =====
-- The administrator of a bootstrapped tenant, under the calls of the manager, the bootstrapper and the
-- maintenance.
use amsonia_core.Base.{List, ◌≡◌, subst, [], true, All, Option-cases, inl, inr, arith}
use amsonia_core.Base.Maps.{lookup}
use amsonia_core.Text.{Text, text_key}
use amsonia_core.Types.Errors.{Result, ok}
use amsonia_core.Types.Records.{
  ControlPermissions, RolePermissionGrant, HostProvenance, MutationAuditEvent,
}
use amsonia_core.Store.Steps.{Keeps}
use amsonia_core.Memory.{MemoryStore, memory_tx, state_of}
use amsonia_core.Memory.State.{new_tenant_state}
use amsonia_core.Memory.Reader.{has_administrator}
use amsonia_core.Memory.Maintenance
use amsonia_core.Memory.Maintenance.{maintain_tenant, memory_maintenance}
use amsonia_core.Memory.Administrator.Sound.{IsSound}
use amsonia_core.Memory.Administrator.Reached.{Administers-has_administrator}
use amsonia_core.TenantExport.{Snapshot}
use amsonia_core.Manager.{Manager}
use amsonia_core.Manager.Perform.{Everywhere}
use amsonia_core.Manager.Administered.{run-IsSound}
use amsonia_core.Bootstrap.Inputs
use amsonia_core.Bootstrap.Inputs.{BootstrapInput, Bootstrapper, prepare_bootstrap}
use amsonia_core.Bootstrap.Tenant.{bootstrap_body}
use amsonia_core.Bootstrap.Checked.{prepare_bootstrap-Prepared}
use amsonia_core.Bootstrap.Owner.{bootstrap_body-IsSound}
use amsonia_core.System.{Serves}
use amsonia_core.System.Invariants.{Serves-Everywhere}

bootstrap_body-Keeps :
    (b : Bootstrapper) (t : Inputs.Readings) (input : BootstrapInput) (provenance : HostProvenance)
    (grants : List RolePermissionGrant)
    → prepare_bootstrap b input ≡ ok (provenance, grants)
    → Keeps (IsSound b.controls) (bootstrap_body memory_tx t input provenance grants)
bootstrap_body-Keeps b t input provenance grants prepared s a s' e h =
    (bootstrap_body-IsSound b t input provenance grants
      (prepare_bootstrap-Prepared b input prepared) s s' e h).3

-- A purged tenant is not bootstrapped, and has nothing that could be invalid.
purge_tenant-IsSound :
    (controls : ControlPermissions) (event : MutationAuditEvent)
    → Keeps (IsSound controls) (Maintenance.purge_tenant event)
unfolding Maintenance.purge_tenant
purge_tenant-IsSound controls event s a s' e h =
    elim (Option-cases (lookup event.request_id s.purge_ledger)) [
      | inr (canonical, old) ↦ subst (IsSound controls) (ground (arith, old)) h
      | inl new ↦
          let perms : [] ≡ s'.role_perms = ground (arith, new) in
          let subjects : [] ≡ s'.subject_roles = ground (arith, new) in
          record {
            valid = record { stored = subst (All _) perms tt; bound = subst (All _) subjects tt };
            administered = λ marked. absurd (ground (arith, new));
          }
    ]

Serves-IsSound :
    (m : Manager) (render : Snapshot → Result Text) {s : MemoryStore}
    → Serves m render [] s
    → Everywhere (IsSound m.controls) s
unfolding new_tenant_state lookup
Serves-IsSound m render =
    Serves-Everywhere (IsSound m.controls) m render
      (λ ctx t actor meta op s. run-IsSound ctx m t actor meta op s)
      (λ authorize.
        bootstrap_body-Keeps
          (record { catalog = m.catalog; controls = m.controls; authorize = authorize }))
      (purge_tenant-IsSound m.controls) []
      λ b. record { valid = record { stored = tt; bound = tt }; administered = λ marked. cc }

-- From the empty store, whatever calls of the manager, the bootstrapper and the maintenance are made, by
-- whomever and in whatever order and contexts: a tenant that is bootstrapped has an administrator, so
-- `HasAdministrator` says yes of it.
pub Serves-has_administrator :
    (m : Manager) (render : Snapshot → Result Text) (tenant_id : Text) {s : MemoryStore}
    → Serves m render [] s
    → (state_of tenant_id s).bootstrapped ≡ true
    → has_administrator (state_of tenant_id s) m.controls ≡ ok true
Serves-has_administrator m render tenant_id {s} served marked =
    let sound = Serves-IsSound m render served tenant_id in
    let (subject, wields) = sound.administered marked in
    Administers-has_administrator (state_of tenant_id s) m.controls subject sound.valid wields
