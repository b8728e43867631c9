-- ===== src/Memory/Cells.antt =====
-- memory/memory.go: `MutateTenant` and `MaintainTenant` over pointers. The map of the tenants holds the
-- address of each tenant's struct, a struct refers to its maps, a callback writes in place, and a
-- callback that fails leaves what it has written.
pub mod Reads
pub mod Owned
pub mod Refined
pub mod Rollback
mod Tests
use amsonia_core.Base.{ℕ, suc, List, Bool, ◌==◌, nat_key, Option, none, some, if◌then◌else◌}
use amsonia_core.Base.Maps.{Map, lookup, insert}
use amsonia_core.Text.{Text, text_key}
use amsonia_core.Types.Errors.{Result, ok, err, not_found}
use amsonia_core.Types.Records.{
  Role, RolePermissionGrant, SubjectRoleGrant, GrantEdge, RoleVersion, MutationAuditEvent,
  HostProvenance,
}
use amsonia_core.Memory.State.{GrantKey, EdgeKey, TenantState, new_tenant_state, clone_tenant_state}
use amsonia_core.Memory.{Context, enter}

-- The struct `tenantState`: its maps are references. The slice of the audit and the rest are values.
pub record Struct : Type 0 where
  pub roles : ℕ
  pub role_perms : ℕ
  pub subject_roles : ℕ
  pub grant_edges : ℕ
  pub role_versions : ℕ
  pub audit : List MutationAuditEvent
  pub bootstrapped : Bool
  pub bootstrap_provenance : HostProvenance
  pub purged : Bool
  pub purge_ledger : ℕ

-- What the references refer to.
pub record Maps : Type 0 where
  pub roles : ℕ → Map Text Role
  pub role_perms : ℕ → Map Text (Map GrantKey RolePermissionGrant)
  pub subject_roles : ℕ → Map Text (Map Text SubjectRoleGrant)
  pub grant_edges : ℕ → Map EdgeKey GrantEdge
  pub role_versions : ℕ → Map Text (Map ℕ RoleVersion)
  pub purge_ledger : ℕ → Map Text MutationAuditEvent

-- The structs and the maps by address, the first address that is free, and `Store.tenants`.
pub record Cells : Type 0 where
  pub struct : ℕ → Struct
  pub maps : Maps
  pub next : ℕ
  pub tenants : Map Text ℕ

unfoldable pub put : {A : Type 0} → ℕ → A → (ℕ → A) → ℕ → A
put p v f q = if p == q then v else f q

-- The state that a struct stands for.
unfoldable pub load : Struct → Maps → TenantState
load s m = record {
  roles = m.roles s.roles;
  role_perms = m.role_perms s.role_perms;
  subject_roles = m.subject_roles s.subject_roles;
  grant_edges = m.grant_edges s.grant_edges;
  role_versions = m.role_versions s.role_versions;
  audit = s.audit;
  bootstrapped = s.bootstrapped;
  bootstrap_provenance = s.bootstrap_provenance;
  purged = s.purged;
  purge_ledger = m.purge_ledger s.purge_ledger;
}

abbrev pub read : ℕ → Cells → TenantState
read p h = load (h.struct p) h.maps

-- The maps of a struct with new entries, which each other struct that refers to them sees too.
unfoldable pub put_maps : Struct → TenantState → Maps → Maps
put_maps s t m = record {
  roles = put s.roles t.roles m.roles;
  role_perms = put s.role_perms t.role_perms m.role_perms;
  subject_roles = put s.subject_roles t.subject_roles m.subject_roles;
  grant_edges = put s.grant_edges t.grant_edges m.grant_edges;
  role_versions = put s.role_versions t.role_versions m.role_versions;
  purge_ledger = put s.purge_ledger t.purge_ledger m.purge_ledger;
}

-- The struct with the values of a state, and the references that it had.
unfoldable pub with_values : TenantState → Struct → Struct
with_values t s = record s {
  audit = t.audit;
  bootstrapped = t.bootstrapped;
  bootstrap_provenance = t.bootstrap_provenance;
  purged = t.purged;
}

-- A callback on the state that its transaction points to: its result, and what it has made of that
-- state, also where it fails.
abbrev pub Callback : Type 0 → Type 0
Callback A = TenantState → Result A × TenantState

-- What is written through a pointer.
unfoldable pub write : ℕ → TenantState → Cells → Cells
write p t h = record h {
  struct = put p (with_values t (h.struct p)) h.struct;
  maps = put_maps (h.struct p) t h.maps;
}

-- `newTenantState`: a struct with maps of its own, and what is put into it.
unfoldable pub fresh : ℕ → TenantState → Struct
fresh p t = record {
  roles = p;
  role_perms = p;
  subject_roles = p;
  grant_edges = p;
  role_versions = p;
  audit = t.audit;
  bootstrapped = t.bootstrapped;
  bootstrap_provenance = t.bootstrap_provenance;
  purged = t.purged;
  purge_ledger = p;
}

unfoldable pub allocate : TenantState → Cells → Cells
allocate t h =
    let made = fresh h.next t in
    record h { struct = put h.next made h.struct; maps = put_maps made t h.maps; next = suc h.next }

-- `s.tenants[tenantID] = p`
unfoldable pub point : Text → ℕ → Cells → Cells
point tenant_id p h = record h { tenants = insert tenant_id p h.tenants }

-- `s.tenant(tenantID)`: its pointer, to a new state if the map had none.
unfoldable pub pointer_at : Text → Option ℕ → Cells → ℕ × Cells
pointer_at tenant_id (some t) h = (t, h)
pointer_at tenant_id none h = (h.next, point tenant_id h.next (allocate new_tenant_state h))

unfoldable pub pointer_of : Text → Cells → ℕ × Cells
pointer_of tenant_id h = pointer_at tenant_id (lookup tenant_id h.tenants) h

-- The callback has run on the state at `pending`.
unfoldable pub finish :
    {A : Type 0} → Context → Text → ℕ → Result A × TenantState → Cells → Result A × Cells
finish ctx tenant_id pending (err e, written) h = (err e, write pending written h)
finish ctx tenant_id pending (ok a, written) h = elim ctx.finished [
  | some e ↦ (err e, write pending written h)
  | none ↦ (ok a, point tenant_id pending (write pending written h))
]

-- Both calls copy the state at `t` to a new address, and run the callback there.
unfoldable pub run_on_copy :
    {A : Type 0} → Context → Text → Callback A → ℕ → Cells → Result A × Cells
run_on_copy ctx tenant_id fn t h =
    let copied = allocate (clone_tenant_state (read t h)) h in
    finish ctx tenant_id h.next (fn (read h.next copied)) copied

-- `MutateTenant`
unfoldable pub mutate_cells : {A : Type 0} → Context → Text → Callback A → Cells → Result A × Cells
mutate_cells ctx tenant_id fn cells = enter ctx tenant_id cells λ h.
    let (t, found) = pointer_of tenant_id h in
    let run = run_on_copy ctx tenant_id fn t found in
    if (read t found).purged then (err not_found, found) else run

-- `MaintainTenant`, which lets a purged tenant in.
unfoldable pub maintain_cells :
    {A : Type 0} → Context → Text → Callback A → Cells → Result A × Cells
maintain_cells ctx tenant_id fn cells =
    enter ctx tenant_id cells
      λ h. let (t, found) = pointer_of tenant_id h in run_on_copy ctx tenant_id fn t found
