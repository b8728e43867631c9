-- ===== src/Memory.antt =====
-- memory/memory.go: the in-memory store. One lock orders all calls, so a call is a function from
-- the store to the store; what it leaves behind is the list of the tenants' states.
pub mod State
pub mod GrantPath
pub mod Reader
pub mod Writer
pub mod Maintenance
pub mod Isolation
pub mod Cells
pub mod Purge
pub mod Administrator
mod Tests
use amsonia_core.Base.{ℕ, List, [], ◌∷◌, Bool, true, false, Option, none, some, not, if◌then◌else◌}
use amsonia_core.Base.Maps.{Map, lookup, insert, contains}
use amsonia_core.Text.{Text, text_key}
use amsonia_core.Types.Errors.{Error, Result, ok, err, invalid_input, not_found, is_ok}
use amsonia_core.Types.Records.{EffectiveGrant, MutationAuditEvent, HostProvenance}
use amsonia_core.Types.Ids.{validate_opaque_id}
use amsonia_core.Store.{Tx, TenantTx, Store, pure}
use amsonia_core.Memory.State.{TenantState, new_tenant_state, clone_tenant_state}
use amsonia_core.Memory.Reader.{
  list_effective_grants, get_role, list_role_permission_grants, list_subject_role_ids,
  list_role_subject_ids, has_grant_path, has_administrator,
}
use amsonia_core.Memory.Writer

abbrev pub MemoryStore : Type 0
MemoryStore = Map Text TenantState

-- What `ctx.Err()` answers before the lock, behind it, and after the callback.
pub record Context : Type 0 where
  pub before : Option Error
  pub locked : Option Error
  pub finished : Option Error

-- A read of the transaction's state.
abbrev pub answer : {A : Type 0} → (TenantState → A) → Tx TenantState A
answer f s = ok (f s, s)

abbrev pub attempt : {A : Type 0} → (TenantState → Result A) → Tx TenantState A
attempt f s = elim (f s) [ err e ↦ err e | ok a ↦ ok (a, s) ]

-- The methods of `tenantTx`.
abbrev pub memory_tx : TenantTx TenantState
memory_tx = record {
  list_effective_grants =
      λ subject permission. answer (λ s. list_effective_grants s subject permission);
  get_role = λ role_id. attempt (λ s. get_role s role_id);
  list_role_permission_grants = λ role_id. attempt (λ s. list_role_permission_grants s role_id);
  list_subject_role_ids = λ subject. answer (λ s. list_subject_role_ids s subject);
  list_role_subject_ids = λ role_id. answer (λ s. list_role_subject_ids s role_id);
  has_grant_path = λ from to. attempt (λ s. has_grant_path s from to);
  has_administrator = λ controls. attempt (λ s. has_administrator s controls);
  is_bootstrapped = answer (λ s. s.bootstrapped);
  insert_role = Writer.insert_role;
  update_role = Writer.update_role;
  tombstone_role = Writer.tombstone_role;
  insert_role_permission_grant = Writer.insert_role_permission_grant;
  delete_role_permission_grant = Writer.delete_role_permission_grant;
  insert_subject_role_grant = Writer.insert_subject_role_grant;
  delete_subject_role_grant = Writer.delete_subject_role_grant;
  insert_grant_edge = Writer.insert_grant_edge;
  delete_grant_edge = Writer.delete_grant_edge;
  insert_role_version = Writer.insert_role_version;
  insert_mutation_audit = Writer.insert_mutation_audit;
  mark_bootstrapped = Writer.mark_bootstrapped;
}

-- `s.tenant(tenantID)`: the state of the tenant, and the store in which it has an entry.
abbrev pub state_of : Text → MemoryStore → TenantState
state_of tenant_id store = elim (lookup tenant_id store) [ none ↦ new_tenant_state | some t ↦ t ]

unfoldable pub with_tenant : Text → MemoryStore → MemoryStore
with_tenant tenant_id store =
    if contains tenant_id store then store else insert tenant_id new_tenant_state store

-- The callback has run: commit, unless it failed or the context was cancelled meanwhile.
unfoldable pub commit :
    {A : Type 0} → Context → Text → Result (A × TenantState) → MemoryStore → Result A × MemoryStore
commit ctx tenant_id (err e) store = (err e, store)
commit ctx tenant_id (ok (a, pending)) store = elim ctx.finished [
  | some e ↦ (err e, store)
  | none ↦ (ok a, insert tenant_id pending store)
]

-- The checks that every tenant boundary makes before its callback.
unfoldable pub enter : {A S : Type 0} → Context → Text → S → (S → Result A × S) → Result A × S
enter ctx tenant_id store run =
    if not (is_ok (validate_opaque_id tenant_id))
    then (err invalid_input, store)
    else elim ctx.before [
      | some e ↦ (err e, store)
      | none ↦ elim ctx.locked [ some e ↦ (err e, store) | none ↦ run store ]
    ]

-- A callback that fails says nothing of the copy that it has worked on, which nothing refers to any more.
-- That the copy shares nothing with the state of the tenant is the subject of Memory/Cells.
unfoldable pub mutate_tenant :
    {A : Type 0} → Context → Text → Tx TenantState A → MemoryStore → Result A × MemoryStore
mutate_tenant ctx tenant_id body store = enter ctx tenant_id store λ s.
    let t = state_of tenant_id s in
    let run = commit ctx tenant_id (body (clone_tenant_state t)) (with_tenant tenant_id s) in
    if t.purged then (err not_found, with_tenant tenant_id s) else run

unfoldable pub read_tenant :
    {A : Type 0} → Context → Text → (TenantState → Result A) → MemoryStore → Result A
read_tenant ctx tenant_id body store =
    (enter ctx tenant_id store λ s. elim (body (state_of tenant_id s)) [
      | err e ↦ (err e, s)
      | ok a ↦ elim ctx.finished [ some e ↦ (err e, s) | none ↦ (ok a, s) ]
    ]).0

-- `ListEffectiveGrants` of the store, the policy reader of the authorizer.
unfoldable pub read_effective_grants :
    Context → MemoryStore → Text → Text → Text → Result (List EffectiveGrant)
read_effective_grants ctx store tenant_id subject_id permission =
    read_tenant ctx tenant_id (λ s. ok (list_effective_grants s subject_id permission)) store

abbrev pub memory_store : Context → Store TenantState MemoryStore
memory_store ctx = record {
  tx = memory_tx;
  mutate_tenant = λ A tenant_id body store. mutate_tenant ctx tenant_id body store;
}

-- `Purged`
unfoldable pub is_purged : MemoryStore → Text → Bool
is_purged store tenant_id = elim (lookup tenant_id store) [ none ↦ false | some t ↦ t.purged ]
