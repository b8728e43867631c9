-- ===== src/Manager/Tests.antt =====
-- The theorems on manager.go for a tenant with one administrator.
use amsonia_core.Base.{arith, subst, ℕ, ◌≡◌, refl, List, [], ◌∷◌, Bool, true, false, none}
use amsonia_core.Base.Maps.{Map, keys, lookup}
use amsonia_core.Text.{Text, codes, text_dec}
use amsonia_core.Types.Errors.{ok}
use amsonia_core.Types.Enums.{Scope, GrantProvenance}
use amsonia_core.Types.Records.{
  Principal, MutationMetadata, Role, RolePermissionGrant, SubjectRoleGrant, ControlPermissions,
  PermissionDefinition,
}
use amsonia_core.Catalog.{Catalog}
use amsonia_core.Memory.{MemoryStore, Context, memory_store, state_of}
use amsonia_core.Memory.State.{TenantState, GrantKey, new_tenant_state}
use amsonia_core.Memory.GrantPath.Correctness.{Chain, here, next}
use amsonia_core.Manager.{Manager, Readings, MutationResult}
use amsonia_core.Manager.Inputs.{AssignRoleInput}
use amsonia_core.Manager.Run.{Operation, run}
use amsonia_core.Manager.Perform.{Everywhere}
use amsonia_core.Manager.Delegations.{IsCycleFree}
use amsonia_core.Manager.CycleFree.{run-Everywhere}
use amsonia_core.Manager.Assignments.{unassign_role}
use amsonia_core.Manager.LastAdministrator.{IsAdministered, unassign_role-IsAdministered}
use amsonia_core.Manager.Warrants.{Warrant}
use amsonia_core.Manager.Authorized.{run-Warrant}

abbrev roles_key : Text
roles_key = codes "iam:role:manage"

abbrev grants_key : Text
grants_key = codes "iam:grant:manage"

abbrev assign_key : Text
assign_key = codes "iam:role:assign"

abbrev definition : Text → Text × PermissionDefinition
definition key = (key, record { key = key; description = [] })

abbrev manager : Manager
manager = record {
  catalog = definition roles_key ∷ definition grants_key ∷ definition assign_key ∷ [];
  controls = record {
    manage_roles = roles_key;
    manage_grants = grants_key;
    assign_roles = assign_key;
  };
}

abbrev admin_role : Role
admin_role = record {
  tenant_id = codes "t";
  role_id = codes "admin";
  name = codes "Administrator";
  description = [];
  version = 1;
  deleted = false;
}

abbrev entry : Text → GrantKey × RolePermissionGrant
entry key = (
  record { permission = key; scope = Scope.tenant; roles = [] },
  record { role_id = codes "admin"; permission = key; scope = Scope.tenant; workspace_roles = [] },
)

-- The first administrator's binding.
abbrev first_binding : SubjectRoleGrant
first_binding = record {
  tenant_id = codes "t";
  subject_id = codes "ann";
  role_id = codes "admin";
  grantor_subject_id = [];
  provenance = GrantProvenance.bootstrap;
  granted_at = 0;
}

abbrev tenant_state : TenantState
tenant_state = record new_tenant_state {
  roles = (codes "admin", admin_role) ∷ [];
  role_perms = (codes "admin", entry roles_key ∷ entry grants_key ∷ entry assign_key ∷ []) ∷ [];
  subject_roles = (codes "ann", (codes "admin", first_binding) ∷ []) ∷ [];
  role_versions = (codes "admin", []) ∷ [];
  bootstrapped = true;
}

abbrev one_tenant : MemoryStore
one_tenant = (codes "t", tenant_state) ∷ []

abbrev open_context : Context
open_context = record { before = none; locked = none; finished = none }

abbrev readings : Readings
readings = record { granted_at = 5; created_at = 6; audited_at = 7; denied_at = 8 }

abbrev ann : Principal
ann = record { tenant_id = codes "t"; subject_id = codes "ann" }

abbrev why : MutationMetadata
why = record { request_id = codes "q1"; reason_code = codes "onboarding" }

-- The administrator makes "bob" one too.
abbrev promotion : Operation
promotion =
    Operation.assigns
      (record { subject_id = codes "bob"; role_id = codes "admin"; expected_role_version = 1 })

promotion-changes :
    (run (memory_store open_context) manager readings ann why promotion one_tenant).result
    ≡ ok (record { changed = true; role_version = 1 })
unfolding amsonia_core.Base.Maps.lookup amsonia_core.Base.Maps.contains
    amsonia_core.Base.Maps.insert amsonia_core.Base.Sort.insert_by amsonia_core.Base.Sort.sort_by
    amsonia_core.Text.Defs.text_dec amsonia_core.Text.Utf8.decode_rune
    amsonia_core.Text.Utf8.runes_from amsonia_core.Text.Utf8.runes
    amsonia_core.Text.Utf8.valid_string amsonia_core.Text.Space.is_space
    amsonia_core.Text.Space.trim_front amsonia_core.Text.Space.starts_rune
    amsonia_core.Text.Space.ending amsonia_core.Text.Space.last_rune
    amsonia_core.Text.Space.trim_back amsonia_core.Text.Space.trim_space
    amsonia_core.Text.Order.text_ltb amsonia_core.Text.Split.split amsonia_core.Text.Split.join
    amsonia_core.Types.Enums.scope_dec amsonia_core.Types.Records.next_version
    amsonia_core.Types.Records.previous_version amsonia_core.Types.Ids.is_control
    amsonia_core.Types.Ids.is_valid_utf8_no_control amsonia_core.Types.Ids.validate_opaque_id
    amsonia_core.Types.Ids.validate_role_name amsonia_core.Types.Ids.is_reason_rune
    amsonia_core.Types.Ids.validate_meta amsonia_core.Catalog.Keys.segment_rune
    amsonia_core.Catalog.Keys.validate_segment amsonia_core.Catalog.Keys.validate_key
    amsonia_core.Catalog.Keys.parse_permission_key amsonia_core.Catalog.Keys.workspace_role_rune
    amsonia_core.Catalog.Keys.validate_workspace_role amsonia_core.Catalog.index
    amsonia_core.Catalog.new_catalog amsonia_core.Catalog.lookup_key amsonia_core.Catalog.sink
    amsonia_core.Catalog.sort_from amsonia_core.Catalog.sort_keys amsonia_core.Catalog.catalog_keys
    amsonia_core.Policy.covers_workspace_roles amsonia_core.Policy.allow_delegation
    amsonia_core.Policy.Grants.validate_grant amsonia_core.Authorizer.Request.validate_mode_fields
    amsonia_core.Authorizer.Request.validate_optional
    amsonia_core.Authorizer.Request.validate_resource_context
    amsonia_core.Authorizer.Request.validate_request amsonia_core.Store.pure
    amsonia_core.Store.◌>>=◌ amsonia_core.Store.lift amsonia_core.Memory.State.grant_key_dec
    amsonia_core.Memory.State.edge_key_dec amsonia_core.Memory.State.new_tenant_state
    amsonia_core.Memory.State.clone_snapshot amsonia_core.Memory.State.clone_tenant_state
    amsonia_core.Memory.GrantPath.targets amsonia_core.Memory.GrantPath.search_path
    amsonia_core.Memory.GrantPath.has_path amsonia_core.Memory.Reader.grants_of_role
    amsonia_core.Memory.Reader.grants_of_roles amsonia_core.Memory.Reader.list_effective_grants
    amsonia_core.Memory.Reader.get_role amsonia_core.Memory.Reader.grant_before
    amsonia_core.Memory.Reader.list_role_permission_grants
    amsonia_core.Memory.Reader.list_subject_role_ids amsonia_core.Memory.Reader.subjects_with
    amsonia_core.Memory.Reader.list_role_subject_ids amsonia_core.Memory.Reader.has_grant_path
    amsonia_core.Memory.Writer.key_of amsonia_core.Memory.Writer.put_grant
    amsonia_core.Memory.Writer.insert_role_permission_grant
    amsonia_core.Memory.Writer.insert_subject_role_grant amsonia_core.Memory.Writer.edge_key_of
    amsonia_core.Memory.Writer.insert_grant_edge amsonia_core.Memory.Writer.insert_mutation_audit
    amsonia_core.Memory.with_tenant amsonia_core.Memory.commit amsonia_core.Memory.enter
    amsonia_core.Memory.mutate_tenant amsonia_core.Manager.audit_event
    amsonia_core.Manager.denied_outcome amsonia_core.Manager.record_denied
    amsonia_core.Manager.perform amsonia_core.Manager.checked
    amsonia_core.Manager.Inputs.validate_actor amsonia_core.Manager.Inputs.validate_named_role
    amsonia_core.Manager.Guards.snapshot_before amsonia_core.Manager.Guards.sorted_grants
    amsonia_core.Manager.Guards.each_step amsonia_core.Manager.Guards.check_role_grant
    amsonia_core.Manager.Guards.require_grant amsonia_core.Manager.Guards.require_role_coverage
    amsonia_core.Manager.Guards.current_role amsonia_core.Manager.Guards.guard_last_administrator
    amsonia_core.Manager.Guards.bump_role_version amsonia_core.Manager.Grants.no_change
    amsonia_core.Manager.Grants.new_version amsonia_core.Manager.Assignments.bound
    amsonia_core.Manager.Assignments.refuse_cycle amsonia_core.Manager.Assignments.assign_role_body
    amsonia_core.Manager.Assignments.delete_edge_of
    amsonia_core.Manager.Assignments.validate_assignment
    amsonia_core.Manager.Assignments.assign_role amsonia_core.Manager.Run.run
    amsonia_core.Base.ℕ_discrete amsonia_core.Base.list_dec
promotion-changes = refl

run-Warrant_example : Warrant manager ann (state_of (codes "t") one_tenant) promotion
run-Warrant_example =
    run-Warrant open_context manager readings ann why promotion one_tenant promotion-changes

-- Nobody has passed a role on in the first store.
one_tenant-IsCycleFree : Everywhere IsCycleFree one_tenant
unfolding new_tenant_state lookup
one_tenant-IsCycleFree tenant x y c d = no_edges (subst (λ k. Chain k x y) (no_keys tenant) c)
  where
    no_keys : (tenant : Text) → keys (state_of tenant one_tenant).grant_edges ≡ []
    no_keys tenant = elim (text_dec (codes "t") tenant) [
      | yes p ↦ ground arith
      | no h ↦ ground arith
    ]

    no_edges : {x y : Text} → Chain [] x y → x ≡ y
    no_edges here = refl
    no_edges (next c e) = absurd e

run-Everywhere_example :
    Everywhere IsCycleFree
      (run (memory_store open_context) manager readings ann why promotion one_tenant).store
run-Everywhere_example =
    run-Everywhere open_context manager readings ann why promotion one_tenant one_tenant-IsCycleFree

-- "bob" holds the role as well, from "ann".
abbrev two_administrators : MemoryStore
two_administrators =
    (
      codes "t",
      record tenant_state {
        subject_roles =
            (codes "ann", (codes "admin", first_binding) ∷ [])
            ∷ (
              codes "bob",
              (
                codes "admin",
                record first_binding {
                  subject_id = codes "bob";
                  grantor_subject_id = codes "ann";
                  provenance = GrantProvenance.delegated;
                },
              )
                  ∷ [],
            )
            ∷ [];
        grant_edges =
            (
              record { grantor = codes "ann"; grantee = codes "bob"; role_id = codes "admin" },
              record {
                tenant_id = codes "t";
                grantor = codes "ann";
                grantee = codes "bob";
                role_id = codes "admin";
                created_at = 0;
              },
            )
            ∷ [];
      },
    )
    ∷ []

abbrev demotion : AssignRoleInput
demotion = record { subject_id = codes "bob"; role_id = codes "admin"; expected_role_version = 0 }

demotion-changes :
    (unassign_role
      (memory_store open_context)
      manager
      readings
      ann
      why
      demotion
      two_administrators).result
    ≡ ok (record { changed = true; role_version = 1 })
unfolding amsonia_core.Base.Maps.lookup amsonia_core.Base.Maps.contains
    amsonia_core.Base.Maps.insert amsonia_core.Base.Sort.insert_by amsonia_core.Base.Sort.sort_by
    amsonia_core.Text.Defs.text_dec amsonia_core.Text.Utf8.decode_rune
    amsonia_core.Text.Utf8.runes_from amsonia_core.Text.Utf8.runes
    amsonia_core.Text.Utf8.valid_string amsonia_core.Text.Space.is_space
    amsonia_core.Text.Space.trim_front amsonia_core.Text.Space.starts_rune
    amsonia_core.Text.Space.ending amsonia_core.Text.Space.last_rune
    amsonia_core.Text.Space.trim_back amsonia_core.Text.Space.trim_space
    amsonia_core.Text.Order.text_ltb amsonia_core.Text.Split.split amsonia_core.Text.Split.join
    amsonia_core.Types.Enums.scope_dec amsonia_core.Types.Records.next_version
    amsonia_core.Types.Records.previous_version amsonia_core.Types.Ids.is_control
    amsonia_core.Types.Ids.is_valid_utf8_no_control amsonia_core.Types.Ids.validate_opaque_id
    amsonia_core.Types.Ids.validate_role_name amsonia_core.Types.Ids.is_reason_rune
    amsonia_core.Types.Ids.validate_meta amsonia_core.Catalog.Keys.segment_rune
    amsonia_core.Catalog.Keys.validate_segment amsonia_core.Catalog.Keys.validate_key
    amsonia_core.Catalog.Keys.parse_permission_key amsonia_core.Catalog.Keys.workspace_role_rune
    amsonia_core.Catalog.Keys.validate_workspace_role amsonia_core.Catalog.index
    amsonia_core.Catalog.new_catalog amsonia_core.Catalog.lookup_key amsonia_core.Catalog.sink
    amsonia_core.Catalog.sort_from amsonia_core.Catalog.sort_keys amsonia_core.Catalog.catalog_keys
    amsonia_core.Policy.covers_workspace_roles amsonia_core.Policy.allow_delegation
    amsonia_core.Policy.Grants.validate_grant amsonia_core.Authorizer.Request.validate_mode_fields
    amsonia_core.Authorizer.Request.validate_optional
    amsonia_core.Authorizer.Request.validate_resource_context
    amsonia_core.Authorizer.Request.validate_request amsonia_core.Store.pure
    amsonia_core.Store.◌>>=◌ amsonia_core.Store.lift amsonia_core.Memory.State.grant_key_dec
    amsonia_core.Memory.State.edge_key_dec amsonia_core.Memory.State.new_tenant_state
    amsonia_core.Memory.State.clone_snapshot amsonia_core.Memory.State.clone_tenant_state
    amsonia_core.Memory.GrantPath.targets amsonia_core.Memory.GrantPath.search_path
    amsonia_core.Memory.GrantPath.has_path amsonia_core.Memory.Reader.grants_of_role
    amsonia_core.Memory.Reader.grants_of_roles amsonia_core.Memory.Reader.list_effective_grants
    amsonia_core.Memory.Reader.get_role amsonia_core.Memory.Reader.grant_before
    amsonia_core.Memory.Reader.list_role_permission_grants
    amsonia_core.Memory.Reader.list_subject_role_ids amsonia_core.Memory.Reader.subjects_with
    amsonia_core.Memory.Reader.list_role_subject_ids amsonia_core.Memory.Reader.has_grant_path
    amsonia_core.Memory.Writer.key_of amsonia_core.Memory.Writer.put_grant
    amsonia_core.Memory.Writer.insert_role_permission_grant
    amsonia_core.Memory.Writer.insert_subject_role_grant amsonia_core.Memory.Writer.edge_key_of
    amsonia_core.Memory.Writer.insert_grant_edge amsonia_core.Memory.Writer.insert_mutation_audit
    amsonia_core.Memory.with_tenant amsonia_core.Memory.commit amsonia_core.Memory.enter
    amsonia_core.Memory.mutate_tenant amsonia_core.Manager.audit_event
    amsonia_core.Manager.denied_outcome amsonia_core.Manager.record_denied
    amsonia_core.Manager.perform amsonia_core.Manager.checked
    amsonia_core.Manager.Inputs.validate_actor amsonia_core.Manager.Inputs.validate_named_role
    amsonia_core.Manager.Guards.snapshot_before amsonia_core.Manager.Guards.sorted_grants
    amsonia_core.Manager.Guards.each_step amsonia_core.Manager.Guards.check_role_grant
    amsonia_core.Manager.Guards.require_grant amsonia_core.Manager.Guards.require_role_coverage
    amsonia_core.Manager.Guards.current_role amsonia_core.Manager.Guards.guard_last_administrator
    amsonia_core.Manager.Guards.bump_role_version amsonia_core.Manager.Grants.no_change
    amsonia_core.Manager.Grants.new_version amsonia_core.Manager.Assignments.bound
    amsonia_core.Manager.Assignments.refuse_cycle amsonia_core.Manager.Assignments.assign_role_body
    amsonia_core.Manager.Assignments.delete_edge_of
    amsonia_core.Manager.Assignments.validate_assignment
    amsonia_core.Manager.Assignments.assign_role amsonia_core.Manager.Run.run
    amsonia_core.Base.ℕ_discrete amsonia_core.Base.list_dec
    amsonia_core.Memory.Reader.has_administrator amsonia_core.Memory.Reader.cover_subjects
    amsonia_core.Memory.Reader.cover_roles amsonia_core.Memory.Reader.cover_grants
    amsonia_core.Manager.Assignments.unassign_role
    amsonia_core.Manager.Assignments.unassign_role_body
    amsonia_core.Memory.Writer.delete_subject_role_grant
    amsonia_core.Memory.Writer.delete_grant_edge amsonia_core.Base.Maps.erase
    amsonia_core.AdminPolicy.add amsonia_core.AdminPolicy.complete
demotion-changes = refl

unassign_role-IsAdministered_example : IsAdministered manager.controls (
    state_of
      (codes "t")
      (unassign_role
        (memory_store open_context)
        manager
        readings
        ann
        why
        demotion
        two_administrators).store)
unassign_role-IsAdministered_example =
    unassign_role-IsAdministered open_context manager readings ann why demotion two_administrators
      demotion-changes refl
