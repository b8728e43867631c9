-- ===== src/System/Tests.antt =====
-- One tenant from its bootstrap to its purge: the theorems on bootstrap.go, maintenance.go, the export and
-- `HasAdministrator`, and on calls in any order.
use amsonia_core.Base.{
  sym, ◌∙◌, ◌≡◌, ◌≢◌, ◌↔◌, ◌⊎◌, refl, List, [], ◌∷◌, Bool, true, false, none, some, ◌-◌, ◌^◌, ℕ, In,
  inl, inr, arith,
}
use amsonia_core.Text.{Text, codes}
use amsonia_core.Types.Errors.{Result, ok}
use amsonia_core.Types.Enums.{Scope, GrantProvenance}
use amsonia_core.Types.Records.{
  Role, RolePermissionGrant, SubjectRoleGrant, PermissionDefinition, HostProvenance,
  MutationMetadata, MutationAuditEvent,
}
use amsonia_core.Memory.{MemoryStore, Context, memory_store, state_of}
use amsonia_core.Memory.State.{TenantState, new_tenant_state}
use amsonia_core.Memory.Reader.{has_administrator}
use amsonia_core.Memory.Maintenance.{memory_maintenance}
use amsonia_core.Memory.Administrator.Defs.{Administers, IsValidState}
use amsonia_core.Memory.Administrator.Reached.{has_administrator_iff}
use amsonia_core.TenantExport.{Snapshot, int64_before, canonical}
use amsonia_core.TenantExport.Ranking.{role_key}
use amsonia_core.TenantExport.Order.{IsKeyed, canonical_unordered}
use mathlib.Core.List.{Permᴰ}
use amsonia_core.Manager.{Manager, Outcome}
use amsonia_core.Bootstrap.Inputs
use amsonia_core.Bootstrap.Inputs.{BootstrapInput, Bootstrapper, owner_role}
use amsonia_core.Bootstrap.Tenant.{bootstrap_tenant}
use amsonia_core.Bootstrap.Provisioned.{Provisioned, bootstrap_tenant-Provisioned}
use amsonia_core.Maintenance.Purge
use amsonia_core.Maintenance.Purge.{
  Maintenance, validate_purge, purge_tenant, intent_event, completion_event,
}
use amsonia_core.Maintenance.Audited.{Audited, purge_tenant-Audited}
use amsonia_core.Maintenance.Retry.{purge_tenant_retry}
use amsonia_core.System.{Call, serve, Serves, at_first, after}
use amsonia_core.System.Frozen.{Serves-frozen}
use amsonia_core.System.Administered.{Serves-has_administrator}

abbrev roles_key : Text
roles_key = codes "iam:role:manage"

abbrev grants_key : Text
grants_key = codes "iam:grant:manage"

abbrev assign_key : Text
assign_key = codes "iam:role:assign"

abbrev definition : Text → Text × PermissionDefinition
definition key = (key, record { key = key; description = [] })

abbrev manager : Manager
manager = record {
  catalog = definition roles_key ∷ definition grants_key ∷ definition assign_key ∷ [];
  controls = record {
    manage_roles = roles_key;
    manage_grants = grants_key;
    assign_roles = assign_key;
  };
}

abbrev open_context : Context
open_context = record { before = none; locked = none; finished = none }

abbrev host : Text → Result HostProvenance
host tenant_id = ok (record { initiator = codes "cli"; at = 1 })

abbrev bootstrapper : Bootstrapper
bootstrapper = record { catalog = manager.catalog; controls = manager.controls; authorize = host }

abbrev why : MutationMetadata
why = record { request_id = codes "q1"; reason_code = codes "onboarding" }

abbrev owner_grant : Text → RolePermissionGrant
owner_grant key = record {
  role_id = codes "admin";
  permission = key;
  scope = Scope.tenant;
  workspace_roles = [];
}

abbrev input : BootstrapInput
input = record {
  tenant_id = codes "t";
  owner_subject_id = codes "ann";
  owner_role_id = codes "admin";
  owner_role_name = codes "Administrator";
  owner_role_description = [];
  grants = owner_grant roles_key ∷ owner_grant grants_key ∷ owner_grant assign_key ∷ [];
  metadata = why;
}

abbrev readings : Inputs.Readings
readings = record { granted_at = 2; created_at = 3; audited_at = 4 }

abbrev provisioning : Result Role × MemoryStore
provisioning = bootstrap_tenant (memory_store open_context) bootstrapper readings input []

provisioning-answers : provisioning.0 ≡ ok (owner_role input)
unfolding amsonia_core.Base.Maps.lookup amsonia_core.Base.Maps.contains
    amsonia_core.Base.Maps.insert amsonia_core.Base.Sort.insert_by amsonia_core.Base.Sort.sort_by
    amsonia_core.Text.Defs.text_dec amsonia_core.Text.Utf8.decode_rune
    amsonia_core.Text.Utf8.runes_from amsonia_core.Text.Utf8.runes
    amsonia_core.Text.Utf8.valid_string amsonia_core.Text.Space.is_space
    amsonia_core.Text.Space.trim_front amsonia_core.Text.Space.starts_rune
    amsonia_core.Text.Space.ending amsonia_core.Text.Space.last_rune
    amsonia_core.Text.Space.trim_back amsonia_core.Text.Space.trim_space
    amsonia_core.Text.Order.text_ltb amsonia_core.Text.Split.split amsonia_core.Text.Split.join
    amsonia_core.Types.Enums.scope_dec amsonia_core.Types.Records.next_version
    amsonia_core.Types.Records.previous_version amsonia_core.Types.Ids.is_control
    amsonia_core.Types.Ids.is_valid_utf8_no_control amsonia_core.Types.Ids.validate_opaque_id
    amsonia_core.Types.Ids.validate_role_name amsonia_core.Types.Ids.is_reason_rune
    amsonia_core.Types.Ids.validate_meta amsonia_core.Catalog.Keys.segment_rune
    amsonia_core.Catalog.Keys.validate_segment amsonia_core.Catalog.Keys.validate_key
    amsonia_core.Catalog.Keys.parse_permission_key amsonia_core.Catalog.Keys.workspace_role_rune
    amsonia_core.Catalog.Keys.validate_workspace_role amsonia_core.Catalog.index
    amsonia_core.Catalog.new_catalog amsonia_core.Catalog.lookup_key amsonia_core.Catalog.sink
    amsonia_core.Catalog.sort_from amsonia_core.Catalog.sort_keys amsonia_core.Catalog.catalog_keys
    amsonia_core.Policy.covers_workspace_roles amsonia_core.Policy.allow_delegation
    amsonia_core.Policy.Grants.validate_grant amsonia_core.Authorizer.Request.validate_mode_fields
    amsonia_core.Authorizer.Request.validate_optional
    amsonia_core.Authorizer.Request.validate_resource_context
    amsonia_core.Authorizer.Request.validate_request amsonia_core.Store.pure
    amsonia_core.Store.◌>>=◌ amsonia_core.Store.lift amsonia_core.Memory.State.grant_key_dec
    amsonia_core.Memory.State.edge_key_dec amsonia_core.Memory.State.new_tenant_state
    amsonia_core.Memory.State.clone_snapshot amsonia_core.Memory.State.clone_tenant_state
    amsonia_core.Memory.GrantPath.targets amsonia_core.Memory.GrantPath.search_path
    amsonia_core.Memory.GrantPath.has_path amsonia_core.Memory.Reader.grants_of_role
    amsonia_core.Memory.Reader.grants_of_roles amsonia_core.Memory.Reader.list_effective_grants
    amsonia_core.Memory.Reader.get_role amsonia_core.Memory.Reader.grant_before
    amsonia_core.Memory.Reader.list_role_permission_grants
    amsonia_core.Memory.Reader.list_subject_role_ids amsonia_core.Memory.Reader.subjects_with
    amsonia_core.Memory.Reader.list_role_subject_ids amsonia_core.Memory.Reader.has_grant_path
    amsonia_core.Memory.Writer.key_of amsonia_core.Memory.Writer.put_grant
    amsonia_core.Memory.Writer.insert_role_permission_grant
    amsonia_core.Memory.Writer.insert_subject_role_grant amsonia_core.Memory.Writer.edge_key_of
    amsonia_core.Memory.Writer.insert_grant_edge amsonia_core.Memory.Writer.insert_mutation_audit
    amsonia_core.Memory.with_tenant amsonia_core.Memory.commit amsonia_core.Memory.enter
    amsonia_core.Memory.mutate_tenant amsonia_core.Manager.audit_event
    amsonia_core.Manager.denied_outcome amsonia_core.Manager.record_denied
    amsonia_core.Manager.perform amsonia_core.Manager.checked
    amsonia_core.Manager.Inputs.validate_actor amsonia_core.Manager.Inputs.validate_named_role
    amsonia_core.Manager.Guards.snapshot_before amsonia_core.Manager.Guards.sorted_grants
    amsonia_core.Manager.Guards.each_step amsonia_core.Manager.Guards.check_role_grant
    amsonia_core.Manager.Guards.require_grant amsonia_core.Manager.Guards.require_role_coverage
    amsonia_core.Manager.Guards.current_role amsonia_core.Manager.Guards.guard_last_administrator
    amsonia_core.Manager.Guards.bump_role_version amsonia_core.Manager.Grants.no_change
    amsonia_core.Manager.Grants.new_version amsonia_core.Manager.Assignments.bound
    amsonia_core.Manager.Assignments.refuse_cycle amsonia_core.Manager.Assignments.assign_role_body
    amsonia_core.Manager.Assignments.delete_edge_of
    amsonia_core.Manager.Assignments.validate_assignment
    amsonia_core.Manager.Assignments.assign_role amsonia_core.Manager.Run.run
    amsonia_core.Base.ℕ_discrete amsonia_core.Base.list_dec
    amsonia_core.Memory.Reader.has_administrator amsonia_core.Memory.Reader.cover_subjects
    amsonia_core.Memory.Reader.cover_roles amsonia_core.Memory.Reader.cover_grants
    amsonia_core.Manager.Assignments.unassign_role
    amsonia_core.Manager.Assignments.unassign_role_body
    amsonia_core.Memory.Writer.delete_subject_role_grant
    amsonia_core.Memory.Writer.delete_grant_edge amsonia_core.Base.Maps.erase
    amsonia_core.AdminPolicy.add amsonia_core.AdminPolicy.complete
    amsonia_core.Bootstrap.Inputs.owner_grants amsonia_core.Bootstrap.Inputs.prepare_bootstrap
    amsonia_core.Bootstrap.Inputs.validate_bootstrap amsonia_core.Bootstrap.Inputs.check_grant
    amsonia_core.Bootstrap.Inputs.collect_grants amsonia_core.Bootstrap.Tenant.bootstrap_body
    amsonia_core.Bootstrap.Tenant.bootstrap_tenant amsonia_core.Manager.Inputs.collect_roles
    amsonia_core.Manager.Inputs.normalize_workspace_roles amsonia_core.Memory.Writer.insert_role
    amsonia_core.Memory.Writer.insert_role_version amsonia_core.Memory.Writer.mark_bootstrapped
    amsonia_core.Maintenance.Purge.purge_tenant amsonia_core.Maintenance.Purge.validate_purge
    amsonia_core.Maintenance.Purge.intent_event amsonia_core.Maintenance.Purge.complete_purge
    amsonia_core.Memory.Maintenance.purge_tenant amsonia_core.Memory.Maintenance.maintain_tenant
    amsonia_core.System.serve
provisioning-answers = refl

empty-IsValidState : IsValidState (state_of (codes "t") [])
unfolding amsonia_core.Base.Maps.lookup new_tenant_state
empty-IsValidState = record { stored = tt; bound = tt }

bootstrap_tenant-Provisioned_example :
    Provisioned bootstrapper readings input [] (owner_role input) provisioning.1
bootstrap_tenant-Provisioned_example =
    bootstrap_tenant-Provisioned bootstrapper readings input [] open_context empty-IsValidState
      provisioning-answers

-- The tenant after its bootstrap.
abbrev provisioned : TenantState
provisioned = state_of (codes "t") provisioning.1

provisioned-IsValidState : IsValidState provisioned
unfolding amsonia_core.Base.Maps.lookup amsonia_core.Base.Maps.contains
    amsonia_core.Base.Maps.insert amsonia_core.Base.Sort.insert_by amsonia_core.Base.Sort.sort_by
    amsonia_core.Text.Defs.text_dec amsonia_core.Text.Utf8.decode_rune
    amsonia_core.Text.Utf8.runes_from amsonia_core.Text.Utf8.runes
    amsonia_core.Text.Utf8.valid_string amsonia_core.Text.Space.is_space
    amsonia_core.Text.Space.trim_front amsonia_core.Text.Space.starts_rune
    amsonia_core.Text.Space.ending amsonia_core.Text.Space.last_rune
    amsonia_core.Text.Space.trim_back amsonia_core.Text.Space.trim_space
    amsonia_core.Text.Order.text_ltb amsonia_core.Text.Split.split amsonia_core.Text.Split.join
    amsonia_core.Types.Enums.scope_dec amsonia_core.Types.Records.next_version
    amsonia_core.Types.Records.previous_version amsonia_core.Types.Ids.is_control
    amsonia_core.Types.Ids.is_valid_utf8_no_control amsonia_core.Types.Ids.validate_opaque_id
    amsonia_core.Types.Ids.validate_role_name amsonia_core.Types.Ids.is_reason_rune
    amsonia_core.Types.Ids.validate_meta amsonia_core.Catalog.Keys.segment_rune
    amsonia_core.Catalog.Keys.validate_segment amsonia_core.Catalog.Keys.validate_key
    amsonia_core.Catalog.Keys.parse_permission_key amsonia_core.Catalog.Keys.workspace_role_rune
    amsonia_core.Catalog.Keys.validate_workspace_role amsonia_core.Catalog.index
    amsonia_core.Catalog.new_catalog amsonia_core.Catalog.lookup_key amsonia_core.Catalog.sink
    amsonia_core.Catalog.sort_from amsonia_core.Catalog.sort_keys amsonia_core.Catalog.catalog_keys
    amsonia_core.Policy.covers_workspace_roles amsonia_core.Policy.allow_delegation
    amsonia_core.Policy.Grants.validate_grant amsonia_core.Authorizer.Request.validate_mode_fields
    amsonia_core.Authorizer.Request.validate_optional
    amsonia_core.Authorizer.Request.validate_resource_context
    amsonia_core.Authorizer.Request.validate_request amsonia_core.Store.pure
    amsonia_core.Store.◌>>=◌ amsonia_core.Store.lift amsonia_core.Memory.State.grant_key_dec
    amsonia_core.Memory.State.edge_key_dec amsonia_core.Memory.State.new_tenant_state
    amsonia_core.Memory.State.clone_snapshot amsonia_core.Memory.State.clone_tenant_state
    amsonia_core.Memory.GrantPath.targets amsonia_core.Memory.GrantPath.search_path
    amsonia_core.Memory.GrantPath.has_path amsonia_core.Memory.Reader.grants_of_role
    amsonia_core.Memory.Reader.grants_of_roles amsonia_core.Memory.Reader.list_effective_grants
    amsonia_core.Memory.Reader.get_role amsonia_core.Memory.Reader.grant_before
    amsonia_core.Memory.Reader.list_role_permission_grants
    amsonia_core.Memory.Reader.list_subject_role_ids amsonia_core.Memory.Reader.subjects_with
    amsonia_core.Memory.Reader.list_role_subject_ids amsonia_core.Memory.Reader.has_grant_path
    amsonia_core.Memory.Writer.key_of amsonia_core.Memory.Writer.put_grant
    amsonia_core.Memory.Writer.insert_role_permission_grant
    amsonia_core.Memory.Writer.insert_subject_role_grant amsonia_core.Memory.Writer.edge_key_of
    amsonia_core.Memory.Writer.insert_grant_edge amsonia_core.Memory.Writer.insert_mutation_audit
    amsonia_core.Memory.with_tenant amsonia_core.Memory.commit amsonia_core.Memory.enter
    amsonia_core.Memory.mutate_tenant amsonia_core.Manager.audit_event
    amsonia_core.Manager.denied_outcome amsonia_core.Manager.record_denied
    amsonia_core.Manager.perform amsonia_core.Manager.checked
    amsonia_core.Manager.Inputs.validate_actor amsonia_core.Manager.Inputs.validate_named_role
    amsonia_core.Manager.Guards.snapshot_before amsonia_core.Manager.Guards.sorted_grants
    amsonia_core.Manager.Guards.each_step amsonia_core.Manager.Guards.check_role_grant
    amsonia_core.Manager.Guards.require_grant amsonia_core.Manager.Guards.require_role_coverage
    amsonia_core.Manager.Guards.current_role amsonia_core.Manager.Guards.guard_last_administrator
    amsonia_core.Manager.Guards.bump_role_version amsonia_core.Manager.Grants.no_change
    amsonia_core.Manager.Grants.new_version amsonia_core.Manager.Assignments.bound
    amsonia_core.Manager.Assignments.refuse_cycle amsonia_core.Manager.Assignments.assign_role_body
    amsonia_core.Manager.Assignments.delete_edge_of
    amsonia_core.Manager.Assignments.validate_assignment
    amsonia_core.Manager.Assignments.assign_role amsonia_core.Manager.Run.run
    amsonia_core.Base.ℕ_discrete amsonia_core.Base.list_dec
    amsonia_core.Memory.Reader.has_administrator amsonia_core.Memory.Reader.cover_subjects
    amsonia_core.Memory.Reader.cover_roles amsonia_core.Memory.Reader.cover_grants
    amsonia_core.Manager.Assignments.unassign_role
    amsonia_core.Manager.Assignments.unassign_role_body
    amsonia_core.Memory.Writer.delete_subject_role_grant
    amsonia_core.Memory.Writer.delete_grant_edge amsonia_core.Base.Maps.erase
    amsonia_core.AdminPolicy.add amsonia_core.AdminPolicy.complete
    amsonia_core.Bootstrap.Inputs.owner_grants amsonia_core.Bootstrap.Inputs.prepare_bootstrap
    amsonia_core.Bootstrap.Inputs.validate_bootstrap amsonia_core.Bootstrap.Inputs.check_grant
    amsonia_core.Bootstrap.Inputs.collect_grants amsonia_core.Bootstrap.Tenant.bootstrap_body
    amsonia_core.Bootstrap.Tenant.bootstrap_tenant amsonia_core.Manager.Inputs.collect_roles
    amsonia_core.Manager.Inputs.normalize_workspace_roles amsonia_core.Memory.Writer.insert_role
    amsonia_core.Memory.Writer.insert_role_version amsonia_core.Memory.Writer.mark_bootstrapped
    amsonia_core.Maintenance.Purge.purge_tenant amsonia_core.Maintenance.Purge.validate_purge
    amsonia_core.Maintenance.Purge.intent_event amsonia_core.Maintenance.Purge.complete_purge
    amsonia_core.Memory.Maintenance.purge_tenant amsonia_core.Memory.Maintenance.maintain_tenant
    amsonia_core.System.serve
provisioned-IsValidState = record { stored = ((refl, (refl, (refl, tt))), tt); bound = (refl, tt) }

has_administrator_iff_example :
    (has_administrator provisioned manager.controls ≡ ok true)
    ↔ ((subject : Text) × Administers provisioned manager.controls subject)
has_administrator_iff_example =
    has_administrator_iff provisioned manager.controls provisioned-IsValidState

abbrev render : Snapshot → Result Text
render snapshot = ok snapshot.format

abbrev bootstrap_call : Call
bootstrap_call = Call.bootstraps open_context host readings input

provisioned_bootstrapped :
    (state_of (codes "t") (serve manager render bootstrap_call [])).bootstrapped ≡ true
unfolding amsonia_core.Base.Maps.lookup amsonia_core.Base.Maps.contains
    amsonia_core.Base.Maps.insert amsonia_core.Base.Sort.insert_by amsonia_core.Base.Sort.sort_by
    amsonia_core.Text.Defs.text_dec amsonia_core.Text.Utf8.decode_rune
    amsonia_core.Text.Utf8.runes_from amsonia_core.Text.Utf8.runes
    amsonia_core.Text.Utf8.valid_string amsonia_core.Text.Space.is_space
    amsonia_core.Text.Space.trim_front amsonia_core.Text.Space.starts_rune
    amsonia_core.Text.Space.ending amsonia_core.Text.Space.last_rune
    amsonia_core.Text.Space.trim_back amsonia_core.Text.Space.trim_space
    amsonia_core.Text.Order.text_ltb amsonia_core.Text.Split.split amsonia_core.Text.Split.join
    amsonia_core.Types.Enums.scope_dec amsonia_core.Types.Records.next_version
    amsonia_core.Types.Records.previous_version amsonia_core.Types.Ids.is_control
    amsonia_core.Types.Ids.is_valid_utf8_no_control amsonia_core.Types.Ids.validate_opaque_id
    amsonia_core.Types.Ids.validate_role_name amsonia_core.Types.Ids.is_reason_rune
    amsonia_core.Types.Ids.validate_meta amsonia_core.Catalog.Keys.segment_rune
    amsonia_core.Catalog.Keys.validate_segment amsonia_core.Catalog.Keys.validate_key
    amsonia_core.Catalog.Keys.parse_permission_key amsonia_core.Catalog.Keys.workspace_role_rune
    amsonia_core.Catalog.Keys.validate_workspace_role amsonia_core.Catalog.index
    amsonia_core.Catalog.new_catalog amsonia_core.Catalog.lookup_key amsonia_core.Catalog.sink
    amsonia_core.Catalog.sort_from amsonia_core.Catalog.sort_keys amsonia_core.Catalog.catalog_keys
    amsonia_core.Policy.covers_workspace_roles amsonia_core.Policy.allow_delegation
    amsonia_core.Policy.Grants.validate_grant amsonia_core.Authorizer.Request.validate_mode_fields
    amsonia_core.Authorizer.Request.validate_optional
    amsonia_core.Authorizer.Request.validate_resource_context
    amsonia_core.Authorizer.Request.validate_request amsonia_core.Store.pure
    amsonia_core.Store.◌>>=◌ amsonia_core.Store.lift amsonia_core.Memory.State.grant_key_dec
    amsonia_core.Memory.State.edge_key_dec amsonia_core.Memory.State.new_tenant_state
    amsonia_core.Memory.State.clone_snapshot amsonia_core.Memory.State.clone_tenant_state
    amsonia_core.Memory.GrantPath.targets amsonia_core.Memory.GrantPath.search_path
    amsonia_core.Memory.GrantPath.has_path amsonia_core.Memory.Reader.grants_of_role
    amsonia_core.Memory.Reader.grants_of_roles amsonia_core.Memory.Reader.list_effective_grants
    amsonia_core.Memory.Reader.get_role amsonia_core.Memory.Reader.grant_before
    amsonia_core.Memory.Reader.list_role_permission_grants
    amsonia_core.Memory.Reader.list_subject_role_ids amsonia_core.Memory.Reader.subjects_with
    amsonia_core.Memory.Reader.list_role_subject_ids amsonia_core.Memory.Reader.has_grant_path
    amsonia_core.Memory.Writer.key_of amsonia_core.Memory.Writer.put_grant
    amsonia_core.Memory.Writer.insert_role_permission_grant
    amsonia_core.Memory.Writer.insert_subject_role_grant amsonia_core.Memory.Writer.edge_key_of
    amsonia_core.Memory.Writer.insert_grant_edge amsonia_core.Memory.Writer.insert_mutation_audit
    amsonia_core.Memory.with_tenant amsonia_core.Memory.commit amsonia_core.Memory.enter
    amsonia_core.Memory.mutate_tenant amsonia_core.Manager.audit_event
    amsonia_core.Manager.denied_outcome amsonia_core.Manager.record_denied
    amsonia_core.Manager.perform amsonia_core.Manager.checked
    amsonia_core.Manager.Inputs.validate_actor amsonia_core.Manager.Inputs.validate_named_role
    amsonia_core.Manager.Guards.snapshot_before amsonia_core.Manager.Guards.sorted_grants
    amsonia_core.Manager.Guards.each_step amsonia_core.Manager.Guards.check_role_grant
    amsonia_core.Manager.Guards.require_grant amsonia_core.Manager.Guards.require_role_coverage
    amsonia_core.Manager.Guards.current_role amsonia_core.Manager.Guards.guard_last_administrator
    amsonia_core.Manager.Guards.bump_role_version amsonia_core.Manager.Grants.no_change
    amsonia_core.Manager.Grants.new_version amsonia_core.Manager.Assignments.bound
    amsonia_core.Manager.Assignments.refuse_cycle amsonia_core.Manager.Assignments.assign_role_body
    amsonia_core.Manager.Assignments.delete_edge_of
    amsonia_core.Manager.Assignments.validate_assignment
    amsonia_core.Manager.Assignments.assign_role amsonia_core.Manager.Run.run
    amsonia_core.Base.ℕ_discrete amsonia_core.Base.list_dec
    amsonia_core.Memory.Reader.has_administrator amsonia_core.Memory.Reader.cover_subjects
    amsonia_core.Memory.Reader.cover_roles amsonia_core.Memory.Reader.cover_grants
    amsonia_core.Manager.Assignments.unassign_role
    amsonia_core.Manager.Assignments.unassign_role_body
    amsonia_core.Memory.Writer.delete_subject_role_grant
    amsonia_core.Memory.Writer.delete_grant_edge amsonia_core.Base.Maps.erase
    amsonia_core.AdminPolicy.add amsonia_core.AdminPolicy.complete
    amsonia_core.Bootstrap.Inputs.owner_grants amsonia_core.Bootstrap.Inputs.prepare_bootstrap
    amsonia_core.Bootstrap.Inputs.validate_bootstrap amsonia_core.Bootstrap.Inputs.check_grant
    amsonia_core.Bootstrap.Inputs.collect_grants amsonia_core.Bootstrap.Tenant.bootstrap_body
    amsonia_core.Bootstrap.Tenant.bootstrap_tenant amsonia_core.Manager.Inputs.collect_roles
    amsonia_core.Manager.Inputs.normalize_workspace_roles amsonia_core.Memory.Writer.insert_role
    amsonia_core.Memory.Writer.insert_role_version amsonia_core.Memory.Writer.mark_bootstrapped
    amsonia_core.Maintenance.Purge.purge_tenant amsonia_core.Maintenance.Purge.validate_purge
    amsonia_core.Maintenance.Purge.intent_event amsonia_core.Maintenance.Purge.complete_purge
    amsonia_core.Memory.Maintenance.purge_tenant amsonia_core.Memory.Maintenance.maintain_tenant
    amsonia_core.System.serve
provisioned_bootstrapped = refl

Serves-has_administrator_example :
    has_administrator
      (state_of (codes "t") (serve manager render bootstrap_call []))
      manager.controls
    ≡ ok true
Serves-has_administrator_example =
    Serves-has_administrator manager render (codes "t") (after bootstrap_call at_first)
      provisioned_bootstrapped

abbrev purged_store : MemoryStore
purged_store = (codes "t", record new_tenant_state { purged = true }) ∷ []

Serves-frozen_example :
    state_of (codes "t") (serve manager render bootstrap_call purged_store)
    ≡ state_of (codes "t") purged_store
unfolding amsonia_core.Base.Maps.lookup amsonia_core.Text.text_dec
Serves-frozen_example =
    Serves-frozen manager render purged_store (codes "t") refl (after bootstrap_call at_first)

abbrev maintenance : Maintenance
maintenance = record {
  authorize = λ tenant_id operation. host tenant_id;
  record_event = λ event. ok tt;
}

abbrev purge_readings : Purge.Readings
purge_readings = record { intended_at = 7; completed_at = 8 }

abbrev retry_readings : Purge.Readings
retry_readings = record { intended_at = 9; completed_at = 10 }

abbrev one_tenant : MemoryStore
one_tenant = (codes "t", record new_tenant_state { bootstrapped = true }) ∷ []

purge_tenant-Audited_example : Audited maintenance purge_readings (codes "t") why one_tenant (
    purge_tenant
      (memory_maintenance open_context render)
      maintenance
      purge_readings
      (codes "t")
      why
      one_tenant)
purge_tenant-Audited_example =
    purge_tenant-Audited maintenance purge_readings (codes "t") why one_tenant open_context render

purge-succeeds :
    (purge_tenant
      (memory_maintenance open_context render)
      maintenance
      purge_readings
      (codes "t")
      why
      one_tenant).result
    ≡ ok tt
unfolding amsonia_core.Base.Maps.lookup amsonia_core.Base.Maps.contains
    amsonia_core.Base.Maps.insert amsonia_core.Base.Sort.insert_by amsonia_core.Base.Sort.sort_by
    amsonia_core.Text.Defs.text_dec amsonia_core.Text.Utf8.decode_rune
    amsonia_core.Text.Utf8.runes_from amsonia_core.Text.Utf8.runes
    amsonia_core.Text.Utf8.valid_string amsonia_core.Text.Space.is_space
    amsonia_core.Text.Space.trim_front amsonia_core.Text.Space.starts_rune
    amsonia_core.Text.Space.ending amsonia_core.Text.Space.last_rune
    amsonia_core.Text.Space.trim_back amsonia_core.Text.Space.trim_space
    amsonia_core.Text.Order.text_ltb amsonia_core.Text.Split.split amsonia_core.Text.Split.join
    amsonia_core.Types.Enums.scope_dec amsonia_core.Types.Records.next_version
    amsonia_core.Types.Records.previous_version amsonia_core.Types.Ids.is_control
    amsonia_core.Types.Ids.is_valid_utf8_no_control amsonia_core.Types.Ids.validate_opaque_id
    amsonia_core.Types.Ids.validate_role_name amsonia_core.Types.Ids.is_reason_rune
    amsonia_core.Types.Ids.validate_meta amsonia_core.Catalog.Keys.segment_rune
    amsonia_core.Catalog.Keys.validate_segment amsonia_core.Catalog.Keys.validate_key
    amsonia_core.Catalog.Keys.parse_permission_key amsonia_core.Catalog.Keys.workspace_role_rune
    amsonia_core.Catalog.Keys.validate_workspace_role amsonia_core.Catalog.index
    amsonia_core.Catalog.new_catalog amsonia_core.Catalog.lookup_key amsonia_core.Catalog.sink
    amsonia_core.Catalog.sort_from amsonia_core.Catalog.sort_keys amsonia_core.Catalog.catalog_keys
    amsonia_core.Policy.covers_workspace_roles amsonia_core.Policy.allow_delegation
    amsonia_core.Policy.Grants.validate_grant amsonia_core.Authorizer.Request.validate_mode_fields
    amsonia_core.Authorizer.Request.validate_optional
    amsonia_core.Authorizer.Request.validate_resource_context
    amsonia_core.Authorizer.Request.validate_request amsonia_core.Store.pure
    amsonia_core.Store.◌>>=◌ amsonia_core.Store.lift amsonia_core.Memory.State.grant_key_dec
    amsonia_core.Memory.State.edge_key_dec amsonia_core.Memory.State.new_tenant_state
    amsonia_core.Memory.State.clone_snapshot amsonia_core.Memory.State.clone_tenant_state
    amsonia_core.Memory.GrantPath.targets amsonia_core.Memory.GrantPath.search_path
    amsonia_core.Memory.GrantPath.has_path amsonia_core.Memory.Reader.grants_of_role
    amsonia_core.Memory.Reader.grants_of_roles amsonia_core.Memory.Reader.list_effective_grants
    amsonia_core.Memory.Reader.get_role amsonia_core.Memory.Reader.grant_before
    amsonia_core.Memory.Reader.list_role_permission_grants
    amsonia_core.Memory.Reader.list_subject_role_ids amsonia_core.Memory.Reader.subjects_with
    amsonia_core.Memory.Reader.list_role_subject_ids amsonia_core.Memory.Reader.has_grant_path
    amsonia_core.Memory.Writer.key_of amsonia_core.Memory.Writer.put_grant
    amsonia_core.Memory.Writer.insert_role_permission_grant
    amsonia_core.Memory.Writer.insert_subject_role_grant amsonia_core.Memory.Writer.edge_key_of
    amsonia_core.Memory.Writer.insert_grant_edge amsonia_core.Memory.Writer.insert_mutation_audit
    amsonia_core.Memory.with_tenant amsonia_core.Memory.commit amsonia_core.Memory.enter
    amsonia_core.Memory.mutate_tenant amsonia_core.Manager.audit_event
    amsonia_core.Manager.denied_outcome amsonia_core.Manager.record_denied
    amsonia_core.Manager.perform amsonia_core.Manager.checked
    amsonia_core.Manager.Inputs.validate_actor amsonia_core.Manager.Inputs.validate_named_role
    amsonia_core.Manager.Guards.snapshot_before amsonia_core.Manager.Guards.sorted_grants
    amsonia_core.Manager.Guards.each_step amsonia_core.Manager.Guards.check_role_grant
    amsonia_core.Manager.Guards.require_grant amsonia_core.Manager.Guards.require_role_coverage
    amsonia_core.Manager.Guards.current_role amsonia_core.Manager.Guards.guard_last_administrator
    amsonia_core.Manager.Guards.bump_role_version amsonia_core.Manager.Grants.no_change
    amsonia_core.Manager.Grants.new_version amsonia_core.Manager.Assignments.bound
    amsonia_core.Manager.Assignments.refuse_cycle amsonia_core.Manager.Assignments.assign_role_body
    amsonia_core.Manager.Assignments.delete_edge_of
    amsonia_core.Manager.Assignments.validate_assignment
    amsonia_core.Manager.Assignments.assign_role amsonia_core.Manager.Run.run
    amsonia_core.Base.ℕ_discrete amsonia_core.Base.list_dec
    amsonia_core.Memory.Reader.has_administrator amsonia_core.Memory.Reader.cover_subjects
    amsonia_core.Memory.Reader.cover_roles amsonia_core.Memory.Reader.cover_grants
    amsonia_core.Manager.Assignments.unassign_role
    amsonia_core.Manager.Assignments.unassign_role_body
    amsonia_core.Memory.Writer.delete_subject_role_grant
    amsonia_core.Memory.Writer.delete_grant_edge amsonia_core.Base.Maps.erase
    amsonia_core.AdminPolicy.add amsonia_core.AdminPolicy.complete
    amsonia_core.Bootstrap.Inputs.owner_grants amsonia_core.Bootstrap.Inputs.prepare_bootstrap
    amsonia_core.Bootstrap.Inputs.validate_bootstrap amsonia_core.Bootstrap.Inputs.check_grant
    amsonia_core.Bootstrap.Inputs.collect_grants amsonia_core.Bootstrap.Tenant.bootstrap_body
    amsonia_core.Bootstrap.Tenant.bootstrap_tenant amsonia_core.Manager.Inputs.collect_roles
    amsonia_core.Manager.Inputs.normalize_workspace_roles amsonia_core.Memory.Writer.insert_role
    amsonia_core.Memory.Writer.insert_role_version amsonia_core.Memory.Writer.mark_bootstrapped
    amsonia_core.Maintenance.Purge.purge_tenant amsonia_core.Maintenance.Purge.validate_purge
    amsonia_core.Maintenance.Purge.intent_event amsonia_core.Maintenance.Purge.complete_purge
    amsonia_core.Memory.Maintenance.purge_tenant amsonia_core.Memory.Maintenance.maintain_tenant
    amsonia_core.System.serve
purge-succeeds = refl

retry-validated : validate_purge (codes "t") why ≡ ok tt
unfolding amsonia_core.Base.Maps.lookup amsonia_core.Base.Maps.contains
    amsonia_core.Base.Maps.insert amsonia_core.Base.Sort.insert_by amsonia_core.Base.Sort.sort_by
    amsonia_core.Text.Defs.text_dec amsonia_core.Text.Utf8.decode_rune
    amsonia_core.Text.Utf8.runes_from amsonia_core.Text.Utf8.runes
    amsonia_core.Text.Utf8.valid_string amsonia_core.Text.Space.is_space
    amsonia_core.Text.Space.trim_front amsonia_core.Text.Space.starts_rune
    amsonia_core.Text.Space.ending amsonia_core.Text.Space.last_rune
    amsonia_core.Text.Space.trim_back amsonia_core.Text.Space.trim_space
    amsonia_core.Text.Order.text_ltb amsonia_core.Text.Split.split amsonia_core.Text.Split.join
    amsonia_core.Types.Enums.scope_dec amsonia_core.Types.Records.next_version
    amsonia_core.Types.Records.previous_version amsonia_core.Types.Ids.is_control
    amsonia_core.Types.Ids.is_valid_utf8_no_control amsonia_core.Types.Ids.validate_opaque_id
    amsonia_core.Types.Ids.validate_role_name amsonia_core.Types.Ids.is_reason_rune
    amsonia_core.Types.Ids.validate_meta amsonia_core.Catalog.Keys.segment_rune
    amsonia_core.Catalog.Keys.validate_segment amsonia_core.Catalog.Keys.validate_key
    amsonia_core.Catalog.Keys.parse_permission_key amsonia_core.Catalog.Keys.workspace_role_rune
    amsonia_core.Catalog.Keys.validate_workspace_role amsonia_core.Catalog.index
    amsonia_core.Catalog.new_catalog amsonia_core.Catalog.lookup_key amsonia_core.Catalog.sink
    amsonia_core.Catalog.sort_from amsonia_core.Catalog.sort_keys amsonia_core.Catalog.catalog_keys
    amsonia_core.Policy.covers_workspace_roles amsonia_core.Policy.allow_delegation
    amsonia_core.Policy.Grants.validate_grant amsonia_core.Authorizer.Request.validate_mode_fields
    amsonia_core.Authorizer.Request.validate_optional
    amsonia_core.Authorizer.Request.validate_resource_context
    amsonia_core.Authorizer.Request.validate_request amsonia_core.Store.pure
    amsonia_core.Store.◌>>=◌ amsonia_core.Store.lift amsonia_core.Memory.State.grant_key_dec
    amsonia_core.Memory.State.edge_key_dec amsonia_core.Memory.State.new_tenant_state
    amsonia_core.Memory.State.clone_snapshot amsonia_core.Memory.State.clone_tenant_state
    amsonia_core.Memory.GrantPath.targets amsonia_core.Memory.GrantPath.search_path
    amsonia_core.Memory.GrantPath.has_path amsonia_core.Memory.Reader.grants_of_role
    amsonia_core.Memory.Reader.grants_of_roles amsonia_core.Memory.Reader.list_effective_grants
    amsonia_core.Memory.Reader.get_role amsonia_core.Memory.Reader.grant_before
    amsonia_core.Memory.Reader.list_role_permission_grants
    amsonia_core.Memory.Reader.list_subject_role_ids amsonia_core.Memory.Reader.subjects_with
    amsonia_core.Memory.Reader.list_role_subject_ids amsonia_core.Memory.Reader.has_grant_path
    amsonia_core.Memory.Writer.key_of amsonia_core.Memory.Writer.put_grant
    amsonia_core.Memory.Writer.insert_role_permission_grant
    amsonia_core.Memory.Writer.insert_subject_role_grant amsonia_core.Memory.Writer.edge_key_of
    amsonia_core.Memory.Writer.insert_grant_edge amsonia_core.Memory.Writer.insert_mutation_audit
    amsonia_core.Memory.with_tenant amsonia_core.Memory.commit amsonia_core.Memory.enter
    amsonia_core.Memory.mutate_tenant amsonia_core.Manager.audit_event
    amsonia_core.Manager.denied_outcome amsonia_core.Manager.record_denied
    amsonia_core.Manager.perform amsonia_core.Manager.checked
    amsonia_core.Manager.Inputs.validate_actor amsonia_core.Manager.Inputs.validate_named_role
    amsonia_core.Manager.Guards.snapshot_before amsonia_core.Manager.Guards.sorted_grants
    amsonia_core.Manager.Guards.each_step amsonia_core.Manager.Guards.check_role_grant
    amsonia_core.Manager.Guards.require_grant amsonia_core.Manager.Guards.require_role_coverage
    amsonia_core.Manager.Guards.current_role amsonia_core.Manager.Guards.guard_last_administrator
    amsonia_core.Manager.Guards.bump_role_version amsonia_core.Manager.Grants.no_change
    amsonia_core.Manager.Grants.new_version amsonia_core.Manager.Assignments.bound
    amsonia_core.Manager.Assignments.refuse_cycle amsonia_core.Manager.Assignments.assign_role_body
    amsonia_core.Manager.Assignments.delete_edge_of
    amsonia_core.Manager.Assignments.validate_assignment
    amsonia_core.Manager.Assignments.assign_role amsonia_core.Manager.Run.run
    amsonia_core.Base.ℕ_discrete amsonia_core.Base.list_dec
    amsonia_core.Memory.Reader.has_administrator amsonia_core.Memory.Reader.cover_subjects
    amsonia_core.Memory.Reader.cover_roles amsonia_core.Memory.Reader.cover_grants
    amsonia_core.Manager.Assignments.unassign_role
    amsonia_core.Manager.Assignments.unassign_role_body
    amsonia_core.Memory.Writer.delete_subject_role_grant
    amsonia_core.Memory.Writer.delete_grant_edge amsonia_core.Base.Maps.erase
    amsonia_core.AdminPolicy.add amsonia_core.AdminPolicy.complete
    amsonia_core.Bootstrap.Inputs.owner_grants amsonia_core.Bootstrap.Inputs.prepare_bootstrap
    amsonia_core.Bootstrap.Inputs.validate_bootstrap amsonia_core.Bootstrap.Inputs.check_grant
    amsonia_core.Bootstrap.Inputs.collect_grants amsonia_core.Bootstrap.Tenant.bootstrap_body
    amsonia_core.Bootstrap.Tenant.bootstrap_tenant amsonia_core.Manager.Inputs.collect_roles
    amsonia_core.Manager.Inputs.normalize_workspace_roles amsonia_core.Memory.Writer.insert_role
    amsonia_core.Memory.Writer.insert_role_version amsonia_core.Memory.Writer.mark_bootstrapped
    amsonia_core.Maintenance.Purge.purge_tenant amsonia_core.Maintenance.Purge.validate_purge
    amsonia_core.Maintenance.Purge.intent_event amsonia_core.Maintenance.Purge.complete_purge
    amsonia_core.Memory.Maintenance.purge_tenant amsonia_core.Memory.Maintenance.maintain_tenant
    amsonia_core.System.serve
retry-validated = refl

abbrev first_purge : Outcome (Unit {0}) MemoryStore
first_purge =
    purge_tenant (memory_maintenance open_context render) maintenance purge_readings (codes "t") why
      one_tenant

abbrev retried : Outcome (Unit {0}) MemoryStore
retried =
    purge_tenant (memory_maintenance open_context render) maintenance retry_readings (codes "t") why
      first_purge.store

purge_tenant_retry_example :
    (intent canonical : MutationAuditEvent) × (first_purge.security
      ≡ intent ∷ completion_event canonical 8 ∷ [])
    × (retried.result ≡ ok tt)
    × (retried.security
        ≡ intent_event (codes "t") why (record { initiator = codes "cli"; at = 1 }) 9
          ∷ completion_event canonical 10
          ∷ [])
    × ((b : Text) → state_of b retried.store ≡ state_of b first_purge.store)
purge_tenant_retry_example =
    purge_tenant_retry open_context open_context render maintenance maintenance purge_readings
      retry_readings (codes "t") why why (record { initiator = codes "cli"; at = 1 }) one_tenant
      purge-succeeds refl retry-validated refl (λ event. refl) refl refl refl

abbrev role_named : Text → Role
role_named role_id = record {
  tenant_id = codes "t";
  role_id = role_id;
  name = role_id;
  description = [];
  version = 1;
  deleted = false;
}

abbrev snapshot_with : List Role → Snapshot
snapshot_with roles = record {
  format = codes "amsonia.tenant.v1";
  tenant_id = codes "t";
  roles = some roles;
  grants = none;
  versions = none;
  edges = some [];
  audit = none;
}

abbrev two_roles : List Role
two_roles = role_named (codes "b") ∷ role_named (codes "a") ∷ []

two_roles-IsKeyed : IsKeyed role_key (some two_roles)
two_roles-IsKeyed a b (inl p) (inl q) e = sym p ∙ q
two_roles-IsKeyed a b (inl p) (inr (inl q)) e = ground (arith, e, p, q)
two_roles-IsKeyed a b (inr (inl p)) (inl q) e = ground (arith, e, p, q)
two_roles-IsKeyed a b (inr (inl p)) (inr (inl q)) e = sym p ∙ q
two_roles-IsKeyed a b (inl p) (inr (inr q)) e = absurd q
two_roles-IsKeyed a b (inr (inl p)) (inr (inr q)) e = absurd q
two_roles-IsKeyed a b (inr (inr p)) q e = absurd p

canonical_unordered_example :
    canonical (snapshot_with two_roles)
    ≡ canonical (snapshot_with (role_named (codes "a") ∷ role_named (codes "b") ∷ []))
canonical_unordered_example =
    canonical_unordered (snapshot_with two_roles)
      (snapshot_with (role_named (codes "a") ∷ role_named (codes "b") ∷ [])) refl refl refl
      (Permᴰ.swap refl refl) tt tt Permᴰ.nil two_roles-IsKeyed (λ a b p q e. absurd p)
      (λ a b p q e. absurd p) (λ a b p q e. absurd p)

-- A negative version comes before a positive one, as it does on int64.
negative_first : int64_before (2 ^ 64 - 1) 1 ≡ true
unfolding int64_before
negative_first = refl
