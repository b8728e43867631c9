-- ===== src/Types/Records.antt =====
-- The structs of types.go and store.go. A version is an int64, kept as its bit pattern; a time is
-- whatever the injected clock answers.
use amsonia_core.Base.{ℕ, ◌+◌, ◌-◌, ◌%◌, ◌^◌, List, Bool}
use amsonia_core.Text.{Text}
use amsonia_core.Types.Enums.{
  Scope, ResourceMode, ReasonCode, GrantProvenance, AuditOutcome, AuditPhase,
}

abbrev pub Time : Type 0
Time = ℕ

-- `v + 1` and `v - 1` on int64
unfoldable pub next_version : ℕ → ℕ
next_version v = (v + 1) % 2 ^ 64

unfoldable pub previous_version : ℕ → ℕ
previous_version v = (v + 2 ^ 64 - 1) % 2 ^ 64

pub record PermissionDefinition : Type 0 where
  pub key : Text
  pub description : Text

pub record Principal : Type 0 where
  pub tenant_id : Text
  pub subject_id : Text

pub record ResourceContext : Type 0 where
  pub tenant_id : Text
  pub resource_id : Text
  pub owner_subject_id : Text
  pub workspace_id : Text

pub record CheckRequest : Type 0 where
  pub principal : Principal
  pub permission : Text
  pub mode : ResourceMode
  pub resource : ResourceContext

-- `effective_scope` is the empty string on every denial.
pub record Decision : Type 0 where
  pub allowed : Bool
  pub reason : ReasonCode
  pub effective_scope : Text

pub record EffectiveGrant : Type 0 where
  pub role_id : Text
  pub permission : Text
  pub scope : Scope
  pub workspace_roles : List Text

pub record WorkspaceMembership : Type 0 where
  pub role : Text

pub record SubjectRoleGrant : Type 0 where
  pub tenant_id : Text
  pub subject_id : Text
  pub role_id : Text
  pub grantor_subject_id : Text
  pub provenance : GrantProvenance
  pub granted_at : Time

pub record GrantEdge : Type 0 where
  pub tenant_id : Text
  pub grantor : Text
  pub grantee : Text
  pub role_id : Text
  pub created_at : Time

pub record Role : Type 0 where
  pub tenant_id : Text
  pub role_id : Text
  pub name : Text
  pub description : Text
  pub version : ℕ
  pub deleted : Bool

pub record RolePermissionGrant : Type 0 where
  pub role_id : Text
  pub permission : Text
  pub scope : Scope
  pub workspace_roles : List Text

pub record RoleVersion : Type 0 where
  pub tenant_id : Text
  pub role_id : Text
  pub version : ℕ
  pub name : Text
  pub description : Text
  pub grants : List RolePermissionGrant
  pub deleted : Bool
  pub created_at : Time
  pub created_by_subject_id : Text
  pub bootstrap_initiator : Text

pub record MutationAuditEvent : Type 0 where
  pub tenant_id : Text
  pub actor_subject_id : Text
  pub host_initiator : Text
  pub operation : Text
  pub phase : AuditPhase
  pub target_type : Text
  pub target_id : Text
  pub outcome : AuditOutcome
  pub reason_code : Text
  pub request_id : Text
  pub role_version : ℕ
  pub at : Time

pub record HostProvenance : Type 0 where
  pub initiator : Text
  pub at : Time

pub record ControlPermissions : Type 0 where
  pub manage_roles : Text
  pub manage_grants : Text
  pub assign_roles : Text

pub record MutationMetadata : Type 0 where
  pub request_id : Text
  pub reason_code : Text

pub record PurgeResult : Type 0 where
  pub changed : Bool
  pub already_committed : Bool
  pub canonical_event : MutationAuditEvent
