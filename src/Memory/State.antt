-- ===== src/Memory/State.antt =====
-- The state of one tenant in memory.go, its keys and its copies.
use amsonia_core.Base.{ℕ, List, [], ◌++◌, Bool, false, Key, nat_key, map, ap, none, some}
use amsonia_core.Base.Maps.{Map, lookup}
use amsonia_core.Text.{Text, text_key, text_dec}
use amsonia_core.Types.Enums.{Scope, scope_dec}
use amsonia_core.Types.Records.{
  Role, RolePermissionGrant, SubjectRoleGrant, GrantEdge, RoleVersion, MutationAuditEvent,
  HostProvenance,
}

pub record GrantKey : Type 0 where
  pub permission : Text
  pub scope : Scope
  pub roles : Text

pub record EdgeKey : Type 0 where
  pub grantor : Text
  pub grantee : Text
  pub role_id : Text

unfoldable pub grant_key_dec : Discrete GrantKey
unfolding text_dec scope_dec
grant_key_dec a b = elim (text_dec a.permission b.permission) [
  | no h ↦ no (λ e. h (ap (λ k. k.permission) e))
  | yes p ↦ elim (scope_dec a.scope b.scope) [
    | no h ↦ no (λ e. h (ap (λ k. k.scope) e))
    | yes q ↦ elim (text_dec a.roles b.roles) [
      | no h ↦ no (λ e. h (ap (λ k. k.roles) e))
      | yes r ↦ yes (λ i. record { permission = p i; scope = q i; roles = r i })
    ]
  ]
]

unfoldable pub edge_key_dec : Discrete EdgeKey
unfolding text_dec
edge_key_dec a b = elim (text_dec a.grantor b.grantor) [
  | no h ↦ no (λ e. h (ap (λ k. k.grantor) e))
  | yes p ↦ elim (text_dec a.grantee b.grantee) [
    | no h ↦ no (λ e. h (ap (λ k. k.grantee) e))
    | yes q ↦ elim (text_dec a.role_id b.role_id) [
      | no h ↦ no (λ e. h (ap (λ k. k.role_id) e))
      | yes r ↦ yes (λ i. record { grantor = p i; grantee = q i; role_id = r i })
    ]
  ]
]

instance abbrev pub grant_key_key : Key GrantKey
grant_key_key = record { dec = grant_key_dec }

instance abbrev pub edge_key_key : Key EdgeKey
edge_key_key = record { dec = edge_key_dec }

pub record TenantState : Type 0 where
  pub roles : Map Text Role
  pub role_perms : Map Text (Map GrantKey RolePermissionGrant)
  pub subject_roles : Map Text (Map Text SubjectRoleGrant)
  pub grant_edges : Map EdgeKey GrantEdge
  pub role_versions : Map Text (Map ℕ RoleVersion)
  pub audit : List MutationAuditEvent
  pub bootstrapped : Bool
  pub bootstrap_provenance : HostProvenance
  pub purged : Bool
  pub purge_ledger : Map Text MutationAuditEvent

abbrev pub no_provenance : HostProvenance
no_provenance = record { initiator = []; at = 0 }

unfoldable pub new_tenant_state : TenantState
new_tenant_state = record {
  roles = [];
  role_perms = [];
  subject_roles = [];
  grant_edges = [];
  role_versions = [];
  audit = [];
  bootstrapped = false;
  bootstrap_provenance = no_provenance;
  purged = false;
  purge_ledger = [];
}

-- `append([]string(nil), values...)`
abbrev pub clone_strings : List Text → List Text
clone_strings values = [] ++ values

abbrev pub clone_grant : RolePermissionGrant → RolePermissionGrant
clone_grant grant = record grant { workspace_roles = clone_strings grant.workspace_roles }

unfoldable pub clone_snapshot : RoleVersion → RoleVersion
clone_snapshot snapshot = record snapshot { grants = map clone_grant snapshot.grants }

-- A copy of a map, entry by entry.
abbrev pub clone_map {ℓ} : {K V : Type ℓ} → (V → V) → Map K V → Map K V
clone_map f = map (λ e. (e.0, f e.1))

unfoldable pub clone_tenant_state : TenantState → TenantState
clone_tenant_state source = record {
  roles = clone_map (λ role. role) source.roles;
  role_perms = clone_map (clone_map clone_grant) source.role_perms;
  subject_roles = clone_map (clone_map (λ grant. grant)) source.subject_roles;
  grant_edges = clone_map (λ edge. edge) source.grant_edges;
  role_versions = clone_map (clone_map clone_snapshot) source.role_versions;
  audit = [] ++ source.audit;
  bootstrapped = source.bootstrapped;
  bootstrap_provenance = source.bootstrap_provenance;
  purged = source.purged;
  purge_ledger = clone_map (λ event. event) source.purge_ledger;
}

-- The inner map at a key, empty if it is nil.
abbrev pub inner : {K V : Type 0} → Text → Map Text (Map K V) → Map K V
inner a m = elim (lookup a m) [ none ↦ [] | some n ↦ n ]
