-- ===== src/Bootstrap/Inputs.antt =====
-- What `BootstrapTenant` checks and collects before its transaction.
use amsonia_core.Base.{List, [], ◌∷◌, ◌++◌, Bool, false, ◌&&◌, ◌||◌, any, all, ltb, length, ◌==◌}
use amsonia_core.Base.Maps.{Map, insert, values}
use amsonia_core.Text.{Text, text_key, is_empty}
use amsonia_core.Text.Space.{trim_space}
use amsonia_core.Types.Errors.{Result, ok, err, invalid_input, require, refuse, is_ok, ◌>>=◌, ◌>>◌}
use amsonia_core.Types.Enums.{Scope, scope_key, is_scope, spelling}
use amsonia_core.Types.Records.{
  Role, RolePermissionGrant, MutationMetadata, HostProvenance, ControlPermissions, Time,
}
use amsonia_core.Types.Ids.{validate_role_name}
use amsonia_core.Catalog.{Catalog, lookup_key}
use amsonia_core.Catalog.Keys.{validate_key}
use amsonia_core.Authorizer.Request.{is_some}
use amsonia_core.Manager.Inputs.{validate_controls, require_id, normalize_workspace_roles}

pub record BootstrapInput : Type 0 where
  pub tenant_id : Text
  pub owner_subject_id : Text
  pub owner_role_id : Text
  pub owner_role_name : Text
  pub owner_role_description : Text
  pub grants : List RolePermissionGrant
  pub metadata : MutationMetadata

-- `Bootstrapper`, with what `AuthorizeBootstrap` of the host answers for a tenant; the store and the
-- clock are arguments.
pub record Bootstrapper : Type 0 where
  pub catalog : Catalog
  pub controls : ControlPermissions
  pub authorize : Text → Result HostProvenance

-- The dependencies that it refuses when nil are arguments of the operation, but for the host's answer.
unfoldable pub new_bootstrapper :
    Catalog → ControlPermissions → (Text → Result HostProvenance) → Result Bootstrapper
new_bootstrapper catalog controls authorize = do
  validate_controls catalog controls
  ok (record { catalog = catalog; controls = controls; authorize = authorize })

-- What the clock answers at the three places that ask.
pub record Readings : Type 0 where
  pub granted_at : Time
  pub created_at : Time
  pub audited_at : Time

unfoldable pub validate_bootstrap : BootstrapInput → Result (Unit {0})
validate_bootstrap input = do
  require_id input.tenant_id
  require_id input.owner_subject_id
  require_id input.owner_role_id
  validate_role_name input.owner_role_name
  refuse (is_empty input.metadata.reason_code || ltb 64 (length input.metadata.reason_code))
      invalid_input
  refuse (ltb 128 (length input.metadata.request_id)) invalid_input
  refuse (is_empty input.grants) invalid_input

-- One round of the loop over the grants: the entry that it writes.
unfoldable pub check_grant :
    Catalog → Text → RolePermissionGrant → Result (Text × RolePermissionGrant)
check_grant catalog owner_role_id g = do
  require (g.role_id == owner_role_id) invalid_input
  require (is_ok (validate_key g.permission)) invalid_input
  require (is_some (lookup_key catalog g.permission)) invalid_input
  require (is_scope g.scope) invalid_input
  roles ← normalize_workspace_roles g.workspace_roles
  ok (
    g.permission ++ b':' ∷ spelling g.scope,
    record {
      role_id = g.role_id;
      permission = g.permission;
      scope = g.scope;
      workspace_roles = roles;
    },
  )

-- `grantMap`: the last grant for a permission and scope stays.
unfoldable pub collect_grants :
    Catalog
    → Text
    → List RolePermissionGrant
    → Map Text RolePermissionGrant
    → Result (Map Text RolePermissionGrant)
collect_grants catalog owner_role_id [] m = ok m
collect_grants catalog owner_role_id (g ∷ gs) m = elim (check_grant catalog owner_role_id g) [
  | err e ↦ err e
  | ok (key, grant) ↦ collect_grants catalog owner_role_id gs (insert key grant m)
]

-- Some grant gives the control permission at tenant scope.
abbrev pub controls_tenant : List RolePermissionGrant → Text → Bool
controls_tenant grants control =
    any (λ g. g.permission == control && g.scope == Scope.tenant) grants

abbrev pub control_keys : ControlPermissions → List Text
control_keys c = c.manage_roles ∷ c.manage_grants ∷ c.assign_roles ∷ []

-- The grants of the owner's role, in the order of the map, with all control permissions.
unfoldable pub owner_grants : Bootstrapper → BootstrapInput → Result (List RolePermissionGrant)
owner_grants b input = do
  m ← collect_grants b.catalog input.owner_role_id input.grants []
  require (all (controls_tenant (values m)) (control_keys b.controls)) invalid_input
  ok (values m)

abbrev pub owner_role : BootstrapInput → Role
owner_role input = record {
  tenant_id = input.tenant_id;
  role_id = input.owner_role_id;
  name = trim_space input.owner_role_name;
  description = trim_space input.owner_role_description;
  version = 1;
  deleted = false;
}

-- What `BootstrapTenant` asks before its transaction: the host's provenance and the grants.
unfoldable pub prepare_bootstrap :
    Bootstrapper → BootstrapInput → Result (HostProvenance × List RolePermissionGrant)
prepare_bootstrap b input = do
  validate_bootstrap input
  provenance ← b.authorize input.tenant_id
  grants ← owner_grants b input
  ok (provenance, grants)
