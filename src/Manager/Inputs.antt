-- ===== src/Manager/Inputs.antt =====
-- The inputs of the operations, and what is checked of them before a transaction.
use amsonia_core.Base.{ℕ, List, [], ◌∷◌, ◌++◌, ltb, any, length, ◌==◌, if◌then◌else◌}
use amsonia_core.Base.Sort.{sort_by}
use amsonia_core.Text.{Text, text_key}
use amsonia_core.Text.Order.{text_ltb}
use amsonia_core.Text.Space.{trim_space}
use amsonia_core.Types.Errors.{Result, ok, invalid_input, require, refuse, each, is_ok, ◌>>=◌, ◌>>◌}
use amsonia_core.Types.Enums.{Scope, is_scope}
use amsonia_core.Types.Records.{
  Principal, MutationMetadata, RolePermissionGrant, ControlPermissions,
}
use amsonia_core.Manager.{Manager}
use amsonia_core.Types.Ids.{validate_opaque_id, validate_role_name, validate_meta}
use amsonia_core.Catalog.{Catalog, lookup_key, catalog_keys}
use amsonia_core.Catalog.Keys.{validate_key, validate_workspace_role}
use amsonia_core.Authorizer.Request.{is_some}

pub record CreateRoleInput : Type 0 where
  pub role_id : Text
  pub name : Text
  pub description : Text

pub record CreateRoleWithPermissionsInput : Type 0 where
  pub role_id : Text
  pub name : Text
  pub description : Text
  pub permissions : List Text

pub record UpdateRoleInput : Type 0 where
  pub role_id : Text
  pub expected_version : ℕ
  pub name : Text
  pub description : Text

pub record DeleteRoleInput : Type 0 where
  pub role_id : Text
  pub expected_version : ℕ

-- Also `RevokePermissionInput`.
pub record GrantPermissionInput : Type 0 where
  pub role_id : Text
  pub expected_version : ℕ
  pub permission : Text
  pub scope : Scope
  pub workspace_roles : List Text

-- Also `UnassignRoleInput`.
pub record AssignRoleInput : Type 0 where
  pub subject_id : Text
  pub role_id : Text
  pub expected_role_version : ℕ

-- `X.Validate() != nil { return ErrInvalidInput }`
abbrev pub require_id : Text → Result (Unit {0})
require_id id = require (is_ok (validate_opaque_id id)) invalid_input

-- What every operation checks first.
unfoldable pub validate_actor : Principal → MutationMetadata → Result (Unit {0})
validate_actor actor meta = do
  validate_meta meta
  require_id actor.tenant_id
  require_id actor.subject_id

unfoldable pub validate_named_role : Principal → MutationMetadata → Text → Text → Result (Unit {0})
validate_named_role actor meta role_id name = do
  validate_actor actor meta
  require_id role_id
  validate_role_name name

unfoldable pub validate_controls : Catalog → ControlPermissions → Result (Unit {0})
validate_controls catalog controls =
    each (λ key. require (is_some (lookup_key catalog key)) invalid_input)
      (controls.manage_roles ∷ controls.manage_grants ∷ controls.assign_roles ∷ [])

-- The dependencies that it refuses when nil are arguments of the operations.
unfoldable pub new_manager : Catalog → ControlPermissions → Result Manager
new_manager catalog controls = do
  validate_controls catalog controls
  ok (record { catalog = catalog; controls = controls })

-- The loop of `CreateRoleWithPermissions`; `seen` holds what was collected.
unfoldable pub collect_permissions : Catalog → List Text → List Text → Result (List Text)
collect_permissions catalog seen [] = ok seen
collect_permissions catalog seen (p ∷ ps) =
    let rest =
      collect_permissions catalog (if any (λ q. q == p) seen then seen else seen ++ p ∷ []) ps in
    do
      require (is_ok (validate_key p)) invalid_input
      require (is_some (lookup_key catalog p)) invalid_input
      rest

unfoldable pub validate_permissions : Catalog → List Text → Result (List Text)
validate_permissions catalog permissions = do
  refuse (ltb (length (catalog_keys catalog)) (length permissions)) invalid_input
  collected ← collect_permissions catalog [] permissions
  ok (sort_by text_ltb collected)

-- The loop of `normalizeWorkspaceRoles`.
unfoldable pub collect_roles : List Text → List Text → Result (List Text)
collect_roles seen [] = ok seen
collect_roles seen (r ∷ rs) =
    let trimmed = trim_space r in
    let rest =
      collect_roles (if any (λ q. q == trimmed) seen then seen else seen ++ trimmed ∷ []) rs in
    do require (is_ok (validate_workspace_role trimmed)) invalid_input; rest

unfoldable pub normalize_workspace_roles : List Text → Result (List Text)
normalize_workspace_roles roles = do
  collected ← collect_roles [] roles
  ok (sort_by text_ltb collected)

unfoldable pub validate_grant_input : Catalog → GrantPermissionInput → Result RolePermissionGrant
validate_grant_input catalog input = do
  require_id input.role_id
  require (is_ok (validate_key input.permission)) invalid_input
  require (is_some (lookup_key catalog input.permission)) invalid_input
  require (is_scope input.scope) invalid_input
  roles ← normalize_workspace_roles input.workspace_roles
  ok (record {
    role_id = input.role_id;
    permission = input.permission;
    scope = input.scope;
    workspace_roles = roles;
  })
