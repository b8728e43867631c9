-- ===== src/Authorizer/Request.antt =====
-- `validateRequest` and `validateResourceContext`.
use amsonia_core.Base.{Bool, true, false, Option, none, some, if◌then◌else◌}
use amsonia_core.Text.{Text, is_empty}
use amsonia_core.Types.Errors.{Result, ok, invalid_input, require, refuse, is_ok, ◌>>◌}
use amsonia_core.Types.Enums.{ResourceMode}
use amsonia_core.Types.Records.{CheckRequest, ResourceContext}
use amsonia_core.Types.Ids.{validate_opaque_id}
use amsonia_core.Catalog.{Catalog, lookup_key}
use amsonia_core.Catalog.Keys.{validate_key}

-- The fields that each mode asks for.
unfoldable pub validate_mode_fields : ResourceMode → ResourceContext → Result (Unit {0})
validate_mode_fields ResourceMode.existing res = do
  refuse (is_empty res.resource_id) invalid_input
  refuse (is_empty res.tenant_id) invalid_input
  ok tt
validate_mode_fields ResourceMode.create res = do
  refuse (is_empty res.tenant_id) invalid_input
  ok tt
validate_mode_fields ResourceMode.tenant_action res = do
  require (is_empty res.resource_id) invalid_input
  ok tt
validate_mode_fields (ResourceMode.other t) res = ok tt

-- An identifier that may be left out.
unfoldable pub validate_optional : Text → Result (Unit {0})
validate_optional id =
    if is_empty id then ok tt else require (is_ok (validate_opaque_id id)) invalid_input

unfoldable pub validate_resource_context : CheckRequest → Result (Unit {0})
validate_resource_context request = do
  validate_mode_fields request.mode request.resource
  validate_optional request.resource.tenant_id
  validate_optional request.resource.resource_id
  validate_optional request.resource.owner_subject_id
  validate_optional request.resource.workspace_id
  ok tt

abbrev pub is_mode : ResourceMode → Bool
is_mode ResourceMode.existing = true
is_mode ResourceMode.create = true
is_mode ResourceMode.tenant_action = true
is_mode (ResourceMode.other t) = false

abbrev pub is_some {ℓ} : {A : Type ℓ} → Option A → Bool
is_some none = false
is_some (some a) = true

unfoldable pub validate_request : Catalog → CheckRequest → Result (Unit {0})
validate_request catalog request = do
  validate_opaque_id request.principal.tenant_id
  validate_opaque_id request.principal.subject_id
  validate_key request.permission
  require (is_some (lookup_key catalog request.permission)) invalid_input
  require (is_mode request.mode) invalid_input
  validate_resource_context request
