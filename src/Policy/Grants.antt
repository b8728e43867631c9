-- ===== src/Policy/Grants.antt =====
-- `EffectiveGrant.Validate` of authorizer.go, which every loaded grant passes before evaluation.
use amsonia_core.Base.{◌==◌}
use amsonia_core.Text.{Text, text_key}
use amsonia_core.Types.Errors.{Result, invalid_policy, require, each, is_ok, ◌>>◌}
use amsonia_core.Types.Enums.{is_scope}
use amsonia_core.Types.Records.{EffectiveGrant}
use amsonia_core.Types.Ids.{validate_opaque_id}
use amsonia_core.Catalog.Keys.{validate_key, validate_workspace_role}

unfoldable pub validate_grant : Text → EffectiveGrant → Result (Unit {0})
validate_grant requested g = do
  require (is_ok (validate_key g.permission)) invalid_policy
  require (g.permission == requested) invalid_policy
  require (is_scope g.scope) invalid_policy
  require (is_ok (validate_opaque_id g.role_id)) invalid_policy
  each (λ role. require (is_ok (validate_workspace_role role)) invalid_policy) g.workspace_roles
