-- ===== src/AdminPolicy.antt =====
-- internal/adminpolicy/coverage.go: which subject holds which control grant.
use amsonia_core.Base.{List, [], Bool, true, false, none, some, ◌==◌, any, all, if◌then◌else◌}
use amsonia_core.Base.Maps.{Map, lookup, insert}
use amsonia_core.Text.{Text, text_key}
use amsonia_core.Types.Errors.{Result, ok, invalid_policy, require, is_ok, ◌>>◌}
use amsonia_core.Types.Enums.{Scope, scope_key}
use amsonia_core.Types.Records.{EffectiveGrant}
use amsonia_core.Types.Ids.{validate_opaque_id}
use amsonia_core.Policy.Grants.{validate_grant}

-- `map[SubjectID]map[string]bool`; only `true` is ever stored.
abbrev pub Coverage : Type 0
Coverage = Map Text (Map Text Bool)

-- The inner map of a subject, empty if it is nil.
abbrev pub held_by : Text → Coverage → Map Text Bool
held_by subject c = elim (lookup subject c) [ none ↦ [] | some held ↦ held ]

unfoldable pub add : Coverage → Text → EffectiveGrant → Result Coverage
add c subject grant = do
  require (is_ok (validate_opaque_id subject)) invalid_policy
  validate_grant grant.permission grant
  ok (
      if grant.scope == Scope.tenant
      then insert subject (insert grant.permission true (held_by subject c)) c
      else c)

-- `grants[permission]`
abbrev pub holds : Map Text Bool → Text → Bool
holds held permission = elim (lookup permission held) [ none ↦ false | some b ↦ b ]

unfoldable pub complete : Coverage → List Text → Bool
complete c permissions = any (λ e. all (holds e.1) permissions) c
