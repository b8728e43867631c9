-- ===== src/Policy/Tests.antt =====
-- The theorems on policy.go at concrete grants.
use amsonia_core.Base.{ℕ, ◌≡◌, ◌↔◌, refl, [], ◌∷◌, Bool, true, false, ◌==◌, nat_key}
use amsonia_core.Text.{Text, codes}
use amsonia_core.Types.Enums.{Scope, ResourceMode}
use amsonia_core.Types.Records.{CheckRequest, EffectiveGrant, WorkspaceMembership}
use amsonia_core.Policy.{allow_access, allow_delegation, covers_workspace_roles}
use amsonia_core.Policy.Access.{Fits, allow_access_iff}
use amsonia_core.Policy.Coverage.{Covers, covers_workspace_roles_iff}
use amsonia_core.Policy.Delegation.{allow_delegation_sound}

-- Letters that differ by case alone.
abbrev ascii_fold : ℕ → ℕ → Bool
ascii_fold a b = a == b

abbrev read_key : Text
read_key = codes "docs:page:read"

-- A request on a page of the workspace "w", by "ann".
abbrev page_request : CheckRequest
page_request = record {
  principal = record { tenant_id = codes "t"; subject_id = codes "ann" };
  permission = read_key;
  mode = ResourceMode.existing;
  resource = record {
    tenant_id = codes "t";
    resource_id = codes "p";
    owner_subject_id = codes "bob";
    workspace_id = codes "w";
  };
}

abbrev tenant_grant : EffectiveGrant
tenant_grant = record {
  role_id = codes "admin";
  permission = read_key;
  scope = Scope.tenant;
  workspace_roles = [];
}

abbrev workspace_grant : EffectiveGrant
workspace_grant = record {
  role_id = codes "reader";
  permission = read_key;
  scope = Scope.workspace;
  workspace_roles = codes "editor" ∷ [];
}

abbrev editor : WorkspaceMembership
editor = record { role = codes "editor" }

allow_access_iff_example :
    (allow_access ascii_fold page_request workspace_grant editor true ≡ true)
    ↔ Fits ascii_fold page_request workspace_grant editor true
allow_access_iff_example = allow_access_iff ascii_fold page_request workspace_grant editor true

covers_workspace_roles_iff_example :
    (covers_workspace_roles (codes "editor" ∷ codes "viewer" ∷ []) (codes "viewer" ∷ []) ≡ true)
    ↔ Covers (codes "editor" ∷ codes "viewer" ∷ []) (codes "viewer" ∷ [])
covers_workspace_roles_iff_example =
    covers_workspace_roles_iff (codes "editor" ∷ codes "viewer" ∷ []) (codes "viewer" ∷ [])

delegated :
    allow_delegation read_key Scope.workspace (codes "editor" ∷ []) false tenant_grant ≡ true
unfolding allow_delegation amsonia_core.Text.text_dec amsonia_core.Types.Enums.scope_dec
delegated = refl

admitted : allow_access ascii_fold page_request workspace_grant editor true ≡ true
unfolding allow_access amsonia_core.Text.text_dec amsonia_core.Types.Enums.scope_dec
    amsonia_core.Policy.scope_allows amsonia_core.Policy.workspace_role_match
    amsonia_core.Text.Fold.equal_fold amsonia_core.Text.Space.trim_space
    amsonia_core.Text.Space.trim_back amsonia_core.Text.Space.trim_front
    amsonia_core.Text.Utf8.decode_rune amsonia_core.Text.Space.is_space
    amsonia_core.Text.Space.last_rune
admitted = refl

allow_delegation_sound_example :
    allow_access ascii_fold page_request tenant_grant editor true ≡ true
allow_delegation_sound_example =
    allow_delegation_sound ascii_fold read_key Scope.workspace (codes "editor" ∷ []) false
      tenant_grant (codes "reader") page_request editor true delegated admitted
