-- ===== src/Policy.antt =====
-- policy.go: the fixed scope contract, for access and for delegation.
pub mod Grants
pub mod Coverage
pub mod Access
pub mod Delegation
mod Tests
use amsonia_core.Base.{
  ℕ, List, [], ◌∷◌, Bool, true, false, not, ◌&&◌, ◌||◌, ◌==◌, any, all, if◌then◌else◌,
}
use amsonia_core.Text.{Text, text_key, is_empty}
use amsonia_core.Text.Space.{trim_space}
use amsonia_core.Text.Fold.{equal_fold}
use amsonia_core.Types.Enums.{Scope, scope_key, is_scope, ResourceMode}
use amsonia_core.Types.Records.{
  CheckRequest, EffectiveGrant, WorkspaceMembership, Principal, ResourceContext,
}

-- `res.TenantID != "" && res.TenantID != principal.TenantID`
abbrev pub crosses_tenant : CheckRequest → Bool
crosses_tenant request =
    not (is_empty request.resource.tenant_id)
    && not (request.resource.tenant_id == request.principal.tenant_id)

abbrev pub is_tenant_action : ResourceMode → Bool
is_tenant_action ResourceMode.tenant_action = true
is_tenant_action _ = false

module _ (same_orbit : ℕ → ℕ → Bool) where
  unfoldable pub workspace_role_match : Text → List Text → Bool
  workspace_role_match role allowed =
      is_empty allowed
      || any (λ candidate. equal_fold same_orbit (trim_space candidate) (trim_space role)) allowed

  -- The switch on the scope of the grant.
  unfoldable pub scope_allows :
      Scope → CheckRequest → EffectiveGrant → WorkspaceMembership → Bool → Bool
  scope_allows Scope.own request grant membership member =
      not (is_empty request.resource.owner_subject_id)
      && request.resource.owner_subject_id == request.principal.subject_id
  scope_allows Scope.workspace request grant membership member =
      not (is_empty request.resource.workspace_id)
      && member
      && workspace_role_match membership.role grant.workspace_roles
  scope_allows Scope.tenant request grant membership member = false
  scope_allows (Scope.other t) request grant membership member = false

  unfoldable pub allow_access : CheckRequest → EffectiveGrant → WorkspaceMembership → Bool → Bool
  allow_access request grant membership member =
      if not (request.permission == grant.permission) || crosses_tenant request
      then false
      else if grant.scope == Scope.tenant
      then true
      else if is_tenant_action request.mode
      then false
      else scope_allows grant.scope request grant membership member

-- The actor's list of workspace roles covers the target's.
unfoldable pub covers_workspace_roles : List Text → List Text → Bool
covers_workspace_roles actor_roles target_roles =
    if is_empty actor_roles
    then true
    else if is_empty target_roles
    then false
    else all (λ role. any (λ held. held == role) actor_roles) target_roles

unfoldable pub allow_delegation : Text → Scope → List Text → Bool → EffectiveGrant → Bool
allow_delegation permission target roles exact grant =
    if not (is_scope target)
    then false
    else if not (permission == grant.permission)
        || (not (grant.scope == target) && (exact || not (grant.scope == Scope.tenant)))
    then false
    else not (grant.scope == Scope.workspace) || covers_workspace_roles grant.workspace_roles roles
