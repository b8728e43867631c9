-- ===== src/Policy/Access.antt =====
-- `allowAccess` and `workspaceRoleMatch` of policy.go: the scope contract, written as a relation.
use amsonia_core.Base.{
  ℕ, ◌≡◌, ◌≢◌, ◌↔◌, ◌⊎◌, inl, inr, refl, List, [], ◌∷◌, Bool, true, false, any, arith,
}
use amsonia_core.Text.{Text, text_key, is_empty}
use amsonia_core.Text.Space.{trim_space}
use amsonia_core.Text.Fold.{equal_fold}
use amsonia_core.Types.Enums.{Scope, scope_key, scope_dec}
use amsonia_core.Types.Records.{CheckRequest, EffectiveGrant, WorkspaceMembership}
use amsonia_core.Policy.{workspace_role_match, scope_allows, allow_access, is_tenant_action}

module _ (same_orbit : ℕ → ℕ → Bool) where
  -- The role is one of the list, up to letter case and surrounding space.
  abbrev pub Admits : List Text → Text → Type 0
  Admits [] role = ⊥
  Admits (c ∷ cs) role =
      (equal_fold same_orbit (trim_space c) (trim_space role) ≡ true) ⊎ Admits cs role

  any-Admits_iff :
      (cs : List Text) (role : Text)
      → (any (λ c. equal_fold same_orbit (trim_space c) (trim_space role)) cs ≡ true)
        ↔ Admits cs role
  any-Admits_iff [] role = (λ e. cc, λ h. absurd h)
  any-Admits_iff (c ∷ cs) role =
      let ih = any-Admits_iff cs role in (λ e. ground (arith, ih), λ h. ground (arith, ih))

  -- What each scope asks of a request.
  abbrev pub ScopeFits : Scope → CheckRequest → List Text → WorkspaceMembership → Bool → Type 0
  ScopeFits Scope.tenant request roles membership member = Unit
  ScopeFits Scope.own request roles membership member =
      (is_tenant_action request.mode ≡ false)
      × (request.resource.owner_subject_id ≢ [])
      × (request.resource.owner_subject_id ≡ request.principal.subject_id)
  ScopeFits Scope.workspace request roles membership member =
      (is_tenant_action request.mode ≡ false)
      × (request.resource.workspace_id ≢ [])
      × (member ≡ true)
      × ((roles ≡ []) ⊎ Admits roles membership.role)
  ScopeFits (Scope.other t) request roles membership member = ⊥

  -- The request names the permission of the grant, and a resource of the principal's own tenant or
  -- of none.
  abbrev pub Fits : CheckRequest → EffectiveGrant → WorkspaceMembership → Bool → Type 0
  Fits request grant membership member =
      (request.permission ≡ grant.permission)
      × ((request.resource.tenant_id ≡ [])
          ⊎ (request.resource.tenant_id ≡ request.principal.tenant_id))
      × ScopeFits grant.scope request grant.workspace_roles membership member

  is_empty_iff : (t : Text) → (is_empty t ≡ true) ↔ (t ≡ [])
  is_empty_iff [] = (λ e. refl, λ e. refl)
  is_empty_iff (x ∷ t) = (λ e. cc, λ e. cc)

  match_iff :
      (role : Text) (roles : List Text)
      → (workspace_role_match same_orbit role roles ≡ true) ↔ ((roles ≡ []) ⊎ Admits roles role)
  unfolding workspace_role_match
  match_iff role [] = (λ e. inl refl, λ h. refl)
  match_iff role (c ∷ cs) =
      let inner = any-Admits_iff (c ∷ cs) role in (λ e. inr (inner.0 e), λ h. ground (arith, inner))

  access_iff :
      (scope : Scope) (request : CheckRequest) (grant : EffectiveGrant)
      (membership : WorkspaceMembership) (member : Bool)
      → grant.scope ≡ scope
      → (allow_access same_orbit request grant membership member ≡ true) ↔ (
          (request.permission ≡ grant.permission)
          × ((request.resource.tenant_id ≡ [])
              ⊎ (request.resource.tenant_id ≡ request.principal.tenant_id))
          × ScopeFits scope request grant.workspace_roles membership member)
  unfolding allow_access scope_allows scope_dec
  access_iff Scope.tenant request grant membership member e =
      let tenantless = is_empty_iff request.resource.tenant_id in
      (λ a. ground (arith, tenantless), λ h. ground (arith, tenantless))
  access_iff Scope.own request grant membership member e =
      let tenantless = is_empty_iff request.resource.tenant_id in
      let ownerless = is_empty_iff request.resource.owner_subject_id in
      (λ a. ground (arith, tenantless, ownerless), λ h. ground (arith, tenantless, ownerless))
  access_iff Scope.workspace request grant membership member e =
      let tenantless = is_empty_iff request.resource.tenant_id in
      let homeless = is_empty_iff request.resource.workspace_id in
      let admitted = match_iff membership.role grant.workspace_roles in
      (
        λ a. ground (arith, tenantless, homeless, admitted),
        λ h. ground (arith, tenantless, homeless, admitted),
      )
  access_iff (Scope.other t) request grant membership member e =
      (λ a. ground arith, λ h. absurd h.2)

  -- `allowAccess` accepts exactly what the scope contract allows.
  pub allow_access_iff :
      (request : CheckRequest) (grant : EffectiveGrant) (membership : WorkspaceMembership)
      (member : Bool)
      → (allow_access same_orbit request grant membership member ≡ true)
        ↔ Fits request grant membership member
  allow_access_iff request grant membership member =
      access_iff grant.scope request grant membership member refl
