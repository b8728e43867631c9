-- ===== src/Policy/Delegation.antt =====
-- `allowDelegation` of policy.go beside `allowAccess`.
use amsonia_core.Base.{
  ℕ, ◌≡◌, inl, inr, refl, List, [], ◌∷◌, Bool, true, any, All, Bool-cases, arith,
}
use amsonia_core.Text.{Text, text_key}
use amsonia_core.Text.Space.{trim_space}
use amsonia_core.Text.Fold.{equal_fold}
use amsonia_core.Types.Enums.{Scope, scope_key, scope_dec}
use amsonia_core.Types.Records.{CheckRequest, EffectiveGrant, WorkspaceMembership}
use amsonia_core.Policy.{workspace_role_match, scope_allows, allow_access, allow_delegation}
use amsonia_core.Policy.Coverage.{Holds, Covers, covers_workspace_roles_iff}

any-Holds :
    (p : Text → Bool) (xs : List Text) (x : Text) → Holds xs x → p x ≡ true → any p xs ≡ true
any-Holds p [] x h e = absurd h
any-Holds p (y ∷ ys) x (inl same) e = rw (same, e)
any-Holds p (y ∷ ys) x (inr later) e = ground (arith, any-Holds p ys x later e)

any-within :
    (p : Text → Bool) (held wanted : List Text)
    → All (Holds held) wanted
    → any p wanted ≡ true
    → any p held ≡ true
any-within p held [] h e = cc
any-within p held (w ∷ wanted) h e = elim (Bool-cases (p w)) [
  | inl hit ↦ any-Holds p held w h.0 hit
  | inr miss ↦ any-within p held wanted h.1 (ground arith)
]

module _ (same_orbit : ℕ → ℕ → Bool) where
  -- A member whom a covered list admits is admitted by the covering list.
  workspace_role_match_mono :
      (role : Text) (held wanted : List Text)
      → Covers held wanted
      → workspace_role_match same_orbit role wanted ≡ true
      → workspace_role_match same_orbit role held ≡ true
  unfolding workspace_role_match
  workspace_role_match_mono role held wanted (inl e) h = rw e refl
  workspace_role_match_mono role held [] (inr c) h = absurd (c.0 refl)
  workspace_role_match_mono role [] (w ∷ wanted) (inr c) h = refl
  workspace_role_match_mono role (x ∷ held) (w ∷ wanted) (inr c) h =
      any-within (λ candidate. equal_fold same_orbit (trim_space candidate) (trim_space role))
        (x ∷ held) (w ∷ wanted) c.1 h

  -- The scope of the delegating grant is a variable here, so that the proof can split on it.
  scoped :
      (own_scope : Scope) (target : Scope) (roles : List Text) (exact : Bool)
      (grant delegated : EffectiveGrant) (request : CheckRequest) (membership : WorkspaceMembership)
      (member : Bool)
      → grant.scope ≡ own_scope
      → delegated.scope ≡ target
      → delegated.workspace_roles ≡ roles
      → allow_delegation delegated.permission target roles exact grant ≡ true
      → allow_access same_orbit request delegated membership member ≡ true
      → allow_access same_orbit request grant membership member ≡ true
  unfolding allow_delegation allow_access scope_allows scope_dec
  scoped Scope.tenant target roles exact grant delegated request membership member e f g d a =
      ground arith
  scoped Scope.workspace Scope.workspace roles exact grant delegated request membership member e f g
        d a =
      ground (
        arith,
        (covers_workspace_roles_iff grant.workspace_roles roles).0,
        workspace_role_match_mono membership.role grant.workspace_roles roles,
      )
  scoped Scope.own Scope.own roles exact grant delegated request membership member e f g d a =
      ground arith
  scoped Scope.workspace target roles exact grant delegated request membership member e f g d a =
      ground arith
  scoped Scope.own target roles exact grant delegated request membership member e f g d a =
      ground arith
  scoped (Scope.other t) target roles exact grant delegated request membership member e f g d a =
      ground arith

  -- Whoever may delegate a permission at a scope may do whatever the delegated grant allows: for
  -- every request and membership that the delegated grant admits, the delegating grant admits it.
  pub allow_delegation_sound :
      (permission : Text) (target : Scope) (roles : List Text) (exact : Bool)
      (grant : EffectiveGrant) (role_id : Text) (request : CheckRequest)
      (membership : WorkspaceMembership) (member : Bool)
      → allow_delegation permission target roles exact grant ≡ true
      → let delegated : EffectiveGrant = record {
        role_id = role_id;
        permission = permission;
        scope = target;
        workspace_roles = roles;
      } in
        allow_access same_orbit request delegated membership member ≡ true
        → allow_access same_orbit request grant membership member ≡ true
  allow_delegation_sound permission target roles exact grant role_id request membership member =
      scoped grant.scope target roles exact grant _ request membership member refl refl refl
