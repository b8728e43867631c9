-- ===== src/Authorizer/Verdict/Proof.antt =====
-- `Check` of authorizer.go beside its contract: the scan over the three scopes.
use amsonia_core.Base.{
  ℕ, ◌≡◌, inl, inr, refl, List, [], ◌∷◌, Bool, true, false, all, if◌then◌else◌, some, arith,
}
use amsonia_core.Text.{Text, text_key}
use amsonia_core.Types.Errors.{ok, err, Result-cases, each, is_ok}
use amsonia_core.Types.Enums.{Scope, scope_key, scope_dec, ReasonCode}
use amsonia_core.Types.Records.{CheckRequest, EffectiveGrant}
use amsonia_core.Policy.{allow_access, crosses_tenant}
use amsonia_core.Policy.Grants.{validate_grant}
use amsonia_core.Authorizer.{
  Authorizer, DeniedReason, merge_denied, Snapshot, fresh, remember, look_up, translate,
  needs_membership, scan_scopes, decide_grants, check, reason_or, denial,
}
use amsonia_core.Authorizer.Scan.{has_scope, admitted, IsSteady, scan-steady, scan-loading}
use amsonia_core.Authorizer.Verdict.{settle, are_valid, on_grants, expected, Answer}

each-all :
    (permission : Text) (gs : List EffectiveGrant)
    → is_ok (each (validate_grant permission) gs)
      ≡ all (λ g. is_ok (validate_grant permission g)) gs
each-all permission [] = refl
each-all permission (g ∷ gs) = ground (arith, each-all permission gs)

validate_grant-permission :
    (permission : Text) (g : EffectiveGrant)
    → is_ok (validate_grant permission g) ≡ true
    → permission ≡ g.permission
unfolding validate_grant
validate_grant-permission permission g h = ground arith

module _ (same_orbit : ℕ → ℕ → Bool) (a : Authorizer) (request : CheckRequest) where
  -- A valid grant at the scope of the tenant allows every request that does not leave the tenant.
  tenant_admitted :
      (s : Snapshot) (gs : List EffectiveGrant)
      → crosses_tenant request ≡ false
      → are_valid same_orbit a request gs ≡ true
      → admitted same_orbit a request Scope.tenant s gs ≡ has_scope Scope.tenant gs
  unfolding allow_access
  tenant_admitted s [] home valid = refl
  tenant_admitted s (g ∷ gs) home valid =
      ground (arith, validate_grant-permission request.permission g, tenant_admitted s gs home)

  -- The passes over workspace and own grants, once the membership is settled.
  scan_rest :
      (s : Snapshot) (gs : List EffectiveGrant)
      → crosses_tenant request ≡ false
      → IsSteady same_orbit a request Scope.workspace s
      → scan_scopes same_orbit a request
          (Scope.workspace ∷ Scope.own ∷ [])
          gs
          DeniedReason.denied_none
          s
        ≡ settle same_orbit a request s gs
  unfolding scan_scopes merge_denied translate reason_or scope_dec
  scan_rest s gs home steady = ground (
    arith,
    scan-steady same_orbit a request Scope.workspace gs DeniedReason.denied_none s steady,
    scan-steady same_orbit a request Scope.own gs DeniedReason.denied_none s (inl refl),
  )

  -- Without a workspace grant nothing is admitted at that scope.
  no_workspace :
      (s : Snapshot) (gs : List EffectiveGrant)
      → has_scope Scope.workspace gs ≡ false
      → admitted same_orbit a request Scope.workspace s gs ≡ false
  no_workspace s [] h = refl
  no_workspace s (g ∷ gs) h = ground (arith, no_workspace s gs)

  -- The same passes from the empty snapshot, where the request asks for the membership.
  scan_load :
      (gs : List EffectiveGrant)
      → crosses_tenant request ≡ false
      → needs_membership request Scope.workspace ≡ true
      → scan_scopes same_orbit a request
          (Scope.workspace ∷ Scope.own ∷ [])
          gs
          DeniedReason.denied_none
          fresh
        ≡ (if has_scope Scope.workspace gs
            then elim (remember (look_up a request)) as (λ x. Answer) [
              | err e ↦ (denial ReasonCode.dependency_unavailable, some e)
              | ok s ↦ settle same_orbit a request s gs
            ]
            else settle same_orbit a request fresh gs)
  unfolding scan_scopes merge_denied translate reason_or scope_dec
  scan_load gs home need =
      let loading = scan-loading same_orbit a request gs DeniedReason.denied_none fresh need refl in
      let own_pass = λ (s : Snapshot).
        scan-steady same_orbit a request Scope.own gs DeniedReason.denied_none s (inl refl) in
      elim (Result-cases (remember (look_up a request))) [
        | inl (s, e) ↦ ground (arith, loading, own_pass s, own_pass fresh, no_workspace fresh gs)
        | inr (x, e) ↦ ground (arith, loading, own_pass fresh, no_workspace fresh gs)
      ]

  -- The loops over valid grants give the contract's answer.
  decide_grants-lem :
      (gs : List EffectiveGrant)
      → crosses_tenant request ≡ false
      → decide_grants same_orbit a request gs ≡ on_grants same_orbit a request (ok gs)
  unfolding decide_grants scan_scopes merge_denied scope_dec
  decide_grants-lem gs home = ground (
    arith,
    each-all request.permission gs,
    scan-steady same_orbit a request Scope.tenant gs DeniedReason.denied_none fresh (inl refl),
    tenant_admitted fresh gs home,
    scan_rest fresh gs home,
    scan_load gs home,
  )

-- `Check` answers as the contract says, on every branch: refusals of malformed and cross-tenant
-- requests, failures of the collaborators, malformed grants, the first of tenant, workspace and own
-- that has a grant which allows, and else the denial of the best rank.
pub check_lem :
    (same_orbit : ℕ → ℕ → Bool) (a : Authorizer) (request : CheckRequest)
    → check same_orbit a request ≡ expected same_orbit a request
unfolding check
check_lem same_orbit a request =
    let read =
      a.policies request.principal.tenant_id request.principal.subject_id request.permission in
    elim (Result-cases read) [
      | inl (gs, e) ↦ ground (arith, e, decide_grants-lem same_orbit a request gs)
      | inr (x, e) ↦ ground (arith, e)
    ]
