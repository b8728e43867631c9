-- ===== src/Authorizer/Verdict.antt =====
-- `Check` against the contract in its comment: the first of tenant, workspace and own with a grant
-- that allows, and else the best reason of denial.
pub mod Proof
pub mod Stability
use amsonia_core.Base.{
  ℕ, List, Bool, true, false, not, ◌&&◌, ◌==◌, all, if◌then◌else◌, Option, none, some,
}
use amsonia_core.Text.{is_empty}
use amsonia_core.Types.Errors.{Error, Result, ok, err, is_ok}
use amsonia_core.Types.Enums.{Scope, scope_key, ReasonCode}
use amsonia_core.Types.Records.{
  CheckRequest, Decision, EffectiveGrant, Principal, ResourceContext, WorkspaceMembership,
}
use amsonia_core.Policy.{crosses_tenant, is_tenant_action}
use amsonia_core.Policy.Grants.{validate_grant}
use amsonia_core.Authorizer.{
  Authorizer, Snapshot, fresh, remember, look_up, needs_membership, denial, permit,
}
use amsonia_core.Authorizer.Request.{validate_request}
use amsonia_core.Authorizer.Scan.{has_scope, admitted}

abbrev pub Answer : Type 0
Answer = Decision × Option Error

module _ (same_orbit : ℕ → ℕ → Bool) (a : Authorizer) (request : CheckRequest) where
  -- The reason where no grant allows, by its precedence.
  abbrev pub reason : Snapshot → List EffectiveGrant → ReasonCode
  reason s gs =
      if is_tenant_action request.mode
      then ReasonCode.permission_not_granted
      else if has_scope Scope.own gs
      then ReasonCode.owner_mismatch
      else if has_scope Scope.workspace gs
      then (if s.member
          then ReasonCode.workspace_role_denied
          else ReasonCode.workspace_membership_missing)
      else ReasonCode.permission_not_granted

  -- The answer from the membership, where no grant has the scope of the tenant.
  abbrev pub settle : Snapshot → List EffectiveGrant → Answer
  settle s gs =
      if admitted same_orbit a request Scope.workspace s gs
      then (permit Scope.workspace, none)
      else if admitted same_orbit a request Scope.own s gs
      then (permit Scope.own, none)
      else (denial (reason s gs), none)

  abbrev pub verdict : List EffectiveGrant → Answer
  verdict gs =
      if has_scope Scope.tenant gs
      then (permit Scope.tenant, none)
      else if needs_membership request Scope.workspace && has_scope Scope.workspace gs
      then elim (remember (look_up a request)) as (λ x. Answer) [
        | err e ↦ (denial ReasonCode.dependency_unavailable, some e)
        | ok s ↦ settle s gs
      ]
      else settle fresh gs

  abbrev pub are_valid : List EffectiveGrant → Bool
  are_valid = all (λ g. is_ok (validate_grant request.permission g))

  abbrev pub on_grants : Result (List EffectiveGrant) → Answer
  on_grants (err e) = (denial ReasonCode.dependency_unavailable, some e)
  on_grants (ok gs) = if are_valid gs then verdict gs else (denial ReasonCode.invalid_policy, none)

  -- The refusals before any grant is read.
  abbrev pub gate : Answer → Answer
  gate rest =
      if not (is_ok (validate_request a.catalog request))
      then (denial ReasonCode.invalid_request, none)
      else if crosses_tenant request
      then (denial ReasonCode.tenant_mismatch, none)
      else rest

  abbrev pub expected : Answer
  expected = gate (
      on_grants
        (a.policies request.principal.tenant_id request.principal.subject_id request.permission))
