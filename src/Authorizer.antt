-- ===== src/Authorizer.antt =====
-- authorizer.go: the evaluation of one request. The collaborators (the policy reader and the
-- membership reader) are functions that answer or fail.
pub mod Request
pub mod Denials
pub mod Scan
pub mod Verdict
mod Tests
use amsonia_core.Base.{
  ℕ, List, [], ◌∷◌, Bool, true, false, not, ◌&&◌, ◌==◌, if◌then◌else◌, Option, none, some, ltb,
}
use amsonia_core.Text.{Text, is_empty}
use amsonia_core.Types.Errors.{Error, Result, ok, err, each, is_ok, is_not_found}
use amsonia_core.Types.Enums.{Scope, scope_key, ReasonCode, ResourceMode, spelling}
use amsonia_core.Types.Records.{
  CheckRequest, Principal, ResourceContext, Decision, EffectiveGrant, WorkspaceMembership,
}
use amsonia_core.Catalog.{Catalog}
use amsonia_core.Policy.{allow_access, crosses_tenant, is_tenant_action}
use amsonia_core.Policy.Grants.{validate_grant}
use Request.{validate_request}

pub record Authorizer : Type 0 where
  pub catalog : Catalog
  -- tenant, subject, permission
  pub policies : Text → Text → Text → Result (List EffectiveGrant)
  -- tenant, workspace, subject
  pub memberships : Text → Text → Text → Result WorkspaceMembership

pub data DeniedReason : Type 0 where
  denied_none denied_tenant_mismatch denied_owner_mismatch denied_workspace_missing : DeniedReason
  denied_workspace_role denied_other : DeniedReason

abbrev pub is_none : DeniedReason → Bool
is_none DeniedReason.denied_none = true
is_none _ = false

abbrev pub is_other : DeniedReason → Bool
is_other DeniedReason.denied_other = true
is_other _ = false

unfoldable pub rank : DeniedReason → ℕ
rank DeniedReason.denied_tenant_mismatch = 1
rank DeniedReason.denied_owner_mismatch = 2
rank DeniedReason.denied_workspace_missing = 3
rank DeniedReason.denied_workspace_role = 4
rank _ = 5

unfoldable pub merge_denied : DeniedReason → DeniedReason → DeniedReason
unfolding rank
merge_denied a b =
    if is_other a
    then DeniedReason.denied_other
    else if is_other b
    then DeniedReason.denied_other
    else if is_none a
    then b
    else if is_none b
    then a
    else if ltb (rank b) (rank a)
    then b
    else a

unfoldable pub reason_or : DeniedReason → ReasonCode → ReasonCode
reason_or DeniedReason.denied_tenant_mismatch fallback = ReasonCode.tenant_mismatch
reason_or DeniedReason.denied_owner_mismatch fallback = ReasonCode.owner_mismatch
reason_or DeniedReason.denied_workspace_missing fallback = ReasonCode.workspace_membership_missing
reason_or DeniedReason.denied_workspace_role fallback = ReasonCode.workspace_role_denied
reason_or _ fallback = fallback

-- `workspaceMembershipSnapshot`
pub record Snapshot : Type 0 where
  pub loaded : Bool
  pub membership : WorkspaceMembership
  pub member : Bool

abbrev pub fresh : Snapshot
fresh = record { loaded = false; membership = record { role = [] }; member = false }

-- A lookup's answer as a snapshot. The reader returns the zero membership beside an error.
unfoldable pub remember : Result WorkspaceMembership → Result Snapshot
remember (ok m) = ok (record { loaded = true; membership = m; member = true })
remember (err e) =
    if is_not_found e
    then ok (record { loaded = true; membership = record { role = [] }; member = false })
    else err e

unfoldable pub look_up : Authorizer → CheckRequest → Result WorkspaceMembership
look_up a request =
    a.memberships request.principal.tenant_id request.resource.workspace_id
      request.principal.subject_id

unfoldable pub load : Authorizer → CheckRequest → Snapshot → Result Snapshot
load a request s = if s.loaded then ok s else remember (look_up a request)

-- What `evaluate` finds of one grant: `some` reason of denial, or `none` for an allowed request.
unfoldable pub translate : CheckRequest → Scope → Bool → DeniedReason
translate request scope member =
    if crosses_tenant request
    then DeniedReason.denied_tenant_mismatch
    else if is_tenant_action request.mode
    then DeniedReason.denied_other
    else by_scope scope
  where
    by_scope : Scope → DeniedReason
    by_scope Scope.own = DeniedReason.denied_owner_mismatch
    by_scope Scope.workspace =
        if member then DeniedReason.denied_workspace_role else DeniedReason.denied_workspace_missing
    by_scope _ = DeniedReason.denied_other

abbrev pub needs_membership : CheckRequest → Scope → Bool
needs_membership request scope =
    scope == Scope.workspace
    && not (is_tenant_action request.mode)
    && not (is_empty request.resource.workspace_id)

-- How the loop over the grants of one scope ends.
pub data Pass : Type 0 where
  allows : Pass
  fails : Error → Pass
  denies : DeniedReason → Snapshot → Pass

-- The decisions that `Check` returns.
abbrev pub denial : ReasonCode → Decision
denial reason = record { allowed = false; reason = reason; effective_scope = [] }

abbrev pub permit : Scope → Decision
permit scope = record {
  allowed = true;
  reason = ReasonCode.allowed;
  effective_scope = spelling scope;
}

module _ (same_orbit : ℕ → ℕ → Bool) (a : Authorizer) (request : CheckRequest) where
  unfoldable pub judge : EffectiveGrant → Snapshot → Option DeniedReason
  judge grant s =
      if allow_access same_orbit request grant s.membership s.member
      then none
      else some (translate request grant.scope s.member)

  -- The verdict on one grant, with the snapshot that it leaves.
  unfoldable pub evaluate : EffectiveGrant → Snapshot → Result (Option DeniedReason × Snapshot)
  evaluate grant s =
      if needs_membership request grant.scope
      then elim (load a request s) [ err e ↦ err e | ok s' ↦ ok (judge grant s', s') ]
      else ok (judge grant s, s)

  unfoldable pub scan : Scope → List EffectiveGrant → DeniedReason → Snapshot → Pass
  scan scope [] denied s = denies denied s
  scan scope (g ∷ gs) denied s = elim (g.scope == scope) [
    | false ↦ scan scope gs denied s
    | true ↦ elim (evaluate g s) [
      | err e ↦ fails e
      | ok (none, s') ↦ allows
      | ok (some reason, s') ↦ scan scope gs (merge_denied denied reason) s'
    ]
  ]

  unfoldable pub scan_scopes :
      List Scope → List EffectiveGrant → DeniedReason → Snapshot → Decision × Option Error
  scan_scopes [] grants best s = (denial (reason_or best ReasonCode.permission_not_granted), none)
  scan_scopes (scope ∷ scopes) grants best s = elim (scan scope grants DeniedReason.denied_none s) [
    | allows ↦ (permit scope, none)
    | fails e ↦ (denial ReasonCode.dependency_unavailable, some e)
    | denies denied s' ↦ scan_scopes scopes grants (merge_denied best denied) s'
  ]

  unfoldable pub decide_grants : List EffectiveGrant → Decision × Option Error
  decide_grants grants =
      if is_ok (each (validate_grant request.permission) grants)
      then scan_scopes (Scope.tenant ∷ Scope.workspace ∷ Scope.own ∷ []) grants
          DeniedReason.denied_none fresh
      else (denial ReasonCode.invalid_policy, none)

  -- `Check`: the decision, with the error of a collaborator.
  unfoldable pub check : Decision × Option Error
  check =
      if not (is_ok (validate_request a.catalog request))
      then (denial ReasonCode.invalid_request, none)
      else if crosses_tenant request
      then (denial ReasonCode.tenant_mismatch, none)
      else elim (a.policies request.principal.tenant_id request.principal.subject_id
          request.permission) [
            | err e ↦ (denial ReasonCode.dependency_unavailable, some e)
            | ok grants ↦ decide_grants grants
          ]
