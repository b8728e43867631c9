-- ===== src/Manager/Authority.antt =====
-- `requireGrant`, `requireRoleCoverage` and the reads of a current role in manager.go: what each asks.
use amsonia_core.Base.Maps.{lookup}
use amsonia_core.Base.{All, ◌∙◌, some, ◌≡◌, subst, List, [], ◌∷◌, Bool, true, false, any, arith}
use amsonia_core.Text.{Text, text_key}
use amsonia_core.Types.Errors.{Result, ok}
use amsonia_core.Types.Enums.{Scope}
use amsonia_core.Types.Records.{Principal, Role, RolePermissionGrant}
use amsonia_core.Policy.{allow_delegation}
use amsonia_core.Store.{Tx, pure, lift, ◌>>=◌}
use amsonia_core.Store.Steps.{bind-ok, lift-ok}
use amsonia_core.Memory.{memory_tx, attempt}
use amsonia_core.Memory.State.{TenantState}
use amsonia_core.Memory.Reader.{list_effective_grants, get_role, list_role_permission_grants}
use amsonia_core.Manager.{Manager}
use amsonia_core.Manager.Guards.{require_grant, current_role, each_step, require_role_coverage}

-- Some live role of the subject has a grant that may be used to delegate the permission at the scope
-- and workspace roles.
abbrev pub Covers : TenantState → Text → Text → Scope → List Text → Bool → Type 0
Covers s subject permission target roles exact =
    any (allow_delegation permission target roles exact)
      (list_effective_grants s subject permission)
    ≡ true

-- A read that succeeds leaves the state as it is.
attempt-ok :
    {A : Type 0} (f : TenantState → Result A) {s s' : TenantState} {a : A}
    → attempt f s ≡ ok (a, s')
    → (f s ≡ ok a) × (s' ≡ s)
attempt-ok f e = (ground (arith, e), ground (arith, e))

module _ (m : Manager) (s : TenantState) where
  pub require_grant-Covers :
      (actor : Principal) (permission : Text) (target : Scope) (roles : List Text) (exact : Bool)
      {s' : TenantState}
      → require_grant memory_tx m actor permission target roles exact s ≡ ok (tt, s')
      → Covers s actor.subject_id permission target roles exact × (s' ≡ s)
  unfolding require_grant ◌>>=◌ lift
  require_grant-Covers actor permission target roles exact e =
      (ground (arith, e), ground (arith, e))

-- The role as the tenant has it: there, not deleted, and at a version that the caller expects.
pub record IsCurrent (s : TenantState) (role_id : Text) (is_expected : Role → Bool) (role : Role)
    : Type 0 where
  pub found : lookup role_id s.roles ≡ some role
  pub live : role.deleted ≡ false
  pub expected : is_expected role ≡ true

-- The subject covers each grant of the role, at its scope and workspace roles.
abbrev pub CoversRole : TenantState → Text → Text → Type 0
CoversRole s subject role_id =
    (grants : List RolePermissionGrant) × (list_role_permission_grants s role_id ≡ ok grants)
    × All (λ g. Covers s subject g.permission g.scope g.workspace_roles false) grants

module _ (m : Manager) (s : TenantState) where
  pub current_role-IsCurrent :
      (role_id : Text) (is_expected : Role → Bool) {role : Role} {s' : TenantState}
      → current_role memory_tx m role_id is_expected s ≡ ok (role, s')
      → IsCurrent s role_id is_expected role × (s' ≡ s)
  unfolding current_role ◌>>=◌ lift pure get_role
  current_role-IsCurrent role_id is_expected e = (
    record { found = ground (arith, e); live = ground (arith, e); expected = ground (arith, e) },
    ground (arith, e),
  )

  -- Steps that leave the state as it is, for each element.
  pub each_step-All :
      {A : Type 0} (P : A → Type 0) (f : A → Tx TenantState (Unit {0}))
      → ((x : A) (s' : TenantState) → f x s ≡ ok (tt, s') → P x × (s' ≡ s))
      → (xs : List A) {s' : TenantState} → each_step f xs s ≡ ok (tt, s')
      → All P xs × (s' ≡ s)
  unfolding each_step ◌>>=◌
  each_step-All P f step [] e = (tt, ground (arith, e))
  each_step-All P f step (x ∷ xs) {s' = s''} e =
      let (u, s1, first, rest) = bind-ok (f x) (λ _. each_step f xs) e in
      let (p, same) = step x s1 first in
      let again = subst (λ z. each_step f xs z ≡ ok (tt, s'')) same rest in
      let (ps, same') = each_step-All P f step xs again in ((p, ps), same')

  pub require_role_coverage-CoversRole :
      (actor : Principal) (role_id : Text) {s' : TenantState}
      → require_role_coverage memory_tx m actor role_id s ≡ ok (tt, s')
      → CoversRole s actor.subject_id role_id × (s' ≡ s)
  unfolding require_role_coverage
  require_role_coverage-CoversRole actor role_id {s'} e =
      let (grants, s1, listed, e1) = bind-ok _ _ e in
      let (u, s2, checked, e2) = bind-ok _ _ e1 in
      let (read, same) = attempt-ok (λ z. list_role_permission_grants z role_id) listed in
      let still = lift-ok _ checked in
      let covered =
        subst
          (λ z.
            each_step
              (λ g. require_grant memory_tx m actor g.permission g.scope g.workspace_roles false)
              grants z
            ≡ ok (tt, s'))
          (still.1 ∙ same) e2 in
      let (all_covered, unchanged) =
        each_step-All (λ g. Covers s actor.subject_id g.permission g.scope g.workspace_roles false)
          (λ g. require_grant memory_tx m actor g.permission g.scope g.workspace_roles false)
          (λ g s'. require_grant-Covers m s actor g.permission g.scope g.workspace_roles false)
          grants covered in
      ((grants, read, all_covered), unchanged)
