-- ===== src/Manager/Warrants.antt =====
-- The authority and the version checks of the operations of manager.go.
use amsonia_core.Base.{All, ◌||◌, ℕ, ◌≡◌, subst, List, [], Bool, true, false, ◌==◌, nat_key}
use amsonia_core.Text.{Text, text_key}
use amsonia_core.Types.Errors.{ok}
use amsonia_core.Types.Enums.{Scope}
use amsonia_core.Types.Records.{Principal, MutationMetadata, Role, RolePermissionGrant}
use amsonia_core.Store.{Tx, ◌>>=◌}
use amsonia_core.Store.Steps.{bind-ok}
use amsonia_core.Memory.{memory_tx}
use amsonia_core.Memory.State.{TenantState}
use amsonia_core.Manager.{Manager, Readings, MutationResult}
use amsonia_core.Manager.Inputs.{
  UpdateRoleInput, DeleteRoleInput, GrantPermissionInput, AssignRoleInput, validate_permissions,
  validate_grant_input,
}
use amsonia_core.Manager.Guards.{require_grant, current_role}
use amsonia_core.Manager.Roles.{
  create_role_with_permissions_body, update_role_body, delete_role_body,
}
use amsonia_core.Manager.Grants.{grant_permission_body, revoke_permission_body}
use amsonia_core.Manager.Assignments.{assign_role_body, unassign_role_body}
use amsonia_core.Manager.Run.{Operation}
use amsonia_core.Manager.Authority.{
  Covers, CoversRole, IsCurrent, require_grant-Covers, current_role-IsCurrent, each_step-All,
  require_role_coverage-CoversRole,
}

module _ (m : Manager) (actor : Principal) (s : TenantState) where
  -- The actor has a grant that covers one on these workspace roles.
  abbrev pub MayPass : RolePermissionGrant → Type 0
  MayPass g = Covers s actor.subject_id g.permission g.scope g.workspace_roles false

  -- The actor holds a control permission of the tenant itself.
  abbrev pub Controls : Text → Type 0
  Controls permission = Covers s actor.subject_id permission Scope.tenant [] true

  abbrev pub AtVersion : Text → ℕ → Type 0
  AtVersion role_id version = (role : Role) × IsCurrent s role_id (λ r. r.version == version) role

  -- A change of one grant of a role: the actor may pass the grant on, and the role is there, live, at
  -- the expected version.
  abbrev pub GrantWarrant : GrantPermissionInput → Type 0
  GrantWarrant input =
      (grant : RolePermissionGrant) × (validate_grant_input m.catalog input ≡ ok grant)
      × MayPass grant
      × AtVersion grant.role_id input.expected_version

  -- A change of a binding: the actor may assign roles and covers the role, which is there and live, at
  -- a version that the test accepts.
  abbrev pub BindingWarrant : AssignRoleInput → (Role → Bool) → Type 0
  BindingWarrant input is_expected =
      Controls m.controls.assign_roles
      × ((role : Role) × IsCurrent s input.role_id is_expected role
          × CoversRole s actor.subject_id role.role_id)

  -- What an operation asks of its actor and of the role.
  abbrev pub Warrant : Operation → Type 0
  Warrant (Operation.creates input) = Controls m.controls.manage_roles
  Warrant (Operation.creates_with input) =
      Controls m.controls.manage_roles
      × ((permissions : List Text) × (validate_permissions m.catalog input.permissions
            ≡ ok permissions)
          × All (λ p. Covers s actor.subject_id p Scope.tenant [] false) permissions)
  Warrant (Operation.updates input) =
      Controls m.controls.manage_roles × AtVersion input.role_id input.expected_version
  Warrant (Operation.deletes input) =
      Controls m.controls.manage_roles × AtVersion input.role_id input.expected_version
  Warrant (Operation.grants input) = GrantWarrant input
  Warrant (Operation.revokes input) = GrantWarrant input
  Warrant (Operation.assigns input) =
      BindingWarrant input (λ r. r.version == input.expected_role_version)
  Warrant (Operation.unassigns input) =
      BindingWarrant input
        (λ r. input.expected_role_version == 0 || r.version == input.expected_role_version)

  -- A body that starts by asking for a grant.
  pub require_grant-first :
      {A : Type 0} (permission : Text) (target : Scope) (roles : List Text) (exact : Bool)
      (rest : Unit → Tx TenantState A) {a : A} {s' : TenantState}
      → (require_grant memory_tx m actor permission target roles exact >>= rest) s ≡ ok (a, s')
      → Covers s actor.subject_id permission target roles exact × (rest tt s ≡ ok (a, s'))
  require_grant-first permission target roles exact rest {a} {s'} e =
      let (u, s1, first, after) =
        bind-ok (require_grant memory_tx m actor permission target roles exact) rest e in
      let (covers, same) = require_grant-Covers m s actor permission target roles exact first in
      (covers, subst (λ z. rest tt z ≡ ok (a, s')) same after)

  -- A body that asks for a current role.
  current_role-first :
      {A : Type 0} (role_id : Text) (is_expected : Role → Bool) (rest : Role → Tx TenantState A)
      {a : A} {s' : TenantState}
      → (current_role memory_tx m role_id is_expected >>= rest) s ≡ ok (a, s')
      → (role : Role) × IsCurrent s role_id is_expected role × (rest role s ≡ ok (a, s'))
  current_role-first role_id is_expected rest {a} {s'} e =
      let (role, s1, first, after) =
        bind-ok (current_role memory_tx m role_id is_expected) rest e in
      let (current, same) = current_role-IsCurrent m s role_id is_expected first in
      (role, current, subst (λ z. rest role z ≡ ok (a, s')) same after)

  module _ (t : Readings) (meta : MutationMetadata) where
    pub creates_with-Covers :
        (role : Role) (permissions : List Text) {a : Role × MutationResult} {s' : TenantState}
        → create_role_with_permissions_body memory_tx m t actor meta role permissions s ≡ ok (a, s')
        → Controls m.controls.manage_roles
          × All (λ p. Covers s actor.subject_id p Scope.tenant [] false) permissions
    unfolding create_role_with_permissions_body
    creates_with-Covers role permissions e =
        let (controls, e1) = require_grant-first _ _ _ _ _ e in
        let (u, s1, covered, e2) = bind-ok _ _ e1 in
        (
          controls,
          (each_step-All m s (λ p. Covers s actor.subject_id p Scope.tenant [] false) _
              (λ p s'. require_grant-Covers m s actor p Scope.tenant [] false) permissions
              covered).0,
        )

    pub update_role_body-AtVersion :
        (input : UpdateRoleInput) {a : Role × MutationResult} {s' : TenantState}
        → update_role_body memory_tx m t actor meta input s ≡ ok (a, s')
        → Warrant (Operation.updates input)
    unfolding update_role_body
    update_role_body-AtVersion input e =
        let (controls, e1) = require_grant-first _ _ _ _ _ e in
        let (role, current, e2) = current_role-first _ _ _ e1 in (controls, (role, current))

    pub delete_role_body-AtVersion :
        (input : DeleteRoleInput) {a : MutationResult} {s' : TenantState}
        → delete_role_body memory_tx m t actor meta input s ≡ ok (a, s')
        → Warrant (Operation.deletes input)
    unfolding delete_role_body
    delete_role_body-AtVersion input e =
        let (controls, e1) = require_grant-first _ _ _ _ _ e in
        let (role, current, e2) = current_role-first _ _ _ e1 in (controls, (role, current))

    pub grant_permission_body-MayPass :
        (grant : RolePermissionGrant) (expected : ℕ) {a : MutationResult} {s' : TenantState}
        → grant_permission_body memory_tx m t actor meta grant expected s ≡ ok (a, s')
        → MayPass grant × AtVersion grant.role_id expected
    unfolding grant_permission_body
    grant_permission_body-MayPass grant expected e =
        let (covers, e1) = require_grant-first _ _ _ _ _ e in
        let (role, current, e2) = current_role-first _ _ _ e1 in (covers, (role, current))

    pub revoke_permission_body-MayPass :
        (grant : RolePermissionGrant) (expected : ℕ) {a : MutationResult} {s' : TenantState}
        → revoke_permission_body memory_tx m t actor meta grant expected s ≡ ok (a, s')
        → MayPass grant × AtVersion grant.role_id expected
    unfolding revoke_permission_body
    revoke_permission_body-MayPass grant expected e =
        let (covers, e1) = require_grant-first _ _ _ _ _ e in
        let (role, current, e2) = current_role-first _ _ _ e1 in (covers, (role, current))

    pub assign_role_body-BindingWarrant :
        (input : AssignRoleInput) {a : MutationResult} {s' : TenantState}
        → assign_role_body memory_tx m t actor meta input s ≡ ok (a, s')
        → BindingWarrant input (λ r. r.version == input.expected_role_version)
    unfolding assign_role_body
    assign_role_body-BindingWarrant input e =
        let (controls, e1) = require_grant-first _ _ _ _ _ e in
        let (role, current, e2) = current_role-first _ _ _ e1 in
        let (u, s1, covered, e3) = bind-ok _ _ e2 in
        (
          controls,
          (role, current, (require_role_coverage-CoversRole m s actor role.role_id covered).0),
        )

    pub unassign_role_body-BindingWarrant :
        (input : AssignRoleInput) {a : MutationResult} {s' : TenantState}
        → unassign_role_body memory_tx m t actor meta input s ≡ ok (a, s')
        → BindingWarrant input
            (λ r. input.expected_role_version == 0 || r.version == input.expected_role_version)
    unfolding unassign_role_body
    unassign_role_body-BindingWarrant input e =
        let (controls, e1) = require_grant-first _ _ _ _ _ e in
        let (role, current, e2) = current_role-first _ _ _ e1 in
        let (u, s1, covered, e3) = bind-ok _ _ e2 in
        (
          controls,
          (role, current, (require_role_coverage-CoversRole m s actor role.role_id covered).0),
        )
