-- ===== src/Memory/Administrator/Defs.antt =====
-- What makes a subject an administrator of a tenant, and what `HasAdministrator` validates.
use amsonia_core.Base.{◌≡◌, All, Some, true}
use amsonia_core.Base.Maps.{keys, values}
use amsonia_core.Text.{Text}
use amsonia_core.Types.Errors.{ok}
use amsonia_core.Types.Enums.{Scope}
use amsonia_core.Types.Records.{RolePermissionGrant, ControlPermissions}
use amsonia_core.Types.Ids.{validate_opaque_id}
use amsonia_core.Policy.Grants.{validate_grant}
use amsonia_core.Memory.State.{TenantState, inner}
use amsonia_core.Memory.Reader.{is_live, effective}

-- The grant gives the permission for the whole tenant.
abbrev pub Gives : Text → RolePermissionGrant → Type 0
Gives permission g = (g.permission ≡ permission) × (g.scope ≡ Scope.tenant)

-- The role is live and has a grant that gives the permission.
abbrev pub Empowers : TenantState → Text → Text → Type 0
Empowers s permission role_id =
    (is_live s role_id ≡ true) × Some (Gives permission) (values (inner role_id s.role_perms))

-- Some role that is bound to the subject gives it the permission.
abbrev pub Wields : TenantState → Text → Text → Type 0
Wields s subject permission =
    Some (λ e. (e.0 ≡ subject) × Some (Empowers s permission) (keys e.1)) s.subject_roles

-- The subject wields all three control permissions.
pub record Administers (s : TenantState) (controls : ControlPermissions) (subject : Text)
    : Type 0 where
  pub roles : Wields s subject controls.manage_roles
  pub grants : Wields s subject controls.manage_grants
  pub assignments : Wields s subject controls.assign_roles

abbrev pub IsValidGrant : RolePermissionGrant → Type 0
IsValidGrant g = validate_grant g.permission (effective g) ≡ ok tt

-- Every stored grant, and every subject with a binding, passes its validation.
pub record IsValidState (s : TenantState) : Type 0 where
  pub stored : All (λ e. All IsValidGrant (values e.1)) s.role_perms
  pub bound : All (λ e. validate_opaque_id e.0 ≡ ok tt) s.subject_roles
