-- ===== src/Bootstrap/Checked.antt =====
-- What `BootstrapTenant` knows of its grants when its transaction starts.
use amsonia_core.Base.{
  ◌≡◌, subst, List, [], ◌∷◌, true, ◌&&◌, ◌==◌, ==_iff, All, Some, Bool-cases, inl, inr, arith,
}
use amsonia_core.Base.Maps.{Map, values, insert, All-insert, values-All}
use amsonia_core.Text.{Text, text_key}
use amsonia_core.Types.Errors.{ok, Result-cases}
use amsonia_core.Types.Enums.{Scope, scope_key}
use amsonia_core.Types.Records.{RolePermissionGrant, HostProvenance}
use amsonia_core.Types.Ids.{validate_opaque_id}
use amsonia_core.Catalog.{Catalog}
use amsonia_core.Memory.Administrator.Defs.{Gives, IsValidGrant}
use amsonia_core.Manager.Inputs.{normalize_workspace_roles}
use amsonia_core.Manager.ValidInputs.{
  parts-IsValidGrant, require_id-ok, normalize_workspace_roles-All,
}
use amsonia_core.Bootstrap.Inputs.{
  BootstrapInput, Bootstrapper, validate_bootstrap, check_grant, collect_grants, controls_tenant,
  owner_grants, prepare_bootstrap,
}

-- A grant of the owner's role that passes its validation.
abbrev pub IsOwned : Text → RolePermissionGrant → Type 0
IsOwned owner_role_id g = IsValidGrant g × (g.role_id ≡ owner_role_id)

check_grant-IsOwned :
    (catalog : Catalog) (owner_role_id : Text) (g : RolePermissionGrant) {key : Text}
    {grant : RolePermissionGrant}
    → validate_opaque_id owner_role_id ≡ ok tt
    → check_grant catalog owner_role_id g ≡ ok (key, grant)
    → IsOwned owner_role_id grant
unfolding check_grant
check_grant-IsOwned catalog owner_role_id g {grant = grant} role e =
    elim (Result-cases (normalize_workspace_roles g.workspace_roles)) [
      | inr (x, f) ↦ absurd (ground (arith, f))
      | inl (roles, f) ↦
          let made : RolePermissionGrant = record {
            role_id = g.role_id;
            permission = g.permission;
            scope = g.scope;
            workspace_roles = roles;
          } in
          let same : made ≡ grant = ground (arith, f) in
          let owned : g.role_id ≡ owner_role_id = ground (arith, ==_iff g.role_id owner_role_id) in
          subst (IsOwned owner_role_id) same (
            parts-IsValidGrant made (ground arith) (ground arith) (ground (arith, owned, role))
                (normalize_workspace_roles-All g.workspace_roles f),
            owned,
          )
    ]

collect_grants-All :
    (catalog : Catalog) (owner_role_id : Text) (gs : List RolePermissionGrant)
    (m : Map Text RolePermissionGrant) {out : Map Text RolePermissionGrant}
    → validate_opaque_id owner_role_id ≡ ok tt
    → collect_grants catalog owner_role_id gs m ≡ ok out
    → All (λ e. IsOwned owner_role_id e.1) m
    → All (λ e. IsOwned owner_role_id e.1) out
unfolding collect_grants
collect_grants-All catalog owner_role_id [] m {out} role e h =
    let same : m ≡ out = ground arith in subst (All (λ e. IsOwned owner_role_id e.1)) same h
collect_grants-All catalog owner_role_id (g ∷ gs) m role e h =
    elim (Result-cases (check_grant catalog owner_role_id g)) [
      | inr (x, f) ↦ absurd (ground (arith, f))
      | inl (entry, f) ↦
          collect_grants-All catalog owner_role_id gs (insert entry.0 entry.1 m) role
            (ground (arith, f))
            (All-insert (λ k g. IsOwned owner_role_id g) entry.0 entry.1 m h
              (check_grant-IsOwned catalog owner_role_id g role f))
    ]

controls_tenant-Some :
    (grants : List RolePermissionGrant) (control : Text)
    → controls_tenant grants control ≡ true
    → Some (Gives control) grants
controls_tenant-Some [] control e = cc
controls_tenant-Some (g ∷ grants) control e =
    elim (Bool-cases (g.permission == control && g.scope == Scope.tenant)) [
      | inl given ↦
          inl (
            ground (arith, ==_iff g.permission control),
            ground (arith, ==_iff g.scope Scope.tenant),
          )
      | inr other ↦ inr (controls_tenant-Some grants control (ground (arith, other)))
    ]

-- The grants give every control permission for the whole tenant, and all belong to the owner's role.
pub record Prepared (b : Bootstrapper) (input : BootstrapInput) (grants : List RolePermissionGrant)
    : Type 0 where
  pub role : validate_opaque_id input.owner_role_id ≡ ok tt
  pub subject : validate_opaque_id input.owner_subject_id ≡ ok tt
  pub owned : All (IsOwned input.owner_role_id) grants
  pub manage_roles : Some (Gives b.controls.manage_roles) grants
  pub manage_grants : Some (Gives b.controls.manage_grants) grants
  pub assign_roles : Some (Gives b.controls.assign_roles) grants

pub prepare_bootstrap-Prepared :
    (b : Bootstrapper) (input : BootstrapInput) {provenance : HostProvenance}
    {grants : List RolePermissionGrant}
    → prepare_bootstrap b input ≡ ok (provenance, grants)
    → Prepared b input grants
unfolding prepare_bootstrap owner_grants validate_bootstrap
prepare_bootstrap-Prepared b input {provenance} {grants} e =
    let role : validate_opaque_id input.owner_role_id ≡ ok tt =
      require_id-ok input.owner_role_id (ground arith) in
    elim (Result-cases (collect_grants b.catalog input.owner_role_id input.grants [])) [
      | inr (x, f) ↦ absurd (ground (arith, f))
      | inl (m, f) ↦
          let same : values m ≡ grants = ground (arith, f) in
          subst (Prepared b input) same (record {
            role = role;
            subject = require_id-ok input.owner_subject_id (ground arith);
            owned =
                values-All (IsOwned input.owner_role_id) m
                  (collect_grants-All b.catalog input.owner_role_id input.grants [] role f tt);
            manage_roles =
                controls_tenant-Some (values m) b.controls.manage_roles (ground (arith, f));
            manage_grants =
                controls_tenant-Some (values m) b.controls.manage_grants (ground (arith, f));
            assign_roles =
                controls_tenant-Some (values m) b.controls.assign_roles (ground (arith, f));
          })
    ]
