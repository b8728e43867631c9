-- ===== src/Manager/ValidInputs.antt =====
-- What the validated inputs of manager.go and bootstrap.go write is valid where it is read.
use amsonia_core.Base.{
  ◌≡◌, refl, subst, if◌then◌else◌, List, [], ◌∷◌, ◌++◌, true, false, ◌==◌, ==_refl, any, All,
  All-append, inl, inr, arith,
}
use amsonia_core.Base.Sort.{sort_by, sort_by-All}
use amsonia_core.Text.{Text, text_key}
use amsonia_core.Text.Order.{text_ltb}
use amsonia_core.Text.Space.{trim_space}
use amsonia_core.Types.Errors.{ok, invalid_policy, require, each, is_ok, Result-cases}
use amsonia_core.Types.Enums.{is_scope}
use amsonia_core.Types.Records.{RolePermissionGrant}
use amsonia_core.Types.Ids.{validate_opaque_id}
use amsonia_core.Catalog.{Catalog}
use amsonia_core.Catalog.Keys.{validate_key, validate_workspace_role}
use amsonia_core.Policy.Grants.{validate_grant}
use amsonia_core.Memory.Administrator.Defs.{IsValidGrant}
use amsonia_core.Manager.Inputs.{
  GrantPermissionInput, require_id, collect_roles, normalize_workspace_roles, collect_permissions,
  validate_permissions, validate_grant_input,
}
use amsonia_core.Manager.Roles.{tenant_grant}

abbrev pub IsValidRole : Text → Type 0
IsValidRole role = is_ok (validate_workspace_role role) ≡ true

abbrev pub IsValidKey : Text → Type 0
IsValidKey key = is_ok (validate_key key) ≡ true

-- A new value joins what was collected.
collected-All :
    (P : Text → Type 0) (seen : List Text) (x : Text)
    → P x
    → All P seen
    → All P (if any (λ q. q == x) seen then seen else seen ++ x ∷ [])
collected-All P seen x p h =
    elim (any (λ q. q == x) seen) as (λ b. All P (if b then seen else seen ++ x ∷ [])) [
      | true ↦ h
      | false ↦ All-append P seen (x ∷ []) h (p, tt)
    ]

collect_roles-All :
    (seen roles : List Text) {out : List Text}
    → collect_roles seen roles ≡ ok out
    → All IsValidRole seen
    → All IsValidRole out
unfolding collect_roles
collect_roles-All seen [] {out} e h =
    let same : seen ≡ out = ground arith in subst (All IsValidRole) same h
collect_roles-All seen (r ∷ roles) e h =
    collect_roles-All
      (if any (λ q. q == trim_space r) seen then seen else seen ++ trim_space r ∷ []) roles
      (ground arith) (collected-All IsValidRole seen (trim_space r) (ground arith) h)

-- The roles of a grant that was accepted.
pub normalize_workspace_roles-All :
    (roles : List Text) {out : List Text}
    → normalize_workspace_roles roles ≡ ok out
    → All IsValidRole out
unfolding normalize_workspace_roles
normalize_workspace_roles-All roles {out} e = elim (Result-cases (collect_roles [] roles)) [
  | inr (x, f) ↦ absurd (ground (arith, f))
  | inl (seen, f) ↦
      let same : sort_by text_ltb seen ≡ out = ground (arith, f) in
      subst (All IsValidRole) same
        (sort_by-All text_ltb IsValidRole seen (collect_roles-All [] roles f tt))
]

collect_permissions-All :
    (catalog : Catalog) (seen permissions : List Text) {out : List Text}
    → collect_permissions catalog seen permissions ≡ ok out
    → All IsValidKey seen
    → All IsValidKey out
unfolding collect_permissions
collect_permissions-All catalog seen [] {out} e h =
    let same : seen ≡ out = ground arith in subst (All IsValidKey) same h
collect_permissions-All catalog seen (p ∷ permissions) e h =
    collect_permissions-All catalog (if any (λ q. q == p) seen then seen else seen ++ p ∷ [])
      permissions (ground arith) (collected-All IsValidKey seen p (ground arith) h)

pub validate_permissions-All :
    (catalog : Catalog) (permissions : List Text) {out : List Text}
    → validate_permissions catalog permissions ≡ ok out
    → All IsValidKey out
unfolding validate_permissions
validate_permissions-All catalog permissions {out} e =
    elim (Result-cases (collect_permissions catalog [] permissions)) [
      | inr (x, f) ↦ absurd (ground (arith, f))
      | inl (seen, f) ↦
          let same : sort_by text_ltb seen ≡ out = ground (arith, f) in
          subst (All IsValidKey) same (
            sort_by-All text_ltb IsValidKey seen
              (collect_permissions-All catalog [] permissions f tt))
    ]

each_role-ok :
    (roles : List Text)
    → All IsValidRole roles
    → each (λ role. require (is_ok (validate_workspace_role role)) invalid_policy) roles ≡ ok tt
each_role-ok [] h = refl
each_role-ok (r ∷ roles) h = ground (arith, h.0, each_role-ok roles h.1)

-- A grant whose parts are valid is valid.
pub parts-IsValidGrant :
    (g : RolePermissionGrant)
    → IsValidKey g.permission
    → is_scope g.scope ≡ true
    → validate_opaque_id g.role_id ≡ ok tt
    → All IsValidRole g.workspace_roles
    → IsValidGrant g
unfolding validate_grant
parts-IsValidGrant g key scope role roles =
    ground (arith, key, scope, role, each_role-ok g.workspace_roles roles, ==_refl g.permission)

pub require_id-ok : (id : Text) → require_id id ≡ ok tt → validate_opaque_id id ≡ ok tt
require_id-ok id e = elim (Result-cases (validate_opaque_id id)) [
  | inl (u, f) ↦ f
  | inr (x, f) ↦ absurd (ground (arith, f))
]

pub validate_grant_input-IsValidGrant :
    (catalog : Catalog) (input : GrantPermissionInput) {grant : RolePermissionGrant}
    → validate_grant_input catalog input ≡ ok grant
    → IsValidGrant grant
unfolding validate_grant_input
validate_grant_input-IsValidGrant catalog input {grant} e =
    elim (Result-cases (normalize_workspace_roles input.workspace_roles)) [
      | inr (x, f) ↦ absurd (ground (arith, f))
      | inl (roles, f) ↦
          let made : RolePermissionGrant = record {
            role_id = input.role_id;
            permission = input.permission;
            scope = input.scope;
            workspace_roles = roles;
          } in
          let same : made ≡ grant = ground (arith, f) in
          subst IsValidGrant same (
            parts-IsValidGrant made (ground arith) (ground arith)
              (require_id-ok input.role_id (ground arith))
              (normalize_workspace_roles-All input.workspace_roles f))
    ]

pub tenant_grant-IsValidGrant :
    (role_id permission : Text)
    → validate_opaque_id role_id ≡ ok tt
    → IsValidKey permission
    → IsValidGrant (tenant_grant role_id permission)
tenant_grant-IsValidGrant role_id permission role key =
    parts-IsValidGrant (tenant_grant role_id permission) key refl role tt
