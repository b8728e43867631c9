-- ===== src/Memory/Reader.antt =====
-- The methods of `tenantReader` in memory.go. A `range` over a map goes through the list that
-- stands for it.
use amsonia_core.Base.{
  List, [], ◌∷◌, ◌++◌, Bool, true, false, not, ◌==◌, any, map, none, some, if◌then◌else◌,
}
use amsonia_core.Base.Maps.{Map, lookup, contains, keys, values}
use amsonia_core.Base.Sort.{sort_by}
use amsonia_core.Text.{Text, text_key}
use amsonia_core.Text.Order.{text_ltb}
use amsonia_core.Types.Errors.{Result, ok, err, not_found, panicked, ◌>>=◌}
use amsonia_core.Types.Enums.{spelling}
use amsonia_core.Types.Records.{
  Role, RolePermissionGrant, EffectiveGrant, SubjectRoleGrant, ControlPermissions,
}
use amsonia_core.AdminPolicy.{Coverage, add, complete}
use amsonia_core.Memory.State.{TenantState, clone_strings, clone_grant, inner}
use amsonia_core.Memory.GrantPath.{has_path}

-- `if role, exists := roles[roleID]; !exists || role.Deleted { continue }`
abbrev pub is_live : TenantState → Text → Bool
is_live s role_id = elim (lookup role_id s.roles) [ none ↦ false | some role ↦ not role.deleted ]

-- The grants of one role with the permission.
unfoldable pub grants_of_role : Text → Text → List RolePermissionGrant → List EffectiveGrant
grants_of_role role_id permission [] = []
grants_of_role role_id permission (grant ∷ grants) =
    let rest = grants_of_role role_id permission grants in
    if grant.permission == permission
    then record {
      role_id = role_id;
      permission = grant.permission;
      scope = grant.scope;
      workspace_roles = clone_strings grant.workspace_roles;
    }
      ∷ rest
    else rest

unfoldable pub grants_of_roles : TenantState → Text → List Text → List EffectiveGrant
grants_of_roles s permission [] = []
grants_of_roles s permission (role_id ∷ role_ids) =
    let rest = grants_of_roles s permission role_ids in
    if is_live s role_id
    then grants_of_role role_id permission (values (inner role_id s.role_perms)) ++ rest
    else rest

-- `ListEffectiveGrants`; the index is a nil map for an unknown subject.
unfoldable pub list_effective_grants : TenantState → Text → Text → List EffectiveGrant
list_effective_grants s subject_id permission =
    grants_of_roles s permission (keys (inner subject_id s.subject_roles))

unfoldable pub get_role : TenantState → Text → Result Role
get_role s role_id = elim (lookup role_id s.roles) [ none ↦ err not_found | some role ↦ ok role ]

-- By permission, then by scope.
unfoldable pub grant_before : RolePermissionGrant → RolePermissionGrant → Bool
grant_before a b =
    if not (a.permission == b.permission)
    then text_ltb a.permission b.permission
    else text_ltb (spelling a.scope) (spelling b.scope)

unfoldable pub list_role_permission_grants : TenantState → Text → Result (List RolePermissionGrant)
list_role_permission_grants s role_id =
    if contains role_id s.roles
    then ok (sort_by grant_before (map clone_grant (values (inner role_id s.role_perms))))
    else err not_found

unfoldable pub list_subject_role_ids : TenantState → Text → List Text
list_subject_role_ids s subject_id = sort_by text_ltb (keys (inner subject_id s.subject_roles))

unfoldable pub subjects_with : Text → Map Text (Map Text SubjectRoleGrant) → List Text
subjects_with role_id [] = []
subjects_with role_id ((subject_id, roles) ∷ m) =
    let rest = subjects_with role_id m in if contains role_id roles then subject_id ∷ rest else rest

unfoldable pub list_role_subject_ids : TenantState → Text → List Text
list_role_subject_ids s role_id = sort_by text_ltb (subjects_with role_id s.subject_roles)

-- `none` stands for a search that ran out of fuel.
unfoldable pub has_grant_path : TenantState → Text → Text → Result Bool
has_grant_path s from to = elim (has_path (keys s.grant_edges) from to) [
  | none ↦ err panicked
  | some found ↦ ok found
]

abbrev pub control_list : ControlPermissions → List Text
control_list controls = controls.manage_roles ∷ controls.manage_grants ∷ controls.assign_roles ∷ []

-- `amsonia.EffectiveGrant(grant)`
abbrev pub effective : RolePermissionGrant → EffectiveGrant
effective g = record {
  role_id = g.role_id;
  permission = g.permission;
  scope = g.scope;
  workspace_roles = g.workspace_roles;
}

-- The three loops of `HasAdministrator`, from the inside out.
unfoldable pub cover_grants :
    List Text → Text → List RolePermissionGrant → Coverage → Result Coverage
cover_grants permissions subject [] c = ok c
cover_grants permissions subject (grant ∷ grants) c =
    elim (any (λ p. p == grant.permission) permissions) [
      | false ↦ cover_grants permissions subject grants c
      | true ↦ elim (add c subject (effective grant)) [
        | err e ↦ err e
        | ok c' ↦ cover_grants permissions subject grants c'
      ]
    ]

unfoldable pub cover_roles : TenantState → List Text → Text → List Text → Coverage → Result Coverage
cover_roles s permissions subject [] c = ok c
cover_roles s permissions subject (role_id ∷ role_ids) c = elim (is_live s role_id) [
  | false ↦ cover_roles s permissions subject role_ids c
  | true ↦ elim (cover_grants permissions subject (values (inner role_id s.role_perms)) c) [
    | err e ↦ err e
    | ok c' ↦ cover_roles s permissions subject role_ids c'
  ]
]

unfoldable pub cover_subjects :
    TenantState → List Text → Map Text (Map Text SubjectRoleGrant) → Coverage → Result Coverage
cover_subjects s permissions [] c = ok c
cover_subjects s permissions ((subject, roles) ∷ m) c =
    elim (cover_roles s permissions subject (keys roles) c) [
      | err e ↦ err e
      | ok c' ↦ cover_subjects s permissions m c'
    ]

unfoldable pub has_administrator : TenantState → ControlPermissions → Result Bool
has_administrator s controls = do
  coverage ← cover_subjects s (control_list controls) s.subject_roles []
  ok (complete coverage (control_list controls))
