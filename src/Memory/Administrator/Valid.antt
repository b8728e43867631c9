-- ===== src/Memory/Administrator/Valid.antt =====
-- What memory.go stores of grants and subjects, as it is read and taken away.
use amsonia_core.Base.{
  Bool, false, Bool-cases, ◌≡◌, refl, subst, [], All, none, some, Option, Option-cases, inl, inr,
  arith,
}
use amsonia_core.Base.Maps.{
  Map, values, lookup, contains, insert, erase, lookup-All, All-insert, All-erase, All-values,
  values-All,
}
use amsonia_core.Text.{Text, text_key}
use amsonia_core.Types.Errors.{ok}
use amsonia_core.Types.Records.{SubjectRoleGrant, RolePermissionGrant}
use amsonia_core.Types.Ids.{validate_opaque_id}
use amsonia_core.Store.Steps.{Keeps}
use amsonia_core.Memory.State.{TenantState, GrantKey, grant_key_key, edge_key_key, inner}
use amsonia_core.Memory.Writer.{delete_role_permission_grant, delete_subject_role_grant, key_of}
use amsonia_core.Memory.Administrator.Defs.{IsValidGrant, IsValidState}

pub IsValidState-same :
    (s s' : TenantState)
    → s.role_perms ≡ s'.role_perms
    → s.subject_roles ≡ s'.subject_roles
    → IsValidState s
    → IsValidState s'
IsValidState-same s s' perms subjects h = record {
  stored = subst (All (λ e. All IsValidGrant (values e.1))) perms h.stored;
  bound = subst (All (λ e. validate_opaque_id e.0 ≡ ok tt)) subjects h.bound;
}

-- The grants of a role, none where the role is unknown.
pub found-valid :
    (found : Option (Map GrantKey RolePermissionGrant))
    → ((grants : Map GrantKey RolePermissionGrant)
        → found ≡ some grants
        → All IsValidGrant (values grants))
    → All IsValidGrant (values (elim found [ none ↦ [] | some grants ↦ grants ]))
found-valid none each = tt
found-valid (some grants) each = each grants refl

pub inner-valid :
    (s : TenantState)
    → IsValidState s
    → (role_id : Text) → All IsValidGrant (values (inner role_id s.role_perms))
inner-valid s valid role_id = found-valid (lookup role_id s.role_perms) λ grants found.
    lookup-All (λ r m. All IsValidGrant (values m)) role_id s.role_perms valid.stored found

-- A grant or a binding taken away leaves the others.
pub delete_role_permission_grant-IsValidState :
    (grant : RolePermissionGrant) → Keeps IsValidState (delete_role_permission_grant grant)
unfolding delete_role_permission_grant contains
delete_role_permission_grant-IsValidState grant s a s' e h =
    let grants = inner grant.role_id s.role_perms in
    let fewer = erase (key_of grant) grants in
    elim (Option-cases (lookup (key_of grant) grants)) [
      | inl missing ↦ subst IsValidState (ground (arith, missing)) h
      | inr (w, found) ↦
          let perms : insert grant.role_id fewer s.role_perms ≡ s'.role_perms =
            ground (arith, found) in
          let subjects : s.subject_roles ≡ s'.subject_roles = ground (arith, found) in
          record {
            stored = subst (All (λ e. All IsValidGrant (values e.1))) perms (
                All-insert (λ r m. All IsValidGrant (values m)) grant.role_id fewer s.role_perms
                  h.stored
                  (values-All IsValidGrant fewer (
                    All-erase (λ k g. IsValidGrant g) (key_of grant) grants
                      (All-values IsValidGrant grants (inner-valid s h grant.role_id)))));
            bound = subst (All (λ e. validate_opaque_id e.0 ≡ ok tt)) subjects h.bound;
          }
    ]

pub delete_subject_role_grant-IsValidState :
    (subject_id role_id : Text)
    → validate_opaque_id subject_id ≡ ok tt
    → Keeps IsValidState (delete_subject_role_grant subject_id role_id)
unfolding delete_subject_role_grant
delete_subject_role_grant-IsValidState subject_id role_id good s a s' e h =
    let bindings = inner subject_id s.subject_roles in
    let fewer = erase role_id bindings in
    elim (Option-cases (lookup role_id bindings)) [
      | inl missing ↦ subst IsValidState (ground (arith, missing)) h
      | inr (w, found) ↦
          let subjects : insert subject_id fewer s.subject_roles ≡ s'.subject_roles =
            ground (arith, found) in
          let perms : s.role_perms ≡ s'.role_perms = ground (arith, found) in
          record {
            stored = subst (All (λ e. All IsValidGrant (values e.1))) perms h.stored;
            bound = subst (All (λ e. validate_opaque_id e.0 ≡ ok tt)) subjects (
                All-insert (λ k m. validate_opaque_id k ≡ ok tt) subject_id fewer s.subject_roles
                  h.bound good);
          }
    ]

pub delete_role_permission_grant-idle :
    (grant : RolePermissionGrant) (b : Bool) (s s' : TenantState)
    → delete_role_permission_grant grant s ≡ ok (b, s')
    → b ≡ false
    → s ≡ s'
unfolding delete_role_permission_grant
delete_role_permission_grant-idle grant b s s' e unchanged =
    elim (Bool-cases (contains (key_of grant) (inner grant.role_id s.role_perms))) [
      | inl there ↦ absurd (ground (arith, there))
      | inr missing ↦ ground (arith, missing)
    ]

pub delete_subject_role_grant-idle :
    (subject_id role_id : Text) (removal : SubjectRoleGrant × Bool) (s s' : TenantState)
    → delete_subject_role_grant subject_id role_id s ≡ ok (removal, s')
    → removal.1 ≡ false
    → s ≡ s'
unfolding delete_subject_role_grant
delete_subject_role_grant-idle subject_id role_id removal s s' e unchanged =
    elim (Option-cases (lookup role_id (inner subject_id s.subject_roles))) [
      | inl missing ↦ ground (arith, missing)
      | inr (w, found) ↦ absurd (ground (arith, found))
    ]
