-- ===== src/Memory/Administrator/Extends.antt =====
-- The writes of memory.go that take nothing from what the subjects of a tenant wield.
use amsonia_core.Base.{
  ℕ, ◌≡◌, ◌≢◌, inl, inr, sym, subst, ◌∙◌, ap, [], Bool, true, false, not, Some, In, Some-In,
  Some-of_In, Some-map, none, some, Option-cases, arith,
}
use amsonia_core.Base.Maps.{
  Map, keys, values, lookup, contains, insert, lookup-insert, lookup-insert_ne,
}
use amsonia_core.Text.{Text, text_key}
use amsonia_core.Types.Errors.{ok}
use amsonia_core.Types.Records.{
  RoleVersion, MutationAuditEvent, next_version, Role, RolePermissionGrant, SubjectRoleGrant,
  ControlPermissions,
}
use amsonia_core.Memory.State.{TenantState, GrantKey, grant_key_key, inner}
use amsonia_core.Memory.Writer.{
  insert_role_version, insert_mutation_audit, insert_role, update_role,
}
use amsonia_core.Memory.Administrator.Defs.{Gives, Empowers, Wields, Administers}

-- The parts of a state that count.
abbrev pub IsLiveIn : Text → Map Text Role → Type 0
IsLiveIn r m =
    (elim (lookup r m) as (λ x. Bool) [ none ↦ false | some role ↦ not role.deleted ]) ≡ true

abbrev pub Holds : Text → Text → Map Text (Map GrantKey RolePermissionGrant) → Type 0
Holds p r m = Some (Gives p) (values (inner r m))

abbrev pub Binds : Text → Text → Map Text (Map Text SubjectRoleGrant) → Type 0
Binds x r m = Some (λ e. (e.0 ≡ x) × In (keys e.1) r) m

-- The role is bound to the subject.
abbrev pub Bound : TenantState → Text → Text → Type 0
Bound s subject role_id = Binds subject role_id s.subject_roles

pub record Extends (s s' : TenantState) : Type 0 where
  pub live : (r : Text) → IsLiveIn r s.roles → IsLiveIn r s'.roles
  pub holds : (p r : Text) → IsLiveIn r s.roles → Holds p r s.role_perms → Holds p r s'.role_perms
  pub bound : (x r : Text) → Bound s x r → Bound s' x r

pub Wields-Bound :
    (s : TenantState) (subject p : Text)
    → Wields s subject p
    → (role_id : Text) × Bound s subject role_id × Empowers s p role_id
Wields-Bound s subject p h =
    let (e, member, held) = Some-In _ s.subject_roles h in
    let (role_id, bound, powers) = Some-In (Empowers s p) (keys e.1) held.1 in
    (role_id, Some-of_In _ s.subject_roles e member (held.0, bound), powers)

pub Bound-Wields :
    (s : TenantState) (subject p role_id : Text)
    → Bound s subject role_id
    → Empowers s p role_id
    → Wields s subject p
Bound-Wields s subject p role_id bound powers =
    Some-map _ _ s.subject_roles
      (λ e member b. (b.0, Some-of_In (Empowers s p) (keys e.1) role_id b.1 powers)) bound

Wields-mono :
    (s s' : TenantState) (subject p : Text)
    → Extends s s'
    → Wields s subject p
    → Wields s' subject p
Wields-mono s s' subject p more h =
    let (role_id, bound, powers) = Wields-Bound s subject p h in
    Bound-Wields s' subject p role_id (more.bound subject role_id bound)
      (more.live role_id powers.0, more.holds p role_id powers.0 powers.1)

pub Administers-mono :
    (s s' : TenantState) (controls : ControlPermissions) (subject : Text)
    → Extends s s'
    → Administers s controls subject
    → Administers s' controls subject
Administers-mono s s' controls subject more h = record {
  roles = Wields-mono s s' subject controls.manage_roles more h.roles;
  grants = Wields-mono s s' subject controls.manage_grants more h.grants;
  assignments = Wields-mono s s' subject controls.assign_roles more h.assignments;
}

pub Extends-trans : (s s' s'' : TenantState) → Extends s s' → Extends s' s'' → Extends s s''
Extends-trans s s' s'' f g = record {
  live = λ r h. g.live r (f.live r h);
  holds = λ p r l h. g.holds p r (f.live r l) (f.holds p r l h);
  bound = λ x r h. g.bound x r (f.bound x r h);
}

-- The same grants and bindings, and a role less that is live, where it gives nothing.
module _ (s s' : TenantState) (controls : ControlPermissions) (subject : Text) (role_id : Text)
    (none_left : values (inner role_id s.role_perms) ≡ [])
    (live : (r : Text) → r ≢ role_id → IsLiveIn r s.roles → IsLiveIn r s'.roles)
    (perms : s.role_perms ≡ s'.role_perms) (subjects : s.subject_roles ≡ s'.subject_roles) where
  Wields-but : (p : Text) → Wields s subject p → Wields s' subject p
  Wields-but p h =
      let (r, bound, powers) = Wields-Bound s subject p h in
      Bound-Wields s' subject p r (subst (Binds subject r) subjects bound) (
        live r
            (λ same. absurd (
              subst (Some (Gives p)) (ap (λ x. values (inner x s.role_perms)) same ∙ none_left)
                powers.1))
            powers.0,
        subst (Holds p r) perms powers.1,
      )

  pub Administers-but : Administers s controls subject → Administers s' controls subject
  Administers-but h = record {
    roles = Wields-but controls.manage_roles h.roles;
    grants = Wields-but controls.manage_grants h.grants;
    assignments = Wields-but controls.assign_roles h.assignments;
  }

module _ (s s' : TenantState) where
  -- The same roles, grants and bindings.
  pub Extends-same :
      s.roles ≡ s'.roles
      → s.role_perms ≡ s'.role_perms
      → s.subject_roles ≡ s'.subject_roles
      → Extends s s'
  Extends-same roles perms subjects = record {
    live = λ r h. subst (IsLiveIn r) roles h;
    holds = λ p r l h. subst (Holds p r) perms h;
    bound = λ x r h. subst (Binds x r) subjects h;
  }

  pub insert_role-Extends :
      (role : Role) {a : Unit} → insert_role role s ≡ ok (a, s') → Extends s s'
  unfolding insert_role contains
  insert_role-Extends role e =
      let fresh : lookup role.role_id s.roles ≡ none = ground arith in
      let roles : insert role.role_id role s.roles ≡ s'.roles = ground arith in
      let perms : insert role.role_id [] s.role_perms ≡ s'.role_perms = ground arith in
      let subjects : s.subject_roles ≡ s'.subject_roles = ground arith in
      let other : (r : Text) → IsLiveIn r s.roles → role.role_id ≢ r =
        λ r live same. ground (arith, fresh, live, same) in
      record {
        live =
            λ r h. ground (arith, roles, lookup-insert_ne role.role_id r role s.roles (other r h));
        holds = λ p r l h.
            subst
              (λ o. Some (Gives p) (
                values
                  (elim o as (λ x. Map GrantKey RolePermissionGrant) [ none ↦ [] | some n ↦ n ])))
              (sym (lookup-insert_ne role.role_id r [] s.role_perms (other r l))
                ∙ ap (lookup r) perms)
              h;
        bound = λ x r h. subst (Binds x r) subjects h;
      }

  pub update_role-Extends :
      (role : Role) (v : ℕ) {a : Unit}
      → role.deleted ≡ false
      → update_role role v s ≡ ok (a, s')
      → Extends s s'
  unfolding update_role
  update_role-Extends role v kept e = elim (Option-cases (lookup role.role_id s.roles)) [
    | inl missing ↦ ground (arith, missing)
    | inr (existing, found) ↦
        let updated = record role { version = next_version v } in
        let roles : insert role.role_id updated s.roles ≡ s'.roles = ground (arith, found) in
        let perms : s.role_perms ≡ s'.role_perms = ground (arith, found) in
        let subjects : s.subject_roles ≡ s'.subject_roles = ground (arith, found) in
        record {
          live = λ r h. ground (arith, roles, lookup-insert role.role_id r updated s.roles);
          holds = λ p r l h. subst (Holds p r) perms h;
          bound = λ x r h. subst (Binds x r) subjects h;
        }
  ]

  pub insert_role_version-Extends :
      (v : RoleVersion) {a : Unit} → insert_role_version v s ≡ ok (a, s') → Extends s s'
  unfolding insert_role_version
  insert_role_version-Extends v e = Extends-same (ground arith) (ground arith) (ground arith)

  pub insert_mutation_audit-Extends :
      (event : MutationAuditEvent) {a : Unit}
      → insert_mutation_audit event s ≡ ok (a, s')
      → Extends s s'
  unfolding insert_mutation_audit
  insert_mutation_audit-Extends event e = Extends-same (ground arith) (ground arith) (ground arith)
