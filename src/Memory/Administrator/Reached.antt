-- ===== src/Memory/Administrator/Reached.antt =====
-- `HasAdministrator` counts all that the tenant's bindings and valid grants give.
use amsonia_core.Base.{
  ◌≡◌, ◌↔◌, ◌⊎◌, inl, inr, refl, sym, subst, List, [], ◌∷◌, true, any, ◌==◌, All, Some, In,
  Bool-cases, arith,
}
use amsonia_core.Base.Maps.{Map, keys, values, lookup, insert, lookup-insert}
use amsonia_core.Text.{Text, text_key, text_dec}
use amsonia_core.Types.Errors.{Result, ok}
use amsonia_core.Types.Enums.{Scope, scope_key, scope_dec}
use amsonia_core.Types.Records.{RolePermissionGrant, ControlPermissions, SubjectRoleGrant}
use amsonia_core.Types.Ids.{validate_opaque_id}
use amsonia_core.AdminPolicy.{Coverage, held_by, add, holds, complete}
use amsonia_core.Memory.State.{TenantState, inner}
use amsonia_core.Memory.Reader.{
  is_live, effective, cover_grants, cover_roles, cover_subjects, has_administrator, control_list,
}
use amsonia_core.Memory.Administrator.Defs.{
  Gives, Empowers, Administers, IsValidGrant, IsValidState,
}
use amsonia_core.Memory.Administrator.Valid.{inner-valid}
use amsonia_core.Memory.Administrator.Justified.{has_administrator-Administers}

abbrev Reached : Coverage → Text → Text → Type 0
Reached c subject p = holds (held_by subject c) p ≡ true

-- A run of the count on what is valid: it succeeds, loses nothing, and reaches what it should.
record Counts (before : Coverage) (run : Result Coverage) (Adds : Text → Text → Type 0)
    : Type 0 where
  after : Coverage
  runs : run ≡ ok after
  keeps : (x p : Text) → Reached before x p → Reached after x p
  adds : (x p : Text) → Adds x p → Reached after x p

-- One valid grant of a valid subject.
add-Counts :
    (c : Coverage) (subject : Text) (g : RolePermissionGrant)
    → validate_opaque_id subject ≡ ok tt
    → IsValidGrant g
    → Counts c (add c subject (effective g)) (λ x p. (x ≡ subject) × Gives p g)
unfolding add lookup
add-Counts c subject g good valid =
    let held = insert g.permission true (held_by subject c) in
    elim (scope_dec g.scope Scope.tenant) [
      | no narrow ↦ record {
        after = c;
        runs = ground (arith, good, valid);
        keeps = λ x p h. h;
        adds = λ x p h. absurd (narrow h.1.1);
      }
      | yes wide ↦ record {
        after = insert subject held c;
        runs = ground (arith, good, valid);
        keeps = λ x p h. ground (
          arith,
          lookup-insert subject x held c,
          lookup-insert g.permission p true (held_by subject c),
        );
        adds = λ x p h. ground (
          arith,
          lookup-insert subject x held c,
          lookup-insert g.permission p true (held_by subject c),
        );
      }
    ]

any-In :
    (p : Text) (permissions : List Text) → In permissions p → any (λ q. q == p) permissions ≡ true
any-In p [] m = absurd m
any-In p (q ∷ permissions) m = elim m [
  | inl e ↦ ground (arith, e)
  | inr r ↦ ground (arith, any-In p permissions r)
]

-- Two runs, one after the other.
Counts-then :
    (before : Coverage) (run next : Result Coverage) (Adds More All_of : Text → Text → Type 0)
    → (first : Counts before run Adds) → Counts first.after next More
    → ((x p : Text) → All_of x p → Adds x p ⊎ More x p)
    → Counts before next All_of
Counts-then before run next Adds More All_of first second split = record {
  after = second.after;
  runs = second.runs;
  keeps = λ x p h. second.keeps x p (first.keeps x p h);
  adds = λ x p h. elim (split x p h) [
    | inl a ↦ second.keeps x p (first.adds x p a)
    | inr m ↦ second.adds x p m
  ];
}

Counts-of :
    (before : Coverage) (run run' : Result Coverage) (Adds : Text → Text → Type 0)
    → run ≡ run'
    → Counts before run' Adds
    → Counts before run Adds
Counts-of before run run' Adds e h = subst (λ r. Counts before r Adds) (sym e) h

nothing :
    (before : Coverage) (Adds : Text → Text → Type 0)
    → ((x p : Text) → Adds x p → ⊥)
    → Counts before (ok before) Adds
nothing before Adds none_added = record {
  after = before;
  runs = refl;
  keeps = λ x p h. h;
  adds = λ x p h. absurd (none_added x p h);
}

module _ (permissions : List Text) where
  abbrev FromGrants : Text → List RolePermissionGrant → Text → Text → Type 0
  FromGrants subject grants x p = In permissions p × (x ≡ subject) × Some (Gives p) grants

  cover_grants-Counts :
      (subject : Text) (grants : List RolePermissionGrant) (c : Coverage)
      → validate_opaque_id subject ≡ ok tt
      → All IsValidGrant grants
      → Counts c (cover_grants permissions subject grants c) (FromGrants subject grants)
  unfolding cover_grants
  cover_grants-Counts subject [] c good valid = nothing c _ (λ x p h. h.2)
  cover_grants-Counts subject (g ∷ grants) c good valid =
      elim (Bool-cases (any (λ p. p == g.permission) permissions)) [
        | inr skipped ↦
            let rest = cover_grants-Counts subject grants c good valid.1 in
            let skip : cover_grants permissions subject (g ∷ grants) c
                ≡ cover_grants permissions subject grants c =
              ground (arith, skipped) in
            Counts-of c _ _ _ skip (record {
              after = rest.after;
              runs = rest.runs;
              keeps = rest.keeps;
              adds = λ x p h. elim h.2 [
                | inr more ↦ rest.adds x p (h.0, h.1, more)
                | inl first ↦ absurd (
                    ground (
                      arith,
                      skipped,
                      any-In g.permission permissions (subst (In permissions) (sym first.0) h.0),
                    ))
              ];
            })
        | inl looked ↦
            let first = add-Counts c subject g good valid.0 in
            let rest = cover_grants-Counts subject grants first.after good valid.1 in
            let step : cover_grants permissions subject (g ∷ grants) c
                ≡ cover_grants permissions subject grants first.after =
              ground (arith, looked, first.runs) in
            Counts-of c _ _ _ step (
              Counts-then c (add c subject (effective g)) _ _ (FromGrants subject grants) _ first
                rest
                λ x p h. elim h.2 [ inl one ↦ inl (h.1, one) | inr more ↦ inr (h.0, h.1, more) ])
      ]

  module _ (s : TenantState) (valid : IsValidState s) where
    abbrev FromRoles : Text → List Text → Text → Text → Type 0
    FromRoles subject role_ids x p = In permissions p × (x ≡ subject) × Some (Empowers s p) role_ids

    cover_roles-Counts :
        (subject : Text) (role_ids : List Text) (c : Coverage)
        → validate_opaque_id subject ≡ ok tt
        → Counts c (cover_roles s permissions subject role_ids c) (FromRoles subject role_ids)
    unfolding cover_roles
    cover_roles-Counts subject [] c good = nothing c _ (λ x p h. h.2)
    cover_roles-Counts subject (role_id ∷ role_ids) c good =
        let grants = values (inner role_id s.role_perms) in
        elim (Bool-cases (is_live s role_id)) [
          | inr dead ↦
              let rest = cover_roles-Counts subject role_ids c good in
              let skip : cover_roles s permissions subject (role_id ∷ role_ids) c
                  ≡ cover_roles s permissions subject role_ids c =
                ground (arith, dead) in
              Counts-of c _ _ _ skip (record {
                after = rest.after;
                runs = rest.runs;
                keeps = rest.keeps;
                adds = λ x p h. elim h.2 [
                  | inr more ↦ rest.adds x p (h.0, h.1, more)
                  | inl first ↦ absurd (ground (arith, dead, first.0))
                ];
              })
          | inl live ↦
              let first = cover_grants-Counts subject grants c good (inner-valid s valid role_id) in
              let rest = cover_roles-Counts subject role_ids first.after good in
              let step : cover_roles s permissions subject (role_id ∷ role_ids) c
                  ≡ cover_roles s permissions subject role_ids first.after =
                ground (arith, live, first.runs) in
              Counts-of c _ _ _ step (
                Counts-then c (cover_grants permissions subject grants c) _ _
                  (FromRoles subject role_ids) _ first rest
                  λ x p h. elim h.2 [
                    | inl one ↦ inl (h.0, h.1, one.1)
                    | inr more ↦ inr (h.0, h.1, more)
                  ])
        ]

    abbrev FromSubjects : Map Text (Map Text SubjectRoleGrant) → Text → Text → Type 0
    FromSubjects m x p = In permissions p × Some (λ e. (e.0 ≡ x) × Some (Empowers s p) (keys e.1)) m

    cover_subjects-Counts :
        (m : Map Text (Map Text SubjectRoleGrant)) (c : Coverage)
        → All (λ e. validate_opaque_id e.0 ≡ ok tt) m
        → Counts c (cover_subjects s permissions m c) (FromSubjects m)
    unfolding cover_subjects
    cover_subjects-Counts [] c good = nothing c _ (λ x p h. h.1)
    cover_subjects-Counts ((subject, roles) ∷ m) c good =
        let first = cover_roles-Counts subject (keys roles) c good.0 in
        let rest = cover_subjects-Counts m first.after good.1 in
        let step : cover_subjects s permissions ((subject, roles) ∷ m) c
            ≡ cover_subjects s permissions m first.after =
          ground (arith, first.runs) in
        Counts-of c _ _ _ step (
          Counts-then c (cover_roles s permissions subject (keys roles) c) _ _ (FromSubjects m) _
            first rest
            λ x p h. elim h.1 [
              | inl one ↦ inl (h.0, sym one.0, one.1)
              | inr more ↦ inr (h.0, more)
            ])

complete-Reached :
    (subject p q r : Text) (c : Coverage)
    → Reached c subject p
    → Reached c subject q
    → Reached c subject r
    → complete c (p ∷ q ∷ r ∷ []) ≡ true
unfolding complete lookup
complete-Reached subject p q r [] hp hq hr = cc
complete-Reached subject p q r ((k, held) ∷ c) hp hq hr = elim (text_dec k subject) [
  | yes e ↦ ground arith
  | no ne ↦ ground (arith, complete-Reached subject p q r c)
]

-- In a valid state `HasAdministrator` says yes where some subject wields all three control
-- permissions.
pub Administers-has_administrator :
    (s : TenantState) (controls : ControlPermissions) (subject : Text)
    → IsValidState s
    → Administers s controls subject
    → has_administrator s controls ≡ ok true
unfolding has_administrator
Administers-has_administrator s controls subject valid h =
    let count =
      cover_subjects-Counts (control_list controls) s valid s.subject_roles [] valid.bound in
    let full =
      complete-Reached subject controls.manage_roles controls.manage_grants controls.assign_roles
        count.after (count.adds subject controls.manage_roles (inl refl, h.roles))
        (count.adds subject controls.manage_grants (inr (inl refl), h.grants))
        (count.adds subject controls.assign_roles (inr (inr (inl refl)), h.assignments)) in
    ground (arith, count.runs, full)

-- In a valid state `HasAdministrator` says yes exactly where some subject wields all three control
-- permissions: through roles that are bound to it and live, whose grants give them for the whole
-- tenant.
pub has_administrator_iff :
    (s : TenantState) (controls : ControlPermissions)
    → IsValidState s
    → (has_administrator s controls ≡ ok true) ↔ ((subject : Text) × Administers s controls subject)
has_administrator_iff s controls valid = (
  has_administrator-Administers s controls,
  λ found. Administers-has_administrator s controls found.0 valid found.1,
)
