-- ===== src/Memory/Administrator/Justified.antt =====
-- `HasAdministrator` counts only what the tenant's bindings and grants give.
use amsonia_core.Base.{
  ◌≡◌, inl, inr, refl, subst, List, [], ◌∷◌, Bool, true, any, all, ◌==◌, All, Some, In, All-of_In,
  Some-of_In, Bool-cases, Option-cases, arith,
}
use amsonia_core.Base.Maps.{
  Map, keys, values, lookup, insert, lookup-insert, lookup-All, All-insert,
}
use amsonia_core.Text.{Text, text_key, text_dec}
use amsonia_core.Types.Errors.{ok, Result-cases}
use amsonia_core.Types.Enums.{Scope, scope_key, scope_dec}
use amsonia_core.Types.Records.{
  RolePermissionGrant, EffectiveGrant, ControlPermissions, SubjectRoleGrant,
}
use amsonia_core.AdminPolicy.{Coverage, held_by, add, holds, complete}
use amsonia_core.Memory.State.{TenantState, inner}
use amsonia_core.Memory.Reader.{
  is_live, effective, cover_grants, cover_roles, cover_subjects, has_administrator, control_list,
}
use amsonia_core.Memory.Administrator.Defs.{Gives, Empowers, Wields, Administers}

module _ (R : Text → Text → Type 0) where
  -- Whatever the table says that a subject holds, there is a reason for it.
  abbrev Entry : Text → Map Text Bool → Type 0
  Entry subject held = (p : Text) → holds held p ≡ true → R subject p

  abbrev Justified : Coverage → Type 0
  Justified c = All (λ e. Entry e.0 e.1) c

  held_by-Entry : (subject : Text) (c : Coverage) → Justified c → Entry subject (held_by subject c)
  unfolding lookup
  held_by-Entry subject c h p e = elim (Option-cases (lookup subject c)) [
    | inl none_held ↦ ground (arith, none_held, e)
    | inr (held, found) ↦ lookup-All Entry subject c h found p (ground (arith, found, e))
  ]

  add-Justified :
      (c : Coverage) (subject : Text) (g : EffectiveGrant) {c' : Coverage}
      → (g.scope ≡ Scope.tenant → R subject g.permission)
      → Justified c
      → add c subject g ≡ ok c'
      → Justified c'
  unfolding add
  add-Justified c subject g {c'} reason h e = elim (scope_dec g.scope Scope.tenant) [
    | no narrow ↦ let same : c ≡ c' = ground arith in subst Justified same h
    | yes wide ↦
        let held = insert g.permission true (held_by subject c) in
        let same : insert subject held c ≡ c' = ground arith in
        let entry : Entry subject held = λ p f. elim (text_dec g.permission p) [
          | yes q ↦ subst (R subject) q (reason wide)
          | no ne ↦
              held_by-Entry subject c h p
                (ground (arith, f, lookup-insert g.permission p true (held_by subject c)))
        ] in
        subst Justified same (All-insert Entry subject held c h entry)
  ]

  cover_grants-Justified :
      (permissions : List Text) (subject : Text) (grants : List RolePermissionGrant) (c : Coverage)
      {c' : Coverage}
      → All (λ g. g.scope ≡ Scope.tenant → R subject g.permission) grants
      → Justified c
      → cover_grants permissions subject grants c ≡ ok c'
      → Justified c'
  unfolding cover_grants
  cover_grants-Justified permissions subject [] c h j e = subst Justified (ground arith) j
  cover_grants-Justified permissions subject (g ∷ grants) c h j e =
      elim (Bool-cases (any (λ p. p == g.permission) permissions)) [
        | inr skipped ↦ cover_grants-Justified permissions subject grants c h.1 j (ground arith)
        | inl looked ↦ elim (Result-cases (add c subject (effective g))) [
          | inr (x, f) ↦ absurd (ground (arith, f))
          | inl (c1, f) ↦
              cover_grants-Justified permissions subject grants c1 h.1
                (add-Justified c subject (effective g) h.0 j f) (ground (arith, f))
        ]
      ]

  -- The reasons that one role gives a subject.
  abbrev Reasons : TenantState → Text → Text → Type 0
  Reasons s subject role_id =
      is_live s role_id ≡ true
      → All (λ g. g.scope ≡ Scope.tenant → R subject g.permission)
          (values (inner role_id s.role_perms))

  module _ (s : TenantState) (permissions : List Text) where
    cover_roles-Justified :
        (subject : Text) (role_ids : List Text) (c : Coverage) {c' : Coverage}
        → All (Reasons s subject) role_ids
        → Justified c
        → cover_roles s permissions subject role_ids c ≡ ok c'
        → Justified c'
    unfolding cover_roles
    cover_roles-Justified subject [] c h j e = subst Justified (ground arith) j
    cover_roles-Justified subject (role_id ∷ role_ids) c h j e =
        let grants = values (inner role_id s.role_perms) in
        elim (Bool-cases (is_live s role_id)) [
          | inr dead ↦ cover_roles-Justified subject role_ids c h.1 j (ground arith)
          | inl live ↦ elim (Result-cases (cover_grants permissions subject grants c)) [
            | inr (x, f) ↦ absurd (ground (arith, f))
            | inl (c1, f) ↦
                cover_roles-Justified subject role_ids c1 h.1
                  (cover_grants-Justified permissions subject grants c (h.0 live) j f)
                  (ground (arith, f))
          ]
        ]

    cover_subjects-Justified :
        (m : Map Text (Map Text SubjectRoleGrant)) (c : Coverage) {c' : Coverage}
        → All (λ e. All (Reasons s e.0) (keys e.1)) m
        → Justified c
        → cover_subjects s permissions m c ≡ ok c'
        → Justified c'
    unfolding cover_subjects
    cover_subjects-Justified [] c h j e = subst Justified (ground arith) j
    cover_subjects-Justified ((subject, roles) ∷ m) c h j e =
        elim (Result-cases (cover_roles s permissions subject (keys roles) c)) [
          | inr (x, f) ↦ absurd (ground (arith, f))
          | inl (c1, f) ↦
              cover_subjects-Justified m c1 h.1
                (cover_roles-Justified subject (keys roles) c h.0 j f) (ground (arith, f))
        ]

-- The relation gives the reasons.
Wields-Reasons :
    (s : TenantState) (subject : Text) (roles : Map Text SubjectRoleGrant) (role_id : Text)
    → In s.subject_roles (subject, roles)
    → In (keys roles) role_id
    → Reasons (Wields s) s subject role_id
Wields-Reasons s subject roles role_id entry bound live =
    let grants = values (inner role_id s.role_perms) in
    All-of_In (λ g. g.scope ≡ Scope.tenant → Wields s subject g.permission) grants
      λ g stored wide.
        Some-of_In (λ e. (e.0 ≡ subject) × Some (Empowers s g.permission) (keys e.1))
          s.subject_roles (subject, roles) entry
          (
            refl,
            Some-of_In (Empowers s g.permission) (keys roles) role_id bound
                (live, Some-of_In (Gives g.permission) grants g stored (refl, wide)),
          )

-- A complete table has a subject for which there is a reason at each permission.
complete-Justified :
    (R : Text → Text → Type 0) (c : Coverage) (p q r : Text)
    → Justified R c
    → complete c (p ∷ q ∷ r ∷ []) ≡ true
    → (subject : Text) × R subject p × R subject q × R subject r
unfolding complete
complete-Justified R [] p q r j e = cc
complete-Justified R ((subject, held) ∷ c) p q r j e =
    elim (Bool-cases (all (holds held) (p ∷ q ∷ r ∷ []))) [
      | inl full ↦ (subject, j.0 p (ground arith), j.0 q (ground arith), j.0 r (ground arith))
      | inr not_full ↦ complete-Justified R c p q r j.1 (ground arith)
    ]

-- Where `HasAdministrator` says yes, some subject wields all three control permissions.
pub has_administrator-Administers :
    (s : TenantState) (controls : ControlPermissions)
    → has_administrator s controls ≡ ok true
    → (subject : Text) × Administers s controls subject
unfolding has_administrator
has_administrator-Administers s controls e =
    elim (Result-cases (cover_subjects s (control_list controls) s.subject_roles [])) [
      | inr (x, f) ↦ absurd (ground (arith, f))
      | inl (c, f) ↦
          let j =
            cover_subjects-Justified (Wields s) s (control_list controls) s.subject_roles []
              (All-of_In (λ e. All (Reasons (Wields s) s e.0) (keys e.1)) s.subject_roles
                λ e entry.
                  All-of_In (Reasons (Wields s) s e.0) (keys e.1)
                    λ role_id bound. Wields-Reasons s e.0 e.1 role_id entry bound)
              tt f in
          let (subject, r, g, a) =
            complete-Justified (Wields s) c controls.manage_roles controls.manage_grants
              controls.assign_roles j (ground (arith, f)) in
          (subject, record { roles = r; grants = g; assignments = a })
    ]
