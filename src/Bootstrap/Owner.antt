-- ===== src/Bootstrap/Owner.antt =====
-- The owner that `BootstrapTenant` leaves in a tenant of memory.go.
use amsonia_core.Base.{
  ◌≡◌, refl, sym, subst, ◌∙◌, ap, List, [], ◌∷◌, Bool, true, false, All, All-map, Some, none, some,
  inl, inr, arith,
}
use amsonia_core.Base.Maps.{
  Map, values, lookup, insert, lookup-insert_self, lookup-All, All-insert, Some-insert_self,
  values-Some, lookup-Some,
}
use amsonia_core.Text.{Text, text_key}
use amsonia_core.Types.Errors.{ok, refuse, already_bootstrapped}
use amsonia_core.Types.Records.{RolePermissionGrant, HostProvenance}
use amsonia_core.Store.{◌>>=◌, pure}
use amsonia_core.Store.Steps.{bind-ok, lift-ok, Keeps, Keeps-bind, Keeps-pure}
use amsonia_core.Memory.{memory_tx}
use amsonia_core.Memory.State.{TenantState, GrantKey, grant_key_key, clone_grant, inner}
use amsonia_core.Memory.Writer.{
  insert_role, insert_role_permission_grant, insert_subject_role_grant, mark_bootstrapped, key_of,
}
use amsonia_core.Memory.Administrator.Defs.{Wields, Gives, Administers, IsValidGrant}
use amsonia_core.Memory.Administrator.Extends.{
  Extends, Extends-trans, Extends-same, Administers-mono, insert_role_version-Extends,
  insert_mutation_audit-Extends, Holds, IsLiveIn, Bound-Wields,
}
use amsonia_core.Memory.Administrator.Additions.{
  Written, already, fresh, insert_role_permission_grant-Written, Written-Extends,
  insert_subject_role_grant-Binds,
}
use amsonia_core.Memory.Administrator.Valid.{IsValidState-same}
use amsonia_core.Memory.Administrator.Sound.{
  IsSound, insert_role-IsSound, insert_role_permission_grant-IsSound,
  insert_subject_role_grant-IsSound, insert_role_version-IsSound, insert_mutation_audit-IsSound,
}
use amsonia_core.Manager.Guards.{each_step}
use amsonia_core.Manager.Frame.{each_step-Keeps}
use amsonia_core.Bootstrap.Inputs.{BootstrapInput, Bootstrapper, Readings, owner_role}
use amsonia_core.Bootstrap.Tenant.{owner_binding, add_grant, bootstrap_body}
use amsonia_core.Bootstrap.Checked.{IsOwned, Prepared}

-- Every grant of the role stands at its own key.
abbrev IsKeyed : Text → TenantState → Type 0
IsKeyed r s = All (λ e. key_of e.1 ≡ e.0) (inner r s.role_perms)

-- A key tells the permission and the scope.
key_of-Gives : (p : Text) (v w : RolePermissionGrant) → key_of w ≡ key_of v → Gives p v → Gives p w
unfolding key_of
key_of-Gives p v w same h = (ap (λ k. k.permission) same ∙ h.0, ap (λ k. k.scope) same ∙ h.1)

module _ (s s' : TenantState) (grant : RolePermissionGrant) where
  Written-IsKeyed :
      {b : Bool} → Written s s' grant b → IsKeyed grant.role_id s → IsKeyed grant.role_id s'
  Written-IsKeyed (already w same old) h = subst (IsKeyed grant.role_id) same h
  Written-IsKeyed (fresh grants held new same) h =
      let more = insert (key_of grant) (clone_grant grant) grants in
      subst (IsKeyed grant.role_id) same (
        subst
          (λ o.
            All (λ e. key_of e.1 ≡ e.0)
              (elim o as (λ x. Map GrantKey RolePermissionGrant) [ none ↦ [] | some n ↦ n ]))
          (sym (lookup-insert_self grant.role_id more s.role_perms))
          (All-insert (λ k g. key_of g ≡ k) (key_of grant) (clone_grant grant) grants
            (subst
              (λ o.
                All (λ e. key_of e.1 ≡ e.0)
                  (elim o as (λ x. Map GrantKey RolePermissionGrant) [ none ↦ [] | some n ↦ n ]))
              held h)
            refl))

  -- The grant is there after, under its key.
  Written-Holds :
      {b : Bool} (p : Text)
      → Written s s' grant b
      → IsKeyed grant.role_id s
      → Gives p grant
      → Holds p grant.role_id s'.role_perms
  Written-Holds p (already w same old) keyed given =
      let grants = inner grant.role_id s.role_perms in
      subst (λ z. Holds p grant.role_id z.role_perms) same
        (values-Some (Gives p) grants (
          lookup-Some (λ k g. Gives p g) (key_of grant) grants old
            (key_of-Gives p grant w
              (lookup-All (λ k g. key_of g ≡ k) (key_of grant) grants keyed old) given)))
  Written-Holds p (fresh grants held new same) keyed given =
      let more = insert (key_of grant) (clone_grant grant) grants in
      subst (λ z. Holds p grant.role_id z.role_perms) same
        (subst
          (λ o.
            Some (Gives p) (
              values
                (elim o as (λ x. Map GrantKey RolePermissionGrant) [ none ↦ [] | some n ↦ n ])))
          (sym (lookup-insert_self grant.role_id more s.role_perms))
          (values-Some (Gives p) more
            (Some-insert_self (λ k g. Gives p g) (key_of grant) (clone_grant grant) grants given)))

module _ (owner : Text) where
  -- The loop over the grants leaves each of them.
  grants-Holds :
      (grants : List RolePermissionGrant) (s s' : TenantState)
      → All (IsOwned owner) grants
      → IsKeyed owner s
      → IsLiveIn owner s.roles
      → each_step (add_grant memory_tx) grants s ≡ ok (tt, s')
      → Extends s s' × ((p : Text) → Some (Gives p) grants → Holds p owner s'.role_perms)
  unfolding each_step ◌>>=◌ pure
  grants-Holds [] s s' owned keyed live e =
      let same : s ≡ s' = ground arith in
      (subst (Extends s) same (Extends-same s s refl refl refl), λ p h. absurd h)
  grants-Holds (g ∷ grants) s s' owned keyed live e =
      let (u, s1, first, rest) =
        bind-ok (add_grant memory_tx g) (λ _. each_step (add_grant memory_tx) grants) e in
      let (b, s2, wrote, done) = bind-ok (insert_role_permission_grant g) (λ _. pure tt) first in
      let there : s2 ≡ s1 = ground arith in
      let written =
        insert_role_permission_grant-Written s s1 g
          (subst (λ z. insert_role_permission_grant g s ≡ ok (b, z)) there wrote) in
      let mine = owned.0.1 in
      let keyed' = subst (λ r. IsKeyed r s) (sym mine) keyed in
      let more = Written-Extends s s1 g written in
      let (later, all_held) =
        grants-Holds grants s1 s' owned.1
          (subst (λ r. IsKeyed r s1) mine (Written-IsKeyed s s1 g written keyed'))
          (more.live owner live) rest in
      (
        Extends-trans s s1 s' more later,
        λ p h. elim h [
          | inl given ↦ later.holds p owner (more.live owner live) (
              subst (λ r. Holds p r s1.role_perms) mine
                (Written-Holds s s1 g p written keyed' given))
          | inr other ↦ all_held p other
        ],
      )

module _ (b : Bootstrapper) (t : Readings) (input : BootstrapInput) (provenance : HostProvenance)
    (grants : List RolePermissionGrant) (ready : Prepared b input grants) where
  -- A new role is live and has no grants.
  insert_role-new :
      (s s' : TenantState)
      → insert_role (owner_role input) s ≡ ok (tt, s')
      → IsLiveIn input.owner_role_id s'.roles × IsKeyed input.owner_role_id s'
  unfolding insert_role
  insert_role-new s s' e =
      let id = input.owner_role_id in
      let roles : insert id (owner_role input) s.roles ≡ s'.roles = ground arith in
      let perms : insert id [] s.role_perms ≡ s'.role_perms = ground arith in
      (
        ground (arith, roles, lookup-insert_self id (owner_role input) s.roles),
        subst
            (λ o.
              All (λ e. key_of e.1 ≡ e.0)
                (elim o as (λ x. Map GrantKey RolePermissionGrant) [ none ↦ [] | some n ↦ n ]))
            (sym (lookup-insert_self id [] s.role_perms) ∙ ap (lookup id) perms) tt,
      )

  -- The writes after the check, up to the marker.
  owner-Administers :
      (s1 s2 s3 s4 s5 s6 : TenantState) (bound : Bool)
      → insert_role (owner_role input) s1 ≡ ok (tt, s2)
      → each_step (add_grant memory_tx) grants s2 ≡ ok (tt, s3)
      → insert_subject_role_grant (owner_binding t input) s3 ≡ ok (bound, s4)
      → Extends s4 s5
      → Extends s5 s6
      → Administers s6 b.controls input.owner_subject_id
  owner-Administers s1 s2 s3 s4 s5 s6 bound added granted given version event =
      let owner = input.owner_role_id in
      let (live, keyed) = insert_role-new s1 s2 added in
      let (more, held) = grants-Holds owner grants s2 s3 ready.owned keyed live granted in
      let (wider, binds) = insert_subject_role_grant-Binds s3 s4 (owner_binding t input) given in
      let later = Extends-trans s3 s5 s6 (Extends-trans s3 s4 s5 wider version) event in
      let live' = more.live owner live in
      let binds' =
        event.bound input.owner_subject_id owner
          (version.bound input.owner_subject_id owner binds) in
      let wields : (p : Text) → Some (Gives p) grants → Wields s6 input.owner_subject_id p = λ p h.
        Bound-Wields s6 input.owner_subject_id p owner binds'
          (later.live owner live', later.holds p owner live' (held p h)) in
      record {
        roles = wields b.controls.manage_roles ready.manage_roles;
        grants = wields b.controls.manage_grants ready.manage_grants;
        assignments = wields b.controls.assign_roles ready.assign_roles;
      }

  add_grant-IsSound :
      (g : RolePermissionGrant)
      → IsValidGrant g
      → Keeps (IsSound b.controls) (add_grant memory_tx g)
  add_grant-IsSound g good =
      Keeps-bind (IsSound b.controls) _ _ (insert_role_permission_grant-IsSound b.controls g good)
        λ _. Keeps-pure (IsSound b.controls) tt

  marked-IsSound :
      (s s' : TenantState)
      → mark_bootstrapped provenance s ≡ ok (tt, s')
      → IsSound b.controls s
      → Administers s b.controls input.owner_subject_id
      → (s'.bootstrapped ≡ true)
        × Administers s' b.controls input.owner_subject_id
        × IsSound b.controls s'
  unfolding mark_bootstrapped
  marked-IsSound s s' e sound owner =
      let roles : s.roles ≡ s'.roles = ground arith in
      let perms : s.role_perms ≡ s'.role_perms = ground arith in
      let subjects : s.subject_roles ≡ s'.subject_roles = ground arith in
      let kept =
        Administers-mono s s' b.controls input.owner_subject_id
          (Extends-same s s' roles perms subjects) owner in
      (
        ground arith,
        kept,
        record {
          valid = IsValidState-same s s' perms subjects sound.valid;
          administered = λ marked. (input.owner_subject_id, kept);
        },
      )

  -- The transaction goes through only in a tenant that was not bootstrapped, which then is, with the
  -- owner as an administrator.
  pub bootstrap_body-IsSound :
      (s s' : TenantState)
      → bootstrap_body memory_tx t input provenance grants s ≡ ok (tt, s')
      → IsSound b.controls s
      → (s.bootstrapped ≡ false)
        × (s'.bootstrapped ≡ true)
        × Administers s' b.controls input.owner_subject_id
        × IsSound b.controls s'
  unfolding bootstrap_body
  bootstrap_body-IsSound s s' e sound =
      let (marked, s0, asked, e0) = bind-ok _ _ e in
      let (u1, s1, refused, e1) = bind-ok _ _ e0 in
      let (u2, s2, added, e2) = bind-ok _ _ e1 in
      let (u3, s3, granted, e3) = bind-ok _ _ e2 in
      let (bound, s4, given, e4) = bind-ok _ _ e3 in
      let (u5, s5, version, e5) = bind-ok _ _ e4 in
      let (u6, s6, event, e6) = bind-ok _ _ e5 in
      let (new, s1_s0) = lift-ok (refuse marked already_bootstrapped) refused in
      let s_s1 : s ≡ s1 = ground (arith, asked, s1_s0) in
      let sound2 =
        insert_role-IsSound b.controls _ s1 u2 s2 added (subst (IsSound b.controls) s_s1 sound) in
      let sound3 =
        each_step-Keeps (IsSound b.controls) (add_grant memory_tx) grants
          (All-map _ _ grants (λ g owned. add_grant-IsSound g owned.0) ready.owned) s2 u3 s3 granted
          sound2 in
      let sound4 =
        insert_subject_role_grant-IsSound b.controls (owner_binding t input) ready.subject s3 bound
          s4 given sound3 in
      let sound5 = insert_role_version-IsSound b.controls _ s4 u5 s5 version sound4 in
      let sound6 = insert_mutation_audit-IsSound b.controls _ s5 u6 s6 event sound5 in
      let owner =
        owner-Administers s1 s2 s3 s4 s5 s6 bound added granted given
          (insert_role_version-Extends s4 s5 _ version)
          (insert_mutation_audit-Extends s5 s6 _ event) in
      let unmarked : s.bootstrapped ≡ false = ground (arith, asked, new) in
      let (set, kept, after) = marked-IsSound s6 s' e6 sound6 owner in (unmarked, set, kept, after)
