-- ===== src/Manager/Frame.antt =====
-- The operations of manager.go other than AssignRole and UnassignRole, method by method.
use amsonia_core.Base.{
  All, All-every, All-map, map-All, ◌≡◌, sym, subst, ◌∙◌, arith, ℕ, List, [], ◌∷◌, Bool, false,
}
use amsonia_core.Text.{Text}
use amsonia_core.Types.Errors.{refuse, require, not_found, conflict}
use amsonia_core.Types.Enums.{Scope}
use amsonia_core.Types.Records.{
  Principal, MutationMetadata, Role, RolePermissionGrant, SubjectRoleGrant, RoleVersion,
  MutationAuditEvent, ControlPermissions, Time,
}
use amsonia_core.Store.{Tx, TenantTx, pure, ◌>>=◌}
use amsonia_core.Store.Steps.{
  Yields, Yields-bind, bind-ok, lift-ok, Keeps, Keeps-pure, Keeps-lift, Keeps-bind, Keeps-if,
}
use amsonia_core.Manager.{Manager, Readings, Target}
use amsonia_core.Manager.Inputs.{UpdateRoleInput, DeleteRoleInput}
use amsonia_core.Manager.Guards.{
  each_step, require_grant, require_role_coverage, current_role, guard_last_administrator,
  bump_role_version,
}
use amsonia_core.Manager.Roles.{
  tenant_grant, create_role_body, insert_new_grant, create_role_with_permissions_body,
  update_role_body, delete_role_body,
}
use amsonia_core.Manager.Grants.{
  no_change, new_version, grant_permission_body, revoke_permission_body,
}

-- The methods that keep a property of the state: those that read, and those that add to it.
pub record Growth {S : Type 0} (I : S → Type 0) (IsGood : RolePermissionGrant → Type 0)
    (tx : TenantTx S) : Type 0 where
  pub effective : (x y : Text) → Keeps I (tx.list_effective_grants x y)
  pub role : (x : Text) → Keeps I (tx.get_role x)
  pub role_grants : (x : Text) → Keeps I (tx.list_role_permission_grants x)
  pub role_subjects : (x : Text) → Keeps I (tx.list_role_subject_ids x)
  pub path : (x y : Text) → Keeps I (tx.has_grant_path x y)
  pub administrator : (c : ControlPermissions) → Keeps I (tx.has_administrator c)
  pub new_role : (r : Role) → Keeps I (tx.insert_role r)
  pub updated_role : (r : Role) (v : ℕ) → r.deleted ≡ false → Keeps I (tx.update_role r v)
  pub new_grant : (g : RolePermissionGrant) → IsGood g → Keeps I (tx.insert_role_permission_grant g)
  pub version : (v : RoleVersion) → Keeps I (tx.insert_role_version v)
  pub audit : (e : MutationAuditEvent) → Keeps I (tx.insert_mutation_audit e)

abbrev pub AnyGrant : RolePermissionGrant → Type 0
AnyGrant g = Unit

-- Those that take from it as well.
pub record Frame {S : Type 0} (I : S → Type 0) (tx : TenantTx S) : Type 0 where
  pub growth : Growth I AnyGrant tx
  pub tombstone : (x : Text) (v : ℕ) → Keeps I (tx.tombstone_role x v)
  pub old_grant : (g : RolePermissionGrant) → Keeps I (tx.delete_role_permission_grant g)
  pub binding : (g : SubjectRoleGrant) → Keeps I (tx.insert_subject_role_grant g)
  pub unbinding : (x y : Text) → Keeps I (tx.delete_subject_role_grant x y)

module _ {S : Type 0} (I : S → Type 0) where
  pub each_step-Keeps :
      {A : Type 0} (f : A → Tx S (Unit {0})) (xs : List A)
      → All (λ x. Keeps I (f x)) xs
      → Keeps I (each_step f xs)
  unfolding each_step pure ◌>>=◌
  each_step-Keeps f [] keeps = Keeps-pure I tt
  each_step-Keeps f (x ∷ xs) keeps =
      Keeps-bind I (f x) (λ _. each_step f xs) keeps.0 (λ _. each_step-Keeps f xs keeps.1)

module _ {S : Type 0} (I : S → Type 0) (IsGood : RolePermissionGrant → Type 0) (tx : TenantTx S)
    (h : Growth I IsGood tx) (m : Manager) where
  pub require_grant-Keeps :
      (actor : Principal) (permission : Text) (target : Scope) (roles : List Text) (exact : Bool)
      → Keeps I (require_grant tx m actor permission target roles exact)
  unfolding require_grant
  require_grant-Keeps actor permission target roles exact =
      Keeps-bind I _ _ (h.effective actor.subject_id permission)
        λ grants. Keeps-bind I _ _ (Keeps-lift I _) λ _. Keeps-lift I _

  pub require_role_coverage-Keeps :
      (actor : Principal) (role_id : Text) → Keeps I (require_role_coverage tx m actor role_id)
  unfolding require_role_coverage
  require_role_coverage-Keeps actor role_id = Keeps-bind I _ _ (h.role_grants role_id) λ grants.
      Keeps-bind I _ _ (Keeps-lift I _) λ _. each_step-Keeps I _ grants (
        All-every _ grants
          λ g. require_grant-Keeps actor g.permission g.scope g.workspace_roles false)

  -- The role that it answers with is live.
  pub current_role-Yields :
      (role_id : Text) (is_expected : Role → Bool)
      → Yields I (λ r. r.deleted ≡ false) (current_role tx m role_id is_expected)
  unfolding current_role pure
  current_role-Yields role_id is_expected s a s' e kept =
      let (role, s1, read, e1) = bind-ok _ _ e in
      let (u, s2, live, e2) = bind-ok _ _ e1 in
      let (v, s3, expected, e3) = bind-ok _ _ e2 in
      let same : role ≡ a = ground arith in
      let s3_s' : s3 ≡ s' = ground arith in
      let s2_s1 = (lift-ok (refuse role.deleted not_found) live).1 in
      let s3_s2 = (lift-ok (require (is_expected role) conflict) expected).1 in
      (
        subst I (sym s2_s1 ∙ sym s3_s2 ∙ s3_s') (h.role role_id s role s1 read kept),
        ground (arith, same, lift-ok (refuse role.deleted not_found) live),
      )

  pub guard_last_administrator-Keeps : Keeps I (guard_last_administrator tx m)
  unfolding guard_last_administrator
  guard_last_administrator-Keeps = Keeps-bind I _ _ (h.administrator m.controls) λ _. Keeps-lift I _

  bump_role_version-Keeps :
      (role : Role) (actor : Principal) (next : ℕ) (at : Time)
      → role.deleted ≡ false
      → Keeps I (bump_role_version tx m role actor next at)
  unfolding bump_role_version
  bump_role_version-Keeps role actor next at live =
      Keeps-bind I _ _ (h.updated_role _ _ live)
        λ _. Keeps-bind I _ _ (h.role_grants role.role_id) λ _. h.version _

  module _ (t : Readings) where
    pub create_role_body-Keeps :
        (actor : Principal) (meta : MutationMetadata) (role : Role)
        → Keeps I (create_role_body tx m t actor meta role)
    unfolding create_role_body
    create_role_body-Keeps actor meta role =
        Keeps-bind I _ _ (require_grant-Keeps actor _ _ _ _) λ _.
          Keeps-bind I _ _ (h.new_role role) λ _.
            Keeps-bind I _ _ (h.version _) λ _. Keeps-bind I _ _ (h.audit _) λ _. Keeps-pure I _

    insert_new_grant-Keeps :
        (g : RolePermissionGrant) → IsGood g → Keeps I (insert_new_grant tx m t g)
    unfolding insert_new_grant
    insert_new_grant-Keeps g good = Keeps-bind I _ _ (h.new_grant g good) λ _. Keeps-lift I _

    pub create_role_with_permissions_body-Keeps :
        (actor : Principal) (meta : MutationMetadata) (role : Role) (permissions : List Text)
        → All (λ p. IsGood (tenant_grant role.role_id p)) permissions
        → Keeps I (create_role_with_permissions_body tx m t actor meta role permissions)
    unfolding create_role_with_permissions_body
    create_role_with_permissions_body-Keeps actor meta role permissions good =
        Keeps-bind I _ _ (require_grant-Keeps actor _ _ _ _) λ _.
          Keeps-bind I _ _
            (each_step-Keeps I _ permissions
              (All-every _ permissions λ p. require_grant-Keeps actor p Scope.tenant [] false))
            λ _. Keeps-bind I _ _ (h.new_role role) λ _.
              Keeps-bind I _ _
                (each_step-Keeps I _ _ (
                  map-All _ (tenant_grant role.role_id) permissions (
                    All-map _ _ permissions
                      (λ p. insert_new_grant-Keeps (tenant_grant role.role_id p)) good)))
                λ _.
                  Keeps-bind I _ _ (h.version _)
                    λ _. Keeps-bind I _ _ (h.audit _) λ _. Keeps-pure I _

    pub update_role_body-Keeps :
        (actor : Principal) (meta : MutationMetadata) (input : UpdateRoleInput)
        → Keeps I (update_role_body tx m t actor meta input)
    unfolding update_role_body
    update_role_body-Keeps actor meta input =
        Keeps-bind I _ _ (require_grant-Keeps actor _ _ _ _) λ _.
          Yields-bind I (λ r. r.deleted ≡ false) _ _ (current_role-Yields _ _)
            λ role live. Keeps-bind I _ _ (h.updated_role _ _ live) λ _.
              Keeps-bind I _ _ (h.role_grants _) λ _.
                Keeps-bind I _ _ (h.version _) λ _. Keeps-bind I _ _ (h.audit _) λ _. Keeps-pure I _

    pub no_change-Keeps :
        (actor : Principal) (meta : MutationMetadata) (target : Target) (version : ℕ)
        → Keeps I (no_change tx m t actor meta target version)
    unfolding no_change
    no_change-Keeps actor meta target version = Keeps-bind I _ _ (h.audit _) λ _. Keeps-pure I _

    pub new_version-Keeps :
        (actor : Principal) (meta : MutationMetadata) (target : Target) (role : Role)
        → role.deleted ≡ false
        → Keeps I (new_version tx m t actor meta target role)
    unfolding new_version
    new_version-Keeps actor meta target role live =
        Keeps-bind I _ _ (bump_role_version-Keeps _ _ _ _ live)
          λ _. Keeps-bind I _ _ (h.audit _) λ _. Keeps-pure I _

    pub grant_permission_body-Keeps :
        (actor : Principal) (meta : MutationMetadata) (grant : RolePermissionGrant) (expected : ℕ)
        → IsGood grant
        → Keeps I (grant_permission_body tx m t actor meta grant expected)
    unfolding grant_permission_body
    grant_permission_body-Keeps actor meta grant expected good =
        Keeps-bind I _ _ (require_grant-Keeps actor _ _ _ _) λ _.
          Yields-bind I (λ r. r.deleted ≡ false) _ _ (current_role-Yields _ _)
            λ role live. Keeps-bind I _ _ (h.new_grant grant good) λ changed.
              Keeps-if I changed _ _ (new_version-Keeps actor meta _ role live)
                (no_change-Keeps actor meta _ role.version)

module _ {S : Type 0} (I : S → Type 0) (tx : TenantTx S) (h : Frame I tx) (m : Manager)
    (t : Readings) where
  pub delete_role_body-Keeps :
      (actor : Principal) (meta : MutationMetadata) (input : DeleteRoleInput)
      → Keeps I (delete_role_body tx m t actor meta input)
  unfolding delete_role_body
  delete_role_body-Keeps actor meta input =
      Keeps-bind I _ _ (require_grant-Keeps I AnyGrant tx h.growth m actor _ _ _ _) λ _.
        Yields-bind I (λ r. r.deleted ≡ false) _ _
          (current_role-Yields I AnyGrant tx h.growth m _ _)
          λ role live. Keeps-bind I _ _ (h.growth.role_grants _) λ _.
            Keeps-bind I _ _ (Keeps-lift I _) λ _. Keeps-bind I _ _ (h.growth.role_subjects _) λ _.
              Keeps-bind I _ _ (Keeps-lift I _) λ _. Keeps-bind I _ _ (h.tombstone _ _) λ _.
                Keeps-bind I _ _ (h.growth.version _)
                  λ _. Keeps-bind I _ _ (h.growth.audit _) λ _. Keeps-pure I _

  pub revoke_permission_body-Keeps :
      (actor : Principal) (meta : MutationMetadata) (grant : RolePermissionGrant) (expected : ℕ)
      → Keeps I (revoke_permission_body tx m t actor meta grant expected)
  unfolding revoke_permission_body
  revoke_permission_body-Keeps actor meta grant expected =
      Keeps-bind I _ _ (require_grant-Keeps I AnyGrant tx h.growth m actor _ _ _ _) λ _.
        Yields-bind I (λ r. r.deleted ≡ false) _ _
          (current_role-Yields I AnyGrant tx h.growth m _ _)
          λ role live. Keeps-bind I _ _ (h.old_grant grant) λ changed.
            Keeps-if I changed _ _
              (Keeps-bind I _ _ (guard_last_administrator-Keeps I AnyGrant tx h.growth m)
                λ _. new_version-Keeps I AnyGrant tx h.growth m t actor meta _ role live)
              (no_change-Keeps I AnyGrant tx h.growth m t actor meta _ role.version)
