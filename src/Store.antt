-- ===== src/Store.antt =====
-- store.go: the persistence boundary. A transaction is a function of the tenant's state that
-- answers with a result and a new state, or fails; a failure gives no state, since it rolls back.
pub mod Steps
use amsonia_core.Base.{ℕ, Bool, List}
use amsonia_core.Text.{Text}
use amsonia_core.Types.Errors.{Error, Result, ok, err}
use amsonia_core.Types.Records.{
  EffectiveGrant, Role, RolePermissionGrant, SubjectRoleGrant, GrantEdge, RoleVersion,
  MutationAuditEvent, HostProvenance, ControlPermissions, PurgeResult,
}

abbrev pub Tx : Type 0 → Type 0 → Type 0
Tx S A = S → Result (A × S)

module _ {S : Type 0} where
  unfoldable pub pure : {A : Type 0} → A → Tx S A
  pure a s = ok (a, s)

  unfoldable pub fail : {A : Type 0} → Error → Tx S A
  fail e s = err e

  infixl 5 ◌>>=◌ ◌>>◌
  unfoldable pub ◌>>=◌ : {A B : Type 0} → Tx S A → (A → Tx S B) → Tx S B
  ◌>>=◌ m f s = elim (m s) [ err e ↦ err e | ok (a, s') ↦ f a s' ]

  abbrev pub ◌>>◌ : {B : Type 0} → Tx S (Unit {0}) → Tx S B → Tx S B
  m >> k = m >>= λ _. k

  unfoldable pub lift : {A : Type 0} → Result A → Tx S A
  lift (ok a) s = ok (a, s)
  lift (err e) s = err e

-- `TenantTx`, with the operations of `TenantReader` first.
pub record TenantTx (S : Type 0) : Type 0 where
  pub list_effective_grants : Text → Text → Tx S (List EffectiveGrant)
  pub get_role : Text → Tx S Role
  pub list_role_permission_grants : Text → Tx S (List RolePermissionGrant)
  pub list_subject_role_ids : Text → Tx S (List Text)
  pub list_role_subject_ids : Text → Tx S (List Text)
  pub has_grant_path : Text → Text → Tx S Bool
  pub has_administrator : ControlPermissions → Tx S Bool
  pub is_bootstrapped : Tx S Bool
  pub insert_role : Role → Tx S (Unit {0})
  pub update_role : Role → ℕ → Tx S (Unit {0})
  pub tombstone_role : Text → ℕ → Tx S (Unit {0})
  pub insert_role_permission_grant : RolePermissionGrant → Tx S Bool
  pub delete_role_permission_grant : RolePermissionGrant → Tx S Bool
  pub insert_subject_role_grant : SubjectRoleGrant → Tx S Bool
  pub delete_subject_role_grant : Text → Text → Tx S (SubjectRoleGrant × Bool)
  pub insert_grant_edge : GrantEdge → Tx S (Unit {0})
  pub delete_grant_edge : GrantEdge → Tx S (Unit {0})
  pub insert_role_version : RoleVersion → Tx S (Unit {0})
  pub insert_mutation_audit : MutationAuditEvent → Tx S (Unit {0})
  pub mark_bootstrapped : HostProvenance → Tx S (Unit {0})

-- `MutateTenant` of `Store`: the state of a store before and after.
pub record Store (S T : Type 0) : Type 1 where
  pub tx : TenantTx S
  pub mutate_tenant : (A : Type 0) → Text → Tx S A → T → Result A × T

-- `MaintenanceTx`: the export and the purge of one tenant; the export knows the tenant it is for.
pub record MaintenanceTx (S : Type 0) : Type 0 where
  pub export_tenant : Text → Tx S Text
  pub purge_tenant : MutationAuditEvent → Tx S PurgeResult

-- `MaintenanceStore`
pub record MaintenanceStore (S T : Type 0) : Type 1 where
  pub tx : MaintenanceTx S
  pub maintain_tenant : (A : Type 0) → Text → Tx S A → T → Result A × T
