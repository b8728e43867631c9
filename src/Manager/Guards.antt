-- ===== src/Manager/Guards.antt =====
-- The checks and writes that the operations share inside a transaction.
use amsonia_core.Base.{
  ℕ, List, [], ◌∷◌, ◌++◌, Bool, true, false, not, ◌==◌, any, nat_key, if◌then◌else◌,
}
use amsonia_core.Base.Sort.{sort_by}
use amsonia_core.Text.{Text, text_key}
use amsonia_core.Text.Order.{text_ltb}
use amsonia_core.Text.Split.{join}
use amsonia_core.Types.Errors.{
  Result, ok, err, forbidden, not_found, conflict, invalid_policy, last_administrator, require,
  refuse, each,
}
use amsonia_core.Types.Enums.{Scope, scope_key, spelling}
use amsonia_core.Types.Records.{
  Principal, Role, RolePermissionGrant, RoleVersion, Time, previous_version,
}
use amsonia_core.Catalog.{lookup_key}
use amsonia_core.Policy.{allow_delegation}
use amsonia_core.Policy.Grants.{validate_grant}
use amsonia_core.Authorizer.Request.{is_some}
use amsonia_core.Memory.Reader.{effective}
use amsonia_core.Store.{Tx, TenantTx, pure, lift, ◌>>=◌, ◌>>◌}
use amsonia_core.Manager.{Manager}

-- `fmt.Sprint` of a slice of strings
abbrev pub sprint : List Text → Text
sprint roles = b'[' ∷ (join b' ' roles ++ b']' ∷ [])

unfoldable pub snapshot_before : RolePermissionGrant → RolePermissionGrant → Bool
snapshot_before a b =
    if not (a.permission == b.permission)
    then text_ltb a.permission b.permission
    else if not (a.scope == b.scope)
    then text_ltb (spelling a.scope) (spelling b.scope)
    else text_ltb (sprint a.workspace_roles) (sprint b.workspace_roles)

unfoldable pub sorted_grants : List RolePermissionGrant → List RolePermissionGrant
sorted_grants = sort_by snapshot_before

-- A loop of transaction steps over a slice.
unfoldable pub each_step {ℓ} :
    {A : Type ℓ} {S : Type 0} → (A → Tx S (Unit {0})) → List A → Tx S (Unit {0})
each_step f [] s = ok (tt, s)
each_step f (x ∷ xs) s = elim (f x s) [ err e ↦ err e | ok (_, s') ↦ each_step f xs s' ]

-- One grant of a role that is to be assigned, before coverage is looked at.
unfoldable pub check_role_grant : Manager → Text → RolePermissionGrant → Result (Unit {0})
check_role_grant m role_id grant =
    if not (grant.role_id == role_id)
    then err invalid_policy
    else if not (is_some (lookup_key m.catalog grant.permission))
    then err invalid_policy
    else validate_grant grant.permission (effective grant)

module _ {S : Type 0} (tx : TenantTx S) (m : Manager) where
  unfoldable pub require_grant : Principal → Text → Scope → List Text → Bool → Tx S (Unit {0})
  require_grant actor permission target roles exact = do
    grants ← tx.list_effective_grants actor.subject_id permission
    lift (each (validate_grant permission) grants)
    lift (require (any (allow_delegation permission target roles exact) grants) forbidden)

  -- `requireActor`, always called for the scope of the tenant.
  abbrev pub require_actor : Principal → Text → Tx S (Unit {0})
  require_actor actor permission = require_grant actor permission Scope.tenant [] true

  abbrev pub require_actor_for_grant : Principal → Text → Scope → List Text → Tx S (Unit {0})
  require_actor_for_grant actor permission target roles =
      require_grant actor permission target roles false

  unfoldable pub require_role_coverage : Principal → Text → Tx S (Unit {0})
  require_role_coverage actor role_id = do
    grants ← tx.list_role_permission_grants role_id
    lift (each (check_role_grant m role_id) grants)
    each_step
        (λ grant. require_actor_for_grant actor grant.permission grant.scope grant.workspace_roles)
        grants

  -- A live role at the version that the caller expects.
  unfoldable pub current_role : Text → (Role → Bool) → Tx S Role
  current_role role_id is_expected = do
    role ← tx.get_role role_id
    lift (refuse role.deleted not_found)
    lift (require (is_expected role) conflict)
    pure role

  unfoldable pub guard_last_administrator : Tx S (Unit {0})
  guard_last_administrator = do
    has ← tx.has_administrator m.controls
    lift (require has last_administrator)

  -- The snapshot of a role with its current grants, which the operations write.
  abbrev pub snapshot_of : Role → List RolePermissionGrant → Principal → Time → RoleVersion
  snapshot_of role grants actor at = record {
    tenant_id = role.tenant_id;
    role_id = role.role_id;
    version = role.version;
    name = role.name;
    description = role.description;
    grants = grants;
    deleted = false;
    created_at = at;
    created_by_subject_id = actor.subject_id;
    bootstrap_initiator = [];
  }

  unfoldable pub bump_role_version : Role → Principal → ℕ → Time → Tx S (Unit {0})
  bump_role_version role actor next at = do
    let bumped = record role { version = next }
    tx.update_role bumped (previous_version next)
    grants ← tx.list_role_permission_grants role.role_id
    tx.insert_role_version (snapshot_of bumped (sorted_grants grants) actor at)
