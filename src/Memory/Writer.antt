-- ===== src/Memory/Writer.antt =====
-- The mutating methods of `tenantTx` in memory.go.
use amsonia_core.Base.{
  ℕ, [], ◌∷◌, ◌++◌, Bool, true, false, not, ◌==◌, nat_key, none, some, if◌then◌else◌,
}
use amsonia_core.Base.Maps.{lookup, contains, insert, erase}
use amsonia_core.Text.{Text, text_key}
use amsonia_core.Text.Split.{join}
use amsonia_core.Types.Errors.{Result, ok, err, not_found, conflict, panicked}
use amsonia_core.Types.Enums.{GrantProvenance}
use amsonia_core.Types.Records.{
  Role, RolePermissionGrant, SubjectRoleGrant, GrantEdge, RoleVersion, MutationAuditEvent,
  HostProvenance, next_version,
}
use amsonia_core.Memory.State.{
  TenantState, GrantKey, EdgeKey, grant_key_key, edge_key_key, clone_grant, clone_snapshot, inner,
}

abbrev pub Write : Type 0 → Type 0
Write A = TenantState → Result (A × TenantState)

unfoldable pub insert_role : Role → Write (Unit {0})
insert_role role s =
    if contains role.role_id s.roles
    then err conflict
    else ok (
      tt,
      record s {
        roles = insert role.role_id role s.roles;
        role_perms = insert role.role_id [] s.role_perms;
        role_versions = insert role.role_id [] s.role_versions;
      },
    )

unfoldable pub update_role : Role → ℕ → Write (Unit {0})
update_role role expected s = elim (lookup role.role_id s.roles) [
  | none ↦ err not_found
  | some existing ↦
      if not (existing.version == expected)
      then err conflict
      else ok (
        tt,
        record s {
          roles = insert role.role_id (record role { version = next_version expected }) s.roles;
        },
      )
]

unfoldable pub tombstone_role : Text → ℕ → Write (Unit {0})
tombstone_role role_id expected s = elim (lookup role_id s.roles) [
  | none ↦ err not_found
  | some existing ↦
      if not (existing.version == expected)
      then err conflict
      else ok (
        tt,
        record s {
          roles =
              insert role_id (record existing { version = next_version expected; deleted = true })
                s.roles;
        },
      )
]

-- `grantKey{grant.Permission, grant.Scope, strings.Join(grant.WorkspaceRoles, ",")}`
unfoldable pub key_of : RolePermissionGrant → GrantKey
key_of grant = record {
  permission = grant.permission;
  scope = grant.scope;
  roles = join b',' grant.workspace_roles;
}

-- The write into the inner map panics if that map is nil.
unfoldable pub put_grant : RolePermissionGrant → Write Bool
put_grant grant s = elim (lookup grant.role_id s.role_perms) [
  | none ↦ err panicked
  | some grants ↦ ok (
    true,
    record s {
      role_perms =
          insert grant.role_id (insert (key_of grant) (clone_grant grant) grants) s.role_perms;
    },
  )
]

unfoldable pub insert_role_permission_grant : RolePermissionGrant → Write Bool
insert_role_permission_grant grant s = elim (lookup grant.role_id s.roles) [
  | none ↦ err not_found
  | some role ↦
      if role.deleted
      then err not_found
      else if contains (key_of grant) (inner grant.role_id s.role_perms)
      then ok (false, s)
      else put_grant grant s
]

unfoldable pub delete_role_permission_grant : RolePermissionGrant → Write Bool
delete_role_permission_grant grant s =
    if contains (key_of grant) (inner grant.role_id s.role_perms)
    then ok (
      true,
      record s {
        role_perms =
            insert grant.role_id (erase (key_of grant) (inner grant.role_id s.role_perms))
              s.role_perms;
      },
    )
    else ok (false, s)

-- The inner map is made where it is nil.
unfoldable pub insert_subject_role_grant : SubjectRoleGrant → Write Bool
insert_subject_role_grant grant s =
    if not (contains grant.role_id s.roles)
    then err not_found
    else if contains grant.role_id (inner grant.subject_id s.subject_roles)
    then ok (false, s)
    else ok (
      true,
      record s {
        subject_roles =
            insert grant.subject_id
              (insert grant.role_id grant (inner grant.subject_id s.subject_roles)) s.subject_roles;
      },
    )

abbrev pub no_grant : SubjectRoleGrant
no_grant = record {
  tenant_id = [];
  subject_id = [];
  role_id = [];
  grantor_subject_id = [];
  provenance = GrantProvenance.other [];
  granted_at = 0;
}

unfoldable pub delete_subject_role_grant : Text → Text → Write (SubjectRoleGrant × Bool)
delete_subject_role_grant subject_id role_id s =
    elim (lookup role_id (inner subject_id s.subject_roles)) [
      | none ↦ ok ((no_grant, false), s)
      | some grant ↦ ok (
        (grant, true),
        record s {
          subject_roles =
              insert subject_id (erase role_id (inner subject_id s.subject_roles)) s.subject_roles;
        },
      )
    ]

unfoldable pub edge_key_of : GrantEdge → EdgeKey
edge_key_of edge = record { grantor = edge.grantor; grantee = edge.grantee; role_id = edge.role_id }

unfoldable pub insert_grant_edge : GrantEdge → Write (Unit {0})
insert_grant_edge edge s =
    ok (tt, record s { grant_edges = insert (edge_key_of edge) edge s.grant_edges })

unfoldable pub delete_grant_edge : GrantEdge → Write (Unit {0})
delete_grant_edge edge s =
    ok (tt, record s { grant_edges = erase (edge_key_of edge) s.grant_edges })

unfoldable pub insert_role_version : RoleVersion → Write (Unit {0})
insert_role_version snapshot s = ok (
  tt,
  record s {
    role_versions =
        insert snapshot.role_id
          (insert snapshot.version (clone_snapshot snapshot)
            (inner snapshot.role_id s.role_versions))
          s.role_versions;
  },
)

unfoldable pub insert_mutation_audit : MutationAuditEvent → Write (Unit {0})
insert_mutation_audit event s = ok (tt, record s { audit = s.audit ++ event ∷ [] })

unfoldable pub mark_bootstrapped : HostProvenance → Write (Unit {0})
mark_bootstrapped provenance s =
    ok (tt, record s { bootstrapped = true; bootstrap_provenance = provenance })
