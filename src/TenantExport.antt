-- ===== src/TenantExport.antt =====
-- internal/tenantexport/snapshot.go: the canonical snapshot of a tenant.
pub mod Ranking
pub mod Order
use amsonia_core.Base.{
  ℕ, ◌+◌, ◌%◌, ◌^◌, Option, none, some, List, [], ◌∷◌, Bool, true, false, ltb, map, ◌==◌, nat_key,
  if◌then◌else◌,
}
use amsonia_core.Base.Sort.{sort_by}
use amsonia_core.Text.{Text, text_key}
use amsonia_core.Text.Order.{text_ltb}
use amsonia_core.Types.Enums.{spelling}
use amsonia_core.Types.Records.{
  Role, RolePermissionGrant, RoleVersion, GrantEdge, MutationAuditEvent,
}

-- A slice that may be nil, which the JSON library writes as null and not as an empty array.
abbrev pub Slice : Type 0 → Type 0
Slice A = Option (List A)

pub record Snapshot : Type 0 where
  pub format : Text
  pub tenant_id : Text
  pub roles : Slice Role
  pub grants : Slice RolePermissionGrant
  pub versions : Slice RoleVersion
  pub edges : Slice GrantEdge
  pub audit : Slice MutationAuditEvent

-- `slices.Compare(a, b) < 0`
unfoldable pub texts_before : List Text → List Text → Bool
texts_before [] [] = false
texts_before [] (y ∷ ys) = true
texts_before (x ∷ xs) [] = false
texts_before (x ∷ xs) (y ∷ ys) =
    let rest = texts_before xs ys in if x == y then rest else text_ltb x y

-- `cmp.Or(cmp.Compare(a, b), rest) < 0`
abbrev pub text_then : Text → Text → Bool → Bool
text_then a b rest = if a == b then rest else text_ltb a b

unfoldable pub role_before : Role → Role → Bool
role_before a b = text_ltb a.role_id b.role_id

unfoldable pub grant_before : RolePermissionGrant → RolePermissionGrant → Bool
grant_before a b = text_then a.role_id b.role_id (
    text_then a.permission b.permission (
      text_then (spelling a.scope) (spelling b.scope)
        (texts_before a.workspace_roles b.workspace_roles)))

-- `cmp.Compare(a, b) < 0` on int64: the bit patterns are compared from the least number on.
unfoldable pub int64_before : ℕ → ℕ → Bool
int64_before a b = ltb ((a + 2 ^ 63) % 2 ^ 64) ((b + 2 ^ 63) % 2 ^ 64)

unfoldable pub version_before : RoleVersion → RoleVersion → Bool
version_before a b = text_then a.role_id b.role_id (int64_before a.version b.version)

unfoldable pub edge_before : GrantEdge → GrantEdge → Bool
edge_before a b =
    text_then a.grantor b.grantor (text_then a.grantee b.grantee (text_ltb a.role_id b.role_id))

abbrev pub sorted_grants : List RolePermissionGrant → List RolePermissionGrant
sorted_grants = sort_by grant_before

-- `slices.Clone` and what follows it; the clone of nil is nil.
abbrev pub cloned : {A : Type 0} → (List A → List A) → Slice A → Slice A
cloned f none = none
cloned f (some xs) = some (f xs)

-- `Marshal` before the JSON library writes it: the audit keeps its sequence.
unfoldable pub canonical : Snapshot → Snapshot
canonical snapshot = record snapshot {
  roles = cloned (sort_by role_before) snapshot.roles;
  grants = cloned sorted_grants snapshot.grants;
  versions =
      cloned
        (λ versions.
          map (λ (v : RoleVersion). record v { grants = sorted_grants v.grants })
            (sort_by version_before versions))
        snapshot.versions;
  edges = cloned (sort_by edge_before) snapshot.edges;
}
