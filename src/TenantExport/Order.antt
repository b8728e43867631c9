-- ===== src/TenantExport/Order.antt =====
-- `Marshal` of tenantexport/snapshot.go, and the order in which an adapter collects its rows.
use amsonia_core.Base.{◌≡◌, refl, ap, List, [], In, All-of_In, map, Bool, none, some}
use amsonia_core.Base.Sort.{sort_by}
use amsonia_core.Base.Canonical.{Ranks, TiesIn, sort_by-permᴰ}
use amsonia_core.Types.Records.{RoleVersion}
use amsonia_core.TenantExport.{
  Slice, Snapshot, role_before, grant_before, version_before, edge_before, cloned, canonical,
}
use amsonia_core.TenantExport.Ranking.{
  role_before-Ranks, grant_before-Ranks, version_before-Ranks, edge_before-Ranks, KeyedIn, role_key,
  grant_key, version_key, edge_key, role-TiesIn, grant-TiesIn, version-TiesIn, edge-TiesIn,
}
use mathlib.Core.List.{Permᴰ}

abbrev pub rows : {A : Type 0} → Slice A → List A
rows none = []
rows (some xs) = xs

-- Both slices are nil, or neither is and they hold the same rows in some order.
abbrev pub SameRows : {A : Type 0} → Slice A → Slice A → Type 0
SameRows none none = Unit
SameRows none (some ys) = ⊥
SameRows (some xs) none = ⊥
SameRows (some xs) (some ys) = Permᴰ xs ys

-- No two rows of the slice have one key.
abbrev pub IsKeyed : {A K : Type 0} → (A → K) → Slice A → Type 0
IsKeyed key s = KeyedIn (In (rows s)) key

sorted_unordered :
    {A : Type 0} (less : A → A → Bool) (f : List A → List A) (a b : Slice A)
    → Ranks less
    → TiesIn (In (rows a)) less
    → SameRows a b
    → cloned (λ xs. f (sort_by less xs)) a ≡ cloned (λ xs. f (sort_by less xs)) b
sorted_unordered less f none none ranks ties same = refl
sorted_unordered less f none (some ys) ranks ties same = absurd same
sorted_unordered less f (some xs) none ranks ties same = absurd same
sorted_unordered less f (some xs) (some ys) ranks ties same =
    ap (λ l. some (f l))
      (sort_by-permᴰ (In xs) less ranks ties same (All-of_In (In xs) xs (λ x m. m)))

-- Two snapshots with the same rows, collected in any order, have one canonical form, so the export
-- writes the same bytes for both: where no two rows of a table have the key of the table. The key of
-- a grant is its role, permission, scope and workspace roles, that of a version its role and number,
-- and that of an edge its two subjects and its role. The audit keeps its sequence.
pub canonical_unordered :
    (a b : Snapshot)
    → a.format ≡ b.format
    → a.tenant_id ≡ b.tenant_id
    → a.audit ≡ b.audit
    → SameRows a.roles b.roles
    → SameRows a.grants b.grants
    → SameRows a.versions b.versions
    → SameRows a.edges b.edges
    → IsKeyed role_key a.roles
    → IsKeyed grant_key a.grants
    → IsKeyed version_key a.versions
    → IsKeyed edge_key a.edges
    → canonical a ≡ canonical b
unfolding canonical
canonical_unordered a b format tenant audit roles grants versions edges role_keys grant_keys
      version_keys edge_keys =
    λ i. record {
      format = format i;
      tenant_id = tenant i;
      roles =
          sorted_unordered role_before (λ l. l) a.roles b.roles role_before-Ranks
            (role-TiesIn _ role_keys) roles i;
      grants =
          sorted_unordered grant_before (λ l. l) a.grants b.grants grant_before-Ranks
            (grant-TiesIn _ grant_keys) grants i;
      versions =
          sorted_unordered version_before
            (map (λ (v : RoleVersion). record v { grants = sort_by grant_before v.grants }))
            a.versions b.versions version_before-Ranks (version-TiesIn _ version_keys) versions i;
      edges =
          sorted_unordered edge_before (λ l. l) a.edges b.edges edge_before-Ranks
            (edge-TiesIn _ edge_keys) edges i;
      audit = audit i;
    }
