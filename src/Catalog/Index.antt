-- ===== src/Catalog/Index.antt =====
-- `NewCatalog` and `Lookup` of catalog.go.
use amsonia_core.Base.{
  ◌≡◌, ◌≢◌, refl, ◌↔◌, List, [], ◌∷◌, Option, none, some, ◌==◌, if◌then◌else◌, All, arith,
}
use amsonia_core.Base.Maps.{lookup, contains, insert, lookup-insert}
use amsonia_core.Text.{Text, text_key}
use amsonia_core.Types.Errors.{ok}
use amsonia_core.Types.Records.{PermissionDefinition}
use amsonia_core.Catalog.Keys.{validate_key}
use amsonia_core.Catalog.Grammar.{IsPermissionKey, validate_key_iff}
use amsonia_core.Catalog.{Catalog, index, new_catalog, lookup_key}

-- The first definition of a key.
abbrev pub find : Text → List PermissionDefinition → Option PermissionDefinition
find key [] = none
find key (d ∷ ds) = if d.key == key then some d else find key ds

-- No key is defined twice.
abbrev pub IsDistinct : List PermissionDefinition → Type 0
IsDistinct [] = Unit
IsDistinct (d ∷ ds) = (find d.key ds ≡ none) × IsDistinct ds

abbrev HasKeys : List PermissionDefinition → Type 0
HasKeys = All (λ d. IsPermissionKey d.key)

abbrev Lacks : Catalog → List PermissionDefinition → Type 0
Lacks c = All (λ d. lookup d.key c ≡ none)

Lacks-insert_iff :
    (c : Catalog) (d : PermissionDefinition) (ds : List PermissionDefinition)
    → Lacks (insert d.key d c) ds ↔ (Lacks c ds × (find d.key ds ≡ none))
Lacks-insert_iff c d [] = (λ h. (tt, refl), λ h. tt)
Lacks-insert_iff c d (x ∷ ds) =
    let ih = Lacks-insert_iff c d ds in
    let write = lookup-insert d.key x.key d c in
    (λ h. ground (arith, ih, write), λ h. ground (arith, ih, write))

Lacks-nil : (ds : List PermissionDefinition) → Lacks [] ds
unfolding lookup
Lacks-nil [] = tt
Lacks-nil (d ∷ ds) = (refl, Lacks-nil ds)

index-cons :
    (d : PermissionDefinition) (ds : List PermissionDefinition) (c : Catalog) {r : Catalog}
    → index (d ∷ ds) c ≡ ok r
    → (validate_key d.key ≡ ok tt) × (lookup d.key c ≡ none) × (index ds (insert d.key d c) ≡ ok r)
unfolding index contains
index-cons d ds c e = (ground arith, ground arith, ground arith)

index_iff :
    (ds : List PermissionDefinition) (c : Catalog)
    → ((r : Catalog) × (index ds c ≡ ok r)) ↔ (HasKeys ds × IsDistinct ds × Lacks c ds)
unfolding index contains
index_iff [] c = (λ h. (tt, tt, tt), λ h. (c, refl))
index_iff (d ∷ ds) c =
    let ih = index_iff ds (insert d.key d c) in
    let absent = Lacks-insert_iff c d ds in
    let valid = validate_key_iff d.key in
    (
      λ h.
          let (accepted, fresh, rest) = index-cons d ds c h.1 in
          let (keys, distinct, lacks) = ih.0 (h.0, rest) in
          let (lacks', unique) = absent.0 lacks in
          ((valid.0 accepted, keys), (unique, distinct), (fresh, lacks')),
      λ h.
          let (r, e) = ih.1 (h.0.1, h.1.1, absent.1 (h.2.1, h.1.0)) in
          let accepted = valid.1 h.0.0 in (r, ground arith),
    )

index-lookup :
    (ds : List PermissionDefinition) (c : Catalog) {r : Catalog} (key : Text)
    → index ds c ≡ ok r
    → lookup key r ≡ elim (lookup key c) as (λ o. Option PermissionDefinition) [
      | none ↦ find key ds
      | some d ↦ some d
    ]
unfolding index
index-lookup [] c key e = ground arith
index-lookup (d ∷ ds) c {r} key e =
    let (accepted, fresh, rest) = index-cons d ds c e in
    ground (arith, index-lookup ds (insert d.key d c) key rest, lookup-insert d.key key d c)

-- `NewCatalog` succeeds exactly on a list of definitions that is not empty, in which every key is a
-- word of the grammar and no key is repeated.
pub new_catalog_iff :
    (ds : List PermissionDefinition)
    → ((c : Catalog) × (new_catalog ds ≡ ok c))
      ↔ ((ds ≢ []) × All (λ d. IsPermissionKey d.key) ds × IsDistinct ds)
unfolding new_catalog
new_catalog_iff [] = (λ h. cc h.1, λ h. absurd (h.0 refl))
new_catalog_iff (d ∷ ds) = (
  λ h. let (keys, distinct, lacks) = (index_iff (d ∷ ds) []).0 h in (λ e. cc, keys, distinct),
  λ h. (index_iff (d ∷ ds) []).1 (h.1, h.2, Lacks-nil (d ∷ ds)),
)

-- In a new catalog `Lookup` finds the definition of each key, and nothing for other keys.
pub lookup_key-new_catalog :
    (ds : List PermissionDefinition) {c : Catalog} (key : Text)
    → new_catalog ds ≡ ok c
    → lookup_key c key ≡ find key ds
unfolding new_catalog lookup_key lookup
lookup_key-new_catalog [] key e = cc
lookup_key-new_catalog (d ∷ ds) key e = index-lookup (d ∷ ds) [] key e
