-- ===== src/Catalog/Tests.antt =====
-- The theorems on catalog.go at concrete keys.
use mathlib.Core.List.{Perm}
use amsonia_core.Base.{◌≡◌, ◌≢◌, ◌↔◌, refl, List, [], ◌∷◌, All}
use amsonia_core.Base.Maps.{insert, contains}
use amsonia_core.Text.{Text, text_dec, codes}
use amsonia_core.Types.Errors.{ok}
use amsonia_core.Types.Records.{PermissionDefinition}
use amsonia_core.Catalog.{Catalog, new_catalog, index, lookup_key, sort_keys, catalog_keys}
use amsonia_core.Catalog.Keys.{
  validate_segment, validate_key, validate_workspace_role, parse_permission_key,
}
use amsonia_core.Catalog.Grammar.{
  IsSegment, IsPermissionKey, validate_segment_iff, validate_workspace_role_iff, validate_key_iff,
  parse_permission_key_iff,
}
use amsonia_core.Catalog.Index.{find, IsDistinct, new_catalog_iff, lookup_key-new_catalog}
use amsonia_core.Catalog.Sorting.{Ordered, Le, sort_keys-sorts}

abbrev read_key : Text
read_key = codes "docs:page:read"

abbrev edit_key : Text
edit_key = codes "docs:page:edit"

abbrev two_definitions : List PermissionDefinition
two_definitions =
    record { key = read_key; description = codes "read" }
    ∷ record { key = edit_key; description = codes "edit" }
    ∷ []

abbrev two_entries : Catalog
two_entries =
    (read_key, record { key = read_key; description = codes "read" })
    ∷ (edit_key, record { key = edit_key; description = codes "edit" })
    ∷ []

two_entries-built : new_catalog two_definitions ≡ ok two_entries
unfolding new_catalog index validate_key text_dec amsonia_core.Text.Space.trim_space
    amsonia_core.Text.Space.trim_back amsonia_core.Text.Space.trim_front
    amsonia_core.Text.Utf8.decode_rune amsonia_core.Text.Space.is_space
    amsonia_core.Text.Space.last_rune amsonia_core.Text.Split.split validate_segment
    amsonia_core.Text.Utf8.runes amsonia_core.Catalog.Keys.segment_rune contains insert
two_entries-built = refl

validate_segment_iff_example : (validate_segment (codes "page") ≡ ok tt) ↔ IsSegment (codes "page")
validate_segment_iff_example = validate_segment_iff (codes "page")

validate_workspace_role_iff_example :
    (validate_workspace_role (codes "editor") ≡ ok tt) ↔ IsSegment (codes "editor")
validate_workspace_role_iff_example = validate_workspace_role_iff (codes "editor")

validate_key_iff_example : (validate_key read_key ≡ ok tt) ↔ IsPermissionKey read_key
validate_key_iff_example = validate_key_iff read_key

parse_permission_key_iff_example :
    (parse_permission_key read_key ≡ ok read_key)
    ↔ ((read_key ≡ read_key) × IsPermissionKey read_key)
parse_permission_key_iff_example = parse_permission_key_iff read_key read_key

new_catalog_iff_example : ((c : Catalog) × (new_catalog two_definitions ≡ ok c)) ↔ (
    (two_definitions ≢ [])
    × All (λ d. IsPermissionKey d.key) two_definitions
    × IsDistinct two_definitions)
new_catalog_iff_example = new_catalog_iff two_definitions

lookup_key-new_catalog_example : lookup_key two_entries edit_key ≡ find edit_key two_definitions
lookup_key-new_catalog_example = lookup_key-new_catalog two_definitions edit_key two_entries-built

sort_keys-sorts_example :
    Ordered Le (sort_keys (read_key ∷ edit_key ∷ []))
    × Perm (sort_keys (read_key ∷ edit_key ∷ [])) (read_key ∷ edit_key ∷ [])
sort_keys-sorts_example = sort_keys-sorts (read_key ∷ edit_key ∷ [])
