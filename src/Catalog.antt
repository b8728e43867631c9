-- ===== src/Catalog.antt =====
-- catalog.go: the grammar of permission keys and the validated catalog.
pub mod Keys
pub mod Grammar
pub mod Index
pub mod Sorting
mod Tests
use amsonia_core.Base.{
  ℕ, List, [], ◌∷◌, ◌++◌, Option, none, some, Bool, true, false, not, ◌&&◌, ◌||◌, ltb, leb, ◌==◌,
  length, if◌then◌else◌, map, nat_key, reverse,
}
use amsonia_core.Text.{Text, text_key, is_empty}
use amsonia_core.Text.Order.{text_ltb}
use amsonia_core.Base.Maps.{Map, lookup, contains, insert, keys}
use amsonia_core.Types.Errors.{Result, ok, err, invalid_input, refuse, require, each, ◌>>=◌, ◌>>◌}
use amsonia_core.Types.Records.{PermissionDefinition}
use Keys.{validate_key}

-- The map `byKey`.
abbrev pub Catalog : Type 0
Catalog = Map Text PermissionDefinition

unfoldable pub index : List PermissionDefinition → Catalog → Result Catalog
index [] by_key = ok by_key
index (d ∷ ds) by_key =
    let rest = index ds (insert d.key d by_key) in
    do validate_key d.key; refuse (contains d.key by_key) invalid_input; rest

unfoldable pub new_catalog : List PermissionDefinition → Result Catalog
new_catalog definitions = do refuse (is_empty definitions) invalid_input; index definitions []

unfoldable pub lookup_key : Catalog → Text → Option PermissionDefinition
lookup_key catalog key = lookup key catalog

-- The inner loop of `sortKeys`: `key` moves to the left past greater keys. The first argument is
-- what stands to the left of it, the nearest first, the last what it has passed.
unfoldable pub sink : List Text → Text → List Text → List Text
sink [] key right = key ∷ right
sink (k ∷ left) key right =
    let moved = sink left key (k ∷ right) in
    if text_ltb key k then moved else reverse (k ∷ left) ++ key ∷ right

unfoldable pub sort_from : List Text → List Text → List Text
sort_from sorted [] = sorted
sort_from sorted (k ∷ rest) = sort_from (sink (reverse sorted) k []) rest

unfoldable pub sort_keys : List Text → List Text
sort_keys [] = []
sort_keys (k ∷ ks) = sort_from (k ∷ []) ks

-- `Keys()`; the map's order stands for the order of Go's `range`.
unfoldable pub catalog_keys : Catalog → List Text
catalog_keys catalog = sort_keys (keys catalog)
