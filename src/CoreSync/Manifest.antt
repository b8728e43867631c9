-- ===== src/CoreSync/Manifest.antt =====
-- internal/coresync/sync.go: which manifests are valid.
pub mod Valid
use amsonia_core.Base.{
  ℕ, List, [], ◌∷◌, Bool, true, false, not, any, ◌==◌, nat_key, Option, none, some, if◌then◌else◌,
}
use amsonia_core.Text.{Text, text_key, codes, is_empty}
use amsonia_core.Text.Space.{trim_space}
use amsonia_core.CoreSync.Paths.{is_safe_relative_path}

pub record Entry : Type 0 where
  pub source : Text
  pub destination : Text

-- `Manifest`; the version is kept as its bit pattern.
pub record Manifest : Type 0 where
  pub schema_version : ℕ
  pub source_repository : Text
  pub license : Text
  pub entries : List Entry

-- The errors of `ValidateManifest`, each by its message.
pub data ManifestError : Type 0 where
  schema_version : ManifestError
  source_repository : ManifestError
  license : ManifestError
  no_entries : ManifestError
  unsafe_source : Text → ManifestError
  unsafe_destination : Text → ManifestError
  duplicate_source : Text → ManifestError
  duplicate_destination : Text → ManifestError

-- The loop over the entries, with the sources and the destinations that it has seen.
unfoldable pub check_entries : List Text → List Text → List Entry → Option ManifestError
check_entries sources destinations [] = none
check_entries sources destinations (entry ∷ entries) =
    let rest = check_entries (entry.source ∷ sources) (entry.destination ∷ destinations) entries in
    if not (is_safe_relative_path entry.source)
    then some (unsafe_source entry.source)
    else if not (is_safe_relative_path entry.destination)
    then some (unsafe_destination entry.destination)
    else if any (λ s. s == entry.source) sources
    then some (duplicate_source entry.source)
    else if any (λ s. s == entry.destination) destinations
    then some (duplicate_destination entry.destination)
    else rest

-- `ValidateManifest`; no error is `none`.
unfoldable pub validate_manifest : Manifest → Option ManifestError
validate_manifest m =
    if not (m.schema_version == 1)
    then some schema_version
    else if is_empty (trim_space m.source_repository)
    then some source_repository
    else if not (m.license == codes "Apache-2.0")
    then some license
    else if is_empty m.entries
    then some no_entries
    else check_entries [] [] m.entries
