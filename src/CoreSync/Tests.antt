-- ===== src/CoreSync/Tests.antt =====
-- The theorems on internal/coresync/sync.go at one path and one manifest.
use amsonia_core.Base.{ℕ, ◌≡◌, ◌≢◌, ◌↔◌, refl, [], ◌∷◌, true, false, any, All, none}
use amsonia_core.Text.{codes}
use amsonia_core.Text.Split.{split}
use amsonia_core.Text.Space.{trim_space}
use amsonia_core.CoreSync.Paths.{is_safe_relative_path, is_forbidden, has_drive}
use amsonia_core.CoreSync.Paths.Elements.{IsPlain}
use amsonia_core.CoreSync.Manifest.{Manifest, check_entries, validate_manifest}
use amsonia_core.CoreSync.Manifest.Valid.{IsRepeatFree, IsSafe, validate_manifest_iff}
use amsonia_core.CoreSync.Paths.Safe.{is_safe_relative_path_iff}

is_safe_relative_path_iff_example : (is_safe_relative_path (codes "internal/go.mod") ≡ true) ↔ (
    All IsPlain (split b'/' (codes "internal/go.mod"))
    × (any is_forbidden (codes "internal/go.mod") ≡ false)
    × (has_drive (codes "internal/go.mod") ≡ false))
is_safe_relative_path_iff_example = is_safe_relative_path_iff (codes "internal/go.mod")

abbrev manifest : Manifest
manifest = record {
  schema_version = 1;
  source_repository = codes "amsonia";
  license = codes "Apache-2.0";
  entries = record { source = codes "a.go"; destination = codes "core/a.go" } ∷ [];
}

validate_manifest_iff_example : (validate_manifest manifest ≡ none) ↔ (
    (manifest.schema_version ≡ 1)
    × (trim_space (codes "amsonia") ≢ [])
    × (codes "Apache-2.0" ≡ codes "Apache-2.0")
    × (manifest.entries ≢ [])
    × All IsSafe manifest.entries
    × IsRepeatFree (codes "a.go" ∷ [])
    × IsRepeatFree (codes "core/a.go" ∷ []))
validate_manifest_iff_example = validate_manifest_iff manifest

accepted : validate_manifest manifest ≡ none
unfolding validate_manifest check_entries is_safe_relative_path trim_space
    amsonia_core.Base.ℕ_discrete amsonia_core.Text.Space.trim_back
    amsonia_core.Text.Space.trim_front amsonia_core.Text.Utf8.decode_rune
    amsonia_core.Text.Space.is_space amsonia_core.Text.Space.last_rune amsonia_core.Text.text_dec
    is_forbidden amsonia_core.CoreSync.Paths.is_abs amsonia_core.CoreSync.Paths.clean
    amsonia_core.CoreSync.Paths.clean_elements split amsonia_core.CoreSync.Paths.clean_step
    amsonia_core.Text.Split.join amsonia_core.CoreSync.Paths.climbs has_drive
accepted = refl
