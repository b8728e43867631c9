-- ===== src/Catalog/Keys.antt =====
-- `PermissionKey.Validate`, `ParsePermissionKey` and the grammar of one segment.
use amsonia_core.Base.{ℕ, Bool, not, ◌&&◌, ◌||◌, ltb, leb, ◌==◌, length, nat_key}
use amsonia_core.Text.{Text, text_key, is_empty}
use amsonia_core.Text.Utf8.{runes}
use amsonia_core.Text.Space.{trim_space}
use amsonia_core.Text.Split.{split}
use amsonia_core.Types.Errors.{
  Result, ok, invalid_input, invalid_policy, refuse, require, each, ◌>>◌,
}

abbrev pub min_segments : ℕ
min_segments = 3

abbrev pub max_segment_length : ℕ
max_segment_length = 64

abbrev pub is_lower : ℕ → Bool
is_lower r = leb b'a' r && leb r b'z'

abbrev pub is_word : ℕ → Bool
is_word r = is_lower r || (leb b'0' r && leb r b'9') || r == b'_'

-- One round of the loop over the runes of a segment.
unfoldable pub segment_rune : ℕ × ℕ → Result (Unit {0})
segment_rune (i, r) = do
  refuse (ltb 127 r || r == b'*') invalid_input
  require (is_word r) invalid_input
  refuse (i == 0 && not (is_lower r)) invalid_input
  ok tt

unfoldable pub validate_segment : Text → Result (Unit {0})
validate_segment seg = do
  refuse (is_empty seg) invalid_input
  refuse (ltb max_segment_length (length seg)) invalid_input
  each segment_rune (runes seg)

unfoldable pub validate_key : Text → Result (Unit {0})
validate_key raw = do
  refuse (is_empty raw) invalid_input
  require (trim_space raw == raw) invalid_input
  let segments = split b':' raw
  require (length segments == min_segments) invalid_input
  each validate_segment segments

unfoldable pub parse_permission_key : Text → Result Text
parse_permission_key raw = do
  require (trim_space raw == raw) invalid_input
  validate_key raw
  ok raw

-- `validateWorkspaceRole` of authorizer.go, the same grammar for the name of a workspace role.
unfoldable pub workspace_role_rune : ℕ × ℕ → Result (Unit {0})
workspace_role_rune (i, r) = do
  refuse (ltb 127 r || not (is_word r)) invalid_policy
  refuse (i == 0 && not (is_lower r)) invalid_policy
  ok tt

unfoldable pub validate_workspace_role : Text → Result (Unit {0})
validate_workspace_role role = do
  refuse (is_empty role) invalid_policy
  refuse (ltb max_segment_length (length role)) invalid_policy
  each workspace_role_rune (runes role)
