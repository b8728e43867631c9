-- ===== src/Types/Ids.antt =====
-- Validation of identifiers, role names and audit metadata.
use amsonia_core.Base.{ℕ, List, Bool, not, ◌&&◌, ◌||◌, ltb, leb, ◌==◌, nat_key, length, all}
use amsonia_core.Text.{Text, text_key, is_empty}
use amsonia_core.Text.Utf8.{runes, valid_string}
use amsonia_core.Text.Space.{trim_space}
use amsonia_core.Types.Errors.{Result, ok, invalid_input, require, refuse, ◌>>◌}
use amsonia_core.Types.Records.{MutationMetadata}

-- `r < 0x20 || r == 0x7f`
unfoldable pub is_control : ℕ × ℕ → Bool
is_control (i, r) = ltb r 0x20 || r == 0x7F

abbrev pub no_control : List (ℕ × ℕ) → Bool
no_control = all (λ e. not (is_control e))

unfoldable pub is_valid_utf8_no_control : Text → Bool
is_valid_utf8_no_control v = valid_string v && no_control (runes v)

unfoldable pub validate_opaque_id : Text → Result (Unit {0})
validate_opaque_id v = do
  refuse (is_empty v) invalid_input
  refuse (ltb 256 (length v)) invalid_input
  require (is_valid_utf8_no_control v) invalid_input
  ok tt

unfoldable pub validate_role_name : Text → Result (Unit {0})
validate_role_name name = do
  let trimmed = trim_space name
  refuse (is_empty trimmed) invalid_input
  refuse (ltb 64 (length (runes trimmed))) invalid_input
  require (no_control (runes trimmed)) invalid_input
  ok tt

unfoldable pub is_reason_rune : ℕ × ℕ → Bool
is_reason_rune (i, r) =
    not (ltb 127 r)
    && ((leb b'a' r && leb r b'z') || (leb b'0' r && leb r b'9') || r == b'_' || r == b'-')

unfoldable pub validate_meta : MutationMetadata → Result (Unit {0})
validate_meta meta = do
  refuse (is_empty (trim_space meta.reason_code)) invalid_input
  refuse (ltb 64 (length meta.reason_code)) invalid_input
  require (all is_reason_rune (runes meta.reason_code)) invalid_input
  refuse (ltb 128 (length meta.request_id)) invalid_input
  ok tt
