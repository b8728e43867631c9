-- ===== src/CoreSync/Paths.antt =====
-- internal/coresync/sync.go: relative paths, with what they use of the package `path`.
pub mod Elements
pub mod Safe
use amsonia_core.Base.{
  ℕ, List, [], ◌∷◌, Bool, true, false, not, ◌&&◌, ◌||◌, any, ltb, leb, length, ◌==◌, nat_key,
  reverse, if◌then◌else◌,
}
use amsonia_core.Text.{Text, text_key, codes, is_empty}
use amsonia_core.Text.Split.{split, join}

-- `path.IsAbs`
unfoldable pub is_abs : Text → Bool
is_abs [] = false
is_abs (c ∷ s) = c == b'/'

-- `path.Clean` keeps the elements that it has so far, the last first. `..` takes the last one back.
unfoldable pub go_up : Bool → Text → List Text → List Text
go_up rooted up [] = if rooted then [] else up ∷ []
go_up rooted up (last ∷ out) = if last == codes ".." then up ∷ last ∷ out else out

unfoldable pub clean_step : Bool → List Text → Text → List Text
clean_step rooted out element =
    if is_empty element || element == codes "."
    then out
    else if element == codes ".."
    then go_up rooted element out
    else element ∷ out

unfoldable pub clean_elements : Bool → List Text → List Text → List Text
clean_elements rooted out [] = reverse out
clean_elements rooted out (element ∷ elements) =
    clean_elements rooted (clean_step rooted out element) elements

-- `path.Clean`
unfoldable pub clean : Text → Text
clean value =
    let elements = clean_elements (is_abs value) [] (split b'/' value) in
    if is_abs value
    then b'/' ∷ join b'/' elements
    else if is_empty elements
    then codes "."
    else join b'/' elements

unfoldable pub is_ascii_alpha : ℕ → Bool
is_ascii_alpha c = (leb b'a' c && leb c b'z') || (leb b'A' c && leb c b'Z')

-- The backslash, the byte 0 and what a shell expands.
unfoldable pub is_forbidden : ℕ → Bool
is_forbidden c =
    c == 92 || c == 0 || c == b'*' || c == b'?' || c == b'[' || c == b']' || c == b'{' || c == b'}'

-- `value[1] == ':'` behind a letter.
unfoldable pub has_drive : Text → Bool
has_drive (a ∷ b ∷ s) = b == b':' && is_ascii_alpha a
has_drive _ = false

-- `strings.HasPrefix(value, "../")`
unfoldable pub climbs : Text → Bool
climbs (a ∷ b ∷ c ∷ s) = a == b'.' && b == b'.' && c == b'/'
climbs _ = false

unfoldable pub is_safe_relative_path : Text → Bool
is_safe_relative_path value =
    if is_empty value || value == codes "." || any is_forbidden value
    then false
    else if is_abs value || not (clean value == value) || value == codes ".." || climbs value
    then false
    else not (has_drive value)
