-- ===== src/Text/Space.antt =====
-- `strings.TrimSpace` with `unicode.IsSpace`.
use amsonia_core.Base.{
  ℕ, zero, suc, ◌-◌, ◌≡◌, refl, [], ◌∷◌, Bool, true, ◌&&◌, ◌||◌, Option, none, some, ltb, leb, ◌==◌,
  nat_key, if◌then◌else◌, reverse, reverse-reverse, All, All-reverse, arith,
}
use amsonia_core.Text.Defs.{Text}
use amsonia_core.Text.Utf8.{decode_rune, decode_rune-ascii}

-- The runes with the property White_Space.
unfoldable pub is_space : ℕ → Bool
is_space r =
    (leb 9 r && leb r 13)
    || r == 0x20
    || r == 0x85
    || r == 0xA0
    || r == 0x1680
    || (leb 0x2000 r && leb r 0x200A)
    || r == 0x2028
    || r == 0x2029
    || r == 0x202F
    || r == 0x205F
    || r == 0x3000

-- The second argument counts the bytes of a space that are still to be dropped.
unfoldable pub trim_front : ℕ → Text → Text
trim_front k [] = []
trim_front zero (b ∷ s) = elim (decode_rune b s) [
  | none ↦ b ∷ s
  | some (r, n) ↦ let rest = trim_front (n - 1) s in if is_space r then rest else b ∷ s
]
trim_front (suc k) (b ∷ s) = trim_front k s

-- `utf8.RuneStart`
unfoldable pub starts_rune : ℕ → Bool
starts_rune b = ltb b 0x80 || leb 0xC0 b

-- a decoded rune counts only if it ends the text
unfoldable pub ending : ℕ → Option (ℕ × ℕ) → Option (ℕ × ℕ)
ending width none = none
ending width (some (r, n)) = if n == width then some (r, n) else none

-- `utf8.DecodeLastRuneInString`, on the bytes from the last to the first.
unfoldable pub last_rune : ℕ → Text → Option (ℕ × ℕ)
last_rune b [] = if ltb b 0x80 then some (b, 1) else none
last_rune b (c ∷ []) =
    if ltb b 0x80
    then some (b, 1)
    else if starts_rune c
    then ending 2 (decode_rune c (b ∷ []))
    else none
last_rune b (c ∷ d ∷ []) =
    if ltb b 0x80
    then some (b, 1)
    else if starts_rune c
    then ending 2 (decode_rune c (b ∷ []))
    else if starts_rune d
    then ending 3 (decode_rune d (c ∷ b ∷ []))
    else none
last_rune b (c ∷ d ∷ e ∷ s) =
    if ltb b 0x80
    then some (b, 1)
    else if starts_rune c
    then ending 2 (decode_rune c (b ∷ []))
    else if starts_rune d
    then ending 3 (decode_rune d (c ∷ b ∷ []))
    else if starts_rune e
    then ending 4 (decode_rune e (d ∷ c ∷ b ∷ []))
    else none

unfoldable pub trim_back : ℕ → Text → Text
trim_back k [] = []
trim_back zero (b ∷ s) = elim (last_rune b s) [
  | none ↦ b ∷ s
  | some (r, n) ↦ let rest = trim_back (n - 1) s in if is_space r then rest else b ∷ s
]
trim_back (suc k) (b ∷ s) = trim_back k s

unfoldable pub trim_space : Text → Text
trim_space s = reverse (trim_back 0 (reverse (trim_front 0 s)))

-- The visible ASCII bytes: neither spaces nor parts of longer runes.
abbrev pub IsVisible : ℕ → Type 0
IsVisible b = (ltb b 0x80 ≡ true) × (ltb 0x20 b ≡ true)

trim_front-visible : (s : Text) → All IsVisible s → trim_front 0 s ≡ s
unfolding trim_front is_space
trim_front-visible [] h = refl
trim_front-visible (b ∷ s) h = rw (decode_rune-ascii b s h.0.0, trim_front) (ground arith)

last_rune-ascii : (b : ℕ) (s : Text) → ltb b 0x80 ≡ true → last_rune b s ≡ some (b, 1)
unfolding last_rune
last_rune-ascii b [] h = ground arith
last_rune-ascii b (c ∷ []) h = ground arith
last_rune-ascii b (c ∷ d ∷ []) h = ground arith
last_rune-ascii b (c ∷ d ∷ e ∷ s) h = ground arith

trim_back-visible : (s : Text) → All IsVisible s → trim_back 0 s ≡ s
unfolding trim_back is_space
trim_back-visible [] h = refl
trim_back-visible (b ∷ s) h = rw (last_rune-ascii b s h.0.0, trim_back) (ground arith)

-- Visible text has nothing to trim.
pub trim_space-visible : (s : Text) → All IsVisible s → trim_space s ≡ s
unfolding trim_space
trim_space-visible s h =
    rw (trim_front-visible s h, trim_back-visible (reverse s) (All-reverse IsVisible s h))
      (reverse-reverse s)
