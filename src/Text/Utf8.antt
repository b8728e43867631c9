-- ===== src/Text/Utf8.antt =====
-- `unicode/utf8`: decoding one rune, `for i, r := range s`, and `utf8.ValidString`.
use amsonia_core.Base.{
  ℕ, zero, suc, ◌+◌, ◌-◌, ◌*◌, ◌≤◌, ◌≡◌, inl, inr, refl, List, [], ◌∷◌, Bool, true, false, ◌&&◌,
  Option, none, some, Option-cases, ltb, leb, ◌==◌, nat_key, if◌then◌else◌, arith,
}
use amsonia_core.Text.Defs.{Text}

abbrev between : ℕ → ℕ → ℕ → Bool
between lo hi b = leb lo b && leb b hi

abbrev continues : ℕ → Bool
continues = between 0x80 0xBF

decode2 : ℕ → Text → Option (ℕ × ℕ)
decode2 b [] = none
decode2 b (c ∷ s) = if continues c then some ((b - 0xC0) * 64 + (c - 0x80), 2) else none

-- The second byte of some leading bytes has a narrower range.
decode3 : ℕ → ℕ → ℕ → Text → Option (ℕ × ℕ)
decode3 lo hi b (c ∷ d ∷ s) =
    if between lo hi c && continues d
    then some ((b - 0xE0) * 4096 + (c - 0x80) * 64 + (d - 0x80), 3)
    else none
decode3 lo hi b _ = none

decode4 : ℕ → ℕ → ℕ → Text → Option (ℕ × ℕ)
decode4 lo hi b (c ∷ d ∷ e ∷ s) =
    if between lo hi c && continues d && continues e
    then some ((b - 0xF0) * 262144 + (c - 0x80) * 4096 + (d - 0x80) * 64 + (e - 0x80), 4)
    else none
decode4 lo hi b _ = none

-- The rune that begins with byte `b` before the bytes `s`, and its width; `none` for
-- `(RuneError, 1)`, an invalid sequence.
unfoldable pub decode_rune : ℕ → Text → Option (ℕ × ℕ)
unfolding decode2 decode3 decode4
decode_rune b s =
    if ltb b 0x80
    then some (b, 1)
    else if ltb b 0xC2
    then none
    else if ltb b 0xE0
    then decode2 b s
    else if ltb b 0xF0
    then decode3 (if b == 0xE0 then 0xA0 else 0x80) (if b == 0xED then 0x9F else 0xBF) b s
    else if ltb b 0xF5
    then decode4 (if b == 0xF0 then 0x90 else 0x80) (if b == 0xF4 then 0x8F else 0xBF) b s
    else none

abbrev pub rune_error : ℕ
rune_error = 0xFFFD

-- The second argument counts the bytes of the current rune that are still to be passed.
unfoldable pub runes_from : ℕ → ℕ → Text → List (ℕ × ℕ)
runes_from i k [] = []
runes_from i zero (b ∷ s) = elim (decode_rune b s) [
  | none ↦ (i, rune_error) ∷ runes_from (i + 1) 0 s
  | some (r, n) ↦ (i, r) ∷ runes_from (i + 1) (n - 1) s
]
runes_from i (suc k) (b ∷ s) = runes_from (i + 1) k s

-- What `for i, r := range s` goes through: byte positions and runes.
unfoldable pub runes : Text → List (ℕ × ℕ)
unfolding runes_from
runes s = runes_from 0 0 s

valid_from : ℕ → Text → Bool
valid_from k [] = true
valid_from zero (b ∷ s) = elim (decode_rune b s) [
  | none ↦ false
  | some (r, n) ↦ valid_from (n - 1) s
]
valid_from (suc k) (b ∷ s) = valid_from k s

unfoldable pub valid_string : Text → Bool
unfolding valid_from
valid_string s = valid_from 0 s

pub decode_rune-ascii : (b : ℕ) (s : Text) → ltb b 0x80 ≡ true → decode_rune b s ≡ some (b, 1)
unfolding decode_rune
decode_rune-ascii b s h = ground arith

-- A rune that does not begin with an ASCII byte is no ASCII character.
pub decode_rune-high :
    (b : ℕ) (s : Text) {r n : ℕ} → 0x80 ≤ b → decode_rune b s ≡ some (r, n) → 128 ≤ r
unfolding decode_rune
decode_rune-high b [] h e = ground arith
decode_rune-high b (c ∷ []) h e = ground arith
decode_rune-high b (c ∷ d ∷ []) h e = ground arith
decode_rune-high b (c ∷ d ∷ x ∷ s) h e = ground arith

pub runes_from-nil : (i : ℕ) → runes_from i 0 [] ≡ []
unfolding runes_from
runes_from-nil i = refl

module _ (i : ℕ) (b : ℕ) (s : Text) where
  pub runes_from-ascii :
      ltb b 0x80 ≡ true → runes_from i 0 (b ∷ s) ≡ (i, b) ∷ runes_from (i + 1) 0 s
  unfolding runes_from
  runes_from-ascii h = rw (decode_rune-ascii b s h, runes_from)

  pub runes_from-high :
      ltb b 0x80 ≡ false
      → (r : ℕ) × (rest : List (ℕ × ℕ)) × (runes_from i 0 (b ∷ s) ≡ (i, r) ∷ rest) × (128 ≤ r)
  unfolding runes_from
  runes_from-high h = elim (Option-cases (decode_rune b s)) [
    | inl e ↦ (rune_error, runes_from (i + 1) 0 s, rw (e, runes_from), omega arith)
    | inr ((r, n), e) ↦
        (r, runes_from (i + 1) (n - 1) s, rw (e, runes_from), decode_rune-high b s (ground arith) e)
  ]
