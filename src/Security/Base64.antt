-- ===== src/Security/Base64.antt =====
-- `base64.RawStdEncoding`: no padding, and a decoder that drops line ends.
use amsonia_core.Base.{
  ℕ, suc, ◌+◌, ◌-◌, ◌*◌, ◌/◌, ◌%◌, ◌<◌, ◌≡◌, ◌≢◌, refl, List, [], ◌∷◌, Bool, ◌&&◌, ◌||◌, ltb, All,
  length, map, Option, none, some, if◌then◌else◌, ◌==◌, nat_key, arith,
}
use amsonia_core.Text.{Text}

-- The letter of a group of six bits, and the group of a letter.
unfoldable pub symbol : ℕ → ℕ
symbol i =
    if ltb i 26
    then i + 65
    else if ltb i 52
    then i + 71
    else if ltb i 62
    then i - 4
    else if i == 62
    then b'+'
    else b'/'

abbrev pub between : ℕ → ℕ → ℕ → Bool
between lo hi c = ltb lo (suc c) && ltb c (suc hi)

unfoldable pub sextet : ℕ → Option ℕ
sextet c =
    if between b'A' b'Z' c
    then some (c - 65)
    else if between b'a' b'z' c
    then some (c - 71)
    else if between b'0' b'9' c
    then some (c + 4)
    else if c == b'+'
    then some 62
    else if c == b'/'
    then some 63
    else none

-- Three bytes are four groups; one is two, and two are three.
unfoldable pub sextets : List ℕ → List ℕ
sextets [] = []
sextets (a ∷ []) = (a / 4) ∷ ((a % 4) * 16) ∷ []
sextets (a ∷ b ∷ []) = (a / 4) ∷ ((a % 4) * 16 + b / 16) ∷ ((b % 16) * 4) ∷ []
sextets (a ∷ b ∷ c ∷ r) =
    (a / 4) ∷ ((a % 4) * 16 + b / 16) ∷ ((b % 16) * 4 + c / 64) ∷ (c % 64) ∷ sextets r

-- A single group is too few; the bits that a last group has too many are not looked at.
unfoldable pub octets : List ℕ → Option (List ℕ)
octets [] = some []
octets (w ∷ []) = none
octets (w ∷ x ∷ []) = some ((w * 4 + x / 16) ∷ [])
octets (w ∷ x ∷ y ∷ []) = some ((w * 4 + x / 16) ∷ ((x % 16) * 16 + y / 4) ∷ [])
octets (w ∷ x ∷ y ∷ z ∷ r) = elim (octets r) [
  | none ↦ none
  | some out ↦ some ((w * 4 + x / 16) ∷ ((x % 16) * 16 + y / 4) ∷ ((y % 4) * 64 + z) ∷ out)
]

-- `EncodeToString`
unfoldable pub encode_to_string : List ℕ → Text
encode_to_string bytes = map symbol (sextets bytes)

-- The groups of a text, without its line ends.
unfoldable pub read_sextets : Text → Option (List ℕ)
read_sextets [] = some []
read_sextets (c ∷ s) =
    let rest = read_sextets s in
    if c == 10 || c == 13 then rest else elim (sextet c) [
      | none ↦ none
      | some x ↦ elim rest [ none ↦ none | some xs ↦ some (x ∷ xs) ]
    ]

-- `DecodeString`
unfoldable pub decode_string : Text → Option (List ℕ)
decode_string s = elim (read_sextets s) [ none ↦ none | some xs ↦ octets xs ]

-- `EncodedLen`
abbrev pub encoded_len : ℕ → ℕ
encoded_len n = n / 3 * 4 + (n % 3 * 8 + 5) / 6

abbrev pub IsByte : ℕ → Type 0
IsByte b = b < 256

abbrev pub IsSextet : ℕ → Type 0
IsSextet i = i < 64

sextet-symbol : (i : ℕ) → i < 64 → sextet (symbol i) ≡ some i
unfolding sextet symbol
sextet-symbol i h = ground arith

-- No letter is a line end or a dollar sign.
symbol_letter : (i : ℕ) → i < 64 → (symbol i ≢ 10) × (symbol i ≢ 13) × (symbol i ≢ b'$')
unfolding symbol
symbol_letter i h = (λ e. ground arith, λ e. ground arith, λ e. ground arith)

sextets-IsSextet : (bytes : List ℕ) → All IsByte bytes → All IsSextet (sextets bytes)
unfolding sextets
sextets-IsSextet [] h = tt
sextets-IsSextet (a ∷ []) h = (omega (arith, h.0), (omega arith, tt))
sextets-IsSextet (a ∷ b ∷ []) h = (omega (arith, h.0), (omega (arith, h.1.0), (omega arith, tt)))
sextets-IsSextet (a ∷ b ∷ c ∷ r) h = (
  omega (arith, h.0),
  (omega (arith, h.1.0), (omega (arith, h.1.1.0), (omega arith, sextets-IsSextet r h.1.1.1))),
)

octets-sextets : (bytes : List ℕ) → All IsByte bytes → octets (sextets bytes) ≡ some bytes
unfolding octets sextets
octets-sextets [] h = refl
octets-sextets (a ∷ []) h = ground (arith, h.0)
octets-sextets (a ∷ b ∷ []) h = ground (arith, h.0, h.1.0)
octets-sextets (a ∷ b ∷ c ∷ r) h = ground (arith, h.0, h.1.0, h.1.1.0, octets-sextets r h.1.1.1)

read_sextets-map : (xs : List ℕ) → All IsSextet xs → read_sextets (map symbol xs) ≡ some xs
unfolding read_sextets
read_sextets-map [] h = refl
read_sextets-map (x ∷ xs) h =
    ground (arith, read_sextets-map xs h.1, sextet-symbol x h.0, symbol_letter x h.0)

-- What is encoded is decoded to the same bytes.
pub decode_string-encode_to_string :
    (bytes : List ℕ) → All IsByte bytes → decode_string (encode_to_string bytes) ≡ some bytes
unfolding decode_string encode_to_string
decode_string-encode_to_string bytes h =
    ground
      (arith, read_sextets-map (sextets bytes) (sextets-IsSextet bytes h), octets-sextets bytes h)

length-map : (xs : List ℕ) → length (map symbol xs) ≡ length xs
length-map [] = refl
length-map (x ∷ xs) = omega (arith, length-map xs)

length-sextets : (bytes : List ℕ) → length (sextets bytes) ≡ encoded_len (length bytes)
unfolding sextets
length-sextets [] = refl
length-sextets (a ∷ []) = refl
length-sextets (a ∷ b ∷ []) = refl
length-sextets (a ∷ b ∷ c ∷ r) = ground (arith, length-sextets r)

-- The length of what is encoded.
pub length-encode_to_string :
    (bytes : List ℕ) → length (encode_to_string bytes) ≡ encoded_len (length bytes)
unfolding encode_to_string
length-encode_to_string bytes = ground (arith, length-map (sextets bytes), length-sextets bytes)

letters_lack : (xs : List ℕ) → All IsSextet xs → All (λ c. c ≢ b'$') (map symbol xs)
letters_lack [] h = tt
letters_lack (x ∷ xs) h = ((symbol_letter x h.0).2, letters_lack xs h.1)

pub encode_to_string_lacks :
    (bytes : List ℕ) → All IsByte bytes → All (λ c. c ≢ b'$') (encode_to_string bytes)
unfolding encode_to_string
encode_to_string_lacks bytes h = letters_lack (sextets bytes) (sextets-IsSextet bytes h)
