-- ===== src/Security/Tests.antt =====
-- The theorems on password.go at one hash, with a derivation of keys that answers with one byte repeated.
use amsonia_core.Base.{
  ℕ, zero, suc, ◌<◌, ◌^◌, ◌≤◌, ◌≡◌, refl, List, [], ◌∷◌, Bool, true, false, all, All, length,
  Option, some, ap, arith,
}
use amsonia_core.Text.{Text, codes, is_empty}
use amsonia_core.Text.Split.{split}
use amsonia_core.Security.Decimal.{is_digit, digits_value, parse_decimal_uint}
use amsonia_core.Security.Base64.{IsByte}
use amsonia_core.Security.Password.{
  PasswordHasher, valid_password_input, valid_argon2_config, parse_argon2_parameters,
  parameters_text, hash, verify,
}
use amsonia_core.Security.Password.Parameters.{parse_argon2_parameters-parameters_text}
use amsonia_core.Security.Password.RoundTrip.{verify-hash}
use amsonia_core.Security.Password.Verified.{Accepted, verify-Accepted}

abbrev repeated : ℕ → ℕ → List ℕ
repeated b zero = []
repeated b (suc n) = b ∷ repeated b n

abbrev toy_key : Text → List ℕ → ℕ → ℕ → ℕ → ℕ → List ℕ
toy_key password salt iterations memory lanes key_len = repeated 7 key_len

repeated_bytes : (n : ℕ) → (length (repeated 7 n) ≡ n) × All IsByte (repeated 7 n)
repeated_bytes zero = (refl, tt)
repeated_bytes (suc n) =
    let (same, bytes) = repeated_bytes n in (omega (arith, same), (omega arith, bytes))

toy_keys :
    (password : Text) (salt : List ℕ) (iterations memory lanes key_len : ℕ)
    → (length (toy_key password salt iterations memory lanes key_len) ≡ key_len)
      × All IsByte (toy_key password salt iterations memory lanes key_len)
toy_keys password salt iterations memory lanes key_len = repeated_bytes key_len

abbrev hasher : PasswordHasher
hasher = record { memory = 64; iterations = 1; parallelism = 1; key_len = 16 }

abbrev salt : List ℕ
salt = repeated 0 16

abbrev encoded : Text
encoded = codes "argon2id$v=19$m=64,t=1,p=1$AAAAAAAAAAAAAAAAAAAAAA$BwcHBwcHBwcHBwcHBwcHBw"

hashed : hash toy_key (some salt) hasher (codes "pw") ≡ some encoded
unfolding hash valid_password_input amsonia_core.Text.Utf8.valid_string
    amsonia_core.Text.Utf8.decode_rune amsonia_core.Text.Utf8.runes valid_argon2_config
    amsonia_core.Base.ℕ_discrete parameters_text amsonia_core.Security.Decimal.decimal
    amsonia_core.Security.Decimal.digits amsonia_core.Security.Base64.encode_to_string
    amsonia_core.Security.Base64.sextets amsonia_core.Security.Base64.symbol
hashed = refl

salt_bytes : All IsByte salt
salt_bytes = omega arith

verify-hash_example : verify toy_key hasher (codes "pw") encoded ≡ true
verify-hash_example = verify-hash toy_key toy_keys hasher (codes "pw") salt refl salt_bytes hashed

verified : verify toy_key hasher (codes "pw") encoded ≡ true
unfolding verify valid_password_input amsonia_core.Text.Utf8.valid_string
    amsonia_core.Text.Utf8.decode_rune amsonia_core.Text.Utf8.runes valid_argon2_config
    amsonia_core.Base.ℕ_discrete amsonia_core.Security.Password.split_parts split
    amsonia_core.Text.text_dec amsonia_core.Security.Password.verify_parts parse_argon2_parameters
    amsonia_core.Security.Password.read_tokens amsonia_core.Security.Password.read_token
    amsonia_core.Security.Password.bit_size parse_decimal_uint
    amsonia_core.Security.Decimal.parse_uint amsonia_core.Base.list_dec
    amsonia_core.Security.Base64.decode_string amsonia_core.Security.Base64.octets
    amsonia_core.Security.Base64.read_sextets amsonia_core.Security.Base64.sextet digits_value
    amsonia_core.Security.Password.place amsonia_core.Text.Utf8.runes_from
verified = refl

verify-Accepted_example :
    (valid_password_input (codes "pw") ≡ true)
    × (valid_argon2_config hasher ≡ true)
    × (length encoded ≤ 4096)
    × Accepted toy_key hasher (codes "pw") (split b'$' encoded)
verify-Accepted_example = verify-Accepted toy_key hasher (codes "pw") encoded verified

valid_hasher : valid_argon2_config hasher ≡ true
unfolding valid_argon2_config amsonia_core.Base.ℕ_discrete
valid_hasher = refl

parse_argon2_parameters-parameters_text_example :
    parse_argon2_parameters (parameters_text hasher)
    ≡ some (record { memory = 64; iterations = 1; parallelism = 1 })
parse_argon2_parameters-parameters_text_example =
    parse_argon2_parameters-parameters_text hasher valid_hasher
