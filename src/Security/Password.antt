-- ===== src/Security/Password.antt =====
-- internal/security/password.go: hashes of passwords and their verification.
pub mod Parameters
pub mod RoundTrip
pub mod Verified
use amsonia_core.Base.{
  ℕ, suc, ◌+◌, ◌*◌, List, [], ◌∷◌, ◌++◌, Bool, true, false, not, ◌&&◌, ◌||◌, ◌==◌, nat_key, ltb,
  leb, any, length, Option, none, some, if◌then◌else◌,
}
use amsonia_core.Text.{Text, text_key, codes, is_empty}
use amsonia_core.Text.Split.{split}
use amsonia_core.Text.Utf8.{valid_string, runes}
use amsonia_core.Security.Decimal.{decimal, parse_decimal_uint}
use amsonia_core.Security.Base64.{encode_to_string, decode_string, encoded_len}

-- `PasswordHasher`; its numbers are of 32 bits, the lanes of 8.
pub record PasswordHasher : Type 0 where
  pub memory : ℕ
  pub iterations : ℕ
  pub parallelism : ℕ
  pub key_len : ℕ

pub record Argon2Parameters : Type 0 where
  pub memory : ℕ
  pub iterations : ℕ
  pub parallelism : ℕ

abbrev pub salt_length : ℕ
salt_length = 16

abbrev pub max_encoded_length : ℕ
max_encoded_length = 4096

unfoldable pub valid_password_input : Text → Bool
valid_password_input password = valid_string password && leb (length (runes password)) 128

unfoldable pub valid_argon2_config : PasswordHasher → Bool
valid_argon2_config h =
    if h.memory == 0 || h.iterations == 0 || h.parallelism == 0 || h.key_len == 0
    then false
    else if ltb h.memory 64 || ltb h.iterations 1 || ltb h.parallelism 1 || ltb h.key_len 16
    then false
    else if ltb 262144 h.memory || ltb 32 h.iterations || ltb 16 h.parallelism || ltb 64 h.key_len
    then false
    else leb (8 * h.parallelism) h.memory

-- The width of the number under a name.
unfoldable pub bit_size : Text → Option ℕ
bit_size name =
    if name == codes "m" || name == codes "t"
    then some 32
    else if name == codes "p"
    then some 8
    else none

-- One token: a name that was not seen before, and its number, which is not zero.
unfoldable pub read_token : List Text → Text → Option (Text × ℕ)
read_token seen token = elim (split b'=' token) [
  | [] ↦ none
  | name ∷ parts ↦ elim parts [
    | [] ↦ none
    | digits ∷ more ↦
        if not (is_empty more) || is_empty name || is_empty digits
        then none
        else if any (λ s. s == name) seen
        then none
        else elim (bit_size name) [
          | none ↦ none
          | some bits ↦ elim (parse_decimal_uint digits bits) [
            | none ↦ none
            | some value ↦ if value == 0 then none else some (name, value)
          ]
        ]
  ]
]

-- `switch index`
unfoldable pub place : ℕ → Text → ℕ → Argon2Parameters → Option Argon2Parameters
place index name value p =
    if index == 0
    then if name == codes "m" then some (record p { memory = value }) else none
    else if index == 1
    then if name == codes "t" then some (record p { iterations = value }) else none
    else if index == 2
    then if name == codes "p" then some (record p { parallelism = value }) else none
    else some p

unfoldable pub read_tokens : ℕ → List Text → List Text → Argon2Parameters → Option Argon2Parameters
read_tokens index seen [] p = some p
read_tokens index seen (token ∷ tokens) p = elim (read_token seen token) [
  | none ↦ none
  | some (name, value) ↦ elim (place index name value p) [
    | none ↦ none
    | some next ↦ read_tokens (suc index) (name ∷ seen) tokens next
  ]
]

unfoldable pub parse_argon2_parameters : Text → Option Argon2Parameters
parse_argon2_parameters encoded =
    let tokens = split b',' encoded in
    if not (length tokens == 3)
    then none
    else read_tokens 0 [] tokens (record { memory = 0; iterations = 0; parallelism = 0 })

-- `fmt.Sprintf` of the parameters.
unfoldable pub parameters_text : PasswordHasher → Text
parameters_text h =
    (codes "m=" ++ decimal h.memory)
    ++ b',' ∷ ((codes "t=" ++ decimal h.iterations) ++ b',' ∷ (codes "p=" ++ decimal h.parallelism))

-- `id_key` stands for `argon2.IDKey`: password, salt, iterations, memory, lanes and length of the key.
module _ (id_key : Text → List ℕ → ℕ → ℕ → ℕ → ℕ → List ℕ) where
  -- `salt` is what `rand.Read` filled in, or nothing where it failed. An error has no value.
  unfoldable pub hash : Option (List ℕ) → PasswordHasher → Text → Option Text
  hash random h password =
      if not (valid_password_input password)
      then none
      else if not (valid_argon2_config h)
      then none
      else elim random [
        | none ↦ none
        | some salt ↦
            let key = id_key password salt h.iterations h.memory h.parallelism h.key_len in
            some (
              codes "argon2id"
              ++ b'$'
                ∷ (codes "v=19"
                    ++ b'$'
                      ∷ (parameters_text h
                          ++ b'$' ∷ (encode_to_string salt ++ b'$' ∷ encode_to_string key))))
      ]

  -- The checks behind the split of the encoded hash.
  unfoldable pub verify_parts : PasswordHasher → Text → Text → Text → Text → Bool
  verify_parts h password parameters salt_text key_text =
      elim (parse_argon2_parameters parameters) [
        | none ↦ false
        | some p ↦
            if not (p.memory == h.memory)
              || not (p.iterations == h.iterations)
              || not (p.parallelism == h.parallelism)
            then false
            else if not (length salt_text == encoded_len salt_length)
            then false
            else elim (decode_string salt_text) [
              | none ↦ false
              | some salt ↦
                  if is_empty salt || not (length salt == salt_length)
                  then false
                  else if not (length key_text == encoded_len h.key_len)
                  then false
                  else elim (decode_string key_text) [
                    | none ↦ false
                    | some stored ↦
                        if is_empty stored || not (length stored == h.key_len)
                        then false
                        else stored
                          == id_key password salt h.iterations h.memory h.parallelism h.key_len
                  ]
            ]
      ]

  unfoldable pub split_parts : PasswordHasher → Text → List Text → Bool
  split_parts h password (kind ∷ version ∷ parameters ∷ salt_text ∷ key_text ∷ []) =
      if not (kind == codes "argon2id") || not (version == codes "v=19")
      then false
      else verify_parts h password parameters salt_text key_text
  split_parts h password _ = false

  unfoldable pub verify : PasswordHasher → Text → Text → Bool
  verify h password encoded =
      if not (valid_password_input password)
      then false
      else if ltb max_encoded_length (length encoded)
      then false
      else if not (valid_argon2_config h)
      then false
      else split_parts h password (split b'$' encoded)
