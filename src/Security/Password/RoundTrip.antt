-- ===== src/Security/Password/RoundTrip.antt =====
-- A hash that password.go makes, and its verification.
use amsonia_core.Base.{
  ℕ, ◌<◌, ◌≤◌, ◌≡◌, ◌≢◌, refl, subst, ◌∙◌, ap, List, [], ◌∷◌, ◌++◌, true, false, ==_refl, nat_key,
  All, All-append, length, length-append, some, Bool-cases, inl, inr, arith,
}
use amsonia_core.Text.{Text, text_key, codes, is_empty}
use amsonia_core.Text.Split.{split, split-Lacks, split-append}
use amsonia_core.Security.Decimal.{length-decimal}
use amsonia_core.Security.Base64.{
  encode_to_string, IsByte, decode_string-encode_to_string, length-encode_to_string,
  encode_to_string_lacks,
}
use amsonia_core.Security.Password.{
  PasswordHasher, valid_password_input, valid_argon2_config, parameters_text, hash, verify_parts,
  split_parts, verify,
}
use amsonia_core.Security.Password.Parameters.{
  digits_lack, InRange, valid_argon2_config-InRange, token, parse_argon2_parameters-parameters_text,
}

abbrev Dollarless : Text → Type 0
Dollarless = All (λ c. c ≢ b'$')

token-Dollarless : (c n : ℕ) → c ≢ b'$' → Dollarless (token c n)
token-Dollarless c n h = (h, ((λ f. omega (arith, f)), digits_lack b'$' n (omega arith)))

parameters_text-Dollarless : (h : PasswordHasher) → Dollarless (parameters_text h)
unfolding parameters_text
parameters_text-Dollarless h =
    let lacks = λ (c : ℕ). c ≢ b'$' in
    All-append lacks (token b'm' h.memory) _
      (token-Dollarless b'm' h.memory (λ f. omega (arith, f)))
      (
        (λ f. omega (arith, f)),
        All-append lacks (token b't' h.iterations) _
            (token-Dollarless b't' h.iterations (λ f. omega (arith, f)))
            ((λ f. omega (arith, f)), token-Dollarless b'p' h.parallelism (λ f. omega (arith, f))),
      )

length-parameters_text : (h : PasswordHasher) → InRange h → length (parameters_text h) ≤ 24
unfolding parameters_text
length-parameters_text h range =
    let last = token b'p' h.parallelism in
    let more = token b't' h.iterations ++ b',' ∷ last in
    omega (
      arith,
      length-append {0} (token b'm' h.memory) (b',' ∷ more),
      length-append {0} (token b't' h.iterations) (b',' ∷ last),
      length-decimal 6 h.memory (omega (arith, range.memory)),
      length-decimal 2 h.iterations (omega (arith, range.iterations)),
      length-decimal 2 h.parallelism (omega (arith, range.parallelism)),
    )

not_empty : (xs : List ℕ) → 0 < length xs → is_empty xs ≡ false
not_empty [] h = absurd (omega (arith, h))
not_empty (x ∷ xs) h = refl

kind-Dollarless : Dollarless (codes "argon2id")
kind-Dollarless = omega arith

version-Dollarless : Dollarless (codes "v=19")
version-Dollarless = omega arith

-- The text that `hash` writes, from the texts of the salt and of the key.
abbrev encoded_hash : PasswordHasher → Text → Text → Text
encoded_hash h salt key =
    codes "argon2id"
    ++ b'$' ∷ (codes "v=19" ++ b'$' ∷ (parameters_text h ++ b'$' ∷ (salt ++ b'$' ∷ key)))

split-encoded_hash :
    (h : PasswordHasher) (salt key : Text)
    → Dollarless salt
    → Dollarless key
    → split b'$' (encoded_hash h salt key)
      ≡ codes "argon2id" ∷ codes "v=19" ∷ parameters_text h ∷ salt ∷ key ∷ []
split-encoded_hash h salt key hs hk =
    let r1 = salt ++ b'$' ∷ key in
    let r2 = parameters_text h ++ b'$' ∷ r1 in
    let r3 = codes "v=19" ++ b'$' ∷ r2 in
    split-append b'$' (codes "argon2id") r3 kind-Dollarless
    ∙ ap (λ r. codes "argon2id" ∷ r)
        (split-append b'$' (codes "v=19") r2 version-Dollarless
          ∙ ap (λ r. codes "v=19" ∷ r)
              (split-append b'$' (parameters_text h) r1 (parameters_text-Dollarless h)
                ∙ ap (λ r. parameters_text h ∷ r)
                    (split-append b'$' salt key hs ∙ ap (λ r. salt ∷ r) (split-Lacks b'$' key hk))))

module _ (id_key : Text → List ℕ → ℕ → ℕ → ℕ → ℕ → List ℕ)
    (keys : (password : Text) (salt : List ℕ) (iterations memory lanes key_len : ℕ)
      → (length (id_key password salt iterations memory lanes key_len) ≡ key_len)
        × All IsByte (id_key password salt iterations memory lanes key_len)) where
  verify_parts-encode_to_string :
      (h : PasswordHasher) (password : Text) (salt : List ℕ)
      → valid_argon2_config h ≡ true
      → length salt ≡ 16
      → All IsByte salt
      → verify_parts id_key h password
          (parameters_text h)
          (encode_to_string salt)
          (encode_to_string (id_key password salt h.iterations h.memory h.parallelism h.key_len))
        ≡ true
  unfolding verify_parts
  verify_parts-encode_to_string h password salt valid sixteen bytes =
      let key = id_key password salt h.iterations h.memory h.parallelism h.key_len in
      let (key_length, key_bytes) =
        keys password salt h.iterations h.memory h.parallelism h.key_len in
      let range = valid_argon2_config-InRange h valid in
      ground (
        arith,
        parse_argon2_parameters-parameters_text h valid,
        length-encode_to_string salt,
        length-encode_to_string key,
        decode_string-encode_to_string salt bytes,
        decode_string-encode_to_string key key_bytes,
        sixteen,
        key_length,
        range.key_len,
        ==_refl key,
        not_empty salt (omega (arith, sixteen)),
        not_empty key (omega (arith, key_length, range.key_len)),
      )

  length-encoded_hash :
      (h : PasswordHasher) (salt key : List ℕ)
      → InRange h
      → length salt ≡ 16
      → length key ≡ h.key_len
      → length (encoded_hash h (encode_to_string salt) (encode_to_string key)) ≤ 4096
  length-encoded_hash h salt key range sixteen same =
      let s = encode_to_string salt in
      let k = encode_to_string key in
      omega (
        arith,
        range.key_len,
        sixteen,
        same,
        length-parameters_text h range,
        length-encode_to_string salt,
        length-encode_to_string key,
        length-append {0} (parameters_text h) (b'$' ∷ (s ++ b'$' ∷ k)),
        length-append {0} s (b'$' ∷ k),
      )

  -- A hash that was made verifies with the password and the configuration that it was made of, for each
  -- salt of sixteen bytes, where the derivation of keys answers with as many bytes as it is asked for.
  pub verify-hash :
      (h : PasswordHasher) (password : Text) (salt : List ℕ) {encoded : Text}
      → length salt ≡ 16
      → All IsByte salt
      → hash id_key (some salt) h password ≡ some encoded
      → verify id_key h password encoded ≡ true
  unfolding hash verify split_parts
  verify-hash h password salt {encoded} sixteen bytes made =
      let key = id_key password salt h.iterations h.memory h.parallelism h.key_len in
      let (key_length, key_bytes) =
        keys password salt h.iterations h.memory h.parallelism h.key_len in
      elim (Bool-cases (valid_password_input password)) [
        | inr bad ↦ absurd (ground (arith, bad))
        | inl good ↦ elim (Bool-cases (valid_argon2_config h)) [
          | inr bad ↦ absurd (ground (arith, good, bad))
          | inl valid ↦
              let text = encoded_hash h (encode_to_string salt) (encode_to_string key) in
              let same : text ≡ encoded = ground (arith, good, valid) in
              let cut =
                split-encoded_hash h (encode_to_string salt) (encode_to_string key)
                  (encode_to_string_lacks salt bytes) (encode_to_string_lacks key key_bytes) in
              let short =
                length-encoded_hash h salt key (valid_argon2_config-InRange h valid) sixteen
                  key_length in
              let checked = verify_parts-encode_to_string h password salt valid sixteen bytes in
              subst (λ e. verify id_key h password e ≡ true) same
                (ground (
                  arith,
                  good,
                  valid,
                  short,
                  cut,
                  checked,
                  ==_refl (codes "argon2id"),
                  ==_refl (codes "v=19"),
                ))
        ]
      ]
