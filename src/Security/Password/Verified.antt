-- ===== src/Security/Password/Verified.antt =====
-- What `Verify` of password.go accepts.
use amsonia_core.Base.{
  ℕ, ◌≡◌, List, [], ◌∷◌, true, ==_iff, nat_key, length, some, Option-cases, inl, inr, ◌≤◌, arith,
}
use amsonia_core.Text.{Text, text_key, codes}
use amsonia_core.Text.Split.{split}
use amsonia_core.Security.Base64.{decode_string}
use amsonia_core.Security.Password.{
  PasswordHasher, valid_password_input, valid_argon2_config, parse_argon2_parameters, verify_parts,
  split_parts, verify,
}

module _ (id_key : Text → List ℕ → ℕ → ℕ → ℕ → ℕ → List ℕ) (h : PasswordHasher)
    (password : Text) where
  -- The texts hold the parameters of the configuration, a salt, and the key that the password has with
  -- that salt.
  pub record Derived (parameters salt_text key_text : Text) : Type 0 where
    pub salt : List ℕ
    pub configured :
        parse_argon2_parameters parameters
        ≡ some
            (record { memory = h.memory; iterations = h.iterations; parallelism = h.parallelism })
    pub salted : decode_string salt_text ≡ some salt
    pub sixteen : length salt ≡ 16
    pub keyed :
        decode_string key_text
        ≡ some (id_key password salt h.iterations h.memory h.parallelism h.key_len)

  verify_parts-Derived :
      (parameters salt_text key_text : Text)
      → verify_parts id_key h password parameters salt_text key_text ≡ true
      → Derived parameters salt_text key_text
  unfolding verify_parts
  verify_parts-Derived parameters salt_text key_text e =
      elim (Option-cases (parse_argon2_parameters parameters)) [
        | inl bad ↦ absurd (ground (arith, bad))
        | inr (p, read) ↦ elim (Option-cases (decode_string salt_text)) [
          | inl bad ↦ absurd (ground (arith, read, bad))
          | inr (salt, salted) ↦ elim (Option-cases (decode_string key_text)) [
            | inl bad ↦ absurd (ground (arith, read, salted, bad))
            | inr (stored, keyed) ↦
                let key = id_key password salt h.iterations h.memory h.parallelism h.key_len in
                record {
                  salt = salt;
                  configured = ground (arith, read, salted, keyed);
                  salted = salted;
                  sixteen = ground (arith, read, salted, keyed);
                  keyed = ground (arith, read, salted, keyed, ==_iff stored key);
                }
          ]
        ]
      ]

  -- The five parts of an encoded hash that is accepted.
  pub record Accepted (parts : List Text) : Type 0 where
    pub parameters : Text
    pub salt_text : Text
    pub key_text : Text
    pub whole : parts ≡ codes "argon2id" ∷ codes "v=19" ∷ parameters ∷ salt_text ∷ key_text ∷ []
    pub derived : Derived parameters salt_text key_text

  split_parts-Accepted :
      (parts : List Text) → split_parts id_key h password parts ≡ true → Accepted parts
  unfolding split_parts
  split_parts-Accepted [] e = cc
  split_parts-Accepted (a ∷ []) e = cc
  split_parts-Accepted (a ∷ b ∷ []) e = cc
  split_parts-Accepted (a ∷ b ∷ c ∷ []) e = cc
  split_parts-Accepted (a ∷ b ∷ c ∷ d ∷ []) e = cc
  split_parts-Accepted (a ∷ b ∷ c ∷ d ∷ f ∷ []) e = record {
    parameters = c;
    salt_text = d;
    key_text = f;
    whole = ground (arith, e, ==_iff a (codes "argon2id"), ==_iff b (codes "v=19"));
    derived = verify_parts-Derived c d f (ground (arith, e));
  }
  split_parts-Accepted (a ∷ b ∷ c ∷ d ∷ f ∷ g ∷ r) e = cc

  -- `Verify` says yes only of an encoded hash of at most 4096 bytes with the five parts of its format, in
  -- which the parameters are those of a valid configuration and the key is the one that the password has
  -- with the salt of sixteen bytes.
  pub verify-Accepted :
      (encoded : Text)
      → verify id_key h password encoded ≡ true
      → (valid_password_input password ≡ true)
        × (valid_argon2_config h ≡ true)
        × (length encoded ≤ 4096)
        × Accepted (split b'$' encoded)
  unfolding verify
  verify-Accepted encoded e = (
    ground (arith, e),
    ground (arith, e),
    ground (arith, e),
    split_parts-Accepted (split b'$' encoded) (ground (arith, e)),
  )
