-- ===== src/Security/Password/Parameters.antt =====
-- The parameters in a hash of password.go: their text, and what reads it back.
use amsonia_core.Base.{
  ℕ, ◌^◌, ◌<◌, ◌≡◌, ◌≢◌, refl, ◌∙◌, ap, List, [], ◌∷◌, ◌++◌, true, false, ◌==◌, nat_key, any, All,
  All-map, some, arith,
}
use amsonia_core.Text.{Text, text_key, codes, is_empty}
use amsonia_core.Text.Split.{split, split-Lacks, split-append}
use amsonia_core.Security.Decimal.{
  decimal, IsDigit, decimal-IsDigit, decimal_some, parse_decimal_uint-decimal,
}
use amsonia_core.Security.Password.{
  PasswordHasher, valid_argon2_config, bit_size, read_token, place, read_tokens,
  parse_argon2_parameters, parameters_text,
}

pub digits_lack : (c : ℕ) (n : ℕ) → c < 48 → All (λ d. d ≢ c) (decimal n)
digits_lack c n low =
    All-map IsDigit (λ d. d ≢ c) (decimal n) (λ d h e. omega (arith, h.0, e, low))
      (decimal-IsDigit n)

equals_lack : (n : ℕ) → All (λ d. d ≢ b'=') (decimal n)
equals_lack n =
    All-map IsDigit (λ d. d ≢ b'=') (decimal n) (λ d h e. omega (arith, h.1, e)) (decimal-IsDigit n)

-- One token is read back.
read_token-decimal :
    (seen : List Text) (c n bits : ℕ)
    → c ≢ b'='
    → any (λ s. s == (c ∷ [])) seen ≡ false
    → bit_size (c ∷ []) ≡ some bits
    → n ≢ 0
    → n < 2 ^ bits
    → read_token seen (c ∷ b'=' ∷ decimal n) ≡ some (c ∷ [], n)
unfolding read_token
read_token-decimal seen c n bits apart new width positive fits =
    let cut = split-append b'=' (c ∷ []) (decimal n) (apart, tt) in
    let rest = split-Lacks b'=' (decimal n) (equals_lack n) in
    ground (
      arith,
      cut,
      rest,
      decimal_some n,
      new,
      width,
      parse_decimal_uint-decimal n bits fits,
      positive,
    )

-- The parameters that a valid configuration has.
pub record InRange (h : PasswordHasher) : Type 0 where
  pub memory : (h.memory ≢ 0) × (h.memory < 262145)
  pub iterations : (h.iterations ≢ 0) × (h.iterations < 33)
  pub parallelism : (h.parallelism ≢ 0) × (h.parallelism < 17)
  pub key_len : (15 < h.key_len) × (h.key_len < 65)

pub valid_argon2_config-InRange : (h : PasswordHasher) → valid_argon2_config h ≡ true → InRange h
unfolding valid_argon2_config
valid_argon2_config-InRange h e = record {
  memory = (λ f. ground arith, ground arith);
  iterations = (λ f. ground arith, ground arith);
  parallelism = (λ f. ground arith, ground arith);
  key_len = (ground arith, ground arith);
}

abbrev pub token : ℕ → ℕ → Text
token c n = c ∷ b'=' ∷ decimal n

token_lacks : (c n : ℕ) → c ≢ b',' → All (λ d. d ≢ b',') (token c n)
token_lacks c n h = (h, ((λ f. omega (arith, f)), digits_lack b',' n (omega arith)))

split-parameters_text :
    (h : PasswordHasher)
    → split b',' (parameters_text h)
      ≡ token b'm' h.memory ∷ token b't' h.iterations ∷ token b'p' h.parallelism ∷ []
unfolding parameters_text
split-parameters_text h =
    let last = token b'p' h.parallelism in
    let more = token b't' h.iterations ++ b',' ∷ last in
    split-append b',' (token b'm' h.memory) more (token_lacks b'm' h.memory (λ f. omega (arith, f)))
    ∙ ap (λ r. token b'm' h.memory ∷ r)
        (split-append b',' (token b't' h.iterations) last
            (token_lacks b't' h.iterations (λ f. omega (arith, f)))
          ∙ ap (λ r. token b't' h.iterations ∷ r)
              (split-Lacks b',' last (token_lacks b'p' h.parallelism (λ f. omega (arith, f)))))

module _ (h : PasswordHasher) (range : InRange h) where
  read_memory : read_token [] (token b'm' h.memory) ≡ some (b'm' ∷ [], h.memory)
  unfolding bit_size amsonia_core.Text.text_dec
  read_memory =
      read_token-decimal [] b'm' h.memory 32 (λ f. omega (arith, f)) refl refl range.memory.0
        (omega (arith, range.memory))

  read_iterations :
      read_token ((b'm' ∷ []) ∷ []) (token b't' h.iterations) ≡ some (b't' ∷ [], h.iterations)
  unfolding bit_size amsonia_core.Text.text_dec
  read_iterations =
      read_token-decimal ((b'm' ∷ []) ∷ []) b't' h.iterations 32 (λ f. omega (arith, f)) refl refl
        range.iterations.0 (omega (arith, range.iterations))

  read_parallelism :
      read_token ((b't' ∷ []) ∷ (b'm' ∷ []) ∷ []) (token b'p' h.parallelism)
      ≡ some (b'p' ∷ [], h.parallelism)
  unfolding bit_size amsonia_core.Text.text_dec
  read_parallelism =
      read_token-decimal ((b't' ∷ []) ∷ (b'm' ∷ []) ∷ []) b'p' h.parallelism 8
        (λ f. omega (arith, f)) refl refl range.parallelism.0 (omega (arith, range.parallelism))

-- The parameters of a valid configuration are read back from their text.
pub parse_argon2_parameters-parameters_text :
    (h : PasswordHasher)
    → valid_argon2_config h ≡ true
    → parse_argon2_parameters (parameters_text h)
      ≡ some (record { memory = h.memory; iterations = h.iterations; parallelism = h.parallelism })
unfolding parse_argon2_parameters read_tokens place amsonia_core.Text.text_dec
parse_argon2_parameters-parameters_text h e =
    let range = valid_argon2_config-InRange h e in
    ground (
      arith,
      split-parameters_text h,
      read_memory h range,
      read_iterations h range,
      read_parallelism h range,
    )
