-- ===== src/Security/Decimal.antt =====
-- `%d` of fmt, `ParseUint` of strconv at base 10, and `parseDecimalUint` of password.go.
use amsonia_core.Base.{
  ℕ, zero, suc, ◌+◌, ◌-◌, ◌*◌, ◌/◌, ◌%◌, ◌^◌, ◌<◌, ◌≤◌, ◌≡◌, refl, [], ◌∷◌, ◌++◌, Bool, true, false,
  ◌&&◌, not, all, All, All-append, length, length-append, Bool-cases, inl, inr, ltb, Option, none,
  some, if◌then◌else◌, arith,
}
use amsonia_core.Text.{Text, is_empty}

-- The digits of a number, the most significant first, within as many rounds as the fuel.
unfoldable pub digits : ℕ → ℕ → Text
digits zero n = []
digits (suc fuel) n =
    let front = digits fuel (n / 10) in
    if ltb n 10 then (b'0' + n) ∷ [] else front ++ (b'0' + n % 10) ∷ []

-- Each round takes one digit off, so a number has fewer digits than itself and one more.
unfoldable pub decimal : ℕ → Text
decimal n = digits (suc n) n

abbrev pub is_digit : ℕ → Bool
is_digit c = not (ltb c b'0') && not (ltb b'9' c)

unfoldable pub digits_value : ℕ → Text → ℕ
digits_value n [] = n
digits_value n (c ∷ s) = digits_value (n * 10 + (c - b'0')) s

-- On a text of digits, which is all that `parse_decimal_uint` passes on. A value out of range is an error.
unfoldable pub parse_uint : Text → ℕ → Option ℕ
parse_uint s bits = if ltb (digits_value 0 s) (2 ^ bits) then some (digits_value 0 s) else none

-- The loop looks at runes; each byte of a rune of several bytes is no digit either.
unfoldable pub parse_decimal_uint : Text → ℕ → Option ℕ
parse_decimal_uint s bits =
    if is_empty s then none else if not (all is_digit s) then none else parse_uint s bits

digits_value-append :
    (s : Text) (c n : ℕ) → digits_value n (s ++ c ∷ []) ≡ digits_value n s * 10 + (c - b'0')
unfolding digits_value
digits_value-append [] c n = refl
digits_value-append (d ∷ s) c n = digits_value-append s c (n * 10 + (d - b'0'))

digits_value-digits : (fuel n : ℕ) → n < fuel → digits_value 0 (digits fuel n) ≡ n
unfolding digits_value digits
digits_value-digits zero n h = absurd (omega arith)
digits_value-digits (suc fuel) n h = ground (
  arith,
  digits_value-digits fuel (n / 10),
  digits_value-append (digits fuel (n / 10)) (b'0' + n % 10) 0,
)

abbrev pub IsDigit : ℕ → Type 0
IsDigit c = (b'0' ≤ c) × (c ≤ b'9')

append_some : (s : Text) (c : ℕ) → is_empty (s ++ c ∷ []) ≡ false
append_some [] c = refl
append_some (d ∷ s) c = refl

digits-IsDigit : (fuel n : ℕ) → All IsDigit (digits fuel n)
unfolding digits
digits-IsDigit zero n = tt
digits-IsDigit (suc fuel) n =
    choice (ltb n 10) ((b'0' + n) ∷ []) (digits fuel (n / 10) ++ (b'0' + n % 10) ∷ [])
      (λ small. ((omega arith, ground (arith, small)), tt))
      (All-append IsDigit (digits fuel (n / 10)) ((b'0' + n % 10) ∷ [])
        (digits-IsDigit fuel (n / 10)) ((omega arith, omega arith), tt))
  where
    choice :
        (b : Bool) (s t : Text)
        → (b ≡ true → All IsDigit s)
        → All IsDigit t
        → All IsDigit (if b then s else t)
    choice true s t hs ht = hs refl
    choice false s t hs ht = ht

pub decimal-IsDigit : (n : ℕ) → All IsDigit (decimal n)
unfolding decimal
decimal-IsDigit n = digits-IsDigit (suc n) n

all_digit : (s : Text) → All IsDigit s → all is_digit s ≡ true
all_digit [] h = refl
all_digit (c ∷ s) h = ground (arith, all_digit s h.1)

digits_some : (fuel n : ℕ) → n < fuel → is_empty (digits fuel n) ≡ false
unfolding digits
digits_some zero n h = absurd (omega arith)
digits_some (suc fuel) n h = elim (Bool-cases (ltb n 10)) [
  | inl small ↦ ground (arith, small)
  | inr large ↦ ground (arith, large, append_some (digits fuel (n / 10)) (b'0' + n % 10))
]

pub decimal_some : (n : ℕ) → is_empty (decimal n) ≡ false
unfolding decimal
decimal_some n = digits_some (suc n) n (omega arith)

digits_value-decimal : (n : ℕ) → digits_value 0 (decimal n) ≡ n
unfolding decimal
digits_value-decimal n = digits_value-digits (suc n) n (omega arith)

-- A number that the width holds is read back from its digits.
pub parse_decimal_uint-decimal :
    (n bits : ℕ) → n < 2 ^ bits → parse_decimal_uint (decimal n) bits ≡ some n
unfolding parse_decimal_uint parse_uint
parse_decimal_uint-decimal n bits h =
    ground
      (arith, decimal_some n, all_digit (decimal n) (decimal-IsDigit n), digits_value-decimal n)

abbrev pub limit : ℕ → ℕ
limit zero = 1
limit (suc k) = 10 * limit k

length-digits : (k fuel n : ℕ) → n < limit k → length (digits fuel n) ≤ suc k
unfolding digits
length-digits k zero n h = omega arith
length-digits zero (suc fuel) n h = ground arith
length-digits (suc k) (suc fuel) n h = elim (Bool-cases (ltb n 10)) [
  | inl small ↦ ground (arith, small)
  | inr large ↦
      let shorter = length-digits k fuel (n / 10) (omega (arith, h)) in
      ground
        (arith, large, shorter, length-append {0} (digits fuel (n / 10)) ((b'0' + n % 10) ∷ []))
]

-- A number has few digits.
pub length-decimal : (k n : ℕ) → n < limit k → length (decimal n) ≤ suc k
unfolding decimal
length-decimal k n h = length-digits k (suc n) n h
