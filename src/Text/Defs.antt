-- ===== src/Text/Defs.antt =====
-- The type of Go strings, its equality and its literals.
use Prim.Native.Char.{code}
use Prim.Native.String.{String}
use amsonia_core.Base.{
  ℕ, ◌≡◌, ◌↔◌, refl, List, [], ◌∷◌, Bool, true, Key, nat_key, ℕ_discrete, list_dec,
}

abbrev pub Text : Type 0
Text = List ℕ

unfoldable pub text_dec : Discrete Text
unfolding list_dec ℕ_discrete
text_dec = list_dec

instance abbrev pub text_key : Key Text
text_key = record { dec = text_dec }

-- The bytes of an ASCII literal.
abbrev pub codes : String → Text
codes String.[] = []
codes (String.◌∷◌ c s) = code c ∷ codes s

-- `v == ""`
abbrev pub is_empty {ℓ} : {A : Type ℓ} → List A → Bool
is_empty [] = Bool.true
is_empty (x ∷ xs) = Bool.false

pub is_empty_iff {ℓ} : {A : Type ℓ} (xs : List A) → (is_empty xs ≡ true) ↔ (xs ≡ [])
is_empty_iff [] = (λ h. refl, λ h. refl)
is_empty_iff (x ∷ xs) = (λ h. cc, λ h. cc)
