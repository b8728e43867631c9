-- ===== src/Base/Tests.antt =====
-- Boolean tests, the conditional, and types whose equality is decided.
use Prim.Native.Nat.{ℕ, compare, Ordering}
use mathlib.Core.Path.{◌≡◌, refl}
use mathlib.Core.Logic.{◌↔◌, ◌⊎◌, inl, inr}
use mathlib.Core.Bool.{Bool, true, false}
use mathlib.Core.Option.{Option, none, some}
use mathlib.Core.List.{List, [], ◌∷◌}
use native.Mathlib.Decide.{ℕ_discrete}
use native.Mathlib.Omega.{arith}

abbrev pub ltb : ℕ → ℕ → Bool
ltb a b = elim (compare a b) [ Ordering.lt ↦ true | _ ↦ false ]

abbrev pub leb : ℕ → ℕ → Bool
leb a b = elim (compare a b) [ Ordering.gt ↦ false | _ ↦ true ]

-- A type of keys: what Go compares by `==` and maps index by.
pub record Key {ℓ} (A : Type ℓ) : Type ℓ where
  pub dec : Discrete A

abbrev pub is_yes {ℓ} : {A : Type ℓ} → Dec A → Bool
is_yes d = elim d [ yes _ ↦ true | no _ ↦ false ]

infix 50 ◌==◌
abbrev pub ◌==◌ {ℓ} : {A : Type ℓ} ⦃k : Key A⦄ → A → A → Bool
◌==◌ ⦃k⦄ a b = is_yes (k.dec a b)

infix 1 if◌then◌else◌
abbrev pub if◌then◌else◌ {ℓ} : {A : Type ℓ} → Bool → A → A → A
if true then x else y = x
if false then x else y = y

instance abbrev pub nat_key : Key ℕ
nat_key = record { dec = ℕ_discrete }

pub Bool-cases : (b : Bool) → (b ≡ true) ⊎ (b ≡ false)
Bool-cases true = inl refl
Bool-cases false = inr refl

pub Option-cases {ℓ} : {A : Type ℓ} (o : Option A) → (o ≡ none) ⊎ ((a : A) × (o ≡ some a))
Option-cases none = inl refl
Option-cases (some a) = inr (a, refl)

module _ {ℓ} {A : Type ℓ} ⦃k : Key A⦄ where
  pub ==_iff : (a b : A) → ((a == b) ≡ true) ↔ (a ≡ b)
  ==_iff a b = (λ e. ground arith, λ e. ground arith)

  pub ==_refl : (a : A) → (a == a) ≡ true
  ==_refl a = ground arith

  unfoldable pub list_dec : (xs ys : List A) → Dec (xs ≡ ys)
  list_dec [] [] = yes refl
  list_dec [] (y ∷ ys) = no (λ e. cc)
  list_dec (x ∷ xs) [] = no (λ e. cc)
  list_dec (x ∷ xs) (y ∷ ys) =
      let rest = list_dec xs ys in
      elim (k.dec x y) [
        | no h ↦ no (λ e. h (cc))
        | yes p ↦ elim rest [ no h ↦ no (λ e. h (cc)) | yes q ↦ yes (cc) ]
      ]
