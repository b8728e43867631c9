-- ===== src/Types/Errors.antt =====
-- The sentinel errors, and results that carry them.
use amsonia_core.Base.{ℕ, ◌≡◌, refl, Bool, true, false, List, [], ◌∷◌, ◌⊎◌, inl, inr}

-- `errors.Is` classifies wrapped errors, so a value stands for its class. `external` is an error of
-- a collaborator (a cancelled context, a failing adapter); `panicked` is a write to a nil map.
pub data Error : Type 0 where
  invalid_input forbidden conflict not_found grant_cycle last_administrator : Error
  already_bootstrapped dependency_unavailable audit_unavailable invalid_policy : Error
  external : ℕ → Error
  panicked : Error

-- The answer of a Go function that returns a value and an error.
pub data Result {ℓ} (A : Type ℓ) : Type ℓ where
  err : Error → Result A
  ok : A → Result A

-- `err == nil`
abbrev pub is_ok {ℓ} : {A : Type ℓ} → Result A → Bool
is_ok (err e) = false
is_ok (ok a) = true

-- `if err != nil { return err }` before the rest.
infixl 5 ◌>>=◌
abbrev pub ◌>>=◌ {ℓ κ} : {A : Type ℓ} {B : Type κ} → Result A → (A → Result B) → Result B
err e >>= run = err e
ok a >>= run = run a

infixl 5 ◌>>◌
abbrev pub ◌>>◌ {ℓ} : {A : Type ℓ} → Result (Unit {0}) → Result A → Result A
first >> second = first >>= λ _. second

-- `if !b { return e }`
abbrev pub require : Bool → Error → Result (Unit {0})
require false e = err e
require true e = ok tt

-- `if b { return e }`
abbrev pub refuse : Bool → Error → Result (Unit {0})
refuse false e = ok tt
refuse true e = err e

-- `errors.Is(err, ErrNotFound)`
abbrev pub is_not_found : Error → Bool
is_not_found Error.not_found = true
is_not_found _ = false

-- A loop over a slice that returns at the first error.
abbrev pub each {ℓ} : {A : Type ℓ} → (A → Result (Unit {0})) → List A → Result (Unit {0})
each f [] = ok tt
each f (x ∷ xs) = let rest = each f xs in f x >>= λ _. rest

pub Result-cases {ℓ} :
    {A : Type ℓ} (r : Result A) → ((a : A) × (r ≡ ok a)) ⊎ ((e : Error) × (r ≡ err e))
Result-cases (ok a) = inl (a, refl)
Result-cases (err e) = inr (e, refl)
