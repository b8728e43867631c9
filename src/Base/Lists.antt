-- ===== src/Base/Lists.antt =====
-- Lists over the native numbers: lengths, tests of every or some element, predicates.
use Prim.Native.Nat.{ℕ, suc, ◌+◌}
use mathlib.Core.Path.{◌≡◌, refl, sym, subst}
use mathlib.Core.Bool.{Bool, true, false, ◌&&◌, ◌||◌, Bool-set}
use mathlib.Core.Logic.{◌↔◌, ◌⊎◌, inl, inr}
use mathlib.Core.List.{List, [], ◌∷◌, ◌++◌, map, reverse, reverse-cons, Perm, Permᴰ}
use mathlib.Core.Logic.{∥∥₁_elim}
use native.Mathlib.Omega.{arith}

abbrev pub length {ℓ} : {A : Type ℓ} → List A → ℕ
length [] = 0
length (x ∷ xs) = suc (length xs)

pub length-append {ℓ} : {A : Type ℓ} (xs ys : List A) → length (xs ++ ys) ≡ length xs + length ys
length-append [] ys = omega arith
length-append (x ∷ xs) ys = omega (arith, length-append xs ys)

-- A loop that stops at the first element that fails, or that passes.
module _ {ℓ} {A : Type ℓ} (p : A → Bool) where
  abbrev pub all : List A → Bool
  all [] = true
  all (x ∷ xs) = p x && all xs

  abbrev pub any : List A → Bool
  any [] = false
  any (x ∷ xs) = p x || any xs

module _ {ℓ κ} {A : Type ℓ} (P : A → Type κ) where
  abbrev pub All : List A → Type κ
  All [] = Unit
  All (x ∷ xs) = P x × All xs

  pub All-append : (xs ys : List A) → All xs → All ys → All (xs ++ ys)
  All-append [] ys hx hy = hy
  All-append (x ∷ xs) ys hx hy = (hx.0, All-append xs ys hx.1 hy)

  pub All-reverse : (xs : List A) → All xs → All (reverse xs)
  All-reverse [] h = tt
  All-reverse (x ∷ xs) h =
      subst All (sym (reverse-cons x xs))
        (All-append (reverse xs) (x ∷ []) (All-reverse xs h.1) (h.0, tt))

pub All-all_iff {ℓ} :
    {A : Type ℓ} (p : A → Bool) (xs : List A) → (all p xs ≡ true) ↔ All (λ x. p x ≡ true) xs
All-all_iff p [] = (λ e. tt, λ e. refl)
All-all_iff p (x ∷ xs) =
    let ih = All-all_iff p xs in (λ e. ground (arith, ih), λ h. ground (arith, ih))

any-permᴰ {ℓ} : {A : Type ℓ} (p : A → Bool) {xs ys : List A} → Permᴰ xs ys → any p xs ≡ any p ys
any-permᴰ p Permᴰ.nil = refl
any-permᴰ p (Permᴰ.cons e d) = rw (e, any-permᴰ p d)
any-permᴰ p (Permᴰ.swap e f) = rw (e, f) (ground arith)
any-permᴰ p (Permᴰ.trans d e) = cc (any-permᴰ p d, any-permᴰ p e)

-- Whether some element passes does not depend on the order.
pub any-perm {ℓ} : {A : Type ℓ} (p : A → Bool) (xs ys : List A) → Perm xs ys → any p xs ≡ any p ys
any-perm p xs ys h = ∥∥₁_elim h (Bool-set _ _) (any-permᴰ p)

all-permᴰ {ℓ} : {A : Type ℓ} (p : A → Bool) {xs ys : List A} → Permᴰ xs ys → all p xs ≡ all p ys
all-permᴰ p Permᴰ.nil = refl
all-permᴰ p (Permᴰ.cons e d) = rw (e, all-permᴰ p d)
all-permᴰ p (Permᴰ.swap e f) = rw (e, f) (ground arith)
all-permᴰ p (Permᴰ.trans d e) = cc (all-permᴰ p d, all-permᴰ p e)

pub all-perm {ℓ} : {A : Type ℓ} (p : A → Bool) (xs ys : List A) → Perm xs ys → all p xs ≡ all p ys
all-perm p xs ys h = ∥∥₁_elim h (Bool-set _ _) (all-permᴰ p)

-- The value stands in the list.
abbrev pub In : {A : Type 0} → List A → A → Type 0
In [] x = ⊥
In (y ∷ ys) x = (y ≡ x) ⊎ In ys x

module _ {A : Type 0} (P : A → Type 0) where
  -- Some element has the property.
  abbrev pub Some : List A → Type 0
  Some [] = ⊥
  Some (x ∷ xs) = P x ⊎ Some xs

  pub All-of_In : (xs : List A) → ((x : A) → In xs x → P x) → All P xs
  All-of_In [] h = tt
  All-of_In (x ∷ xs) h = (h x (inl refl), All-of_In xs (λ y m. h y (inr m)))

  pub All-In : (xs : List A) → All P xs → (x : A) → In xs x → P x
  All-In [] h x m = absurd m
  All-In (y ∷ xs) h x m = elim m [ inl e ↦ subst P e h.0 | inr r ↦ All-In xs h.1 x r ]

  pub Some-of_In : (xs : List A) (x : A) → In xs x → P x → Some xs
  Some-of_In [] x m p = absurd m
  Some-of_In (y ∷ xs) x m p = elim m [
    | inl e ↦ inl (subst P (sym e) p)
    | inr r ↦ inr (Some-of_In xs x r p)
  ]

  pub Some-In : (xs : List A) → Some xs → (x : A) × In xs x × P x
  Some-In [] h = absurd h
  Some-In (y ∷ xs) h = elim h [
    | inl p ↦ (y, inl refl, p)
    | inr r ↦ let (x, m, p) = Some-In xs r in (x, inr m, p)
  ]

pub Some-map :
    {A : Type 0} (P Q : A → Type 0) (xs : List A)
    → ((x : A) → In xs x → P x → Q x)
    → Some P xs
    → Some Q xs
Some-map P Q [] h s = absurd s
Some-map P Q (y ∷ xs) h s = elim s [
  | inl p ↦ inl (h y (inl refl) p)
  | inr r ↦ inr (Some-map P Q xs (λ x m. h x (inr m)) r)
]

pub All-map {ℓ κ μ} :
    {A : Type ℓ} (P : A → Type κ) (Q : A → Type μ) (xs : List A)
    → ((x : A) → P x → Q x)
    → All P xs
    → All Q xs
All-map P Q [] h a = tt
All-map P Q (y ∷ xs) h a = (h y a.0, All-map P Q xs h a.1)

pub All-every {ℓ κ} : {A : Type ℓ} (P : A → Type κ) (xs : List A) → ((x : A) → P x) → All P xs
All-every P [] h = tt
All-every P (x ∷ xs) h = (h x, All-every P xs h)

pub map-All {ℓ κ μ} :
    {A : Type ℓ} {B : Type κ} (P : B → Type μ) (f : A → B) (xs : List A)
    → All (λ x. P (f x)) xs
    → All P (map f xs)
map-All P f [] h = tt
map-All P f (x ∷ xs) h = (h.0, map-All P f xs h.1)
