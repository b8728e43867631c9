-- ===== src/Base/Sort.antt =====
-- `sort.Slice` and `sort.Strings`, as a stable insertion sort; the library leaves the order of equal
-- elements open.
use mathlib.Core.List.{List, [], ◌∷◌, Perm}
use mathlib.Core.List.Perm
use mathlib.Core.Bool.{Bool, true, false}
use mathlib.Core.Path.{◌≡◌, refl}
use amsonia_core.Base.Lists.{All}
use native.Mathlib.Omega.{arith}
use mathlib.Core.Logic.{inl, inr}
use amsonia_core.Base.Tests.{if◌then◌else◌, Bool-cases}

module _ {ℓ} {A : Type ℓ} (less : A → A → Bool) where
  unfoldable pub insert_by : A → List A → List A
  insert_by x [] = x ∷ []
  insert_by x (y ∷ ys) = let rest = insert_by x ys in if less y x then y ∷ rest else x ∷ y ∷ ys

  unfoldable pub sort_by : List A → List A
  sort_by [] = []
  sort_by (x ∷ xs) = insert_by x (sort_by xs)

  insert_by-perm : (x : A) (ys : List A) → Perm (insert_by x ys) (x ∷ ys)
  unfolding insert_by
  insert_by-perm x [] = Perm.rfl
  insert_by-perm x (y ∷ ys) = elim (Bool-cases (less y x)) [
    | inl lt ↦ rw lt (Perm.trans (Perm.cons y (insert_by-perm x ys)) (Perm.swap x y ys))
    | inr ge ↦ rw ge Perm.rfl
  ]

  pub sort_by-perm : (xs : List A) → Perm (sort_by xs) xs
  unfolding sort_by
  sort_by-perm [] = Perm.nil
  sort_by-perm (x ∷ xs) = Perm.trans (insert_by-perm x (sort_by xs)) (Perm.cons x (sort_by-perm xs))

module _ {A : Type 0} (less : A → A → Bool) (P : A → Type 0) where
  insert_by-All : (x : A) (ys : List A) → P x → All P ys → All P (insert_by less x ys)
  unfolding insert_by
  insert_by-All x [] p h = (p, tt)
  insert_by-All x (y ∷ ys) p h =
      elim (less y x) as (λ b. All P (if b then y ∷ insert_by less x ys else x ∷ y ∷ ys)) [
        | true ↦ (h.0, insert_by-All x ys p h.1)
        | false ↦ (p, h)
      ]

  pub sort_by-All : (xs : List A) → All P xs → All P (sort_by less xs)
  unfolding sort_by
  sort_by-All [] h = tt
  sort_by-All (x ∷ xs) h = insert_by-All x (sort_by less xs) h.0 (sort_by-All xs h.1)

module _ {A : Type 0} (less : A → A → Bool) where
  -- A list that sorts to none has none.
  pub sort_by-nil : (xs : List A) → sort_by less xs ≡ [] → xs ≡ []
  unfolding sort_by insert_by
  sort_by-nil [] e = refl
  sort_by-nil (x ∷ xs) e = absurd (no (sort_by less xs) e)
    where
      no : (ys : List A) → insert_by less x ys ≡ [] → ⊥
      no [] f = cc
      no (y ∷ ys) f = elim (Bool-cases (less y x)) [
        | inl lt ↦ ground (arith, lt)
        | inr ge ↦ ground (arith, ge)
      ]
