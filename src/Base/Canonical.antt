-- ===== src/Base/Canonical.antt =====
-- Sorts whose result does not depend on the order of their input.
use mathlib.Core.Path.{◌≡◌, refl, ◌∙◌, subst}
use mathlib.Core.Bool.{Bool, true, false}
use mathlib.Core.Logic.{inl, inr}
use mathlib.Core.List.{List, [], ◌∷◌, Permᴰ}
use native.Mathlib.Omega.{arith}
use amsonia_core.Base.Lists.{All}
use amsonia_core.Base.Sort.{insert_by, sort_by}
use amsonia_core.Base.Tests.{Bool-cases}

-- A comparison that ranks: what it puts neither before nor after another ties with it.
pub record Ranks {A : Type 0} (less : A → A → Bool) : Type 0 where
  pub asymm : (a b : A) → less a b ≡ true → less b a ≡ false
  pub apart : (a b c : A) → less a b ≡ false → less b c ≡ false → less a c ≡ false

-- Values with the property that tie are equal.
abbrev pub TiesIn : {A : Type 0} → (A → Type 0) → (A → A → Bool) → Type 0
TiesIn {A} P less = (a b : A) → P a → P b → less a b ≡ false → less b a ≡ false → a ≡ b

module _ {A : Type 0} (P : A → Type 0) (less : A → A → Bool) (ranks : Ranks less)
    (ties : TiesIn P less) where
  -- Two insertions commute.
  insert_by_comm :
      (x y : A) (zs : List A)
      → P x
      → P y
      → insert_by less x (insert_by less y zs) ≡ insert_by less y (insert_by less x zs)
  unfolding insert_by
  insert_by_comm x y [] px py = elim (Bool-cases (less y x)) [
    | inl lt ↦ ground (arith, lt, ranks.asymm y x lt)
    | inr ge ↦ elim (Bool-cases (less x y)) [
      | inl lt ↦ ground (arith, lt, ge)
      | inr le ↦ let same = ties x y px py le ge in ground (arith, le, ge, same)
    ]
  ]
  insert_by_comm x y (z ∷ zs) px py = ground (
    arith,
    insert_by_comm x y zs px py,
    ranks.asymm y x,
    ranks.asymm x y,
    ranks.apart z x y,
    ranks.apart z y x,
    ties x y px py,
  )

  All-permᴰ : {xs ys : List A} → Permᴰ xs ys → All P xs → All P ys
  All-permᴰ Permᴰ.nil h = tt
  All-permᴰ (Permᴰ.cons e d) h = (subst P e h.0, All-permᴰ d h.1)
  All-permᴰ (Permᴰ.swap e f) h = (subst P f h.1.0, (subst P e h.0, h.1.1))
  All-permᴰ (Permᴰ.trans d e) h = All-permᴰ e (All-permᴰ d h)

  -- Lists that differ in their order only sort to one list.
  pub sort_by-permᴰ : {xs ys : List A} → Permᴰ xs ys → All P xs → sort_by less xs ≡ sort_by less ys
  unfolding sort_by
  sort_by-permᴰ Permᴰ.nil h = refl
  sort_by-permᴰ (Permᴰ.cons e d) h = rw (e, sort_by-permᴰ d h.1) refl
  sort_by-permᴰ (Permᴰ.swap {a} {b} {l = l} e f) h =
      insert_by_comm a b (sort_by less l) h.0 h.1.0
      ∙ (λ i. insert_by less (f i) (insert_by less (e i) (sort_by less l)))
  sort_by-permᴰ (Permᴰ.trans d e) h = sort_by-permᴰ d h ∙ sort_by-permᴰ e (All-permᴰ d h)
