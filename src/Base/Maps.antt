-- ===== src/Base/Maps.antt =====
-- Go's maps, as association lists. The list's order stands for the order in which `range` goes
-- through the map; a write keeps it, and a new key comes last.
use amsonia_core.Base.Tests.{Key, is_yes, ◌==◌, if◌then◌else◌}
use mathlib.Core.Bool.{Bool, true, false}
use mathlib.Core.Path.{◌≡◌, refl, subst, sym, ◌∙◌}
use mathlib.Core.Logic.{◌≢◌, ◌⊎◌, inl, inr}
use amsonia_core.Base.Lists.{All, Some, In}
use mathlib.Core.List.{List, [], ◌∷◌, map}
use mathlib.Core.Option.{Option, none, some}
use native.Mathlib.Omega.{arith}

abbrev pub Map {ℓ} : Type ℓ → Type ℓ → Type ℓ
Map K V = List (K × V)

module _ {ℓ} {K V : Type ℓ} where
  abbrev pub keys : Map K V → List K
  keys = map (λ e. e.0)

  abbrev pub values : Map K V → List V
  values = map (λ e. e.1)

module _ {ℓ} {K V : Type ℓ} ⦃k : Key K⦄ where
  unfoldable pub lookup : K → Map K V → Option V
  lookup a [] = none
  lookup a ((b, v) ∷ m) = if b == a then some v else lookup a m

  -- `_, ok := m[a]`
  unfoldable pub contains : K → Map K V → Bool
  unfolding lookup
  contains a m = elim (lookup a m) [ none ↦ false | some v ↦ true ]

  -- `m[a] = v`
  unfoldable pub insert : K → V → Map K V → Map K V
  insert a v [] = (a, v) ∷ []
  insert a v ((b, w) ∷ m) = if b == a then (a, v) ∷ m else (b, w) ∷ insert a v m

  -- `delete(m, a)`
  unfoldable pub erase : K → Map K V → Map K V
  erase a [] = []
  erase a ((b, w) ∷ m) = if b == a then erase a m else (b, w) ∷ erase a m

  pub lookup-insert :
      (a b : K) (v : V) (m : Map K V)
      → lookup b (insert a v m) ≡ (if a == b then some v else lookup b m)
  unfolding lookup insert
  lookup-insert a b v [] = refl
  lookup-insert a b v ((c, w) ∷ m) = ground (arith, lookup-insert a b v m)

  pub lookup-insert_self : (a : K) (v : V) (m : Map K V) → lookup a (insert a v m) ≡ some v
  lookup-insert_self a v m = ground (arith, lookup-insert a a v m)

  pub lookup-insert_ne :
      (a b : K) (v : V) (m : Map K V) → a ≢ b → lookup b (insert a v m) ≡ lookup b m
  lookup-insert_ne a b v m h = ground (arith, lookup-insert a b v m)

  pub lookup-erase :
      (a b : K) (m : Map K V) → lookup b (erase a m) ≡ (if a == b then none else lookup b m)
  unfolding lookup erase
  lookup-erase a b [] = ground arith
  lookup-erase a b ((c, w) ∷ m) = ground (arith, lookup-erase a b m)

-- What every entry has, the entry found has, and a write keeps.
module _ {K V : Type 0} ⦃k : Key K⦄ (P : K → V → Type 0) where
  pub lookup-All :
      (a : K) (m : Map K V) {v : V} → All (λ e. P e.0 e.1) m → lookup a m ≡ some v → P a v
  unfolding lookup
  lookup-All a [] h e = cc
  lookup-All a ((b, w) ∷ m) {v} h e = elim (k.dec b a) [
    | yes p ↦ let same : w ≡ v = ground arith in subst (P a) same (subst (λ x. P x w) p h.0)
    | no ne ↦ lookup-All a m h.1 (ground arith)
  ]

  pub All-insert :
      (a : K) (v : V) (m : Map K V)
      → All (λ e. P e.0 e.1) m
      → P a v
      → All (λ e. P e.0 e.1) (insert a v m)
  unfolding insert
  All-insert a v [] h p = (p, tt)
  All-insert a v ((b, w) ∷ m) h p =
      elim (k.dec b a)
        as (λ d. All (λ e. P e.0 e.1) (if is_yes d then (a, v) ∷ m else (b, w) ∷ insert a v m)) [
          | yes q ↦ (p, h.1)
          | no ne ↦ (h.0, All-insert a v m h.1 p)
        ]

  pub All-erase : (a : K) (m : Map K V) → All (λ e. P e.0 e.1) m → All (λ e. P e.0 e.1) (erase a m)
  unfolding erase
  All-erase a [] h = tt
  All-erase a ((b, w) ∷ m) h =
      elim (k.dec b a)
        as (λ d. All (λ e. P e.0 e.1) (if is_yes d then erase a m else (b, w) ∷ erase a m)) [
          | yes q ↦ All-erase a m h.1
          | no ne ↦ (h.0, All-erase a m h.1)
        ]

  -- Some entry has the property, and still has after a write that keeps it at its key.
  pub Some-insert :
      (a : K) (v : V) (m : Map K V)
      → ((w : V) → lookup a m ≡ some w → P a w → P a v)
      → Some (λ e. P e.0 e.1) m
      → Some (λ e. P e.0 e.1) (insert a v m)
  unfolding insert lookup
  Some-insert a v [] keep s = absurd s
  Some-insert a v ((b, w) ∷ m) keep s = go (Some-insert a v m) (k.dec b a) refl s
    where
      go :
          (((w : V) → lookup a m ≡ some w → P a w → P a v)
            → Some (λ e. P e.0 e.1) m
            → Some (λ e. P e.0 e.1) (insert a v m))
          → (d : Dec (b ≡ a)) → k.dec b a ≡ d
          → P b w ⊎ Some (λ e. P e.0 e.1) m
          → Some (λ e. P e.0 e.1) (if is_yes d then (a, v) ∷ m else (b, w) ∷ insert a v m)
      go ih (yes q) e (inl p) = inl (keep w (rw e) (subst (λ x. P x w) q p))
      go ih (yes q) e (inr r) = inr r
      go ih (no ne) e (inl p) = inl p
      go ih (no ne) e (inr r) = inr (ih (λ x f. keep x (rw e f)) r)

  -- What a write puts at its key.
  pub Some-insert_self :
      (a : K) (v : V) (m : Map K V) → P a v → Some (λ e. P e.0 e.1) (insert a v m)
  unfolding insert
  Some-insert_self a v [] p = inl p
  Some-insert_self a v ((b, w) ∷ m) p =
      elim (k.dec b a)
        as (λ d. Some (λ e. P e.0 e.1) (if is_yes d then (a, v) ∷ m else (b, w) ∷ insert a v m)) [
          | yes q ↦ inl p
          | no ne ↦ inr (Some-insert_self a v m p)
        ]

  -- What the entry found has, some entry has.
  pub lookup-Some :
      (a : K) (m : Map K V) {v : V} → lookup a m ≡ some v → P a v → Some (λ e. P e.0 e.1) m
  unfolding lookup
  lookup-Some a [] e p = cc
  lookup-Some a ((b, w) ∷ m) {v} e p = elim (k.dec b a) [
    | yes q ↦
        let same : v ≡ w = ground arith in inl (subst (P b) same (subst (λ x. P x v) (sym q) p))
    | no ne ↦ inr (lookup-Some a m (ground arith) p)
  ]

module _ {K V : Type 0} ⦃k : Key K⦄ where
  pub lookup-In : (a : K) (m : Map K V) {v : V} → lookup a m ≡ some v → In (keys m) a
  unfolding lookup
  lookup-In a [] e = cc
  lookup-In a ((b, w) ∷ m) {v} e = elim (k.dec b a) [
    | yes q ↦ inl q
    | no ne ↦ inr (lookup-In a m {v = v} (ground arith))
  ]

  -- A write loses no key and adds its own.
  pub In-insert :
      (a b : K) (v : V) (m : Map K V) → (a ≡ b) ⊎ In (keys m) b → In (keys (insert a v m)) b
  unfolding insert
  In-insert a b v [] h = elim h [ inl e ↦ inl e | inr r ↦ absurd r ]
  In-insert a b v ((c, w) ∷ m) h =
      elim (k.dec c a)
        as (λ d. In (keys (if is_yes d then (a, v) ∷ m else (c, w) ∷ insert a v m)) b) [
          | yes q ↦ elim h [
            | inl e ↦ inl e
            | inr r ↦ elim r [ inl f ↦ inl (sym q ∙ f) | inr t ↦ inr t ]
          ]
          | no ne ↦ elim h [
            | inl e ↦ inr (In-insert a b v m (inl e))
            | inr r ↦ elim r [ inl f ↦ inl f | inr t ↦ inr (In-insert a b v m (inr t)) ]
          ]
        ]

-- What the values have, the entries have.
module _ {K V : Type 0} (P : V → Type 0) where
  pub Some-values : (m : Map K V) → Some P (values m) → Some (λ e. P e.1) m
  Some-values [] h = h
  Some-values (e ∷ m) h = elim h [ inl p ↦ inl p | inr r ↦ inr (Some-values m r) ]

  pub values-Some : (m : Map K V) → Some (λ e. P e.1) m → Some P (values m)
  values-Some [] h = h
  values-Some (e ∷ m) h = elim h [ inl p ↦ inl p | inr r ↦ inr (values-Some m r) ]

  pub All-values : (m : Map K V) → All P (values m) → All (λ e. P e.1) m
  All-values [] h = tt
  All-values (e ∷ m) h = (h.0, All-values m h.1)

  pub values-All : (m : Map K V) → All (λ e. P e.1) m → All P (values m)
  values-All [] h = tt
  values-All (e ∷ m) h = (h.0, values-All m h.1)
