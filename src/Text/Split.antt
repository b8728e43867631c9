-- ===== src/Text/Split.antt =====
-- `strings.Split` and `strings.Join` at a separator of one byte.
use amsonia_core.Base.{
  ℕ, ◌≡◌, refl, List, [], ◌∷◌, ◌++◌, ◌==◌, nat_key, if◌then◌else◌, All, ◌≢◌, ℕ_discrete, subst, sym,
  ap, ◌∙◌, arith,
}
use amsonia_core.Text.Defs.{Text}

push : ℕ → List Text → List Text
push c [] = (c ∷ []) ∷ []
push c (p ∷ ps) = (c ∷ p) ∷ ps

push-ne-nil : (c : ℕ) (ps : List Text) → push c ps ≢ []
unfolding push
push-ne-nil c [] = λ e. cc
push-ne-nil c (p ∷ ps) = λ e. cc

module _ (sep : ℕ) where
  unfoldable pub split : Text → List Text
  unfolding push
  split [] = [] ∷ []
  split (c ∷ s) = let rest = split s in if c == sep then [] ∷ rest else push c rest

  unfoldable pub join : List Text → Text
  join [] = []
  join (p ∷ []) = p
  join (p ∷ q ∷ ps) = p ++ sep ∷ join (q ∷ ps)

  abbrev pub Lacks : Text → Type 0
  Lacks = All (λ c. c ≢ sep)

  pub split-ne-nil : (s : Text) → split s ≢ []
  unfolding split
  split-ne-nil [] = λ e. cc
  split-ne-nil (c ∷ s) = ground (arith, push-ne-nil c (split s))

  join-push : (c : ℕ) (ps : List Text) → ps ≢ [] → join (push c ps) ≡ c ∷ join ps
  unfolding join push
  join-push c [] h = absurd (h refl)
  join-push c (p ∷ []) h = refl
  join-push c (p ∷ q ∷ ps) h = refl

  join-nil : (ps : List Text) → ps ≢ [] → join ([] ∷ ps) ≡ sep ∷ join ps
  unfolding join
  join-nil [] h = absurd (h refl)
  join-nil (p ∷ ps) h = refl

  pub join-split : (s : Text) → join (split s) ≡ s
  unfolding split
  join-split [] = unfold join in refl
  join-split (c ∷ s) = ground (
    arith,
    join-split s,
    join-push c (split s) (split-ne-nil s),
    join-nil (split s) (split-ne-nil s),
  )

  pub split-Lacks : (p : Text) → Lacks p → split p ≡ p ∷ []
  unfolding split push
  split-Lacks [] h = refl
  split-Lacks (c ∷ p) h = ground (arith, split-Lacks p h.1)

  pub split-append : (p s : Text) → Lacks p → split (p ++ sep ∷ s) ≡ p ∷ split s
  unfolding split push
  split-append [] s h = ground arith
  split-append (c ∷ p) s h = ground (arith, split-append p s h.1)

  push-All :
      (P : ℕ → Type 0) (c : ℕ) (ps : List Text) → P c → All (All P) ps → All (All P) (push c ps)
  unfolding push
  push-All P c [] h k = ((h, tt), tt)
  push-All P c (p ∷ ps) h k = ((h, k.0), k.1)

  skip : (c : ℕ) (s : Text) → c ≡ sep → split (c ∷ s) ≡ [] ∷ split s
  unfolding split
  skip c s e = ground (arith, e)

  keep : (c : ℕ) (s : Text) → c ≢ sep → split (c ∷ s) ≡ push c (split s)
  unfolding split
  keep c s e = ground (arith, e)

  -- No part has the separator.
  pub split-All : (s : Text) → All Lacks (split s)
  unfolding split
  split-All [] = (tt, tt)
  split-All (c ∷ s) = elim (ℕ_discrete c sep) [
    | yes e ↦ subst (All Lacks) (sym (skip c s e)) (tt, split-All s)
    | no e ↦
        subst (All Lacks) (sym (keep c s e)) (push-All (λ d. d ≢ sep) c (split s) e (split-All s))
  ]

  -- Parts without the separator are found again, unless there are none.
  pub split-join : (p : Text) (ps : List Text) → All Lacks (p ∷ ps) → split (join (p ∷ ps)) ≡ p ∷ ps
  unfolding join
  split-join p [] h = split-Lacks p h.0
  split-join p (q ∷ ps) h =
      split-append p (join (q ∷ ps)) h.0 ∙ ap (λ r. p ∷ r) (split-join q ps h.1)
