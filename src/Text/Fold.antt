-- ===== src/Text/Fold.antt =====
-- `strings.EqualFold`. Whether two runes, not both of ASCII, lie in one orbit of
-- `unicode.SimpleFold` is Unicode's data, and a parameter.
use amsonia_core.Base.{
  ℕ, ◌+◌, ◌≡◌, refl, List, [], ◌∷◌, Bool, true, false, ◌&&◌, ltb, leb, ◌==◌, nat_key, if◌then◌else◌,
  arith,
}
use amsonia_core.Text.Defs.{Text}
use amsonia_core.Text.Utf8.{runes}

module _ (same_orbit : ℕ → ℕ → Bool) where
  -- the smaller rune comes first
  fold_pair : ℕ → ℕ → Bool
  fold_pair lo hi =
      if ltb hi 0x80 then leb b'A' lo && leb lo b'Z' && hi == lo + 32 else same_orbit lo hi

  fold_rune : ℕ → ℕ → Bool
  unfolding fold_pair
  fold_rune a b = if a == b then true else if ltb a b then fold_pair a b else fold_pair b a

  fold_runes : List (ℕ × ℕ) → List (ℕ × ℕ) → Bool
  unfolding fold_rune
  fold_runes [] [] = true
  fold_runes [] (y ∷ t) = false
  fold_runes (x ∷ s) [] = false
  fold_runes (x ∷ s) (y ∷ t) = fold_rune x.1 y.1 && fold_runes s t

  unfoldable pub equal_fold : Text → Text → Bool
  unfolding fold_runes runes
  equal_fold s t = fold_runes (runes s) (runes t)

  fold_runes_refl : (s : List (ℕ × ℕ)) → fold_runes s s ≡ true
  unfolding fold_runes
  fold_runes_refl [] = refl
  fold_runes_refl (x ∷ s) = ground (arith, fold_runes_refl s)

  pub equal_fold_refl : (s : Text) → equal_fold s s ≡ true
  unfolding equal_fold
  equal_fold_refl s = fold_runes_refl (runes s)
