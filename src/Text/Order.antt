-- ===== src/Text/Order.antt =====
-- `<` on strings, bytewise; `sort.Strings` and the other library sorts.
use amsonia_core.Base.{◌≡◌, refl, [], ◌∷◌, Bool, true, false, ltb, if◌then◌else◌, arith}
use amsonia_core.Text.Defs.{Text}

unfoldable pub text_ltb : Text → Text → Bool
text_ltb [] [] = false
text_ltb [] (y ∷ t) = true
text_ltb (x ∷ s) [] = false
text_ltb (x ∷ s) (y ∷ t) =
    let rest = text_ltb s t in if ltb x y then true else if ltb y x then false else rest

pub text_ltb_irrefl : (s : Text) → text_ltb s s ≡ false
unfolding text_ltb
text_ltb_irrefl [] = refl
text_ltb_irrefl (x ∷ s) = ground (arith, text_ltb_irrefl s)

pub text_ltb_trans :
    (s t u : Text) → text_ltb s t ≡ true → text_ltb t u ≡ true → text_ltb s u ≡ true
unfolding text_ltb
text_ltb_trans s [] [] h k = cc
text_ltb_trans [] [] (z ∷ u) h k = cc
text_ltb_trans (x ∷ s) [] (z ∷ u) h k = cc
text_ltb_trans s (y ∷ t) [] h k = cc
text_ltb_trans [] (y ∷ t) (z ∷ u) h k = refl
text_ltb_trans (x ∷ s) (y ∷ t) (z ∷ u) h k = ground (arith, text_ltb_trans s t u)

pub text_ltb_total : (s t : Text) → text_ltb s t ≡ false → text_ltb t s ≡ false → s ≡ t
unfolding text_ltb
text_ltb_total [] [] h k = refl
text_ltb_total [] (y ∷ t) h k = cc
text_ltb_total (x ∷ s) [] h k = cc
text_ltb_total (x ∷ s) (y ∷ t) h k = ground (arith, text_ltb_total s t)

pub text_ltb_asymm : (s t : Text) → text_ltb s t ≡ true → text_ltb t s ≡ false
unfolding text_ltb
text_ltb_asymm [] [] h = cc
text_ltb_asymm [] (y ∷ t) h = refl
text_ltb_asymm (x ∷ s) [] h = cc
text_ltb_asymm (x ∷ s) (y ∷ t) h = ground (arith, text_ltb_asymm s t)

-- What is not less than a text is not less than what that is not less than.
pub text_le_trans :
    (s t u : Text) → text_ltb s t ≡ false → text_ltb t u ≡ false → text_ltb s u ≡ false
unfolding text_ltb
text_le_trans s [] [] h k = h
text_le_trans [] [] (z ∷ u) h k = cc
text_le_trans (x ∷ s) [] (z ∷ u) h k = cc
text_le_trans [] (y ∷ t) u h k = cc
text_le_trans (x ∷ s) (y ∷ t) [] h k = refl
text_le_trans (x ∷ s) (y ∷ t) (z ∷ u) h k = ground (arith, text_le_trans s t u)
