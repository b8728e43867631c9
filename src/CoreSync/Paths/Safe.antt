-- ===== src/CoreSync/Paths/Safe.antt =====
-- Which paths internal/coresync/sync.go takes for safe.
use amsonia_core.Base.{
  ℕ, ◌≡◌, ◌≢◌, ◌↔◌, ◌⊎◌, inl, inr, refl, sym, ap, ◌∙◌, subst, List, [], ◌∷◌, ◌++◌, Bool, true,
  false, any, All, ◌==◌, ==_iff, ==_refl, nat_key, Option, none, some, Bool-cases, arith,
}
use amsonia_core.Text.{Text, text_key, codes, is_empty_iff}
use amsonia_core.Text.Split.{
  split, join, join-split, split-join, split-All, split-Lacks, split-append, split-ne-nil,
}
use amsonia_core.CoreSync.Paths.{
  is_abs, clean_elements, clean, is_forbidden, has_drive, climbs, is_safe_relative_path,
}
use amsonia_core.CoreSync.Paths.Elements.{
  IsPlain, clean_elements-Shape, clean_elements-Plain, clean_elements-All,
}

-- What the code asks of a path, apart from its bytes.
record Asked (v : Text) : Type 0 where
  some_text : v ≢ []
  no_dot : v ≢ codes "."
  relative : is_abs v ≡ false
  cleaned : clean v ≡ v
  no_up : v ≢ codes ".."
  stays : climbs v ≡ false

clean-nil :
    (v : Text)
    → is_abs v ≡ false
    → clean_elements false [] (split b'/' v) ≡ []
    → clean v ≡ codes "."
unfolding clean
clean-nil v e same = ground (arith, e, same)

clean-cons :
    (v e : Text) (es : List Text)
    → is_abs v ≡ false
    → clean_elements false [] (split b'/' v) ≡ e ∷ es
    → clean v ≡ join b'/' (e ∷ es)
unfolding clean
clean-cons v e es relative same = ground (arith, relative, same)

climbs-join : (y : Text) (ys : List Text) → climbs (join b'/' (codes ".." ∷ y ∷ ys)) ≡ true
unfolding climbs join amsonia_core.Base.ℕ_discrete
climbs-join y ys = refl

-- What begins with the element that goes up is refused.
refuse_up : (v : Text) (ys : List Text) → Asked v → join b'/' (codes ".." ∷ ys) ≡ v → ⊥
refuse_up v [] asked e = asked.no_up (sym e ∙ unfold join in refl)
refuse_up v (y ∷ ys) asked e = cc (asked.stays, climbs-join y ys, ap climbs e)

split-clean :
    (v : Text) (es : List Text)
    → All (All (λ c. c ≢ b'/')) es
    → All IsPlain es ⊎ ((ys : List Text) × (es ≡ codes ".." ∷ ys))
    → Asked v
    → clean_elements false [] (split b'/' v) ≡ es
    → All IsPlain (split b'/' v)
split-clean v [] lacks shape asked same =
    absurd (asked.no_dot (sym asked.cleaned ∙ clean-nil v asked.relative same))
split-clean v (e ∷ es) lacks shape asked same =
    let text : join b'/' (e ∷ es) ≡ v =
      sym (clean-cons v e es asked.relative same) ∙ asked.cleaned in
    let parts : split b'/' v ≡ e ∷ es = ap (split b'/') (sym text) ∙ split-join b'/' e es lacks in
    elim shape [
      | inl plain ↦ subst (All IsPlain) (sym parts) plain
      | inr (ys, up) ↦ absurd (refuse_up v ys asked (ap (join b'/') (sym up) ∙ text))
    ]

Asked-Plain : (v : Text) → Asked v → All IsPlain (split b'/' v)
Asked-Plain v asked =
    split-clean v (clean_elements false [] (split b'/' v))
      (clean_elements-All (All (λ c. c ≢ b'/')) [] (split b'/' v) (omega arith) tt
        (split-All b'/' v))
      (clean_elements-Shape [] (split b'/' v) (inl tt)) asked refl

climbs_form : (v : Text) → climbs v ≡ true → (s : Text) × (v ≡ codes ".." ++ b'/' ∷ s)
unfolding climbs
climbs_form [] e = cc
climbs_form (a ∷ []) e = cc
climbs_form (a ∷ b ∷ []) e = cc
climbs_form (a ∷ b ∷ c ∷ s) e =
    let first : a ≡ b'.' = ground (arith, e, ==_iff a b'.') in
    let second : b ≡ b'.' = ground (arith, e, ==_iff b b'.') in
    let third : c ≡ b'/' = ground (arith, e, ==_iff c b'/') in (s, cc)

Plain-split :
    (v : Text) (e : Text) (es : List Text)
    → split b'/' v ≡ e ∷ es
    → All IsPlain (split b'/' v)
    → IsPlain e
Plain-split v e es same h = (subst (All IsPlain) same h).0

Plain-relative : (v : Text) → All IsPlain (split b'/' v) → is_abs v ≡ false
unfolding is_abs
Plain-relative [] h = refl
Plain-relative (c ∷ v) h = elim (Bool-cases (c == b'/')) [
  | inr e ↦ e
  | inl e ↦ absurd (
      (Plain-split (c ∷ v) [] (split b'/' v)
          (ap (λ d. split b'/' (d ∷ v)) ((==_iff c b'/').0 e) ∙ split-append b'/' [] v tt) h).0
        refl)
]

Plain-cleaned :
    (v : Text) (ps : List Text) → split b'/' v ≡ ps → All IsPlain (split b'/' v) → clean v ≡ v
Plain-cleaned v [] same h = absurd (split-ne-nil b'/' v same)
Plain-cleaned v (e ∷ es) same h =
    clean-cons v e es (Plain-relative v h) (clean_elements-Plain false [] (split b'/' v) h ∙ same)
    ∙ ap (join b'/') (sym same)
    ∙ join-split b'/' v

Plain-stays : (v : Text) → All IsPlain (split b'/' v) → climbs v ≡ false
Plain-stays v h = elim (Bool-cases (climbs v)) [
  | inr e ↦ e
  | inl e ↦
      let (s, form) = climbs_form v e in
      absurd (
        (Plain-split v (codes "..") (split b'/' s)
            (ap (split b'/') form ∙ split-append b'/' (codes "..") s (omega arith)) h).2
          refl)
]

Plain-Asked : (v : Text) → All IsPlain (split b'/' v) → Asked v
Plain-Asked v h = record {
  some_text = λ e. (Plain-split v [] [] (ap (split b'/') e ∙ split-Lacks b'/' [] tt) h).0 refl;
  no_dot = λ e.
      (Plain-split v (codes ".") [] (ap (split b'/') e ∙ split-Lacks b'/' (codes ".") (omega arith))
          h).1
        refl;
  relative = Plain-relative v h;
  cleaned = Plain-cleaned v (split b'/' v) refl h;
  no_up = λ e.
      (Plain-split v (codes "..") []
          (ap (split b'/') e ∙ split-Lacks b'/' (codes "..") (omega arith)) h).2
        refl;
  stays = Plain-stays v h;
}

safe-Asked : (v : Text) → is_safe_relative_path v ≡ true → Asked v
unfolding is_safe_relative_path
safe-Asked v e = record {
  some_text = λ f. ground (arith, e, f, is_empty_iff v);
  no_dot = λ f. ground (arith, e, f, ==_iff v (codes "."));
  relative = ground (arith, e);
  cleaned = ground (arith, e, ==_iff (clean v) v);
  no_up = λ f. ground (arith, e, f, ==_iff v (codes ".."));
  stays = ground (arith, e);
}

-- A path is safe exactly where each of its elements, between slashes, is neither empty nor "." nor
-- "..", none of its bytes is forbidden, and it does not begin with the letter of a drive and a colon.
pub is_safe_relative_path_iff :
    (v : Text)
    → (is_safe_relative_path v ≡ true)
      ↔ (All IsPlain (split b'/' v) × (any is_forbidden v ≡ false) × (has_drive v ≡ false))
unfolding is_safe_relative_path
is_safe_relative_path_iff v = (
  λ e. (Asked-Plain v (safe-Asked v e), ground (arith, e), ground (arith, e)),
  λ h.
      let asked = Plain-Asked v h.0 in
      ground (
        arith,
        h,
        asked.some_text,
        asked.no_dot,
        asked.relative,
        asked.cleaned,
        asked.no_up,
        asked.stays,
        is_empty_iff v,
        ==_iff v (codes "."),
        ==_iff (clean v) v,
        ==_iff v (codes ".."),
      ),
)
