-- ===== src/Catalog/Grammar.antt =====
-- `PermissionKey.Validate` and its segments, beside the grammar that catalog.go documents.
use native.Mathlib.Numerals.{add-one}
use amsonia_core.Base.{
  ℕ, suc, ◌≤◌, ◌≡◌, ◌≢◌, subst, ap, ◌∙◌, ==_refl, inl, inr, refl, sym, ◌↔◌, List, [], ◌∷◌, ◌++◌,
  true, false, ltb, ◌==◌, nat_key, ℕ_discrete, Bool-cases, length, All, All-append, arith,
}
use amsonia_core.Text.{Text, text_key}
use amsonia_core.Text.Utf8.{runes, runes_from, runes_from-ascii, runes_from-nil, runes_from-high}
use amsonia_core.Text.Space.{IsVisible, trim_space-visible}
use amsonia_core.Text.Split.{split, join, Lacks, join-split, split-Lacks, split-append}
use amsonia_core.Types.Errors.{Result, ok, each}
use amsonia_core.Catalog.Keys.{
  is_lower, is_word, segment_rune, validate_segment, validate_key, workspace_role_rune,
  validate_workspace_role, parse_permission_key,
}

abbrev pub IsWord : Text → Type 0
IsWord = All (λ b. is_word b ≡ true)

-- One to 64 lowercase letters, digits and underscores, a letter first.
abbrev pub IsSegment : Text → Type 0
IsSegment [] = ⊥
IsSegment (b ∷ s) = (is_lower b ≡ true) × IsWord s × (length (b ∷ s) ≤ 64)

-- `{namespace}:{resource}:{action}`
pub record IsPermissionKey (raw : Text) : Type 0 where
  pub namespace : Text
  pub resource : Text
  pub action : Text
  pub spelled : raw ≡ namespace ++ b':' ∷ (resource ++ b':' ∷ action)
  pub first : IsSegment namespace
  pub second : IsSegment resource
  pub third : IsSegment action

-- A loop over the runes of a text that takes no rune outside ASCII, and judges an ASCII byte
-- behind the first as `is_word` does, and the first as `is_lower` does.
module _ (check : ℕ × ℕ → Result (Unit {0})) where
  record IsSegmentCheck : Type 0 where
    high : (i r : ℕ) → 128 ≤ r → check (i, r) ≢ ok tt
    later : (i r : ℕ) → (check (suc i, r) ≡ ok tt) ↔ (is_word r ≡ true)
    start : (r : ℕ) → (check (0, r) ≡ ok tt) ↔ (is_lower r ≡ true)

  each-cons :
      (x : ℕ × ℕ) (xs : List (ℕ × ℕ))
      → (each check (x ∷ xs) ≡ ok tt) ↔ ((check x ≡ ok tt) × (each check xs ≡ ok tt))
  each-cons x xs = (λ e. ground arith, λ h. ground arith)

  each-high :
      IsSegmentCheck
      → (i b : ℕ) (s : Text) → ltb b 0x80 ≡ false
      → each check (runes_from i 0 (b ∷ s)) ≢ ok tt
  each-high c i b s h = λ e.
      let (r, rest, shape, big) = runes_from-high i b s h in
      c.high i r big ((each-cons (i, r) rest).0 (rw shape at e)).0

  -- Behind its first rune a text passes just when every byte is a word byte.
  later_iff :
      IsSegmentCheck → (i : ℕ) (s : Text) → (each check (runes_from (suc i) 0 s) ≡ ok tt) ↔ IsWord s
  later_iff c i [] = rw (runes_from-nil (suc i)) (λ e. tt, λ h. refl)
  later_iff c i (b ∷ s) = elim (Bool-cases (ltb b 0x80)) [
    | inl low ↦
        rw (runes_from-ascii (suc i) b s low, add-one (suc i))
          (ground (
            arith,
            c.later i b,
            later_iff c (suc i) s,
            each-cons (suc i, b) (runes_from (suc (suc i)) 0 s),
          ))
    | inr high ↦ (λ e. absurd (each-high c (suc i) b s high e), λ h. ground arith)
  ]

  first_iff :
      IsSegmentCheck
      → (b : ℕ) (s : Text)
      → (each check (runes_from 0 0 (b ∷ s)) ≡ ok tt) ↔ ((is_lower b ≡ true) × IsWord s)
  first_iff c b s = elim (Bool-cases (ltb b 0x80)) [
    | inl low ↦
        rw (runes_from-ascii 0 b s low)
          (ground (arith, c.start b, later_iff c 0 s, each-cons (0, b) (runes_from 1 0 s)))
    | inr high ↦ (λ e. absurd (each-high c 0 b s high e), λ h. ground arith)
  ]

segment_rune-IsSegmentCheck : IsSegmentCheck segment_rune
unfolding segment_rune
segment_rune-IsSegmentCheck = record {
  high = λ i r h e. ground arith;
  later = λ i r. ground arith;
  start = λ r. ground arith;
}

workspace_role_rune-IsSegmentCheck : IsSegmentCheck workspace_role_rune
unfolding workspace_role_rune
workspace_role_rune-IsSegmentCheck = record {
  high = λ i r h e. ground arith;
  later = λ i r. ground arith;
  start = λ r. ground arith;
}

-- A segment is accepted exactly when the grammar has it.
pub validate_segment_iff : (seg : Text) → (validate_segment seg ≡ ok tt) ↔ IsSegment seg
unfolding validate_segment runes
validate_segment_iff [] = (λ e. cc, λ h. absurd h)
validate_segment_iff (b ∷ s) =
    let loop = first_iff segment_rune segment_rune-IsSegmentCheck b s in
    (λ e. ground (arith, loop), λ h. ground (arith, loop))

-- A workspace role is accepted exactly when it is a segment of the same grammar.
pub validate_workspace_role_iff :
    (role : Text) → (validate_workspace_role role ≡ ok tt) ↔ IsSegment role
unfolding validate_workspace_role runes
validate_workspace_role_iff [] = (λ e. cc, λ h. absurd h)
validate_workspace_role_iff (b ∷ s) =
    let loop = first_iff workspace_role_rune workspace_role_rune-IsSegmentCheck b s in
    (λ e. ground (arith, loop), λ h. ground (arith, loop))

word-Lacks : (s : Text) → IsWord s → Lacks b':' s
word-Lacks [] h = tt
word-Lacks (b ∷ s) h = (ground arith, word-Lacks s h.1)

word-IsVisible : (s : Text) → IsWord s → All IsVisible s
word-IsVisible [] h = tt
word-IsVisible (b ∷ s) h = ((ground arith, ground arith), word-IsVisible s h.1)

segment-Lacks : (s : Text) → IsSegment s → Lacks b':' s
segment-Lacks [] h = tt
segment-Lacks (b ∷ s) h = (ground arith, word-Lacks s h.1)

segment-IsVisible : (s : Text) → IsSegment s → All IsVisible s
segment-IsVisible [] h = tt
segment-IsVisible (b ∷ s) h = ((ground arith, ground arith), word-IsVisible s h.1)

three_parts :
    (xs : List Text)
    → (length xs == 3) ≡ true
    → (a : Text) × (b : Text) × (c : Text) × (xs ≡ a ∷ b ∷ c ∷ [])
three_parts [] h = ground arith
three_parts (a ∷ []) h = ground arith
three_parts (a ∷ b ∷ []) h = ground arith
three_parts (a ∷ b ∷ c ∷ []) h = (a, b, c, refl)
three_parts (a ∷ b ∷ c ∷ d ∷ xs) h = ground arith

-- Splitting a word of the grammar gives its three segments.
split-key :
    (a b c : Text)
    → IsSegment a
    → IsSegment b
    → IsSegment c
    → split b':' (a ++ b':' ∷ (b ++ b':' ∷ c)) ≡ a ∷ b ∷ c ∷ []
split-key a b c ha hb hc = rw (
  split-append b':' a (b ++ b':' ∷ c) (segment-Lacks a ha),
  split-append b':' b c (segment-Lacks b hb),
  split-Lacks b':' c (segment-Lacks c hc),
)

key-IsVisible :
    (a b c : Text)
    → IsSegment a
    → IsSegment b
    → IsSegment c
    → All IsVisible (a ++ b':' ∷ (b ++ b':' ∷ c))
key-IsVisible a b c ha hb hc = All-append IsVisible a _ (segment-IsVisible a ha) (
  (refl, refl),
  All-append IsVisible b _ (segment-IsVisible b hb) ((refl, refl), segment-IsVisible c hc),
)

each_three :
    (a b c : Text)
    → (each validate_segment (a ∷ b ∷ c ∷ []) ≡ ok tt) ↔ (IsSegment a × IsSegment b × IsSegment c)
each_three a b c =
    let (fa, ga) = validate_segment_iff a in
    let (fb, gb) = validate_segment_iff b in
    let (fc, gc) = validate_segment_iff c in
    (
      λ e. (fa (ground arith), fb (ground arith), fc (ground arith)),
      λ h. rw (ga h.0, gb h.1, gc h.2),
    )

key_sound : (raw : Text) → validate_key raw ≡ ok tt → IsPermissionKey raw
unfolding validate_key
key_sound raw e =
    let (a, b, c, parts) = three_parts (split b':' raw) (ground arith) in
    let segments =
      (each_three a b c).0 (subst (λ xs. each validate_segment xs ≡ ok tt) parts (ground arith)) in
    record {
      namespace = a;
      resource = b;
      action = c;
      spelled = sym (join-split b':' raw) ∙ unfold join in ap (join b':') parts;
      first = segments.0;
      second = segments.1;
      third = segments.2;
    }

key_complete :
    (a b c : Text)
    → IsSegment a
    → IsSegment b
    → IsSegment c
    → validate_key (a ++ b':' ∷ (b ++ b':' ∷ c)) ≡ ok tt
unfolding validate_key ℕ_discrete
key_complete [] b c ha hb hc = absurd ha
key_complete (x ∷ a) b c ha hb hc = rw (
  trim_space-visible _ (key-IsVisible (x ∷ a) b c ha hb hc),
  ==_refl ((x ∷ a) ++ b':' ∷ (b ++ b':' ∷ c)),
  split-key (x ∷ a) b c ha hb hc,
  (each_three (x ∷ a) b c).1 (ha, hb, hc),
  validate_key,
)

-- `PermissionKey.Validate` accepts exactly the three-segment keys of the grammar.
pub validate_key_iff : (raw : Text) → (validate_key raw ≡ ok tt) ↔ IsPermissionKey raw
validate_key_iff raw = (
  key_sound raw,
  λ h. rw h.spelled (key_complete h.namespace h.resource h.action h.first h.second h.third),
)

-- `ParsePermissionKey` succeeds exactly on the keys of the grammar, and returns its input.
pub parse_permission_key_iff :
    (raw key : Text) → (parse_permission_key raw ≡ ok key) ↔ ((key ≡ raw) × IsPermissionKey raw)
unfolding parse_permission_key validate_key
parse_permission_key_iff raw key = (
  λ e. (ground arith, (validate_key_iff raw).0 (ground arith)),
  λ h. let accepted = (validate_key_iff raw).1 h.1 in ground arith,
)
