-- ===== src/CoreSync/Paths/Elements.antt =====
-- The elements that `path.Clean` leaves, as internal/coresync/sync.go uses it.
use amsonia_core.Base.{
  ◌≡◌, ◌≢◌, ◌⊎◌, inl, inr, refl, sym, ap, ◌∙◌, subst, list_dec, List, [], ◌∷◌, ◌++◌, append-nil,
  append_assoc, Bool, true, false, All, All-reverse, ==_iff, nat_key, reverse, arith,
}
use mathlib.Core.List.{reverse-cons, reverse-append}
use amsonia_core.Text.{Text, text_key, codes, is_empty, is_empty_iff}
use amsonia_core.CoreSync.Paths.{go_up, clean_step, clean_elements}

-- An element that names something below the directory that it is looked up in.
abbrev pub IsPlain : Text → Type 0
IsPlain e = (e ≢ []) × (e ≢ codes ".") × (e ≢ codes "..")

-- The elements so far, the last first, are plain, or the first of them goes up.
abbrev pub Shape : List Text → Type 0
Shape out = All IsPlain out ⊎ ((ys : List Text) × (out ≡ ys ++ codes ".." ∷ []))

element_cases : (e : Text) → (is_empty e ≡ true) ⊎ (e ≡ codes ".") ⊎ (e ≡ codes "..") ⊎ IsPlain e
element_cases e = elim (list_dec e []) [
  | yes h ↦ inl (ap is_empty h)
  | no empty ↦ elim (list_dec e (codes ".")) [
    | yes h ↦ inr (inl h)
    | no dot ↦ elim (list_dec e (codes "..")) [
      | yes h ↦ inr (inr (inl h))
      | no up ↦ inr (inr (inr (empty, dot, up)))
    ]
  ]
]

clean_step-Plain :
    (b : Bool) (out : List Text) (e : Text) → IsPlain e → clean_step b out e ≡ e ∷ out
unfolding clean_step
clean_step-Plain b out e h =
    ground (arith, h.0, h.1, h.2, is_empty_iff e, ==_iff e (codes "."), ==_iff e (codes ".."))

pub clean_elements-Plain :
    (b : Bool) (out es : List Text) → All IsPlain es → clean_elements b out es ≡ reverse out ++ es
unfolding clean_elements
clean_elements-Plain b out [] h = sym (append-nil (reverse out))
clean_elements-Plain b out (e ∷ es) h =
    ap (λ o. clean_elements b o es) (clean_step-Plain b out e h.0)
    ∙ clean_elements-Plain b (e ∷ out) es h.1
    ∙ ap (λ o. o ++ es) (reverse-cons e out)
    ∙ append_assoc (reverse out) (e ∷ []) es

go_up-keep :
    (b : Bool) (up last : Text) (out : List Text)
    → last ≡ codes ".."
    → go_up b up (last ∷ out) ≡ up ∷ last ∷ out
unfolding go_up
go_up-keep b up last out e = ground (arith, ==_iff last (codes ".."), e)

go_up-drop :
    (b : Bool) (up last : Text) (out : List Text)
    → last ≢ codes ".."
    → go_up b up (last ∷ out) ≡ out
unfolding go_up
go_up-drop b up last out e = ground (arith, ==_iff last (codes ".."), e)

-- An element that is left is not the one that goes up.
drop-Shape : (last : Text) (out : List Text) → last ≢ codes ".." → Shape (last ∷ out) → Shape out
drop-Shape last out down (inl plain) = inl plain.1
drop-Shape last out down (inr ([], same)) = absurd (down (cc))
drop-Shape last out down (inr (y ∷ ys, same)) = inr (ys, cc)

keep-Shape :
    (last : Text) (out : List Text)
    → last ≡ codes ".."
    → Shape (last ∷ out)
    → Shape (codes ".." ∷ last ∷ out)
keep-Shape last out up (inl plain) = absurd (plain.0.2 up)
keep-Shape last out up (inr (ys, same)) = inr (codes ".." ∷ ys, ap (λ o. codes ".." ∷ o) same)

go_up-Shape : (out : List Text) → Shape out → Shape (go_up false (codes "..") out)
go_up-Shape [] h = unfold go_up in inr ([], refl)
go_up-Shape (last ∷ out) h = elim (list_dec last (codes "..")) [
  | yes up ↦
      subst Shape (sym (go_up-keep false (codes "..") last out up)) (keep-Shape last out up h)
  | no down ↦
      subst Shape (sym (go_up-drop false (codes "..") last out down)) (drop-Shape last out down h)
]

clean_step-skip :
    (b : Bool) (out : List Text) (e : Text)
    → (is_empty e ≡ true) ⊎ (e ≡ codes ".")
    → clean_step b out e ≡ out
unfolding clean_step
clean_step-skip b out e h = ground (arith, h, ==_iff e (codes "."))

clean_step-up :
    (b : Bool) (out : List Text) (e : Text)
    → e ≡ codes ".."
    → clean_step b out e ≡ go_up b (codes "..") out
unfolding clean_step amsonia_core.Text.text_dec
clean_step-up b out e h = subst (λ d. clean_step b out d ≡ go_up b (codes "..") out) (sym h) refl

push-Shape : (e : Text) (out : List Text) → IsPlain e → Shape out → Shape (e ∷ out)
push-Shape e out plain (inl h) = inl (plain, h)
push-Shape e out plain (inr (ys, same)) = inr (e ∷ ys, ap (λ o. e ∷ o) same)

clean_step-Shape : (out : List Text) (e : Text) → Shape out → Shape (clean_step false out e)
clean_step-Shape out e h = elim (element_cases e) [
  | inl z ↦ subst Shape (sym (clean_step-skip false out e (inl z))) h
  | inr (inl z) ↦ subst Shape (sym (clean_step-skip false out e (inr z))) h
  | inr (inr (inl z)) ↦ subst Shape (sym (clean_step-up false out e z)) (go_up-Shape out h)
  | inr (inr (inr plain)) ↦
      subst Shape (sym (clean_step-Plain false out e plain)) (push-Shape e out plain h)
]

-- What is cleaned has plain elements, or it begins with the one that goes up.
pub clean_elements-Shape :
    (out es : List Text)
    → Shape out
    → All IsPlain (clean_elements false out es)
      ⊎ ((ys : List Text) × (clean_elements false out es ≡ codes ".." ∷ ys))
unfolding clean_elements
clean_elements-Shape out [] (inl h) = inl (All-reverse IsPlain out h)
clean_elements-Shape out [] (inr (ys, same)) =
    inr (reverse ys, ap reverse same ∙ reverse-append ys (codes ".." ∷ []))
clean_elements-Shape out (e ∷ es) h =
    clean_elements-Shape (clean_step false out e) es (clean_step-Shape out e h)

go_up-All :
    (P : Text → Type 0) (out : List Text)
    → P (codes "..")
    → All P out
    → All P (go_up false (codes "..") out)
go_up-All P [] up h = unfold go_up in (up, tt)
go_up-All P (last ∷ out) up h = elim (list_dec last (codes "..")) [
  | yes e ↦ subst (All P) (sym (go_up-keep false (codes "..") last out e)) (up, h)
  | no e ↦ subst (All P) (sym (go_up-drop false (codes "..") last out e)) h.1
]

clean_step-All :
    (P : Text → Type 0) (out : List Text) (e : Text)
    → P (codes "..")
    → All P out
    → P e
    → All P (clean_step false out e)
clean_step-All P out e up h k = elim (element_cases e) [
  | inl z ↦ subst (All P) (sym (clean_step-skip false out e (inl z))) h
  | inr (inl z) ↦ subst (All P) (sym (clean_step-skip false out e (inr z))) h
  | inr (inr (inl z)) ↦ subst (All P) (sym (clean_step-up false out e z)) (go_up-All P out up h)
  | inr (inr (inr plain)) ↦ subst (All P) (sym (clean_step-Plain false out e plain)) (k, h)
]

pub clean_elements-All :
    (P : Text → Type 0) (out es : List Text)
    → P (codes "..")
    → All P out
    → All P es
    → All P (clean_elements false out es)
unfolding clean_elements
clean_elements-All P out [] up h k = All-reverse P out h
clean_elements-All P out (e ∷ es) up h k =
    clean_elements-All P (clean_step false out e) es up (clean_step-All P out e up h k.0) k.1
