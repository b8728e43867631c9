-- ===== src/Catalog/Sorting.antt =====
-- `sortKeys` of catalog.go.
use mathlib.Core.List.{reverse-cons}
use mathlib.Core.List.Perm
use amsonia_core.Base.{
  ◌≡◌, sym, subst, inl, inr, List, [], ◌∷◌, ◌++◌, false, Bool-cases, All, reverse, append_assoc,
  reverse-reverse, append-nil,
}
use mathlib.Core.List.{Perm}
use amsonia_core.Text.{Text}
use amsonia_core.Text.Order.{text_ltb, text_ltb_trans, text_ltb_total, text_ltb_asymm}
use amsonia_core.Catalog.{sink, sort_from, sort_keys}

reverse-cons-append :
    {A : Type 0} (x : A) (xs ys : List A) → reverse (x ∷ xs) ++ ys ≡ reverse xs ++ x ∷ ys
reverse-cons-append x xs ys = rw reverse-cons (append_assoc (reverse xs) (x ∷ []) ys)

-- Each element is related to all that come behind it.
abbrev pub Ordered : (Text → Text → Type 0) → List Text → Type 0
Ordered R [] = Unit
Ordered R (x ∷ xs) = All (R x) xs × Ordered R xs

abbrev Flip : (Text → Text → Type 0) → Text → Text → Type 0
Flip R x y = R y x

-- Each element of the first list is related to all of the second.
abbrev Cross : (Text → Text → Type 0) → List Text → List Text → Type 0
Cross R xs ys = All (λ x. All (R x) ys) xs

Cross-cons :
    (R : Text → Text → Type 0) (y : Text) (xs ys : List Text)
    → All (λ x. R x y) xs
    → Cross R xs ys
    → Cross R xs (y ∷ ys)
Cross-cons R y [] ys h k = tt
Cross-cons R y (x ∷ xs) ys h k = ((h.0, k.0), Cross-cons R y xs ys h.1 k.1)

-- A list in descending order, turned round, before one in ascending order.
Ordered-join :
    (R : Text → Text → Type 0) (left right : List Text)
    → Ordered (Flip R) left
    → Ordered R right
    → Cross R left right
    → Ordered R (reverse left ++ right)
Ordered-join R [] right l r c = r
Ordered-join R (x ∷ left) right l r c =
    subst (Ordered R) (sym (reverse-cons-append x left right))
      (Ordered-join R left (x ∷ right) l.1 (c.0, r) (Cross-cons R x left right l.0 c.1))

Cross-nil : (R : Text → Text → Type 0) (xs : List Text) → Cross R xs []
Cross-nil R [] = tt
Cross-nil R (x ∷ xs) = (tt, Cross-nil R xs)

Ordered-reverse :
    (R : Text → Text → Type 0) (xs : List Text) → Ordered R xs → Ordered (Flip R) (reverse xs)
Ordered-reverse R xs h =
    subst (Ordered (Flip R)) (append-nil (reverse xs))
      (Ordered-join (Flip R) xs [] h tt (Cross-nil (Flip R) xs))

-- `x` does not come after `y`.
abbrev pub Le : Text → Text → Type 0
Le x y = text_ltb y x ≡ false

Le_trans : (x y z : Text) → Le x y → Le y z → Le x z
Le_trans x y z h k = elim (Bool-cases (text_ltb z x)) [
  | inr e ↦ e
  | inl e ↦ elim (Bool-cases (text_ltb x y)) [
    | inl lt ↦ cc (text_ltb_trans z x y e lt)
    | inr ge ↦ cc (text_ltb_total x y ge h)
  ]
]

All-Le_trans :
    (key k : Text) (left : List Text) → Le k key → All (λ y. Le y k) left → All (λ y. Le y key) left
All-Le_trans key k [] h a = tt
All-Le_trans key k (y ∷ left) h a = (Le_trans y k key a.0 h, All-Le_trans key k left h a.1)

-- One insertion keeps the order.
sink-Ordered :
    (left : List Text) (key : Text) (right : List Text)
    → Ordered (Flip Le) left
    → Ordered Le right
    → Cross Le left right
    → All (Le key) right
    → Ordered Le (sink left key right)
unfolding sink
sink-Ordered [] key right l r c a = (a, r)
sink-Ordered (k ∷ left) key right l r c a = elim (Bool-cases (text_ltb key k)) [
  | inl lt ↦ rw lt (
      sink-Ordered left key (k ∷ right) l.1 (c.0, r) (Cross-cons Le k left right l.0 c.1)
        (text_ltb_asymm key k lt, a))
  | inr ge ↦ rw ge (
      Ordered-join Le (k ∷ left) (key ∷ right) l (a, r)
        (Cross-cons Le key (k ∷ left) right (ge, All-Le_trans key k left ge l.0) c))
]

-- One insertion keeps the elements.
sink-perm :
    (left : List Text) (key : Text) (right : List Text)
    → Perm (sink left key right) (reverse left ++ key ∷ right)
unfolding sink
sink-perm [] key right = Perm.rfl
sink-perm (k ∷ left) key right = elim (Bool-cases (text_ltb key k)) [
  | inl lt ↦
      rw (lt, reverse-cons-append k left (key ∷ right))
        (Perm.trans (sink-perm left key (k ∷ right))
          (Perm.append_left (reverse left) (Perm.swap k key right)))
  | inr ge ↦ rw ge Perm.rfl
]

sort_from-Ordered :
    (sorted rest : List Text) → Ordered Le sorted → Ordered Le (sort_from sorted rest)
unfolding sort_from
sort_from-Ordered sorted [] h = h
sort_from-Ordered sorted (k ∷ rest) h = sort_from-Ordered (sink (reverse sorted) k []) rest (
    sink-Ordered (reverse sorted) k [] (Ordered-reverse Le sorted h) tt
      (Cross-nil Le (reverse sorted)) tt)

sort_from-perm : (sorted rest : List Text) → Perm (sort_from sorted rest) (sorted ++ rest)
unfolding sort_from
sort_from-perm sorted [] = rw append-nil Perm.rfl
sort_from-perm sorted (k ∷ rest) = Perm.trans (sort_from-perm (sink (reverse sorted) k []) rest) (
    subst (Perm (sink (reverse sorted) k [] ++ rest)) (append_assoc sorted (k ∷ []) rest) (
      Perm.append_right rest (
        subst (λ l. Perm (sink (reverse sorted) k []) (l ++ k ∷ [])) (reverse-reverse sorted)
          (sink-perm (reverse sorted) k []))))

-- `sortKeys` puts the same keys in ascending bytewise order.
pub sort_keys-sorts : (ks : List Text) → Ordered Le (sort_keys ks) × Perm (sort_keys ks) ks
unfolding sort_keys
sort_keys-sorts [] = (tt, Perm.nil)
sort_keys-sorts (k ∷ ks) = (sort_from-Ordered (k ∷ []) ks (tt, tt), sort_from-perm (k ∷ []) ks)
