-- ===== src/Memory/GrantPath/Correctness.antt =====
-- `HasGrantPath` of memory/memory.go, and the chains of grants in a graph.
use amsonia_core.Base.{
  ℕ, zero, suc, ◌+◌, ◌≡◌, ◌↔◌, ◌⊎◌, inl, inr, refl, sym, subst, List, [], ◌∷◌, ◌++◌, Bool, true,
  false, some, reverse, Bool-cases, length, arith,
}
use mathlib.Core.List.{reverse-cons}
use mathlib.Core.Logic.{∥∥₁_elim}
use mathlib.Core.HLevel.{⊥_prop}
use amsonia_core.Text.{Text, text_key, text_dec}
use amsonia_core.Memory.State.{EdgeKey}
use amsonia_core.Memory.GrantPath.{targets, seen, search_path, has_path}
use amsonia_core.Memory.GrantPath.Termination.{has_path_ends}

abbrev pub EdgeIn : List EdgeKey → Text → Text → Type 0
EdgeIn [] x y = ⊥
EdgeIn (e ∷ es) x y = ((e.grantor ≡ x) × (e.grantee ≡ y)) ⊎ EdgeIn es x y

-- A chain of grants, the last one outermost.
pub data Chain (edges : List EdgeKey) (from : Text) : Text → Type 0 where
  here : Chain edges from from
  next : {x y : Text} → Chain edges from x → EdgeIn edges x y → Chain edges from y

abbrev pub In : List Text → Text → Type 0
In [] x = ⊥
In (y ∷ ys) x = (y ≡ x) ⊎ In ys x

seen_iff : (x : Text) (visited : List Text) → (seen x visited ≡ true) ↔ In visited x
seen_iff x [] = (λ e. cc, λ h. absurd h)
seen_iff x (v ∷ visited) =
    let ih = seen_iff x visited in (λ e. ground (arith, ih), λ h. ground (arith, ih))

In-append : (xs ys : List Text) (x : Text) → In (xs ++ ys) x ↔ (In xs x ⊎ In ys x)
In-append [] ys x = (λ h. inr h, λ h. ground arith)
In-append (z ∷ xs) ys x =
    let ih = In-append xs ys x in (λ h. ground (arith, ih), λ h. ground (arith, ih))

In-reverse : (xs : List Text) (x : Text) → In (reverse xs) x ↔ In xs x
In-reverse [] x = (λ h. h, λ h. h)
In-reverse (z ∷ xs) x =
    let ih = In-reverse xs x in
    rw (reverse-cons z xs) (
      λ h. ground (arith, ih, In-append (reverse xs) (z ∷ []) x),
      λ h. ground (arith, ih, In-append (reverse xs) (z ∷ []) x),
    )

targets_iff : (x y : Text) (es : List EdgeKey) → In (targets x es) y ↔ EdgeIn es x y
unfolding targets
targets_iff x y [] = (λ h. h, λ h. h)
targets_iff x y (e ∷ es) =
    let ih = targets_iff x y es in (λ h. ground (arith, ih), λ h. ground (arith, ih))

module _ (edges : List EdgeKey) (from : Text) (to : Text) where
  -- What the loop keeps: all that it has met is reachable, `to` has not been visited, and an edge
  -- from a visited subject leads to one that is visited or waiting.
  record Inv (visited stack : List Text) : Type 0 where
    sound_visited : (x : Text) → In visited x → Chain edges from x
    sound_stack : (x : Text) → In stack x → Chain edges from x
    missed : ¬ In visited to
    closed : (x y : Text) → In visited x → EdgeIn edges x y → In visited y ⊎ In stack y
    start : In visited from ⊎ In stack from

  Inv-skip :
      (cur : Text) (visited stack : List Text)
      → In visited cur
      → Inv visited (cur ∷ stack)
      → Inv visited stack
  Inv-skip cur visited stack old h = record {
    sound_visited = h.sound_visited;
    sound_stack = λ x m. h.sound_stack x (inr m);
    missed = h.missed;
    closed = λ x y m e. elim (h.closed x y m e) [
      | inl v ↦ inl v
      | inr (inl p) ↦ inl (subst (In visited) p old)
      | inr (inr w) ↦ inr w
    ];
    start = elim h.start [
      | inl v ↦ inl v
      | inr (inl p) ↦ inl (subst (In visited) p old)
      | inr (inr w) ↦ inr w
    ];
  }

  Inv-expand :
      (cur : Text) (visited stack : List Text)
      → (cur ≡ to → ⊥)
      → Inv visited (cur ∷ stack)
      → Inv (cur ∷ visited) (reverse (targets cur edges) ++ stack)
  Inv-expand cur visited stack miss h =
      let found = reverse (targets cur edges) in
      let met = h.sound_stack cur (inl refl) in
      record {
        sound_visited =
            λ x m. elim m [ inl p ↦ subst (Chain edges from) p met | inr v ↦ h.sound_visited x v ];
        sound_stack = λ x m. elim ((In-append found stack x).0 m) [
          | inl t ↦ next met ((targets_iff cur x edges).0 ((In-reverse (targets cur edges) x).0 t))
          | inr w ↦ h.sound_stack x (inr w)
        ];
        missed = λ m. elim m [ inl p ↦ miss p | inr v ↦ h.missed v ];
        closed = λ x y m e. elim m [
          | inl p ↦
              let edge = subst (λ z. EdgeIn edges z y) (sym p) e in
              inr (
                (In-append found stack y).1
                  (inl ((In-reverse (targets cur edges) y).1 ((targets_iff cur y edges).1 edge))))
          | inr v ↦ elim (h.closed x y v e) [
            | inl old ↦ inl (inr old)
            | inr (inl p) ↦ inl (inl p)
            | inr (inr w) ↦ inr ((In-append found stack y).1 (inr w))
          ]
        ];
        start = elim h.start [
          | inl v ↦ inl (inr v)
          | inr (inl p) ↦ inl (inl p)
          | inr (inr w) ↦ inr ((In-append found stack from).1 (inr w))
        ];
      }

  -- With nothing waiting, the visited subjects are closed under edges.
  complete : (visited : List Text) → Inv visited [] → {x : Text} → Chain edges from x → In visited x
  complete visited h here = elim h.start [ inl v ↦ v | inr w ↦ absurd w ]
  complete visited h (next {x} {y} c e) = elim (h.closed x y (complete visited h c) e) [
    | inl v ↦ v
    | inr w ↦ absurd w
  ]

  -- What an answer of the search says.
  abbrev Says : Bool → Type 0
  Says true = Chain edges from to
  Says false = ¬ Chain edges from to

  search_path-Says :
      (fuel : ℕ) (visited stack : List Text) (found : Bool)
      → Inv visited stack
      → search_path fuel edges to visited stack ≡ some found
      → Says found
  unfolding search_path
  search_path-Says zero visited [] found h e =
      let answer : false ≡ found = ground arith in
      subst Says answer (λ c. h.missed (complete visited h c))
  search_path-Says zero visited (cur ∷ stack) found h e = cc
  search_path-Says (suc fuel) visited [] found h e =
      let answer : false ≡ found = ground arith in
      subst Says answer (λ c. h.missed (complete visited h c))
  search_path-Says (suc fuel) visited (cur ∷ stack) found h e =
      elim (Bool-cases (seen cur visited)) [
        | inl old ↦
            search_path-Says fuel visited stack found
              (Inv-skip cur visited stack ((seen_iff cur visited).0 old) h) (rw old at e)
        | inr new ↦ elim (text_dec cur to) [
          | yes p ↦
              let answer : true ≡ found = ground arith in
              subst Says answer (subst (Chain edges from) p (h.sound_stack cur (inl refl)))
          | no miss ↦
              search_path-Says fuel (cur ∷ visited) (reverse (targets cur edges) ++ stack) found
                (Inv-expand cur visited stack miss h) (ground arith)
        ]
      ]

  begin : Inv [] (from ∷ [])
  begin = record {
    sound_visited = λ x m. absurd m;
    sound_stack = λ x m. elim m [ inl p ↦ subst (Chain edges from) p here | inr w ↦ absurd w ];
    missed = λ m. m;
    closed = λ x y m e. absurd m;
    start = inr (inl refl);
  }

  Says-iff : (found : Bool) → Says found → (found ≡ true) ↔ ∥ Chain edges from to ∥₁
  Says-iff true c = (λ e. ∣ c ∣₁, λ h. refl)
  Says-iff false none_such = (λ e. cc, λ h. absurd (∥∥₁_elim h ⊥_prop none_such))

-- `HasGrantPath` returns for every graph, and says whether some chain of grants leads from one
-- subject to the other.
pub has_path_decides :
    (edges : List EdgeKey) (from to : Text)
    → (found : Bool) × (has_path edges from to ≡ some found)
      × ((found ≡ true) ↔ ∥ Chain edges from to ∥₁)
has_path_decides edges from to =
    let (found, ends) = has_path_ends edges from to in
    (
      found,
      ends,
      Says-iff edges from to found (
          search_path-Says edges from to (length edges + 2) [] (from ∷ []) found
            (begin edges from to) (unfold has_path in ends)),
    )
