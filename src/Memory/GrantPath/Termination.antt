-- ===== src/Memory/GrantPath/Termination.antt =====
-- `HasGrantPath` of memory/memory.go: the rounds of its loop. The measure is the stack's length plus
-- the number of edges whose grantor has not been visited.
use amsonia_core.Base.{
  ℕ, zero, suc, ◌+◌, ◌<◌, ◌≤◌, ◌≡◌, refl, List, [], ◌∷◌, ◌++◌, Bool, true, false, ◌==◌, length,
  length-append, some, if◌then◌else◌, reverse, Bool-cases, inl, inr, arith,
}
use mathlib.Core.List.{reverse-cons}
use amsonia_core.Text.{Text, text_key, text_dec}
use amsonia_core.Memory.State.{EdgeKey}
use amsonia_core.Memory.GrantPath.{targets, seen, search_path, has_path}

-- The edges that the search may still follow.
unfoldable pub pending : List Text → List EdgeKey → ℕ
pending visited [] = 0
pending visited (e ∷ es) =
    if seen e.grantor visited then pending visited es else suc (pending visited es)

pending-le : (visited : List Text) (es : List EdgeKey) → pending visited es ≤ length es
unfolding pending
pending-le visited [] = omega arith
pending-le visited (e ∷ es) = ground (arith, pending-le visited es)

-- A visit takes the edges from its subject out of the count.
pending-visit :
    (cur : Text) (visited : List Text) (es : List EdgeKey)
    → seen cur visited ≡ false
    → pending (cur ∷ visited) es + length (targets cur es) ≡ pending visited es
unfolding pending targets
pending-visit cur visited [] h = omega arith
pending-visit cur visited (e ∷ es) h = elim (text_dec e.grantor cur) [
  | yes p ↦
      let unseen : seen e.grantor visited ≡ false = rw p h in
      ground (arith, unseen, pending-visit cur visited es h)
  | no q ↦ ground (arith, pending-visit cur visited es h)
]

length-reverse : {A : Type 0} (xs : List A) → length (reverse xs) ≡ length xs
length-reverse [] = refl
length-reverse (x ∷ xs) =
    rw (reverse-cons x xs) (omega (arith, length-append (reverse xs) (x ∷ []), length-reverse xs))

search_path_ends :
    (fuel : ℕ) (edges : List EdgeKey) (to : Text) (visited stack : List Text)
    → length stack + pending visited edges < fuel
    → (found : Bool) × (search_path fuel edges to visited stack ≡ some found)
unfolding search_path
search_path_ends zero edges to visited stack h = absurd (omega arith)
search_path_ends (suc fuel) edges to visited [] h = (false, refl)
search_path_ends (suc fuel) edges to visited (cur ∷ stack) h =
    elim (Bool-cases (seen cur visited)) [
      | inl old ↦ rw old (search_path_ends fuel edges to visited stack (omega arith))
      | inr new ↦ elim (Bool-cases (cur == to)) [
        | inl hit ↦ (true, rw (new, hit))
        | inr miss ↦
            rw (new, miss)
              (search_path_ends fuel edges to (cur ∷ visited) (reverse (targets cur edges) ++ stack)
                (omega (
                  arith,
                  pending-visit cur visited edges new,
                  length-append (reverse (targets cur edges)) stack,
                  length-reverse (targets cur edges),
                )))
      ]
    ]

-- The search returns for every graph and every pair of subjects.
pub has_path_ends :
    (edges : List EdgeKey) (from to : Text) → (found : Bool) × (has_path edges from to ≡ some found)
unfolding has_path
has_path_ends edges from to =
    search_path_ends (length edges + 2) edges to [] (from ∷ []) (omega (arith, pending-le [] edges))
