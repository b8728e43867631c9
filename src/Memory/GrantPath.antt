-- ===== src/Memory/GrantPath.antt =====
-- `HasGrantPath` of memory.go: a depth-first search over the grant edges. Its loop pops one entry
-- of the stack a round; the fuel is the number of edges and two more, which is enough.
pub mod Termination
pub mod Correctness
pub mod Acyclic
use amsonia_core.Base.{
  ℕ, zero, suc, ◌+◌, List, [], ◌∷◌, ◌++◌, Bool, true, false, ◌==◌, any, length, Option, none, some,
  if◌then◌else◌, reverse,
}
use amsonia_core.Text.{Text, text_key}
use amsonia_core.Memory.State.{EdgeKey}

-- The grantees of the edges from a subject, in the order of the map.
unfoldable pub targets : Text → List EdgeKey → List Text
targets cur [] = []
targets cur (e ∷ es) =
    let rest = targets cur es in if e.grantor == cur then e.grantee ∷ rest else rest

abbrev pub seen : Text → List Text → Bool
seen cur = any (λ v. v == cur)

-- The head of `stack` is its top, so what is pushed in order comes out in reverse.
unfoldable pub search_path : ℕ → List EdgeKey → Text → List Text → List Text → Option Bool
search_path fuel edges to visited [] = some false
search_path zero edges to visited (cur ∷ stack) = none
search_path (suc fuel) edges to visited (cur ∷ stack) =
    let skip = search_path fuel edges to visited stack in
    let expand = search_path fuel edges to (cur ∷ visited) (reverse (targets cur edges) ++ stack) in
    if seen cur visited then skip else if cur == to then some true else expand

unfoldable pub has_path : List EdgeKey → Text → Text → Option Bool
has_path edges from to = search_path (length edges + 2) edges to [] (from ∷ [])
