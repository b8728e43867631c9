-- ===== src/Policy/Coverage.antt =====
-- `coversWorkspaceRoles` of policy.go: the coverage of lists of workspace roles, as a relation.
use amsonia_core.Base.{
  ◌≡◌, ◌≢◌, ◌↔◌, ◌⊎◌, inl, inr, refl, List, [], ◌∷◌, true, ◌==◌, any, all, All, arith,
}
use amsonia_core.Text.{Text, text_key}
use amsonia_core.Policy.{covers_workspace_roles}

-- `x` stands in the list.
abbrev pub Holds : List Text → Text → Type 0
Holds [] x = ⊥
Holds (y ∷ ys) x = (y ≡ x) ⊎ Holds ys x

any-Holds_iff : (xs : List Text) (x : Text) → (any (λ held. held == x) xs ≡ true) ↔ Holds xs x
any-Holds_iff [] x = (λ e. cc, λ h. absurd h)
any-Holds_iff (y ∷ ys) x =
    let ih = any-Holds_iff ys x in (λ e. ground (arith, ih), λ h. ground (arith, ih))

-- Every role that `held` admits, `wanted` admits no other: an empty list admits every role.
abbrev pub Covers : List Text → List Text → Type 0
Covers held wanted = (held ≡ []) ⊎ ((wanted ≢ []) × All (Holds held) wanted)

held_iff :
    (held wanted : List Text)
    → (all (λ role. any (λ h. h == role) held) wanted ≡ true) ↔ All (Holds held) wanted
held_iff held [] = (λ e. tt, λ h. refl)
held_iff held (w ∷ wanted) =
    let ih = held_iff held wanted in
    let first = any-Holds_iff held w in
    (λ e. ground (arith, ih, first), λ h. ground (arith, ih, first))

-- The test accepts exactly an unconstrained holder, or a constrained target within the holder's
-- list.
pub covers_workspace_roles_iff :
    (held wanted : List Text) → (covers_workspace_roles held wanted ≡ true) ↔ Covers held wanted
unfolding covers_workspace_roles
covers_workspace_roles_iff [] wanted = (λ e. inl refl, λ h. refl)
covers_workspace_roles_iff (x ∷ held) [] = (λ e. cc, λ h. ground arith)
covers_workspace_roles_iff (x ∷ held) (w ∷ wanted) =
    let inner = held_iff (x ∷ held) (w ∷ wanted) in
    (λ e. inr (λ z. cc, inner.0 e), λ h. ground (arith, inner))
