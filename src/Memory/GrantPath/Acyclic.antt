-- ===== src/Memory/GrantPath/Acyclic.antt =====
-- The graph of grant edges of memory/memory.go: cycles, new edges and removed ones.
use amsonia_core.Base.{◌≡◌, ◌⊎◌, inl, inr, sym, subst, List, [], ◌∷◌, arith}
use amsonia_core.Base.Maps.{Map, keys, insert, erase}
use amsonia_core.Text.{Text}
use amsonia_core.Types.Records.{GrantEdge}
use amsonia_core.Memory.State.{EdgeKey, edge_key_key}
use amsonia_core.Memory.GrantPath.Correctness.{EdgeIn, Chain, here, next}

-- No two subjects reach each other: nobody holds a role that was passed on, over others, by
-- somebody to whom they passed one.
abbrev pub IsAcyclic : List EdgeKey → Type 0
IsAcyclic edges = (x y : Text) → Chain edges x y → Chain edges y x → x ≡ y

pub Chain-trans :
    {edges : List EdgeKey} {x y z : Text} → Chain edges x y → Chain edges y z → Chain edges x z
Chain-trans c here = c
Chain-trans c (next d e) = next (Chain-trans c d) e

module _ (es fs : List EdgeKey) where
  Chain-mono :
      ((x y : Text) → EdgeIn fs x y → EdgeIn es x y) → {x y : Text} → Chain fs x y → Chain es x y
  Chain-mono h here = here
  Chain-mono h (next {x} {y} c e) = next (Chain-mono h c) (h x y e)

  -- Fewer edges close no cycle.
  pub IsAcyclic-fewer : ((x y : Text) → EdgeIn fs x y → EdgeIn es x y) → IsAcyclic es → IsAcyclic fs
  IsAcyclic-fewer h acyclic x y c d = acyclic x y (Chain-mono h c) (Chain-mono h d)

  module _ (a b : Text)
      (only : (x y : Text) → EdgeIn fs x y → ((a ≡ x) × (b ≡ y)) ⊎ EdgeIn es x y) where
    -- A chain either does without the new edge or takes it.
    Chain-split : {x y : Text} → Chain fs x y → Chain es x y ⊎ (Chain es x a × Chain es b y)
    Chain-split here = inl here
    Chain-split {x} (next {x = w} {y = z} c e) = elim (Chain-split c) [
      | inl old ↦ elim (only w z e) [
        | inl (p, q) ↦ inr (subst (Chain es x) (sym p) old, subst (Chain es b) q here)
        | inr f ↦ inl (next old f)
      ]
      | inr (to, from) ↦ elim (only w z e) [
        | inl (p, q) ↦ inr (to, subst (Chain es b) q here)
        | inr f ↦ inr (to, next from f)
      ]
    ]

    -- A new edge closes no cycle where its end does not lead back to its start.
    pub IsAcyclic-more : (Chain es b a → a ≡ b) → IsAcyclic es → IsAcyclic fs
    IsAcyclic-more back acyclic x y c d = elim (Chain-split c) [
      | inl xy ↦ elim (Chain-split d) [
        | inl yx ↦ acyclic x y xy yx
        | inr (ya, bx) ↦
            let p = back (Chain-trans bx (Chain-trans xy ya)) in
            acyclic x y xy (Chain-trans (subst (Chain es y) p ya) bx)
      ]
      | inr (xa, by) ↦ elim (Chain-split d) [
        | inl yx ↦
            let p = back (Chain-trans by (Chain-trans yx xa)) in
            acyclic x y (Chain-trans (subst (Chain es x) p xa) by) yx
        | inr (ya, bx) ↦
            let p = back (Chain-trans by ya) in
            acyclic x y (Chain-trans (subst (Chain es x) p xa) by)
              (Chain-trans (subst (Chain es y) p ya) bx)
      ]
    ]

pub EdgeIn-insert :
    (k : EdgeKey) (edge : GrantEdge) (m : Map EdgeKey GrantEdge) (x y : Text)
    → EdgeIn (keys (insert k edge m)) x y
    → ((k.grantor ≡ x) × (k.grantee ≡ y)) ⊎ EdgeIn (keys m) x y
unfolding insert
EdgeIn-insert k edge [] x y e = ground arith
EdgeIn-insert k edge ((j, old) ∷ m) x y e = ground (arith, EdgeIn-insert k edge m x y)

pub EdgeIn-erase :
    (k : EdgeKey) (m : Map EdgeKey GrantEdge) (x y : Text)
    → EdgeIn (keys (erase k m)) x y
    → EdgeIn (keys m) x y
unfolding erase
EdgeIn-erase k [] x y e = e
EdgeIn-erase k ((j, old) ∷ m) x y e = ground (arith, EdgeIn-erase k m x y)
