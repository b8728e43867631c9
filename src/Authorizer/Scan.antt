-- ===== src/Authorizer/Scan.antt =====
-- The loop over the grants of one scope, in closed form.
use amsonia_core.Base.{
  ℕ, ◌≡◌, ◌⊎◌, inl, inr, refl, List, [], ◌∷◌, Bool, true, false, ◌&&◌, ◌==◌, any, if◌then◌else◌,
  Option, none, some, arith,
}
use amsonia_core.Types.Errors.{Result, ok, err, Result-cases}
use amsonia_core.Types.Enums.{Scope, scope_key}
use amsonia_core.Types.Records.{CheckRequest, EffectiveGrant, WorkspaceMembership}
use amsonia_core.Policy.{allow_access}
use amsonia_core.Authorizer.{
  Authorizer, DeniedReason, merge_denied, Snapshot, remember, look_up, load, translate,
  needs_membership, judge, evaluate, Pass, allows, fails, denies, scan,
}
use amsonia_core.Authorizer.Denials.{merge_denied_again}

-- Some grant has the scope.
abbrev pub has_scope : Scope → List EffectiveGrant → Bool
has_scope scope = any (λ g. g.scope == scope)

module _ (same_orbit : ℕ → ℕ → Bool) (a : Authorizer) (request : CheckRequest) where
  abbrev pub admitted : Scope → Snapshot → List EffectiveGrant → Bool
  admitted scope s =
      any (λ g. g.scope == scope && allow_access same_orbit request g s.membership s.member)

  -- The snapshot does not change in the pass: it is not needed, or loaded already.
  abbrev pub IsSteady : Scope → Snapshot → Type 0
  IsSteady scope s = (needs_membership request scope ≡ false) ⊎ (s.loaded ≡ true)

  evaluate-steady :
      (scope : Scope) (g : EffectiveGrant) (s : Snapshot)
      → IsSteady scope s
      → g.scope ≡ scope
      → evaluate same_orbit a request g s
        ≡ ok (
          if allow_access same_orbit request g s.membership s.member
              then none
              else some (translate request scope s.member),
          s,
        )
  unfolding evaluate load judge
  evaluate-steady scope g s (inl e) p = rw (p, e)
  evaluate-steady scope g s (inr e) p = rw p (ground arith)

  -- A steady pass allows if some grant of the scope allows, and else adds one reason if there is a
  -- grant of the scope.
  abbrev pub outcome : Scope → List EffectiveGrant → DeniedReason → Snapshot → Pass
  outcome scope gs denied s =
      if admitted scope s gs
      then allows
      else denies
          (if has_scope scope gs
            then merge_denied denied (translate request scope s.member)
            else denied)
          s

  pub scan-steady :
      (scope : Scope) (gs : List EffectiveGrant) (denied : DeniedReason) (s : Snapshot)
      → IsSteady scope s
      → scan same_orbit a request scope gs denied s ≡ outcome scope gs denied s
  unfolding scan
  scan-steady scope [] denied s steady = refl
  scan-steady scope (g ∷ gs) denied s steady = ground (
    arith,
    evaluate-steady scope g s steady,
    scan-steady scope gs denied s steady,
    scan-steady scope gs (merge_denied denied (translate request scope s.member)) s steady,
    merge_denied_again denied (translate request scope s.member),
  )

  pub remember-loaded :
      {s : Snapshot} (r : Result WorkspaceMembership) → remember r ≡ ok s → s.loaded ≡ true
  unfolding remember
  remember-loaded (ok m) e = ground arith
  remember-loaded (err x) e = ground arith

  evaluate-loading :
      (g : EffectiveGrant) (s : Snapshot)
      → needs_membership request Scope.workspace ≡ true
      → s.loaded ≡ false
      → g.scope ≡ Scope.workspace
      → evaluate same_orbit a request g s
        ≡ elim (remember (look_up a request)) as (λ x. Result (Option DeniedReason × Snapshot)) [
          | err e ↦ err e
          | ok s' ↦ ok (
            if allow_access same_orbit request g s'.membership s'.member
                then none
                else some (translate request Scope.workspace s'.member),
            s',
          )
        ]
  unfolding evaluate load judge
  evaluate-loading g s need unloaded p = rw (p, need, unloaded) (ground arith)

  -- A pass over workspace grants loads the membership at the first of them.
  pub scan-loading :
      (gs : List EffectiveGrant) (denied : DeniedReason) (s : Snapshot)
      → needs_membership request Scope.workspace ≡ true
      → s.loaded ≡ false
      → scan same_orbit a request Scope.workspace gs denied s ≡ (
          if has_scope Scope.workspace gs
          then elim (remember (look_up a request)) as (λ x. Pass) [
            | err e ↦ fails e
            | ok s' ↦ outcome Scope.workspace gs denied s'
          ]
          else denies denied s)
  unfolding scan
  scan-loading [] denied s need unloaded = refl
  scan-loading (g ∷ gs) denied s need unloaded =
      elim (Result-cases (remember (look_up a request))) [
        | inl (s', e) ↦ ground (
          arith,
          evaluate-loading g s need unloaded,
          scan-loading gs denied s need unloaded,
          scan-steady Scope.workspace gs
              (merge_denied denied (translate request Scope.workspace s'.member)) s'
              (inr (remember-loaded (look_up a request) e)),
          merge_denied_again denied (translate request Scope.workspace s'.member),
        )
        | inr (x, e) ↦
            ground
              (arith, evaluate-loading g s need unloaded, scan-loading gs denied s need unloaded)
      ]
