-- ===== src/Authorizer/Verdict/Stability.antt =====
-- `Check` of authorizer.go, for a policy reader that lists its rows in another order.
use mathlib.Core.List.{Perm}
use amsonia_core.Base.{ℕ, ◌≡◌, refl, sym, ap, inl, inr, ◌∙◌, List, Bool, any-perm, all-perm}
use amsonia_core.Text.{Text}
use amsonia_core.Types.Errors.{Result, ok, err, Error, Result-cases}
use amsonia_core.Types.Records.{CheckRequest, EffectiveGrant}
use amsonia_core.Authorizer.{Authorizer, look_up, remember, check}
use amsonia_core.Authorizer.Verdict.{on_grants, gate}
use amsonia_core.Authorizer.Verdict.Proof.{check_lem}

-- Two readers list the same grants, each in an order of its own, or fail alike.
pub data SameRows : Result (List EffectiveGrant) → Result (List EffectiveGrant) → Type 0 where
  rows : {xs ys : List EffectiveGrant} → Perm xs ys → SameRows (ok xs) (ok ys)
  failure : (e : Error) → SameRows (err e) (err e)

module _ (same_orbit : ℕ → ℕ → Bool) (a : Authorizer) (request : CheckRequest) where
  on_grants-perm :
      (xs ys : List EffectiveGrant)
      → Perm xs ys
      → on_grants same_orbit a request (ok xs) ≡ on_grants same_orbit a request (ok ys)
  on_grants-perm xs ys p =
      let some_alike = λ (q : EffectiveGrant → Bool). any-perm q xs ys p in
      let all_alike = λ (q : EffectiveGrant → Bool). all-perm q xs ys p in
      elim (Result-cases (remember (look_up a request))) [
        | inl (s, e) ↦ simp (e, some_alike, all_alike)
        | inr (x, e) ↦ simp (e, some_alike, all_alike)
      ]

  on_grants-SameRows :
      {r t : Result (List EffectiveGrant)}
      → SameRows r t
      → on_grants same_orbit a request r ≡ on_grants same_orbit a request t
  on_grants-SameRows (rows {xs} {ys} p) = on_grants-perm xs ys p
  on_grants-SameRows (failure e) = refl

-- Another reader that lists the same grants in any order leaves every decision as it was: its
-- reason, its scope and the error returned with it.
pub check_stable :
    (same_orbit : ℕ → ℕ → Bool) (a : Authorizer) (request : CheckRequest)
    (policies : Text → Text → Text → Result (List EffectiveGrant))
    → ((tenant subject permission : Text)
        → SameRows (a.policies tenant subject permission) (policies tenant subject permission))
    → check same_orbit a request ≡ check same_orbit (record a { policies = policies }) request
unfolding look_up
check_stable same_orbit a request policies same =
    let rows = same request.principal.tenant_id request.principal.subject_id request.permission in
    check_lem same_orbit a request
    ∙ ap (gate same_orbit a request) (on_grants-SameRows same_orbit a request rows)
    ∙ sym (check_lem same_orbit (record a { policies = policies }) request)
