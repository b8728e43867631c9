-- ===== src/Bootstrap/Provisioned.antt =====
-- `BootstrapTenant` on the in-memory store, from its input to the tenant that it leaves.
use amsonia_core.Base.{◌≡◌, ◌≢◌, refl, true, false, List, arith}
use amsonia_core.Text.{Text}
use amsonia_core.Types.Errors.{Result, ok, err, already_bootstrapped, refuse}
use amsonia_core.Types.Records.{Role, RolePermissionGrant, HostProvenance}
use amsonia_core.Store.Steps.{bind-ok, lift-ok}
use amsonia_core.Memory.{MemoryStore, Context, memory_store, memory_tx, mutate_tenant, state_of}
use amsonia_core.Memory.State.{TenantState}
use amsonia_core.Memory.Isolation.{Effect, mutate_tenant-Effect}
use amsonia_core.Memory.Administrator.Defs.{Administers, IsValidState}
use amsonia_core.Memory.Administrator.Sound.{IsSound}
use amsonia_core.Bootstrap.Inputs.{
  BootstrapInput, Bootstrapper, Readings, owner_role, prepare_bootstrap,
}
use amsonia_core.Bootstrap.Tenant.{bootstrap_body, bootstrap_tenant, answer_with}
use amsonia_core.Bootstrap.Checked.{prepare_bootstrap-Prepared}
use amsonia_core.Bootstrap.Owner.{bootstrap_body-IsSound}
use amsonia_core.Bootstrap.Edges.{bootstrap_body-Keeps}

module _ (b : Bootstrapper) (t : Readings) (input : BootstrapInput) (s : MemoryStore) where
  -- What a bootstrap that succeeds did.
  pub record Provisioned (role : Role) (after : MemoryStore) : Type 0 where
    pub answer : role ≡ owner_role input
    pub new : (state_of input.tenant_id s).bootstrapped ≡ false
    pub set : (state_of input.tenant_id after).bootstrapped ≡ true
    pub owner : Administers (state_of input.tenant_id after) b.controls input.owner_subject_id
    pub edges :
        (state_of input.tenant_id after).grant_edges ≡ (state_of input.tenant_id s).grant_edges
    pub others :
        (tenant : Text) → tenant ≢ input.tenant_id → state_of tenant after ≡ state_of tenant s

  bootstrap_body-new :
      (provenance : HostProvenance) (grants : List RolePermissionGrant) (before after : TenantState)
      → bootstrap_body memory_tx t input provenance grants before ≡ ok (tt, after)
      → before.bootstrapped ≡ false
  unfolding bootstrap_body
  bootstrap_body-new provenance grants before after e =
      let (marked, s0, asked, e0) = bind-ok _ _ e in
      let (u1, s1, refused, e1) = bind-ok _ _ e0 in
      ground (arith, asked, lift-ok (refuse marked already_bootstrapped) refused)

  transaction-Provisioned :
      (provenance : HostProvenance) (grants : List RolePermissionGrant) {role : Role}
      (after : Result (Unit {0}) × MemoryStore)
      → prepare_bootstrap b input ≡ ok (provenance, grants)
      → IsValidState (state_of input.tenant_id s)
      → Effect input.tenant_id (bootstrap_body memory_tx t input provenance grants) s after
      → (answer_with (owner_role input) after).0 ≡ ok role
      → Provisioned role (answer_with (owner_role input) after).1
  transaction-Provisioned provenance grants (err e, after) prepared valid effect done =
      absurd (ground arith)
  transaction-Provisioned provenance grants {role} (ok u, after) prepared valid effect done =
      let before = state_of input.tenant_id s in
      let then = state_of input.tenant_id after in
      let new = bootstrap_body-new provenance grants before then effect.0 in
      let sound : IsSound b.controls before = record {
        valid = valid;
        administered = λ marked. absurd (ground (arith, new, marked));
      } in
      let (unmarked, set, owner, after_sound) =
        bootstrap_body-IsSound b t input provenance grants
          (prepare_bootstrap-Prepared b input prepared) before then effect.0 sound in
      record {
        answer = ground arith;
        new = new;
        set = set;
        owner = owner;
        edges =
            bootstrap_body-Keeps (λ edges. edges ≡ before.grant_edges) t input provenance grants
              before u then effect.0 refl;
        others = effect.1;
      }

  -- Where a tenant holds only valid grants and bindings, a bootstrap that succeeds found the tenant not
  -- bootstrapped, and leaves it bootstrapped with the owner as a subject that wields all three control
  -- permissions. It answers with the owner's role, adds no edge of delegation, and changes no other
  -- tenant. So a second bootstrap of the tenant never succeeds.
  pub bootstrap_tenant-Provisioned :
      (ctx : Context) {role : Role}
      → IsValidState (state_of input.tenant_id s)
      → (bootstrap_tenant (memory_store ctx) b t input s).0 ≡ ok role
      → Provisioned role (bootstrap_tenant (memory_store ctx) b t input s).1
  unfolding bootstrap_tenant
  bootstrap_tenant-Provisioned ctx {role} valid = go (prepare_bootstrap b input) refl
    where
      go :
          (r : Result (HostProvenance × List RolePermissionGrant))
          → prepare_bootstrap b input ≡ r
          → (elim r as (λ x. Result Role × MemoryStore) [
            | err e ↦ (err e, s)
            | ok (provenance, grants) ↦ answer_with (owner_role input) (
                mutate_tenant ctx input.tenant_id
                  (bootstrap_body memory_tx t input provenance grants)
                  s)
          ]).0
            ≡ ok role
          → Provisioned role
              (elim r as (λ x. Result Role × MemoryStore) [
                | err e ↦ (err e, s)
                | ok (provenance, grants) ↦ answer_with (owner_role input) (
                    mutate_tenant ctx input.tenant_id
                      (bootstrap_body memory_tx t input provenance grants)
                      s)
              ]).1
      go (err e) f done = cc
      go (ok (p, grants)) f done =
          transaction-Provisioned p grants _ f valid
            (mutate_tenant-Effect ctx input.tenant_id (bootstrap_body memory_tx t input p grants) s)
            done
