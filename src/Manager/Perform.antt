-- ===== src/Manager/Perform.antt =====
-- The transaction of an operation of manager.go on the in-memory store.
use amsonia_core.Base.{◌≡◌, refl, sym, subst, arith}
use amsonia_core.Text.{Text, text_dec}
use amsonia_core.Types.Errors.{Error, Result, ok, err}
use amsonia_core.Types.Records.{MutationAuditEvent}
use amsonia_core.Store.{Tx}
use amsonia_core.Store.Steps.{Keeps}
use amsonia_core.Memory.{MemoryStore, Context, memory_store, mutate_tenant, state_of}
use amsonia_core.Memory.State.{TenantState}
use amsonia_core.Memory.Isolation.{Effect, mutate_tenant-Effect}
use amsonia_core.Manager.{Outcome, perform, checked}

-- Every tenant's state has the property.
abbrev pub Everywhere : (TenantState → Type 0) → MemoryStore → Type 0
Everywhere I s = (tenant : Text) → I (state_of tenant s)

pub Effect-Everywhere :
    {A : Type 0} (I : TenantState → Type 0) (tenant_id : Text) (body : Tx TenantState A)
    (s : MemoryStore) (after : Result A × MemoryStore)
    → Keeps I body
    → Effect tenant_id body s after
    → Everywhere I s
    → Everywhere I after.1
Effect-Everywhere I tenant_id body s (err e, s') keeps same h tenant =
    subst I (sym (same tenant)) (h tenant)
Effect-Everywhere I tenant_id body s (ok a, s') keeps effect h tenant =
    elim (text_dec tenant tenant_id) [
      | yes p ↦
          subst (λ x. I (state_of x s')) (sym p)
            (keeps (state_of tenant_id s) a (state_of tenant_id s') effect.0 (h tenant_id))
      | no ne ↦ subst I (sym (effect.1 tenant ne)) (h tenant)
    ]

module _ (I : TenantState → Type 0) (ctx : Context) where
  pub perform-Everywhere :
      {A : Type 0} (tenant_id : Text) (body : Tx TenantState A)
      (denied : Error → MutationAuditEvent) (s : MemoryStore)
      → Keeps I body
      → Everywhere I s
      → Everywhere I (perform (memory_store ctx) tenant_id body denied s).store
  unfolding perform
  perform-Everywhere tenant_id body denied s keeps h =
      Effect-Everywhere I tenant_id body s (mutate_tenant ctx tenant_id body s) keeps
        (mutate_tenant-Effect ctx tenant_id body s) h

  pub checked-Everywhere :
      {A B : Type 0} (r : Result B) (s : MemoryStore) (next : B → Outcome A MemoryStore)
      → ((b : B) → Everywhere I (next b).store)
      → Everywhere I s
      → Everywhere I (checked r s next).store
  unfolding checked
  checked-Everywhere (ok b) s next run h = run b
  checked-Everywhere (err e) s next run h = h

  -- The same, where the run behind the check needs what was checked.
  pub checked-Everywhere_with :
      {A B : Type 0} (r : Result B) (s : MemoryStore) (next : B → Outcome A MemoryStore)
      → ((b : B) → r ≡ ok b → Everywhere I (next b).store)
      → Everywhere I s
      → Everywhere I (checked r s next).store
  unfolding checked
  checked-Everywhere_with (ok b) s next run h = run b refl
  checked-Everywhere_with (err e) s next run h = h

-- A call that succeeds passed its checks, and its body succeeded on the tenant's state.
pub perform-ok :
    {A : Type 0} (ctx : Context) (tenant_id : Text) (body : Tx TenantState A)
    (denied : Error → MutationAuditEvent) (s : MemoryStore) {a : A}
    → (perform (memory_store ctx) tenant_id body denied s).result ≡ ok a
    → body (state_of tenant_id s)
      ≡ ok (a, state_of tenant_id (perform (memory_store ctx) tenant_id body denied s).store)
unfolding perform
perform-ok ctx tenant_id body denied s e =
    split tenant_id body s (mutate_tenant ctx tenant_id body s) e
      (mutate_tenant-Effect ctx tenant_id body s)
  where
    split :
        {A : Type 0} (tenant_id : Text) (body : Tx TenantState A) (s : MemoryStore) {a : A}
        (after : Result A × MemoryStore)
        → after.0 ≡ ok a
        → Effect tenant_id body s after
        → body (state_of tenant_id s) ≡ ok (a, state_of tenant_id after.1)
    split tenant_id body s (err x, s') h effect = cc
    split tenant_id body s (ok b, s') h effect = ground (arith, h, effect.0)

pub checked-ok :
    {A B : Type 0} (r : Result B) (s : MemoryStore) (next : B → Outcome A MemoryStore) {a : A}
    → (checked r s next).result ≡ ok a
    → (b : B) × (r ≡ ok b) × ((next b).result ≡ ok a)
unfolding checked
checked-ok (ok b) s next e = (b, refl, e)
checked-ok (err x) s next e = cc

-- What holds of the store that every run behind the checks leaves.
pub checked-after :
    {A B : Type 0} (P : MemoryStore → Type 0) (r : Result B) (s : MemoryStore)
    (next : B → Outcome A MemoryStore) {a : A}
    → (checked r s next).result ≡ ok a
    → ((b : B) → (next b).result ≡ ok a → P (next b).store)
    → P (checked r s next).store
unfolding checked
checked-after P (ok b) s next e h = h b e
checked-after P (err x) s next e h = cc
