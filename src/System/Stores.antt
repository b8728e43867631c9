-- ===== src/System/Stores.antt =====
-- The stores that the bootstrapper and the maintenance leave: the one before, or that of a transaction.
use amsonia_core.Base.{List, [], ◌∷◌, ◌≡◌, refl}
use amsonia_core.Text.{Text, codes}
use amsonia_core.Types.Errors.{Result, ok, err, audit_unavailable}
use amsonia_core.Types.Ids.{validate_opaque_id}
use amsonia_core.Types.Records.{
  Role, MutationMetadata, MutationAuditEvent, RolePermissionGrant, HostProvenance, PurgeResult,
  Time,
}
use amsonia_core.Store.{Store, MaintenanceStore}
use amsonia_core.Bootstrap.Inputs
use amsonia_core.Bootstrap.Inputs.{BootstrapInput, Bootstrapper, owner_role, prepare_bootstrap}
use amsonia_core.Bootstrap.Tenant.{bootstrap_body, bootstrap_tenant, answer_with}
use amsonia_core.Manager.{Outcome, checked}
use amsonia_core.Maintenance.Purge
use amsonia_core.Maintenance.Purge.{
  Maintenance, intent_event, complete_purge, purge_tenant, export_tenant,
}

answer_with-after :
    {A B T : Type 0} (P : T → Type 0) (b : B) (r : Result A × T) → P r.1 → P (answer_with b r).1
answer_with-after P b (err e, s) h = h
answer_with-after P b (ok a, s) h = h

complete_purge-after :
    {T : Type 0} (P : T → Type 0) (m : Maintenance) (at : Time) (intent : MutationAuditEvent)
    (r : Result PurgeResult × T)
    → P r.1
    → P (complete_purge m at intent r).store
unfolding complete_purge
complete_purge-after P m at intent (err e, s) h = h
complete_purge-after P m at intent (ok r, s) h = h

pub checked_after :
    {A B T : Type 0} (P : T → Type 0) (r : Result B) (s : T) (next : B → Outcome A T)
    → P s
    → ((x : B) → P (next x).store)
    → P (checked r s next).store
unfolding checked
checked_after P (ok x) s next h run = run x
checked_after P (err e) s next h run = h

module _ {S T : Type 0} (P : T → Type 0) (s : T) (h : P s) where
  module _ (store : Store S T) (b : Bootstrapper) (t : Inputs.Readings)
      (input : BootstrapInput) where
    pub bootstrap_tenant-after :
        ((p : HostProvenance) (grants : List RolePermissionGrant)
          → prepare_bootstrap b input ≡ ok (p, grants)
          → P
              (store.mutate_tenant
                (Unit {0})
                input.tenant_id
                (bootstrap_body store.tx t input p grants)
                s).1)
        → P (bootstrap_tenant store b t input s).1
    unfolding bootstrap_tenant
    bootstrap_tenant-after run = go (prepare_bootstrap b input) refl
      where
        go :
            (r : Result (HostProvenance × List RolePermissionGrant))
            → prepare_bootstrap b input ≡ r
            → P
                (elim r as (λ x. Result Role × T) [
                  | err e ↦ (err e, s)
                  | ok (provenance, grants) ↦ answer_with (owner_role input) (
                      store.mutate_tenant
                        (Unit {0})
                        input.tenant_id
                        (bootstrap_body store.tx t input provenance grants)
                        s)
                ]).1
        go (err e) f = h
        go (ok (p, grants)) f = answer_with-after P _ _ (run p grants f)

  module _ (store : MaintenanceStore S T) (m : Maintenance) (tenant_id : Text) where
    sink-after :
        (answer : Result (Unit {0})) (intent : MutationAuditEvent) (o o' : Outcome (Unit {0}) T)
        → P o.store
        → P o'.store
        → P (elim answer as (λ x. Outcome (Unit {0}) T) [ err e ↦ o | ok u ↦ o' ]).store
    sink-after (err e) intent o o' before ran = before
    sink-after (ok u) intent o o' before ran = ran

    pub purge_tenant-after :
        (t : Purge.Readings) (meta : MutationMetadata)
        → ((intent : MutationAuditEvent)
            → P (store.maintain_tenant PurgeResult tenant_id (store.tx.purge_tenant intent) s).1)
        → P (purge_tenant store m t tenant_id meta s).store
    unfolding purge_tenant
    purge_tenant-after t meta run = checked_after P _ s _ h λ _.
        checked_after P _ s _ h λ provenance.
          let intent = intent_event tenant_id meta provenance t.intended_at in
          sink-after (m.record_event intent) intent
            (record { result = err audit_unavailable; store = s; security = intent ∷ [] })
            (complete_purge m t.completed_at intent
              (store.maintain_tenant PurgeResult tenant_id (store.tx.purge_tenant intent) s))
            h (complete_purge-after P m t.completed_at intent _ (run intent))

    export-after :
        {A B C : Type 0} (checked_id : Result A) (allowed : Result B) (o : Result C × T)
        → P o.1
        → P
            (elim checked_id as (λ x. Result C × T) [
              | err e ↦ (err e, s)
              | ok u ↦ elim allowed as (λ x. Result C × T) [ err e ↦ (err e, s) | ok p ↦ o ]
            ]).1
    export-after (err e) allowed o ran = h
    export-after (ok u) (err e) o ran = h
    export-after (ok u) (ok p) o ran = ran

    pub export_tenant-after :
        P (store.maintain_tenant Text tenant_id (store.tx.export_tenant tenant_id) s).1
        → P (export_tenant store m tenant_id s).1
    unfolding export_tenant
    export_tenant-after ran =
        export-after (validate_opaque_id tenant_id) (m.authorize tenant_id (codes "export"))
          (store.maintain_tenant Text tenant_id (store.tx.export_tenant tenant_id) s) ran
