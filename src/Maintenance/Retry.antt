-- ===== src/Maintenance/Retry.antt =====
-- A repeated purge of maintenance.go on the in-memory store.
use amsonia_core.Base.{◌≡◌, refl, sym, ◌∙◌, ap, [], ◌∷◌, true, none, arith}
use amsonia_core.Base.Maps.{insert}
use amsonia_core.Text.{Text, text_key, text_dec, codes}
use amsonia_core.Types.Errors.{Result, ok, is_ok}
use amsonia_core.Types.Ids.{validate_opaque_id}
use amsonia_core.Types.Records.{
  MutationMetadata, MutationAuditEvent, HostProvenance, PurgeResult, Time,
}
use amsonia_core.TenantExport.{Snapshot}
use amsonia_core.Memory.{MemoryStore, Context, state_of, with_tenant}
use amsonia_core.Memory.Maintenance
use amsonia_core.Memory.Maintenance.{maintain_tenant, memory_maintenance}
use amsonia_core.Memory.Isolation.{maintain_tenant-commits, state_of-insert, state_of-with_tenant}
use amsonia_core.Memory.Purge.{purge_tenant_again}
use amsonia_core.Manager.{checked}
use amsonia_core.Manager.ValidInputs.{require_id-ok}
use amsonia_core.Maintenance.Purge.{
  Maintenance, Readings, validate_purge, intent_event, completion_event, complete_purge,
  purge_tenant,
}
use amsonia_core.Maintenance.Audited.{purge_tenant-Went}

validate_purge-tenant :
    (tenant_id : Text) (meta : MutationMetadata)
    → validate_purge tenant_id meta ≡ ok tt
    → is_ok (validate_opaque_id tenant_id) ≡ true
unfolding validate_purge
validate_purge-tenant tenant_id meta e = ground (arith, require_id-ok tenant_id (ground arith))

-- A purge that nothing stands against.
accepted_purge :
    (ctx : Context) (render : Snapshot → Result Text) (m : Maintenance) (t : Readings)
    (tenant_id : Text) (meta : MutationMetadata) (provenance : HostProvenance)
    (s after : MemoryStore) (r : PurgeResult)
    → validate_purge tenant_id meta ≡ ok tt
    → m.authorize tenant_id (codes "purge") ≡ ok provenance
    → ((event : MutationAuditEvent) → m.record_event event ≡ ok tt)
    → maintain_tenant ctx tenant_id
        (Maintenance.purge_tenant (intent_event tenant_id meta provenance t.intended_at))
        s
      ≡ (ok r, after)
    → purge_tenant (memory_maintenance ctx render) m t tenant_id meta s ≡ record {
      result = ok tt;
      store = after;
      security =
          intent_event tenant_id meta provenance t.intended_at
          ∷ completion_event r.canonical_event t.completed_at
          ∷ [];
    }
unfolding purge_tenant checked complete_purge
accepted_purge ctx render m t tenant_id meta provenance s after r valid allowed accepts ran =
    rw
      (
        valid,
        allowed,
        accepts (intent_event tenant_id meta provenance t.intended_at),
        ran,
        accepts (completion_event r.canonical_event t.completed_at),
      )
      refl

request_id-intent_event :
    (tenant_id : Text) (meta : MutationMetadata) (provenance : HostProvenance) (at : Time)
    → (intent_event tenant_id meta provenance at).request_id ≡ meta.request_id
unfolding intent_event
request_id-intent_event tenant_id meta provenance at = refl

-- The state of a tenant put where it was.
rewritten :
    (tenant_id : Text) (s : MemoryStore) (b : Text)
    → state_of b (insert tenant_id (state_of tenant_id s) (with_tenant tenant_id s)) ≡ state_of b s
rewritten tenant_id s b = elim (text_dec tenant_id b) [
  | yes p ↦
      ground
        (arith, p, state_of-insert tenant_id b (state_of tenant_id s) (with_tenant tenant_id s))
  | no ne ↦ ground (
    arith,
    state_of-insert tenant_id b (state_of tenant_id s) (with_tenant tenant_id s),
    state_of-with_tenant tenant_id b s,
  )
]

-- A purge that returned no error can be repeated with its request id: where the host allows it, the
-- sink accepts its events and the context stays open, the retry returns no error either, no tenant
-- changes, and the completion that the sink is given is that of the first purge's canonical event, at
-- its own time. The sink is given an intent of the retry before it.
pub purge_tenant_retry :
    (ctx ctx' : Context) (render : Snapshot → Result Text) (m m' : Maintenance) (t t' : Readings)
    (tenant_id : Text) (meta meta' : MutationMetadata) (provenance : HostProvenance)
    (s : MemoryStore)
    → (purge_tenant (memory_maintenance ctx render) m t tenant_id meta s).result ≡ ok tt
    → meta'.request_id ≡ meta.request_id
    → validate_purge tenant_id meta' ≡ ok tt
    → m'.authorize tenant_id (codes "purge") ≡ ok provenance
    → ((event : MutationAuditEvent) → m'.record_event event ≡ ok tt)
    → ctx'.before ≡ none
    → ctx'.locked ≡ none
    → ctx'.finished ≡ none
    → (intent canonical : MutationAuditEvent) × ((purge_tenant
          (memory_maintenance ctx render)
          m
          t
          tenant_id
          meta
          s).security
        ≡ intent ∷ completion_event canonical t.completed_at ∷ [])
      × ((purge_tenant
            (memory_maintenance ctx' render)
            m'
            t'
            tenant_id
            meta'
            (purge_tenant (memory_maintenance ctx render) m t tenant_id meta s).store).result
          ≡ ok tt)
      × ((purge_tenant
            (memory_maintenance ctx' render)
            m'
            t'
            tenant_id
            meta'
            (purge_tenant (memory_maintenance ctx render) m t tenant_id meta s).store).security
          ≡ intent_event tenant_id meta' provenance t'.intended_at
            ∷ completion_event canonical t'.completed_at
            ∷ [])
      × ((b : Text)
          → state_of b
              (purge_tenant
                (memory_maintenance ctx' render)
                m'
                t'
                tenant_id
                meta'
                (purge_tenant (memory_maintenance ctx render) m t tenant_id meta s).store).store
            ≡ state_of b (purge_tenant (memory_maintenance ctx render) m t tenant_id meta s).store)
purge_tenant_retry ctx ctx' render m m' t t' tenant_id meta meta' provenance s done same valid
      allowed accepts before locked finished =
    let first = (purge_tenant (memory_maintenance ctx render) m t tenant_id meta s).store in
    let (intent, id, went) = purge_tenant-Went m t tenant_id meta ctx render s done in
    let (r, ran, recorded) = went in
    let intent' = intent_event tenant_id meta' provenance t'.intended_at in
    let again =
      purge_tenant_again intent intent' (state_of tenant_id s) ran
        (request_id-intent_event tenant_id meta' provenance t'.intended_at ∙ same ∙ sym id) in
    let committed =
      maintain_tenant-commits ctx' tenant_id (Maintenance.purge_tenant intent') first _ _
        (validate_purge-tenant tenant_id meta' valid) before locked finished again in
    let whole =
      accepted_purge ctx' render m' t' tenant_id meta' provenance first _ _ valid allowed accepts
        committed in
    (
      intent,
      r.canonical_event,
      recorded,
      ap (λ o. o.result) whole,
      ap (λ o. o.security) whole,
      λ b. ap (λ o. state_of b o.store) whole ∙ rewritten tenant_id first b,
    )
