-- ===== src/Maintenance/Audited.antt =====
-- The audit of a purge of maintenance.go on the in-memory store, and its repetition.
use amsonia_core.Base.{
  ◌≡◌, ◌≢◌, ◌⊎◌, inl, inr, refl, sym, subst, [], ◌∷◌, true, false, Option-cases, arith,
}
use amsonia_core.Base.Maps.{lookup}
use amsonia_core.Text.{Text, text_key, text_dec, codes}
use amsonia_core.Types.Errors.{Result, ok, err, audit_unavailable}
use amsonia_core.Types.Records.{MutationMetadata, MutationAuditEvent, HostProvenance, PurgeResult}
use amsonia_core.TenantExport.{Snapshot}
use amsonia_core.Memory.{MemoryStore, Context, state_of}
use amsonia_core.Memory.State.{TenantState}
use amsonia_core.Memory.Maintenance
use amsonia_core.Memory.Maintenance.{maintain_tenant, memory_maintenance}
use amsonia_core.Memory.Isolation.{Effect, maintain_tenant-Effect}
use amsonia_core.Manager.{Outcome, checked}
use amsonia_core.Maintenance.Purge.{
  Maintenance, Readings, validate_purge, intent_event, completion_event, complete_purge,
  purge_tenant,
}

-- A purge that the ledger knows changes nothing; another one was new, and its event is the canonical one.
data Purged (event : MutationAuditEvent) (s s' : TenantState) (r : PurgeResult) : Type 0 where
  known : s' ≡ s → Purged event s s' r
  new : s.purged ≡ false → s'.purged ≡ true → r.canonical_event ≡ event → Purged event s s' r

purge_tenant-Purged :
    (event : MutationAuditEvent) (s s' : TenantState) (r : PurgeResult)
    → Maintenance.purge_tenant event s ≡ ok (r, s')
    → Purged event s s' r
unfolding Maintenance.purge_tenant
purge_tenant-Purged event s s' r e = elim (Option-cases (lookup event.request_id s.purge_ledger)) [
  | inr (canonical, old) ↦ known (ground (arith, old))
  | inl fresh ↦ new (ground (arith, fresh)) (ground (arith, fresh)) (ground (arith, fresh))
]

module _ (m : Maintenance) (t : Readings) (tenant_id : Text) (meta : MutationMetadata)
    (s : MemoryStore) where
  abbrev pub Unchanged : MemoryStore → Type 0
  Unchanged after = (b : Text) → state_of b after ≡ state_of b s

  abbrev pub intent_for : HostProvenance → MutationAuditEvent
  intent_for provenance = intent_event tenant_id meta provenance t.intended_at

  -- The tenant was purged, and no other changed; the host allowed it, the sink had accepted the intent,
  -- and was given the completion of the same event after.
  pub record PurgedWith (provenance : HostProvenance) (o : Outcome (Unit {0}) MemoryStore)
      : Type 0 where
    pub allowed : m.authorize tenant_id (codes "purge") ≡ ok provenance
    pub intended : m.record_event (intent_for provenance) ≡ ok tt
    pub recorded :
        o.security
        ≡ intent_for provenance ∷ completion_event (intent_for provenance) t.completed_at ∷ []
    pub live : (state_of tenant_id s).purged ≡ false
    pub gone : (state_of tenant_id o.store).purged ≡ true
    pub others : (b : Text) → b ≢ tenant_id → state_of b o.store ≡ state_of b s

  abbrev pub Audited : Outcome (Unit {0}) MemoryStore → Type 0
  Audited o = Unchanged o.store ⊎ ((provenance : HostProvenance) × PurgedWith provenance o)

  Unchanged-known :
      (after : MemoryStore)
      → state_of tenant_id after ≡ state_of tenant_id s
      → ((b : Text) → b ≢ tenant_id → state_of b after ≡ state_of b s)
      → Unchanged after
  Unchanged-known after same others b = elim (text_dec b tenant_id) [
    | yes p ↦ subst (λ x. state_of x after ≡ state_of x s) (sym p) same
    | no ne ↦ others b ne
  ]

  complete_purge-Audited :
      (provenance : HostProvenance) (after : Result PurgeResult × MemoryStore)
      → m.authorize tenant_id (codes "purge") ≡ ok provenance
      → m.record_event (intent_for provenance) ≡ ok tt
      → Effect tenant_id (Maintenance.purge_tenant (intent_for provenance)) s after
      → Audited (complete_purge m t.completed_at (intent_for provenance) after)
  unfolding complete_purge
  complete_purge-Audited provenance (err e, after) allowed intended effect = inl effect
  complete_purge-Audited provenance (ok r, after) allowed intended effect =
      elim (purge_tenant-Purged (intent_for provenance) (state_of tenant_id s)
        (state_of tenant_id after) r effect.0) [
          | known same ↦ inl (Unchanged-known after same effect.1)
          | new live gone canonical ↦ inr (
            provenance,
            record {
              allowed = allowed;
              intended = intended;
              recorded =
                  λ i. intent_for provenance ∷ completion_event (canonical i) t.completed_at ∷ [];
              live = live;
              gone = gone;
              others = effect.1;
            },
          )
        ]

  sink-Audited :
      (answer : Result (Unit {0})) (o o' : Outcome (Unit {0}) MemoryStore)
      → Unchanged o.store
      → (answer ≡ ok tt → Audited o')
      → Audited (elim answer as (λ x. Outcome (Unit {0}) MemoryStore) [ err e ↦ o | ok u ↦ o' ])
  sink-Audited (err e) o o' same ran = inl same
  sink-Audited (ok u) o o' same ran = ran refl

  checked-Audited :
      {B : Type 0} (r : Result B) (next : B → Outcome (Unit {0}) MemoryStore)
      → ((b : B) → r ≡ ok b → Audited (next b))
      → Audited (checked r s next)
  unfolding checked
  checked-Audited (err e) next ran = inl (λ b. refl)
  checked-Audited (ok x) next ran = ran x refl

  -- Whatever the host, the sink, the context and the store: a purge leaves every tenant as it was, or
  -- it purged a tenant that was live, and no other. In the second case the host had allowed it, the
  -- sink had accepted the event of the intent before anything was deleted, and the events that the
  -- sink was given are that one and its completion.
  pub purge_tenant-Audited :
      (ctx : Context) (render : Snapshot → Result Text)
      → Audited (purge_tenant (memory_maintenance ctx render) m t tenant_id meta s)
  unfolding purge_tenant
  purge_tenant-Audited ctx render = checked-Audited (validate_purge tenant_id meta) _ λ valid _.
      checked-Audited (m.authorize tenant_id (codes "purge")) _ λ provenance allowed.
        let intent = intent_for provenance in
        sink-Audited (m.record_event intent)
          (record { result = err audit_unavailable; store = s; security = intent ∷ [] })
          (complete_purge m t.completed_at intent
            (maintain_tenant ctx tenant_id (Maintenance.purge_tenant intent) s))
          (λ b. refl)
          λ intended.
            complete_purge-Audited provenance _ allowed intended
              (maintain_tenant-Effect ctx tenant_id (Maintenance.purge_tenant intent) s)

module _ (m : Maintenance) (t : Readings) (tenant_id : Text) (meta : MutationMetadata) where
  -- A purge without an error went through its transaction.
  complete_purge-ok :
      (intent : MutationAuditEvent) (s : MemoryStore) (after : Result PurgeResult × MemoryStore)
      → Effect tenant_id (Maintenance.purge_tenant intent) s after
      → (complete_purge m t.completed_at intent after).result ≡ ok tt
      → (r : PurgeResult) × (Maintenance.purge_tenant intent (state_of tenant_id s)
          ≡ ok (r, state_of tenant_id (complete_purge m t.completed_at intent after).store))
        × ((complete_purge m t.completed_at intent after).security
            ≡ intent ∷ completion_event r.canonical_event t.completed_at ∷ [])
  unfolding complete_purge
  complete_purge-ok intent s (err x, after) effect e = absurd (ground arith)
  complete_purge-ok intent s (ok r, after) effect e = (r, effect.0, refl)

  -- What a purge without an error did, as `complete_purge-ok` has it.
  abbrev pub Went : MemoryStore → Outcome (Unit {0}) MemoryStore → Type 0
  Went s o =
      (intent : MutationAuditEvent) × (intent.request_id ≡ meta.request_id)
      × ((r : PurgeResult) × (Maintenance.purge_tenant intent (state_of tenant_id s)
            ≡ ok (r, state_of tenant_id o.store))
          × (o.security ≡ intent ∷ completion_event r.canonical_event t.completed_at ∷ []))

  sink-ok :
      (P : Outcome (Unit {0}) MemoryStore → Type 0) (answer : Result (Unit {0}))
      (o o' : Outcome (Unit {0}) MemoryStore)
      → o.result ≡ err audit_unavailable
      → (elim answer as (λ x. Outcome (Unit {0}) MemoryStore) [ err e ↦ o | ok u ↦ o' ]).result
        ≡ ok tt
      → (o'.result ≡ ok tt → P o')
      → P (elim answer as (λ x. Outcome (Unit {0}) MemoryStore) [ err e ↦ o | ok u ↦ o' ])
  sink-ok P (err e) o o' failed done went = absurd (ground (arith, failed))
  sink-ok P (ok u) o o' failed done went = went done

  checked-result :
      {B : Type 0} (P : Outcome (Unit {0}) MemoryStore → Type 0) (r : Result B) (s : MemoryStore)
      (next : B → Outcome (Unit {0}) MemoryStore)
      → (checked r s next).result ≡ ok tt
      → ((b : B) → (next b).result ≡ ok tt → P (next b))
      → P (checked r s next)
  unfolding checked
  checked-result P (err e) s next done ran = absurd (ground arith)
  checked-result P (ok x) s next done ran = ran x done

  pub purge_tenant-Went :
      (ctx : Context) (render : Snapshot → Result Text) (s : MemoryStore)
      → (purge_tenant (memory_maintenance ctx render) m t tenant_id meta s).result ≡ ok tt
      → Went s (purge_tenant (memory_maintenance ctx render) m t tenant_id meta s)
  unfolding purge_tenant intent_event
  purge_tenant-Went ctx render s e =
      checked-result (Went s) (validate_purge tenant_id meta) s _ e λ valid e1.
        checked-result (Went s) (m.authorize tenant_id (codes "purge")) s _ e1 λ provenance e2.
          let intent = intent_event tenant_id meta provenance t.intended_at in
          sink-ok (Went s) (m.record_event intent)
            (record { result = err audit_unavailable; store = s; security = intent ∷ [] })
            (complete_purge m t.completed_at intent
              (maintain_tenant ctx tenant_id (Maintenance.purge_tenant intent) s))
            refl e2
            λ e3. (
              intent,
              refl,
              complete_purge-ok intent s
                  (maintain_tenant ctx tenant_id (Maintenance.purge_tenant intent) s)
                  (maintain_tenant-Effect ctx tenant_id (Maintenance.purge_tenant intent) s) e3,
            )
