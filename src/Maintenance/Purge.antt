-- ===== src/Maintenance/Purge.antt =====
-- `ExportTenant` and `PurgeTenant` of maintenance.go.
use amsonia_core.Base.{[], ◌∷◌, ◌||◌, ltb, length}
use amsonia_core.Text.{Text, codes, is_empty}
use amsonia_core.Types.Errors.{Result, ok, err, invalid_input, audit_unavailable, refuse, ◌>>◌}
use amsonia_core.Types.Enums.{AuditOutcome, AuditPhase}
use amsonia_core.Types.Records.{
  MutationMetadata, MutationAuditEvent, HostProvenance, PurgeResult, Time,
}
use amsonia_core.Types.Ids.{validate_opaque_id}
use amsonia_core.Store.{MaintenanceStore}
use amsonia_core.Manager.{Outcome, checked}
use amsonia_core.Manager.Inputs.{require_id}

-- `Maintenance`: what `AuthorizeMaintenance` of the host answers for a tenant and an operation, and what
-- the security audit sink answers for an event; the store and the clock are arguments.
pub record Maintenance : Type 0 where
  pub authorize : Text → Text → Result HostProvenance
  pub record_event : MutationAuditEvent → Result (Unit {0})

-- What the clock answers before and after the transaction.
pub record Readings : Type 0 where
  pub intended_at : Time
  pub completed_at : Time

unfoldable pub validate_purge : Text → MutationMetadata → Result (Unit {0})
validate_purge tenant_id meta = do
  require_id tenant_id
  refuse (is_empty meta.request_id || ltb 128 (length meta.request_id)) invalid_input
  refuse (is_empty meta.reason_code || ltb 64 (length meta.reason_code)) invalid_input

unfoldable pub intent_event : Text → MutationMetadata → HostProvenance → Time → MutationAuditEvent
intent_event tenant_id meta provenance at = record {
  tenant_id = tenant_id;
  actor_subject_id = [];
  host_initiator = provenance.initiator;
  operation = codes "tenant.purge";
  phase = AuditPhase.intent;
  target_type = codes "tenant";
  target_id = tenant_id;
  outcome = AuditOutcome.success;
  reason_code = meta.reason_code;
  request_id = meta.request_id;
  role_version = 0;
  at = at;
}

abbrev pub completion_event : MutationAuditEvent → Time → MutationAuditEvent
completion_event canonical at = record canonical { phase = AuditPhase.completed; at = at }

-- A failure of the sink.
abbrev pub sink_result : Result (Unit {0}) → Result (Unit {0})
sink_result (ok u) = ok tt
sink_result (err e) = err audit_unavailable

-- The end of a purge, behind its transaction; `intent` went to the sink already.
unfoldable pub complete_purge :
    {T : Type 0}
    → Maintenance
    → Time
    → MutationAuditEvent
    → Result PurgeResult × T
    → Outcome (Unit {0}) T
complete_purge m at intent (err e, s) = record { result = err e; store = s; security = intent ∷ [] }
complete_purge m at intent (ok r, s) =
    let completion = completion_event r.canonical_event at in
    record {
      result = sink_result (m.record_event completion);
      store = s;
      security = intent ∷ completion ∷ [];
    }

-- The outcome's `security` are the events handed to the sink, whatever it answers.
unfoldable pub purge_tenant :
    {S T : Type 0}
    → MaintenanceStore S T
    → Maintenance
    → Readings
    → Text
    → MutationMetadata
    → T
    → Outcome (Unit {0}) T
purge_tenant store m t tenant_id meta s = checked (validate_purge tenant_id meta) s λ _.
    checked (m.authorize tenant_id (codes "purge")) s λ provenance.
      let intent = intent_event tenant_id meta provenance t.intended_at in
      let run =
        complete_purge m t.completed_at intent
          (store.maintain_tenant PurgeResult tenant_id (store.tx.purge_tenant intent) s) in
      elim (m.record_event intent) [
        | err e ↦ record { result = err audit_unavailable; store = s; security = intent ∷ [] }
        | ok u ↦ run
      ]

unfoldable pub export_tenant :
    {S T : Type 0} → MaintenanceStore S T → Maintenance → Text → T → Result Text × T
export_tenant store m tenant_id s =
    let run = store.maintain_tenant Text tenant_id (store.tx.export_tenant tenant_id) s in
    elim (validate_opaque_id tenant_id) [
      | err e ↦ (err e, s)
      | ok u ↦ elim (m.authorize tenant_id (codes "export")) [ err e ↦ (err e, s) | ok p ↦ run ]
    ]
