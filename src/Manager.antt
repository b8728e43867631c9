-- ===== src/Manager.antt =====
-- manager.go: delegated administration. Each mutation validates its input, runs one tenant
-- transaction, and reports a failed one to the security audit sink.
pub mod Inputs
pub mod Guards
pub mod Roles
pub mod Grants
pub mod Assignments
pub mod Frame
pub mod ValidInputs
pub mod Run
pub mod Perform
pub mod Delegations
pub mod CycleFree
pub mod Authority
pub mod Warrants
pub mod Authorized
pub mod LastAdministrator
pub mod Sound
pub mod Administered
mod Tests
use amsonia_core.Base.{ℕ, List, [], ◌∷◌, Bool, true, false, if◌then◌else◌}
use amsonia_core.Text.{Text, codes}
use amsonia_core.Types.Errors.{Error, Result, ok, err}
use amsonia_core.Types.Enums.{AuditOutcome, AuditPhase}
use amsonia_core.Types.Records.{
  Principal, MutationMetadata, MutationAuditEvent, ControlPermissions, Time,
}
use amsonia_core.Catalog.{Catalog}
use amsonia_core.Store.{Tx, Store}

-- What the operations use of `Manager`; the store, the sink and the clock are arguments.
pub record Manager : Type 0 where
  pub catalog : Catalog
  pub controls : ControlPermissions

-- What `m.clock.Now()` answers at each place of an operation that asks.
pub record Readings : Type 0 where
  pub granted_at : Time
  pub created_at : Time
  pub audited_at : Time
  pub denied_at : Time

pub record MutationResult : Type 0 where
  pub changed : Bool
  pub role_version : ℕ

-- A finished operation: its result, the store, and the events sent to the security audit sink. The
-- sink's own failure is only logged.
pub record Outcome (A T : Type 0) : Type 0 where
  pub result : Result A
  pub store : T
  pub security : List MutationAuditEvent

-- The operation and its target, as the audit names them.
pub record Target : Type 0 where
  pub operation : Text
  pub target_type : Text
  pub target_id : Text

unfoldable pub audit_event :
    Principal → MutationMetadata → Target → AuditOutcome → ℕ → Time → MutationAuditEvent
audit_event actor meta target outcome role_version at = record {
  tenant_id = actor.tenant_id;
  actor_subject_id = actor.subject_id;
  host_initiator = [];
  operation = target.operation;
  phase = AuditPhase.result;
  target_type = target.target_type;
  target_id = target.target_id;
  outcome = outcome;
  reason_code = meta.reason_code;
  request_id = meta.request_id;
  role_version = role_version;
  at = at;
}

unfoldable pub denied_outcome : Error → AuditOutcome
denied_outcome Error.conflict = AuditOutcome.conflict
denied_outcome Error.forbidden = AuditOutcome.denied
denied_outcome _ = AuditOutcome.failed

-- The event of `recordDenied`.
unfoldable pub record_denied :
    Principal → MutationMetadata → Target → ℕ → Time → Error → MutationAuditEvent
record_denied actor meta target role_version at cause =
    audit_event actor meta target (denied_outcome cause) role_version at

-- An operation that returned before its transaction.
abbrev pub rejected : {A T : Type 0} → Error → T → Outcome A T
rejected e t = record { result = err e; store = t; security = [] }

-- The transaction of an operation, and the report of its failure.
unfoldable pub perform :
    {A S T : Type 0} → Store S T → Text → Tx S A → (Error → MutationAuditEvent) → T → Outcome A T
perform {A} store tenant_id body denied t =
    let (r, t') = store.mutate_tenant A tenant_id body t in
    record { result = r; store = t'; security = elim r [ ok a ↦ [] | err e ↦ denied e ∷ [] ] }

-- `if err != nil { return err }` before the transaction.
unfoldable pub checked : {A B T : Type 0} → Result B → T → (B → Outcome A T) → Outcome A T
checked (err e) t run = rejected e t
checked (ok b) t run = run b
