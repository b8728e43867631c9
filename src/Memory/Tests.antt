-- ===== src/Memory/Tests.antt =====
-- The theorems on memory.go at concrete stores.
use amsonia_core.Base.{◌≡◌, ◌↔◌, refl, List, [], ◌∷◌, Bool, true, false, none, some}
use amsonia_core.Text.{Text, codes}
use amsonia_core.Types.Errors.{ok}
use amsonia_core.Types.Enums.{AuditPhase, AuditOutcome}
use amsonia_core.Types.Records.{Role, MutationAuditEvent}
use amsonia_core.Base.Maps.{lookup, insert}
use amsonia_core.Memory.Maintenance.{purge_tenant}
use amsonia_core.Memory.Purge.{purge_tenant_again}
use amsonia_core.Memory.{Context}
use amsonia_core.Memory.State.{TenantState, EdgeKey, new_tenant_state}
use amsonia_core.Memory.GrantPath.{has_path}
use amsonia_core.Memory.GrantPath.Correctness.{Chain, has_path_decides}

abbrev edge : Text → Text → EdgeKey
edge grantor grantee = record { grantor = grantor; grantee = grantee; role_id = codes "r" }

abbrev two_edges : List EdgeKey
two_edges = edge (codes "ann") (codes "bob") ∷ edge (codes "bob") (codes "cid") ∷ []

has_path_decides_example :
    (found : Bool) × (has_path two_edges (codes "ann") (codes "cid") ≡ some found)
    × ((found ≡ true) ↔ ∥ Chain two_edges (codes "ann") (codes "cid") ∥₁)
has_path_decides_example = has_path_decides two_edges (codes "ann") (codes "cid")

abbrev open_context : Context
open_context = record { before = none; locked = none; finished = none }

abbrev reader_role : Role
reader_role = record {
  tenant_id = codes "t";
  role_id = codes "r";
  name = codes "Reader";
  description = [];
  version = 1;
  deleted = false;
}

abbrev one_role : TenantState
one_role = record new_tenant_state {
  roles = (codes "r", reader_role) ∷ [];
  role_perms = (codes "r", []) ∷ [];
  role_versions = (codes "r", []) ∷ [];
}

abbrev purge_event : MutationAuditEvent
purge_event = record {
  tenant_id = codes "t";
  actor_subject_id = [];
  host_initiator = codes "ops";
  operation = codes "tenant.purge";
  phase = AuditPhase.result;
  target_type = codes "tenant";
  target_id = codes "t";
  outcome = AuditOutcome.success;
  reason_code = codes "closed";
  request_id = codes "q7";
  role_version = 0;
  at = 3;
}

abbrev retry_event : MutationAuditEvent
retry_event = record purge_event { at = 9 }

abbrev purged_state : TenantState
purged_state = record new_tenant_state {
  purged = true;
  purge_ledger = (codes "q7", purge_event) ∷ [];
}

purge_tenant_again_example :
    purge_tenant retry_event purged_state
    ≡ ok (
      record { changed = false; already_committed = true; canonical_event = purge_event },
      purged_state,
    )
unfolding purge_tenant lookup insert new_tenant_state
purge_tenant_again_example = purge_tenant_again purge_event retry_event one_role refl refl
