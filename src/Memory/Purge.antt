-- ===== src/Memory/Purge.antt =====
-- `PurgeTenant` of memory/memory.go and its ledger.
use amsonia_core.Base.{◌≡◌, true, false, Option-cases, inl, inr, arith}
use amsonia_core.Base.Maps.{lookup, lookup-insert_self}
use amsonia_core.Text.{text_key}
use amsonia_core.Types.Errors.{ok}
use amsonia_core.Types.Records.{MutationAuditEvent, PurgeResult}
use amsonia_core.Memory.State.{TenantState}
use amsonia_core.Memory.Maintenance.{purge_tenant}

-- A purge that succeeds can be repeated: a second one with the same request id succeeds, changes
-- nothing, says that it was committed already, and answers with the event of the first.
pub purge_tenant_again :
    (event retry : MutationAuditEvent) (s : TenantState) {r : PurgeResult} {s' : TenantState}
    → purge_tenant event s ≡ ok (r, s')
    → retry.request_id ≡ event.request_id
    → purge_tenant retry s'
      ≡ ok (
        record { changed = false; already_committed = true; canonical_event = r.canonical_event },
        s',
      )
unfolding purge_tenant
purge_tenant_again event retry s {r} {s'} e same =
    elim (Option-cases (lookup event.request_id s.purge_ledger)) [
      | inr (canonical, old) ↦ ground (arith, old, e, same)
      | inl new ↦
          ground (arith, new, e, same, lookup-insert_self event.request_id event s.purge_ledger)
    ]
