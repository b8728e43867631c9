-- ===== src/Memory/Cells/Tests.antt =====
-- The theorems on memory/memory.go over pointers, at a callback that writes and then fails.
use amsonia_core.Base.{[], true, none}
use amsonia_core.Text.{text_key, codes}
use amsonia_core.Types.Errors.{err, conflict}
use amsonia_core.Memory.State.{new_tenant_state}
use amsonia_core.Memory.{Context}
use amsonia_core.Memory.Cells.{Cells, Callback, fresh, pointer_of}
use amsonia_core.Memory.Cells.Rollback.{Rollback}

abbrev open_context : Context
open_context = record { before = none; locked = none; finished = none }

abbrev no_cells : Cells
no_cells = record {
  struct = λ p. fresh p new_tenant_state;
  maps = record {
    roles = λ p. [];
    role_perms = λ p. [];
    subject_roles = λ p. [];
    grant_edges = λ p. [];
    role_versions = λ p. [];
    purge_ledger = λ p. [];
  };
  next = 0;
  tenants = [];
}

-- The first tenant of a store.
abbrev one_cell : Cells
one_cell = (pointer_of (codes "t") no_cells).1

abbrev writes_then_fails : Callback (Unit {0})
writes_then_fails s = (err conflict, record s { bootstrapped = true })
