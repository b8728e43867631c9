-- ===== src/Memory/Cells/Refined.antt =====
-- `MutateTenant` and `MaintainTenant` of memory/memory.go, over pointers and over states.
use amsonia_core.Base.{◌≡◌}
use amsonia_core.Text.{Text, text_key}
use amsonia_core.Types.Errors.{Result, ok, err}
use amsonia_core.Store.{Tx}
use amsonia_core.Memory.State.{TenantState}
use amsonia_core.Memory.{MemoryStore, state_of}
use amsonia_core.Memory.Cells.{Cells, Callback}
use amsonia_core.Memory.Cells.Owned.{view, IsOwned}

-- What a callback that has run tells the store that keeps no pointers: the state only if it succeeded.
unfoldable pub settle : {A : Type 0} → Result A × TenantState → Result (A × TenantState)
settle (err e, written) = err e
settle (ok a, written) = ok (a, written)

abbrev pub settled : {A : Type 0} → Callback A → Tx TenantState A
settled fn s = settle (fn s)

-- The cells show each tenant with the state that the store gives it.
abbrev pub Shows : Cells → MemoryStore → Type 0
Shows h store = (b : Text) → view b h ≡ state_of b store

-- Two calls with one result that leave cells and a store that agree.
abbrev pub Agree : {A : Type 0} → Result A × Cells → Result A × MemoryStore → Type 0
Agree c m = (c.0 ≡ m.0) × Shows c.1 m.1 × IsOwned c.1
