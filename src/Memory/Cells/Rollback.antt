-- ===== src/Memory/Cells/Rollback.antt =====
-- How `MutateTenant` of memory/memory.go ends over pointers.
use amsonia_core.Base.{ℕ, ◌≡◌, ◌≢◌, [], ◌∷◌}
use amsonia_core.Base.Maps.{Map}
use amsonia_core.Text.{Text, text_key}
use amsonia_core.Types.Errors.{Result, ok, err}
use amsonia_core.Memory.{MemoryStore}
use amsonia_core.Memory.Cells.{Cells, Callback, read}
use amsonia_core.Memory.Cells.Owned.{view}

-- The store that cells show.
abbrev deref : Cells → Map Text ℕ → MemoryStore
deref h [] = []
deref h ((k, p) ∷ m) = (k, read p h) ∷ deref h m

-- How a call on one tenant ended. A failure changes no tenant, whatever the callback has written; a
-- success gives the tenant what the callback has made of its state, and changes no other.
abbrev pub Rollback : {A : Type 0} → Text → Callback A → Cells → Result A × Cells → Type 0
Rollback tenant_id fn h (err e, after) = (b : Text) → view b after ≡ view b h
Rollback tenant_id fn h (ok a, after) =
    (fn (view tenant_id h) ≡ (ok a, view tenant_id after))
    × ((b : Text) → b ≢ tenant_id → view b after ≡ view b h)
