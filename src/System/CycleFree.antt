-- ===== src/System/CycleFree.antt =====
-- The graph of grants, under the calls of the manager, the bootstrapper and the maintenance.
use amsonia_core.Text.{Text, text_key}
use amsonia_core.Memory.Maintenance
use amsonia_core.Memory.Maintenance.{memory_maintenance}
use amsonia_core.Manager.{Manager}
