-- ===== src/Runtime/Operations.antt =====
-- The admin's operations on the bridge, one after the other (apps/bridge/internal/runtime/manager.go).
pub mod Fresh
pub mod Invariant
pub mod Running
pub mod Effects
pub mod Success
pub mod Shown
use proxmox_desk_display.Base.{List, [], ◌∷◌, Option}
use proxmox_desk_display.Base.Text.{Text}
use proxmox_desk_display.Runtime.Source.{SourceUpdate}
use proxmox_desk_display.Runtime.Manager.{
  World, Bridge, ServerUpdate, update_server, upsert_source, delete_source, refresh_bridge,
}
use proxmox_desk_display.Errors.{Error}

pub data Operation : Type 0 where
  updating : ServerUpdate → Operation
  upserting : SourceUpdate → Operation
  deleting : Text → Operation
  refreshing : Operation

-- The world changes between two operations, so that each has its own.
unfoldable pub run : World → Operation → Bridge → Option Error × Bridge
run w (updating input) b = update_server w input b
run w (upserting input) b = upsert_source w input b
run w (deleting id) b = delete_source w id b
run w refreshing b = refresh_bridge w b

unfoldable pub run_all : List (World × Operation) → Bridge → Bridge
unfolding run
run_all [] b = b
run_all ((w, op) ∷ rest) b = run_all rest (run w op b).1
