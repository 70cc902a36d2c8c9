-- ===== src/Runtime/Diagnostics.antt =====
-- TestSource (apps/bridge/internal/runtime/manager.go), which changes no state.
use proxmox_desk_display.Base.Text.{Text, codes, is_empty}
use proxmox_desk_display.Runtime.Manager.{World, Bridge}
use proxmox_desk_display.Runtime.Source.{SourceUpdate, source_from_update}
use proxmox_desk_display.Provider.Diagnostics.{TestResult, ApiNetwork, test_host}
use proxmox_desk_display.Errors.{Result, ◌>>=◌, ok}
use proxmox_desk_display.Base.{[], if◌then◌else◌, ◌++◌}

pub record SourceDiagnostic : Type 0 where
  pub message : Text
  pub fingerprint : Text

unfoldable pub diagnostic : TestResult → SourceDiagnostic
diagnostic t = record {
  message =
      if is_empty t.version
      then codes "connection OK"
      else codes "connection OK: Proxmox VE "
        ++ t.version
        ++ (if is_empty t.release then [] else codes " (" ++ t.release ++ codes ")");
  fingerprint = t.fingerprint;
}

unfoldable pub test_source : World → ApiNetwork → SourceUpdate → Bridge → Result SourceDiagnostic
unfolding diagnostic
test_source w net input b =
    source_from_update b.manager.cfg.proxmox b.manager.secrets.proxmox_tokens input >>= λ source.
    test_host w.getenv w.tls net source >>= λ t. ok (diagnostic t)
