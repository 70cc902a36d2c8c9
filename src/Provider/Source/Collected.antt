-- ===== src/Provider/Source/Collected.antt =====
-- Collect over the states of its sources (apps/bridge/internal/proxmox/provider.go): the goroutine of
-- each client runs collectSource, and Collect merges what they return in the order in which they end.
pub mod Foreign
pub mod Gathered
pub mod Sources
use proxmox_desk_display.Base.{[], ◌∷◌, refl, ◌≡◌, List, ◌++◌}
use proxmox_desk_display.Base.Int.{ℤ}
use proxmox_desk_display.Display.Health.{Health}
use proxmox_desk_display.Display.State.{State}
use proxmox_desk_display.Provider.Api.{failed, cluster_resources}
use proxmox_desk_display.Provider.Calls.{CallError, error_text}
use proxmox_desk_display.Provider.Collect.{Sorter, IsSort, collect}
use proxmox_desk_display.Provider.Collect.Unreachable.{collect-unreachable}
use proxmox_desk_display.Provider.Source.{collect_source}
use proxmox_desk_display.Provider.Source.Steps.{Scan}

-- The states of the sources, in the order in which their goroutines ended.
unfoldable pub source_states : List Scan → List State
unfolding collect_source
source_states [] = []
source_states (w ∷ rest) = collect_source w ∷ source_states rest

unfoldable pub collect_sources : Sorter → ℤ → List Scan → State
unfolding source_states collect
collect_sources s now scans = collect s now (source_states scans)

states_around :
    (before : List Scan) (w : Scan) (after : List Scan)
    → source_states (before ++ w ∷ after)
      ≡ source_states before ++ collect_source w ∷ source_states after
unfolding source_states
states_around [] w after = refl
states_around (x ∷ before) w after = rw (states_around before w after) refl

-- Where the first call of one source fails, the health that Collect shows is critical, whatever the
-- API of the other sources answers and in whatever order the sources end, where the sort permutes its
-- input.
pub collect_sources-unreachable :
    (s : Sorter) (laws : IsSort s) (now : ℤ) (before after : List Scan) (w : Scan) (e : CallError)
    → cluster_resources w.api ≡ failed e
    → (collect_sources s now (before ++ w ∷ after)).summary.health ≡ Health.critical
unfolding collect_sources collect_source
collect_sources-unreachable s laws now before after w e h =
    rw (states_around before w after, h, collect_source)
      (collect-unreachable s laws now (source_states before) (source_states after) w.client
        (error_text e) w.started)
