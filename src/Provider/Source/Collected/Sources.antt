-- ===== src/Provider/Source/Collected/Sources.antt =====
-- The sources of the records that Collect shows (apps/bridge/internal/proxmox/provider.go).
use proxmox_desk_display.Base.{[], ◌∷◌, true, refl, ◌≡◌, List, any, arith, All}
use proxmox_desk_display.Provider.Collect.{Sorter, IsSort}
use proxmox_desk_display.Provider.Source.Steps.{Scan}
use proxmox_desk_display.Provider.Source.Collected.{source_states, collect_sources}
use proxmox_desk_display.Base.Text.{Text, text_eq}
use proxmox_desk_display.Provider.Source.Owned.{Field}
use proxmox_desk_display.Provider.Collect.Merged.{collect-IsMerged}
use proxmox_desk_display.Provider.Source.{collect_source}
use proxmox_desk_display.Base.Int.{ℤ}
use proxmox_desk_display.Provider.Source.Owned.Whole.{collect_source-IsOwned}
use proxmox_desk_display.Base.Text.Laws.{text_eq_refl}
use proxmox_desk_display.Provider.Source.Collected.Gathered.{VisitsAll, merged-none}
use proxmox_desk_display.Provider.Source.Collected.Foreign.{client_ids, NoneForeign, state-none}

states-none :
    (ids : List Text) (scans : List Scan)
    → All (λ w. any (text_eq w.client.id) ids ≡ true) scans
    → All VisitsAll scans
    → (f : Field) → All (λ s. NoneForeign ids s f) (source_states scans)
unfolding source_states
states-none ids [] known perm f = tt
states-none ids (w ∷ rest) (k, known) (p, perm) f = (
  state-none ids w.client.id k (collect_source w) (collect_source-IsOwned w p) f,
  states-none ids rest known perm f,
)

known-cons :
    (id : Text) (ids : List Text) (scans : List Scan)
    → All (λ w. any (text_eq w.client.id) ids ≡ true) scans
    → All (λ w. any (text_eq w.client.id) (id ∷ ids) ≡ true) scans
unfolding any
known-cons id ids [] h = tt
known-cons id ids (w ∷ rest) (h, hs) = (ground arith, known-cons id ids rest hs)

ids-known :
    (scans : List Scan) → All (λ w. any (text_eq w.client.id) (client_ids scans) ≡ true) scans
unfolding client_ids any
ids-known [] = tt
ids-known (w ∷ rest) = (
  rw (text_eq_refl w.client.id) refl,
  known-cons w.client.id (client_ids rest) rest (ids-known rest),
)

-- Collect shows records of its own sources only: the source of every record, in each of the lists, is
-- the id of one of the clients, whatever the API of each of them answers, in whatever order they end
-- and Go visits their hosts, where the sort permutes and orders its input.
pub collect_sources-NoneForeign :
    (s : Sorter) (laws : IsSort s) (now : ℤ) (scans : List Scan)
    → All VisitsAll scans
    → (f : Field) → NoneForeign (client_ids scans) (collect_sources s now scans) f
unfolding collect_sources
collect_sources-NoneForeign s laws now scans perm =
    merged-none (client_ids scans) (source_states scans) (collect_sources s now scans)
      (states-none (client_ids scans) scans (ids-known scans) perm)
      (collect-IsMerged s laws now (source_states scans)).0
