-- ===== src/Provider/Source/Owned/Lists.antt =====
-- The source of the records that the conversions make of a list
-- (apps/bridge/internal/proxmox/provider.go).
use proxmox_desk_display.Base.{
  [], ◌∷◌, refl, inl, inr, ◌≡◌, List, All, ℕ, Option-cases, All-append, map, ◌+◌,
}
use proxmox_desk_display.Provider.Trends.{
  trend, trends, MetricTrendBase, node_metric_trends, guest_metric_trends, TrendSpec, host_base,
  guest_base, trend_values, node_specs, guest_specs,
}
use proxmox_desk_display.Provider.Json.{Floats}
use proxmox_desk_display.Provider.Client.{Client}
use proxmox_desk_display.Base.Text.{Text}
use proxmox_desk_display.Provider.Convert.Nodes.{network_display, service_display, update_display}
use proxmox_desk_display.Provider.Convert.Repositories.{file_repositories, all_repositories}
use proxmox_desk_display.Provider.Api.Guests.{RrdPoint}
use proxmox_desk_display.Display.Hosts.{Host, Network, Service}
use proxmox_desk_display.Display.Guests.{Guest}
use proxmox_desk_display.Base.Int.{ℤ}
use proxmox_desk_display.Provider.Api.Nodes.{
  NetworkInterface, NodeService, AptUpdate, AptRepositoryInfo, AptRepositoryFile,
  AptRepositoryEntry,
}
use proxmox_desk_display.Display.Inventory.{MetricTrend, Update, Repository}

trend_owned :
    (base : MetricTrendBase) (metric unit : Text) (points : List RrdPoint) (value : RrdPoint → ℤ)
    → All (λ (x : MetricTrend). x.source_id ≡ base.source_id) (trend base metric unit points value)
unfolding trend
trend_owned base metric unit points value = elim (Option-cases (trend_values points value)) [
  | inl p ↦ rw (p, trend) tt
  | inr (vs, p) ↦ rw (p, trend) (refl, tt)
]

trends_owned :
    (base : MetricTrendBase) (points : List RrdPoint) (specs : List TrendSpec)
    → All (λ (x : MetricTrend). x.source_id ≡ base.source_id) (trends base points specs)
unfolding trends
trends_owned base points [] = tt
trends_owned base points (t ∷ rest) =
    All-append (λ (x : MetricTrend). x.source_id ≡ base.source_id)
      (trend base t.metric t.unit points t.value) (trends base points rest)
      (trend_owned base t.metric t.unit points t.value) (trends_owned base points rest)

module _ (f : Floats) (client : Client) where
  pub node_trends_owned :
      (h : Host) (points : List RrdPoint)
      → All (λ (x : MetricTrend). x.source_id ≡ client.id) (node_metric_trends f client h points)
  unfolding node_metric_trends
  node_trends_owned h points = trends_owned (host_base client h) points (node_specs f)

  pub guest_trends_owned :
      (g : Guest) (points : List RrdPoint)
      → All (λ (x : MetricTrend). x.source_id ≡ client.id) (guest_metric_trends f client g points)
  unfolding guest_metric_trends
  guest_trends_owned g points = trends_owned (guest_base client g) points (guest_specs f)

  pub networks_owned :
      (h : Host) (xs : List NetworkInterface)
      → All (λ (x : Network). x.source_id ≡ client.id) (map (network_display client h) xs)
  unfolding network_display
  networks_owned h [] = tt
  networks_owned h (x ∷ xs) = (refl, networks_owned h xs)

  pub services_owned :
      (h : Host) (xs : List NodeService)
      → All (λ (x : Service). x.source_id ≡ client.id) (map (service_display client h) xs)
  unfolding service_display
  services_owned h [] = tt
  services_owned h (x ∷ xs) = (refl, services_owned h xs)

  pub updates_owned :
      (h : Host) (xs : List AptUpdate)
      → All (λ (x : Update). x.source_id ≡ client.id) (map (update_display client h) xs)
  unfolding update_display
  updates_owned h [] = tt
  updates_owned h (x ∷ xs) = (refl, updates_owned h xs)

  file_repositories_owned :
      (h : Host) (infos : List AptRepositoryInfo) (path : Text) (i : ℕ)
      (xs : List AptRepositoryEntry)
      → All
          (λ (x : Repository). x.source_id ≡ client.id)
          (file_repositories f client h infos path i xs)
  unfolding file_repositories
  file_repositories_owned h infos path i [] = tt
  file_repositories_owned h infos path i (x ∷ xs) =
      (refl, file_repositories_owned h infos path (i + 1) xs)

  pub repositories_owned :
      (h : Host) (infos : List AptRepositoryInfo) (files : List AptRepositoryFile)
      → All (λ (x : Repository). x.source_id ≡ client.id) (all_repositories f client h infos files)
  unfolding all_repositories
  repositories_owned h infos [] = tt
  repositories_owned h infos (file ∷ rest) =
      All-append (λ (x : Repository). x.source_id ≡ client.id)
        (file_repositories f client h infos file.path 0 file.repositories)
        (all_repositories f client h infos rest)
        (file_repositories_owned h infos file.path 0 file.repositories)
        (repositories_owned h infos rest)
