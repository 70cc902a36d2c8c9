-- ===== src/Provider/Source/Nodes/Reports.antt =====
-- Certificates, trends, devices, networks and services of a node (apps/bridge/internal/proxmox/provider.go).
use proxmox_desk_display.Base.{
  [], ◌∷◌, some, none, List, if◌then◌else◌, ltb, ◌++◌, map, keep_if, not,
}
use proxmox_desk_display.Provider.Source.Steps.{
  Scan, with_capability, alert_of, node_endpoint, appended, is_bad, warn_host,
}
use proxmox_desk_display.Base.Text.{Text, is_empty, codes}
use proxmox_desk_display.Provider.Api.Nodes.{NodeCertificate}
use proxmox_desk_display.Display.State.{State}
use proxmox_desk_display.Display.Hosts.{Host}
use proxmox_desk_display.Provider.Api.{
  failed, answered, node_pci, node_network, node_services, node_certificates, node_rrd_data,
}
use proxmox_desk_display.Provider.Convert.Nodes.{
  certificate_display, network_display, service_display,
}
use proxmox_desk_display.Provider.Rules.{push_alert, raise_host}
use proxmox_desk_display.Base.Numbers.{itoa, decimal}
use proxmox_desk_display.Display.Health.{Health}
use proxmox_desk_display.Provider.Trends.{node_metric_trends}
use proxmox_desk_display.Provider.Summaries.{
  summarize_gpus, is_shown, summarize_network, summarize_services,
}
use proxmox_desk_display.Display.Inventory.{Certificate, Alert}

module _ (w : Scan) where
  abbrev pub certificate_alert : Host → Certificate → Alert
  certificate_alert h c =
      alert_of w.client.id (c.id ++ codes "/expiry") h.id [] c.health
        (h.name ++ codes " cert " ++ c.filename)
        (codes "expires in " ++ itoa c.days_remaining ++ codes " days")

  -- One turn of the loop over the certificates.
  unfoldable pub add_certificate : Text → NodeCertificate → State × Host → State × Host
  add_certificate node cert (s, h) =
      let c = certificate_display w.floats w.client h cert (w.checked node cert) in
      let raised = if is_bad c.health then push_alert (certificate_alert h c) s else s in
      (
        record raised { certificates = appended raised.certificates (c ∷ []) },
        if is_bad c.health then raise_host c.health h else h,
      )

  unfoldable pub add_certificates : Text → List NodeCertificate → State × Host → State × Host
  unfolding add_certificate
  add_certificates node [] acc = acc
  add_certificates node (c ∷ rest) acc = add_certificates node rest (add_certificate node c acc)

  unfoldable pub scan_certificates : Text → State × Host → State × Host
  unfolding add_certificates
  scan_certificates node (s, h) =
      let add =
        with_capability w.client h.id [] (codes "node_certificates")
          (node_endpoint node "/certificates/info") in
      elim (node_certificates w.api node) [
        | failed e ↦ (add (some e) s, warn_host (codes "certificates unavailable") h)
        | answered certs ↦ add_certificates node certs (add none s, h)
      ]

  unfoldable pub scan_node_rrd : Text → State × Host → State × Host
  scan_node_rrd node (s, h) =
      let add =
        with_capability w.client h.id [] (codes "node_rrd") (node_endpoint node "/rrddata") in
      elim (node_rrd_data w.api node) [
        | failed e ↦ (add (some e) s, warn_host (codes "node trend unavailable") h)
        | answered points ↦ (
          record (add none s) {
            metric_trends =
                appended s.metric_trends (node_metric_trends w.floats w.client h points);
          },
          h,
        )
      ]

  unfoldable pub scan_pci : Text → State × Host → State × Host
  scan_pci node (s, h) = elim (node_pci w.api node) [
    | failed e ↦ (s, warn_host (codes "pci unavailable") h)
    | answered devices ↦ (
      s,
      record h { gpu_count = (summarize_gpus devices).0; gpu_summary = (summarize_gpus devices).1 },
    )
  ]

  unfoldable pub scan_network : Text → State × Host → State × Host
  scan_network node (s, h) = elim (node_network w.api node) [
    | failed e ↦ (s, warn_host (codes "network unavailable") h)
    | answered networks ↦ (
      record s {
        networks =
            appended s.networks (map (network_display w.client h) (keep_if is_shown networks));
      },
      record h {
        network_total = (summarize_network networks).total;
        network_active = (summarize_network networks).active;
        primary_address = (summarize_network networks).primary;
      },
    )
  ]

  abbrev pub services_alert : Host → Alert
  services_alert h =
      alert_of h.source_id (h.id ++ codes "/services-failed") h.id [] Health.warning
        (h.name ++ codes " services") (decimal h.services_failed ++ codes " failed services")

  -- The alert on failed services.
  unfoldable pub check_services : State × Host → State × Host
  check_services (s, h) =
      if ltb 0 h.services_failed
      then (push_alert (services_alert h) s, raise_host Health.warning h)
      else (s, h)

  unfoldable pub scan_services : Text → State × Host → State × Host
  unfolding check_services
  scan_services node (s, h) = elim (node_services w.api node) [
    | failed e ↦ (s, warn_host (codes "services unavailable") h)
    | answered services ↦ check_services (
      record s {
        services =
            appended s.services
              (keep_if (λ x. not (is_empty x.name)) (map (service_display w.client h) services));
      },
      record h {
        services_total = (summarize_services services).total;
        services_running = (summarize_services services).running;
        services_failed = (summarize_services services).failed;
      },
    )
  ]
