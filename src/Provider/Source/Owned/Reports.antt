-- ===== src/Provider/Source/Owned/Reports.antt =====
-- The source of the certificates, trends, networks and services of a node
-- (apps/bridge/internal/proxmox/provider.go).
use proxmox_desk_display.Base.{
  [], ◌∷◌, some, none, true, false, refl, inl, inr, ◌≡◌, Bool, Option, if◌then◌else◌, Bool-cases,
  List, ltb, map, keep_if, not, ◌∙◌,
}
use proxmox_desk_display.Provider.Source.Steps.{
  Scan, with_capability, appended, is_bad, node_endpoint,
}
use proxmox_desk_display.Display.State.{State}
use proxmox_desk_display.Provider.Source.Nodes.{
  scan_node_status, add_certificates, scan_certificates, scan_node_rrd, scan_pci, scan_network,
  check_services, scan_services, with_status, add_certificate, services_alert, certificate_alert,
}
use proxmox_desk_display.Provider.Convert.Nodes.{
  certificate_display, network_display, service_display,
}
use proxmox_desk_display.Display.Hosts.{Host, Service}
use proxmox_desk_display.Base.Text.{Text, codes, is_empty}
use proxmox_desk_display.Display.Health.{Health}
use proxmox_desk_display.Provider.Source.Owned.{IsOwned}
use proxmox_desk_display.Provider.Api.{
  Call-cases, node_status, node_certificates, node_rrd_data, node_pci, node_network, node_services,
}
use proxmox_desk_display.Provider.Calls.{CallError}
use proxmox_desk_display.Provider.Rules.{raise_host, push_alert}
use proxmox_desk_display.Provider.Api.Nodes.{NodeCertificate}
use proxmox_desk_display.Provider.Source.Owned.Appends.{
  appended_networks, push_alert-IsOwned, with_capability-IsOwned, appended_metric_trends,
  appended_certificates, may_push-IsOwned, appended_services, All-keep_if,
}
use proxmox_desk_display.Provider.Trends.{node_metric_trends}
use proxmox_desk_display.Provider.Summaries.{is_shown, summarize_services}
use proxmox_desk_display.Provider.Source.Owned.Lists.{
  node_trends_owned, networks_owned, services_owned,
}

module _ (w : Scan) where
  -- The records of the state and the host bear the source's id.
  abbrev pub Kept : State × Host → Type 0
  Kept r = IsOwned w.client.id r.0 × (r.1.source_id ≡ w.client.id)

  pub noted-IsOwned :
      (s : State) (host_id name endpoint : Text) (e : Option CallError)
      → IsOwned w.client.id s
      → IsOwned w.client.id (with_capability w.client host_id [] name endpoint e s)
  noted-IsOwned s host_id name endpoint e own =
      with_capability-IsOwned w.client s host_id [] name endpoint e own

  pub scan_node_status-Kept :
      (node : Text) (s : State) (h : Host) → Kept (s, h) → Kept (scan_node_status w node (s, h))
  unfolding scan_node_status with_status
  scan_node_status-Kept node s h k = elim (Call-cases (node_status w.api node)) [
    | inl (e, p) ↦ rw (p, scan_node_status) k
    | inr (a, p) ↦ rw (p, scan_node_status) k
  ]

  pub raised-source :
      (b : Bool) (l : Health) (h : Host) → (if b then raise_host l h else h).source_id ≡ h.source_id
  raised-source true l h = refl
  raised-source false l h = refl

  add_certificates-Kept :
      (node : Text) (certs : List NodeCertificate) (s : State) (h : Host)
      → Kept (s, h)
      → Kept (add_certificates w node certs (s, h))
  unfolding add_certificates add_certificate certificate_display
  add_certificates-Kept node [] s h k = k
  add_certificates-Kept node (cert ∷ rest) s h (own, e) =
      let c = certificate_display w.floats w.client h cert (w.checked node cert) in
      let raised = if is_bad c.health then push_alert (certificate_alert w h c) s else s in
      add_certificates-Kept node rest
        (record raised { certificates = appended raised.certificates (c ∷ []) })
        (if is_bad c.health then raise_host c.health h else h)
        (
          appended_certificates w.client.id raised (c ∷ []) (refl, tt)
              (may_push-IsOwned w.client.id s (is_bad c.health) (certificate_alert w h c) refl own),
          raised-source (is_bad c.health) c.health h ∙ e,
        )

  pub scan_certificates-Kept :
      (node : Text) (s : State) (h : Host) → Kept (s, h) → Kept (scan_certificates w node (s, h))
  unfolding scan_certificates
  scan_certificates-Kept node s h (own, k) = elim (Call-cases (node_certificates w.api node)) [
    | inl (e, p) ↦
        rw (p, scan_certificates)
          (
            noted-IsOwned s h.id (codes "node_certificates")
                (node_endpoint node "/certificates/info") (some e) own,
            k,
          )
    | inr (a, p) ↦
        rw (p, scan_certificates)
          (add_certificates-Kept node a
            (with_capability w.client h.id [] (codes "node_certificates")
              (node_endpoint node "/certificates/info") none s)
            h
            (
              noted-IsOwned s h.id (codes "node_certificates")
                  (node_endpoint node "/certificates/info") none own,
              k,
            ))
  ]

  pub scan_node_rrd-Kept :
      (node : Text) (s : State) (h : Host) → Kept (s, h) → Kept (scan_node_rrd w node (s, h))
  unfolding scan_node_rrd
  scan_node_rrd-Kept node s h (own, k) = elim (Call-cases (node_rrd_data w.api node)) [
    | inl (e, p) ↦
        rw (p, scan_node_rrd)
          (noted-IsOwned s h.id (codes "node_rrd") (node_endpoint node "/rrddata") (some e) own, k)
    | inr (a, p) ↦
        rw (p, scan_node_rrd)
          (
            appended_metric_trends w.client.id
                (with_capability w.client h.id [] (codes "node_rrd") (node_endpoint node "/rrddata")
                  none s)
                (node_metric_trends w.floats w.client h a) (node_trends_owned w.floats w.client h a)
                (noted-IsOwned s h.id (codes "node_rrd") (node_endpoint node "/rrddata") none own),
            k,
          )
  ]

  pub scan_pci-Kept :
      (node : Text) (s : State) (h : Host) → Kept (s, h) → Kept (scan_pci w node (s, h))
  unfolding scan_pci
  scan_pci-Kept node s h (own, k) = elim (Call-cases (node_pci w.api node)) [
    | inl (e, p) ↦ rw (p, scan_pci) (own, k)
    | inr (a, p) ↦ rw (p, scan_pci) (own, k)
  ]

  pub scan_network-Kept :
      (node : Text) (s : State) (h : Host) → Kept (s, h) → Kept (scan_network w node (s, h))
  unfolding scan_network
  scan_network-Kept node s h (own, k) = elim (Call-cases (node_network w.api node)) [
    | inl (e, p) ↦ rw (p, scan_network) (own, k)
    | inr (a, p) ↦
        rw (p, scan_network)
          (
            appended_networks w.client.id s (map (network_display w.client h) (keep_if is_shown a))
                (networks_owned w.floats w.client h (keep_if is_shown a)) own,
            k,
          )
  ]

  check_services-Kept : (s : State) (h : Host) → Kept (s, h) → Kept (check_services w (s, h))
  unfolding check_services
  check_services-Kept s h (own, e) = elim (Bool-cases (ltb 0 h.services_failed)) [
    | inl p ↦ rw p (push_alert-IsOwned w.client.id s (services_alert w h) e own, e)
    | inr p ↦ rw p (own, e)
  ]

  pub scan_services-Kept :
      (node : Text) (s : State) (h : Host) → Kept (s, h) → Kept (scan_services w node (s, h))
  unfolding scan_services
  scan_services-Kept node s h (own, k) = elim (Call-cases (node_services w.api node)) [
    | inl (e, p) ↦ rw (p, scan_services) (own, k)
    | inr (a, p) ↦
        rw (p, scan_services)
          (check_services-Kept
            (record s {
              services =
                  appended s.services
                    (keep_if (λ x. not (is_empty x.name)) (map (service_display w.client h) a));
            })
            (record h {
              services_total = (summarize_services a).total;
              services_running = (summarize_services a).running;
              services_failed = (summarize_services a).failed;
            })
            (
              appended_services w.client.id s
                  (keep_if (λ x. not (is_empty x.name)) (map (service_display w.client h) a))
                  (All-keep_if (λ (x : Service). x.source_id ≡ w.client.id)
                    (λ x. not (is_empty x.name)) (map (service_display w.client h) a)
                    (services_owned w.floats w.client h a))
                  own,
              k,
            ))
  ]
