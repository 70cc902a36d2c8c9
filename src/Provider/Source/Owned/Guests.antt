-- ===== src/Provider/Source/Owned/Guests.antt =====
-- The source of what storages, guests, replications and tasks add
-- (apps/bridge/internal/proxmox/provider.go).
use proxmox_desk_display.Base.{
  [], ◌∷◌, some, none, refl, inl, inr, ◌≡◌, List, Option, if◌then◌else◌, All, Bool-cases, ltb, ◌++◌,
  keep_if, length, map, not, ◌&&◌, arith, ◌∙◌,
}
use proxmox_desk_display.Provider.Source.Steps.{Scan, with_capability}
use proxmox_desk_display.Display.State.{State}
use proxmox_desk_display.Provider.Source.Guests.{
  ask_config, ask_status, ask_rrd, snapshot_display, ask_snapshots, note_agent, ask_guest_agent,
  ask_interfaces, check_expected, scan_guest, guest_of, guest_endpoint, pin_of, is_pinned, vmid_of,
  expected_of, status_alert,
}
use proxmox_desk_display.Base.Text.{Text, codes, text_eq, is_empty}
use proxmox_desk_display.Display.Guests.{Guest, Snapshot}
use proxmox_desk_display.Provider.Guests.Config.{apply_guest_config, apply_guest_status}
use proxmox_desk_display.Provider.Api.Clusters.{Resource}
use proxmox_desk_display.Provider.Calls.{CallError}
use proxmox_desk_display.Provider.Source.Owned.{IsOwned}
use proxmox_desk_display.Provider.Api.{
  Call-cases, guest_config, guest_status, guest_snapshots, guest_rrd_data, container_interfaces,
}
use proxmox_desk_display.Provider.Api.Guests.{GuestSnapshot}
use proxmox_desk_display.Provider.Guests.Agent.{apply_guest_agent, with_first}
use proxmox_desk_display.Config.{PinnedGuest}
use proxmox_desk_display.Provider.Source.Owned.Appends.{
  with_capability-IsOwned, appended_metric_trends, appended_snapshots, push_alert-IsOwned,
}
use proxmox_desk_display.Provider.Trends.{guest_metric_trends}
use proxmox_desk_display.Provider.Guests.Agent.Outcome.{apply_guest_agent-source}
use proxmox_desk_display.Provider.Source.Owned.Lists.{guest_trends_owned}
use proxmox_desk_display.Provider.Guests.Addresses.{container_ip_addresses}

module _ (w : Scan) where
  noted-IsOwned :
      (s : State) (host_id guest_id name endpoint : Text) (e : Option CallError)
      → IsOwned w.client.id s
      → IsOwned w.client.id (with_capability w.client host_id guest_id name endpoint e s)
  noted-IsOwned s host_id guest_id name endpoint e own =
      with_capability-IsOwned w.client s host_id guest_id name endpoint e own

  -- The records of the state and the guest bear the source's id.
  abbrev pub KeptGuest : State × Guest → Type 0
  KeptGuest r = IsOwned w.client.id r.0 × (r.1.source_id ≡ w.client.id)

  ask_config-KeptGuest :
      (r : Resource) (s : State) (g : Guest) → KeptGuest (s, g) → KeptGuest (ask_config w r (s, g))
  unfolding ask_config apply_guest_config
  ask_config-KeptGuest r s g (own, k) =
      elim (Call-cases (guest_config w.api r.node r.type g.vmid)) [
        | inl (e, p) ↦ rw (p, ask_config) (own, k)
        | inr (a, p) ↦ rw (p, ask_config) (own, k)
      ]

  ask_status-KeptGuest :
      (r : Resource) (s : State) (g : Guest) → KeptGuest (s, g) → KeptGuest (ask_status w r (s, g))
  unfolding ask_status apply_guest_status
  ask_status-KeptGuest r s g (own, k) =
      elim (Call-cases (guest_status w.api r.node r.type g.vmid)) [
        | inl (e, p) ↦
            rw (p, ask_status)
              (
                noted-IsOwned s g.host_id g.id (codes "guest_status")
                    (guest_endpoint r g.vmid "/status/current") (some e) own,
                k,
              )
        | inr (a, p) ↦
            rw (p, ask_status)
              (
                noted-IsOwned s g.host_id g.id (codes "guest_status")
                    (guest_endpoint r g.vmid "/status/current") none own,
                k,
              )
      ]

  ask_rrd-KeptGuest :
      (r : Resource) (s : State) (g : Guest) → KeptGuest (s, g) → KeptGuest (ask_rrd w r (s, g))
  unfolding ask_rrd
  ask_rrd-KeptGuest r s g (own, k) =
      let add =
        noted-IsOwned s g.host_id g.id (codes "guest_rrd") (guest_endpoint r g.vmid "/rrddata") in
      let s' =
        with_capability w.client g.host_id g.id (codes "guest_rrd")
          (guest_endpoint r g.vmid "/rrddata") none s in
      elim (Call-cases (guest_rrd_data w.api r.node r.type g.vmid)) [
        | inl (e, p) ↦ rw (p, ask_rrd) (add (some e) own, k)
        | inr (a, p) ↦
            rw (p, ask_rrd)
              (
                appended_metric_trends w.client.id s' (guest_metric_trends w.floats w.client g a)
                    (guest_trends_owned w.floats w.client g a) (add none own),
                k,
              )
      ]

  snapshots_owned :
      (g : Guest) (xs : List GuestSnapshot)
      → All (λ (x : Snapshot). x.source_id ≡ w.client.id) (map (snapshot_display w g) xs)
  unfolding snapshot_display
  snapshots_owned g [] = tt
  snapshots_owned g (x ∷ xs) = (refl, snapshots_owned g xs)

  ask_snapshots-KeptGuest :
      (r : Resource) (s : State) (g : Guest)
      → KeptGuest (s, g)
      → KeptGuest (ask_snapshots w r (s, g))
  unfolding ask_snapshots
  ask_snapshots-KeptGuest r s g (own, k) =
      elim (Call-cases (guest_snapshots w.api r.node r.type g.vmid)) [
        | inl (e, p) ↦ rw (p, ask_snapshots) (own, k)
        | inr (a, p) ↦
            let kept = keep_if (λ (x : GuestSnapshot). not (text_eq x.name (codes "current"))) a in
            rw (p, ask_snapshots)
              (
                appended_snapshots w.client.id s (map (snapshot_display w g) kept)
                    (snapshots_owned g kept) own,
                k,
              )
      ]

  note_agent-KeptGuest :
      (r : Resource) (s : State) (g : Guest) (e : Option CallError)
      → KeptGuest (s, g)
      → KeptGuest (note_agent w r s (g, e))
  unfolding note_agent
  note_agent-KeptGuest r s g none (own, k) =
      (noted-IsOwned s g.host_id g.id (codes "qemu_guest_agent") _ none own, k)
  note_agent-KeptGuest r s g (some d) (own, k) =
      (noted-IsOwned s g.host_id g.id (codes "qemu_guest_agent") _ (some d) own, k)

  ask_guest_agent-KeptGuest :
      (r : Resource) (s : State) (g : Guest)
      → KeptGuest (s, g)
      → KeptGuest (ask_guest_agent w r (s, g))
  unfolding ask_guest_agent
  ask_guest_agent-KeptGuest r s g (own, k) =
      let asked = apply_guest_agent w.api r.node g.vmid g in
      elim (Bool-cases
        (text_eq g.type (codes "qemu") && text_eq g.status (codes "running") && g.agent_enabled)) [
          | inl p ↦ rw p (
              note_agent-KeptGuest r s asked.0 asked.1
                (own, apply_guest_agent-source w.api r.node g.vmid g ∙ k))
          | inr p ↦ rw p (own, k)
        ]

  answered_interfaces-source :
      (ips : List Text) (g : Guest)
      → (if ltb 0 (length ips)
          then record g { ip_addresses = ips; ip_address = with_first ips g.ip_address }
          else g).source_id
        ≡ g.source_id
  answered_interfaces-source [] g = refl
  answered_interfaces-source (a ∷ ips) g = ground arith

  ask_interfaces-KeptGuest :
      (r : Resource) (s : State) (g : Guest)
      → KeptGuest (s, g)
      → KeptGuest (ask_interfaces w r (s, g))
  unfolding ask_interfaces
  ask_interfaces-KeptGuest r s g (own, k) =
      let path =
        codes "/api2/json/nodes/" ++ r.node ++ codes "/lxc/" ++ g.vmid ++ codes "/interfaces" in
      let add = noted-IsOwned s g.host_id g.id (codes "lxc_interfaces") path in
      elim (Bool-cases (text_eq g.type (codes "lxc") && text_eq g.status (codes "running"))) [
        | inr q ↦ rw q (own, k)
        | inl q ↦ rw q (elim (Call-cases (container_interfaces w.api r.node g.vmid)) [
          | inl (e, p) ↦ rw p (add (some e) own, k)
          | inr (a, p) ↦
              rw p
                (add none own, answered_interfaces-source (container_ip_addresses w.floats a) g ∙ k)
        ])
      ]

  check_expected-KeptGuest :
      (pin : Option PinnedGuest) (s : State) (g : Guest)
      → KeptGuest (s, g)
      → KeptGuest (check_expected w pin (s, g))
  unfolding check_expected
  check_expected-KeptGuest pin s g (own, k) =
      elim (Bool-cases (
        is_pinned pin
        && not (is_empty (expected_of pin))
        && not (text_eq g.status (expected_of pin)))) [
          | inl p ↦ rw p (push_alert-IsOwned w.client.id s (status_alert w pin g) refl own, k)
          | inr p ↦ rw p (own, k)
        ]

  pub scan_guest-KeptGuest :
      (r : Resource) (s : State) → IsOwned w.client.id s → KeptGuest (scan_guest w r s)
  unfolding scan_guest guest_of
  scan_guest-KeptGuest r s own =
      let pin = pin_of (w.client.id ++ codes "/" ++ vmid_of w r) w.pinned in
      let g1 = ask_config w r (s, guest_of w r pin) in
      let g2 = ask_status w r g1 in
      let g3 = ask_rrd w r g2 in
      let g4 = ask_snapshots w r g3 in
      let g5 = ask_guest_agent w r g4 in
      let g6 = ask_interfaces w r g5 in
      check_expected-KeptGuest pin g6.0 g6.1 (
        ask_interfaces-KeptGuest r g5.0 g5.1 (
          ask_guest_agent-KeptGuest r g4.0 g4.1 (
            ask_snapshots-KeptGuest r g3.0 g3.1 (
              ask_rrd-KeptGuest r g2.0 g2.1 (
                ask_status-KeptGuest r g1.0 g1.1
                  (ask_config-KeptGuest r s (guest_of w r pin) (own, refl)))))))
