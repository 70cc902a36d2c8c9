-- ===== src/Provider/Source/Guests/Asked.antt =====
-- A guest resource and the calls that are made for it
-- (apps/bridge/internal/proxmox/provider.go).
use proxmox_desk_display.Base.{
  [], ◌∷◌, some, none, true, false, Option, List, String, if◌then◌else◌, Bool, ◌++◌, ◌&&◌, not, map,
  keep_if, ltb, length,
}
use proxmox_desk_display.Base.Text.{Text, codes, text_eq, is_empty, trim_prefix}
use proxmox_desk_display.Provider.Api.Clusters.{Resource}
use proxmox_desk_display.Provider.Source.Steps.{Scan, appended, with_capability}
use proxmox_desk_display.Config.{PinnedGuest}
use proxmox_desk_display.Base.Numbers.{itoa}
use proxmox_desk_display.Display.Guests.{Guest, Snapshot}
use proxmox_desk_display.Display.State.{State}
use proxmox_desk_display.Display.Samples.{zero_guest}
use proxmox_desk_display.Provider.Calls.{CallError}
use proxmox_desk_display.Provider.Api.{
  answered, failed, guest_config, guest_status, guest_rrd_data, guest_snapshots,
  container_interfaces,
}
use proxmox_desk_display.Provider.Api.Guests.{GuestSnapshot}
use proxmox_desk_display.Provider.Guests.Agent.{apply_guest_agent, with_first}
use proxmox_desk_display.Display.Hosts.{Host}
use proxmox_desk_display.Provider.Json.{first_non_empty, display_name, pct_float, pct_int64}
use proxmox_desk_display.Display.Health.{Health}
use proxmox_desk_display.Provider.Guests.Config.{apply_guest_config, apply_guest_status}
use proxmox_desk_display.Provider.Trends.{guest_metric_trends}
use proxmox_desk_display.Provider.Guests.Addresses.{container_ip_addresses}
use proxmox_desk_display.Base.Int.{is_set}

-- `c.pinned[key]`, in a map whose last entry comes last.
unfoldable pub pin_of : Text → List (Text × PinnedGuest) → Option PinnedGuest
pin_of key [] = none
pin_of key ((k, p) ∷ rest) = elim (pin_of key rest) [
  | some later ↦ some later
  | none ↦ if text_eq k key then some p else none
]

abbrev pub label_of : Option PinnedGuest → Text
label_of none = []
label_of (some p) = p.label

abbrev pub expected_of : Option PinnedGuest → Text
expected_of none = []
expected_of (some p) = p.expected

abbrev pub is_pinned : Option PinnedGuest → Bool
is_pinned none = false
is_pinned (some p) = true

-- "/api2/json/nodes/" + node + "/" + type + "/" + vmid + rest
abbrev pub guest_endpoint : Resource → Text → String → Text
guest_endpoint r vmid rest =
    codes "/api2/json/nodes/" ++ r.node ++ codes "/" ++ r.type ++ codes "/" ++ vmid ++ codes rest

-- The state, the hosts and guestBySourceVMID, whose last entry comes first.
pub record Scanned : Type 0 where
  pub state : State
  pub hosts : List (Text × Host)
  pub guests : List (Text × Guest)

module _ (w : Scan) where
  unfoldable pub vmid_of : Resource → Text
  vmid_of r =
      let vmid = itoa r.vmid in
      if text_eq vmid (codes "0") && not (is_empty r.id)
      then trim_prefix r.id (r.type ++ codes "/")
      else vmid

  unfoldable pub guest_of : Resource → Option PinnedGuest → Guest
  unfolding vmid_of
  guest_of r pin =
      let vmid = vmid_of r in
      record zero_guest {
        id = w.client.id ++ codes "/" ++ vmid;
        vmid = vmid;
        name = first_non_empty (label_of pin ∷ r.name ∷ vmid ∷ []);
        type = r.type;
        host_id = w.client.id ++ codes "/" ++ r.node;
        host_name = display_name w.client.name r.node;
        source_id = w.client.id;
        status = first_non_empty (r.status ∷ codes "unknown" ∷ []);
        cpu_pct = pct_float w.floats r.cpu;
        max_cpu = r.max_cpu;
        memory_pct = pct_int64 w.floats r.mem r.max_mem;
        memory_used_bytes = r.mem;
        memory_total_bytes = r.max_mem;
        disk_pct = pct_int64 w.floats r.disk r.max_disk;
        disk_used_bytes = r.disk;
        disk_total_bytes = r.max_disk;
        uptime_sec = r.uptime;
        net_in_bytes = r.net_in;
        net_out_bytes = r.net_out;
        disk_read_bytes = r.disk_read;
        disk_write_bytes = r.disk_write;
        tags = r.tags;
        pinned = is_pinned pin;
        expected = expected_of pin;
        health = Health.ok;
      }

  abbrev pub guest_capability : Guest → String → Text → Option CallError → State → State
  guest_capability g name endpoint = with_capability w.client g.host_id g.id (codes name) endpoint

  unfoldable pub ask_config : Resource → State × Guest → State × Guest
  ask_config r (s, g) = elim (guest_config w.api r.node r.type g.vmid) [
    | failed e ↦ (s, record g { config_warning = codes "config unavailable" })
    | answered cfg ↦ (s, apply_guest_config w.sorter w.floats cfg g)
  ]

  unfoldable pub ask_status : Resource → State × Guest → State × Guest
  ask_status r (s, g) =
      let add = guest_capability g "guest_status" (guest_endpoint r g.vmid "/status/current") in
      elim (guest_status w.api r.node r.type g.vmid) [
        | failed e ↦ (
          add (some e) s,
          record g {
            config_warning = first_non_empty (g.config_warning ∷ codes "status unavailable" ∷ []);
          },
        )
        | answered current ↦ (add none s, apply_guest_status w.floats current g)
      ]

  unfoldable pub ask_rrd : Resource → State × Guest → State × Guest
  ask_rrd r (s, g) =
      let add = guest_capability g "guest_rrd" (guest_endpoint r g.vmid "/rrddata") in
      elim (guest_rrd_data w.api r.node r.type g.vmid) [
        | failed e ↦ (add (some e) s, g)
        | answered points ↦ (
          record (add none s) {
            metric_trends =
                appended s.metric_trends (guest_metric_trends w.floats w.client g points);
          },
          g,
        )
      ]

  unfoldable pub snapshot_display : Guest → GuestSnapshot → Snapshot
  snapshot_display g x = record {
    id = w.client.id ++ codes "/" ++ g.host_name ++ codes "/" ++ g.vmid ++ codes "/" ++ x.name;
    source_id = w.client.id;
    host_id = g.host_id;
    host_name = g.host_name;
    guest_id = g.id;
    guest_name = g.name;
    vmid = g.vmid;
    type = g.type;
    name = x.name;
    description = x.description;
    snap_time = x.snap_time;
    parent = x.parent;
    vm_state = is_set x.vm_state;
    health = Health.ok;
  }

  unfoldable pub ask_snapshots : Resource → State × Guest → State × Guest
  unfolding snapshot_display
  ask_snapshots r (s, g) = elim (guest_snapshots w.api r.node r.type g.vmid) [
    | failed e ↦ (
      s,
      record g {
        config_warning = first_non_empty (g.config_warning ∷ codes "snapshots unavailable" ∷ []);
      },
    )
    | answered snapshots ↦ (
      record s {
        snapshots = appended s.snapshots (
            map (snapshot_display g)
              (keep_if (λ x. not (text_eq x.name (codes "current"))) snapshots));
      },
      g,
    )
  ]

  -- The capability of the agent, and the warning where no call of it was answered.
  unfoldable pub note_agent : Resource → State → Guest × Option CallError → State × Guest
  note_agent r s (g, e) =
      let add =
        guest_capability g "qemu_guest_agent"
          (codes "/api2/json/nodes/" ++ r.node ++ codes "/qemu/" ++ g.vmid ++ codes "/agent") in
      elim e [
        | none ↦ (add none s, g)
        | some d ↦ (add (some d) s, record g { agent_warning = codes "agent unavailable" })
      ]

  unfoldable pub ask_guest_agent : Resource → State × Guest → State × Guest
  unfolding note_agent
  ask_guest_agent r (s, g) =
      let asked = note_agent r s (apply_guest_agent w.api r.node g.vmid g) in
      if text_eq g.type (codes "qemu") && text_eq g.status (codes "running") && g.agent_enabled
      then asked
      else (s, g)

  unfoldable pub ask_interfaces : Resource → State × Guest → State × Guest
  ask_interfaces r (s, g) =
      let add =
        guest_capability g "lxc_interfaces"
          (codes "/api2/json/nodes/" ++ r.node ++ codes "/lxc/" ++ g.vmid ++ codes "/interfaces") in
      if text_eq g.type (codes "lxc") && text_eq g.status (codes "running")
      then elim (container_interfaces w.api r.node g.vmid) [
        | failed e ↦ (add (some e) s, g)
        | answered interfaces ↦
            let ips = container_ip_addresses w.floats interfaces in
            (
              add none s,
              if ltb 0 (length ips)
                  then record g { ip_addresses = ips; ip_address = with_first ips g.ip_address }
                  else g,
            )
      ]
      else (s, g)
