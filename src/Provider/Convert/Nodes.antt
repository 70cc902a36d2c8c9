-- ===== src/Provider/Convert/Nodes.antt =====
-- What a node reports: certificates, networks, services, ZFS pools, updates, repositories, the
-- subscription and disks (apps/bridge/internal/proxmox/provider.go).
use proxmox_desk_display.Base.{
  [], ◌∷◌, ℕ, if◌then◌else◌, ltb, ◌++◌, ◌*◌, ◌/◌, ◌^◌, ◌+◌, ◌-◌, not, ◌&&◌,
}
use proxmox_desk_display.Base.Int.{ℤ, ◌-ℤ◌, ltb_ℤ, is_above_zero, negsuc, pos, leb_ℤ, is_set}
use proxmox_desk_display.Provider.Json.{Floats, first_non_empty, string_value, stringify}
use proxmox_desk_display.Provider.Client.{Client}
use proxmox_desk_display.Provider.Api.Nodes.{
  NodeService, NodeDisk, NodeCertificate, NetworkInterface, ZfsItem, AptUpdate, SubscriptionInfo,
}
use proxmox_desk_display.Provider.Zfs.{pool_detail, ZfsPoolDetail, zfs_device_counts}
use proxmox_desk_display.Display.Health.{Health, max_health}
use proxmox_desk_display.Display.Hosts.{Host, ZfsPool, Service, Disk, Network}
use proxmox_desk_display.Base.Text.{Text, to_lower, trim_prefix, codes, is_empty, contains, text_eq}
use proxmox_desk_display.Display.Inventory.{Certificate, Update, Subscription}
use proxmox_desk_display.Provider.Rules.{health_from_text, disk_health}

-- The nanosecond of a second since the epoch, and the second of a nanosecond.
unfoldable pub unix_ns : ℤ → ℤ
unix_ns (pos n) = pos (n * 1000000000)
unix_ns (negsuc n) = negsuc (n * 1000000000 + 999999999)

unfoldable pub unix_of : ℤ → ℤ
unix_of (pos n) = pos (n / 1000000000)
unix_of (negsuc n) = negsuc (n / 1000000000)

-- t.Sub(u), which stops at the ends of an int64.
unfoldable pub time_sub : ℤ → ℤ → ℤ
time_sub t u =
    let d = t -ℤ u in
    if ltb_ℤ d (negsuc (2 ^ 63 - 1))
    then negsuc (2 ^ 63 - 1)
    else if ltb_ℤ (pos (2 ^ 63 - 1)) d
    then pos (2 ^ 63 - 1)
    else d

unfoldable pub days_remaining : Floats → ℤ → ℤ → ℤ
unfolding unix_ns time_sub
days_remaining f not_after now =
    if is_above_zero not_after
    then f.floor (f.over (f.hours (time_sub (unix_ns not_after) now)) (f.of_int (pos 24)))
    else pos 0

unfoldable pub certificate_health : ℤ → ℤ → ℤ → Health
unfolding unix_of
certificate_health not_after remaining now =
    if is_above_zero not_after
    then (if leb_ℤ not_after (unix_of now)
        then Health.critical
        else if leb_ℤ remaining (pos 30)
        then Health.warning
        else Health.ok)
    else Health.ok

unfoldable pub certificate_display : Floats → Client → Host → NodeCertificate → ℤ → Certificate
unfolding days_remaining certificate_health
certificate_display f client host cert now =
    let remaining = days_remaining f cert.not_after now in
    let filename = first_non_empty (cert.filename ∷ cert.fingerprint ∷ codes "certificate" ∷ []) in
    record {
      id = client.id ++ codes "/" ++ host.node ++ codes "/" ++ filename;
      source_id = client.id;
      host_id = host.id;
      host_name = host.name;
      node = host.node;
      filename = filename;
      subject = cert.subject;
      issuer = cert.issuer;
      sans = cert.sans;
      fingerprint = cert.fingerprint;
      public_key_type = cert.public_key_type;
      public_key_bits = cert.public_key_bits;
      not_before = cert.not_before;
      not_after = cert.not_after;
      days_remaining = remaining;
      health = certificate_health cert.not_after remaining now;
    }

unfoldable pub network_display : Client → Host → NetworkInterface → Network
network_display client host n = record {
  id = client.id ++ codes "/" ++ host.node ++ codes "/" ++ n.iface;
  source_id = client.id;
  host_id = host.id;
  host_name = host.name;
  node = host.node;
  iface = n.iface;
  type = n.type;
  active = is_set n.active;
  autostart = is_set n.autostart;
  method = n.method;
  address = n.address;
  cidr = n.cidr;
  gateway = n.gateway;
  bridge_ports = n.bridge_ports;
  slaves = n.slaves;
  vlan_aware = is_set n.vlan_aware;
  comments = n.comments;
  health = if not (is_set n.active) && is_set n.autostart then Health.warning else Health.ok;
}

unfoldable pub service_name : NodeService → Text
service_name s = first_non_empty (s.name ∷ s.service ∷ [])

unfoldable pub service_state : NodeService → Text
service_state s = to_lower (first_non_empty (s.state ∷ s.unit_state ∷ []))

unfoldable pub service_display : Client → Host → NodeService → Service
unfolding service_name service_state
service_display client host s = record {
  id = client.id ++ codes "/" ++ host.node ++ codes "/" ++ service_name s;
  source_id = client.id;
  host_id = host.id;
  host_name = host.name;
  node = host.node;
  name = service_name s;
  state = s.state;
  unit_state = s.unit_state;
  description = s.description;
  health = if contains (service_state s) (codes "failed") then Health.warning else Health.ok;
}

unfoldable pub zfs_pool_display : Floats → Client → Host → ZfsItem → ZfsPool
zfs_pool_display f client host pool =
    let name = first_non_empty (pool.name ∷ pool.pool ∷ []) in
    record {
      id = client.id ++ codes "/" ++ host.node ++ codes "/" ++ name;
      source_id = client.id;
      host_id = host.id;
      host_name = host.name;
      node = host.node;
      name = name;
      health_text = pool.health;
      status = pool.status;
      state = pool.health;
      scan = [];
      errors = [];
      device_count = 0;
      issue_count = 0;
      size_bytes = pool.size;
      allocated_bytes = pool.alloc;
      free_bytes = pool.free;
      fragmentation_pct = pool.frag;
      dedup_ratio = string_value f pool.dedup;
      health = health_from_text (first_non_empty (pool.health ∷ pool.status ∷ []));
    }

unfoldable pub pool_health : ℕ → Text → Health → Health
pool_health issues state h =
    let counted = if ltb 0 issues then max_health h Health.warning else h in
    if is_empty state then counted else max_health counted (health_from_text state)

unfoldable pub apply_zfs_pool_detail : ZfsPoolDetail → ZfsPool → ZfsPool
unfolding pool_health
apply_zfs_pool_detail (pool_detail n children) pool =
    let state = first_non_empty (n.state ∷ pool.state ∷ []) in
    let counts = zfs_device_counts (pool_detail n children) in
    record pool {
      state = state;
      status = first_non_empty (n.status ∷ pool.status ∷ []);
      scan = n.scan;
      errors = n.errors;
      device_count = counts.0;
      issue_count = counts.1;
      health = pool_health counts.1 state pool.health;
    }

unfoldable pub update_display : Client → Host → AptUpdate → Update
update_display client host u =
    let pkg = first_non_empty (u.pkg ∷ u.title ∷ []) in
    record {
      id = client.id ++ codes "/" ++ host.node ++ codes "/" ++ pkg;
      source_id = client.id;
      host_id = host.id;
      host_name = host.name;
      node = host.node;
      pkg = pkg;
      title = u.title;
      current_version = u.current_version;
      candidate_version = u.candidate_version;
      origin = u.origin;
      section = u.section;
      priority = u.priority;
      health = Health.warning;
    }

unfoldable pub subscription_display : Client → Host → SubscriptionInfo → Subscription
subscription_display client host sub = record {
  id = client.id ++ codes "/" ++ host.node;
  source_id = client.id;
  host_id = host.id;
  host_name = host.name;
  node = host.node;
  status = sub.status;
  level = sub.level;
  product_name = sub.product_name;
  server_id = sub.server_id;
  next_due_date = sub.next_due_date;
  health =
      if not (is_empty sub.status)
        && not (text_eq sub.status (codes "Active"))
        && not (text_eq sub.status (codes "active"))
      then Health.warning
      else Health.ok;
}

unfoldable pub disk_name : NodeDisk → Text
disk_name d =
    let name = trim_prefix (first_non_empty (d.dev_path ∷ d.device ∷ [])) (codes "/dev/") in
    if is_empty name then codes "disk" else name

-- The disk that collectSource appends.
unfoldable pub disk_display : Floats → Client → Host → Text → NodeDisk → Disk
unfolding disk_name
disk_display f client host node d =
    let smart = first_non_empty (d.health ∷ d.smart_health ∷ []) in
    record {
      id = client.id ++ codes "/" ++ node ++ codes "/" ++ disk_name d;
      source_id = client.id;
      host_id = host.id;
      host_name = host.name;
      node = node;
      name = disk_name d;
      model = first_non_empty (d.model ∷ d.vendor ∷ []);
      serial = d.serial;
      type = d.type;
      used_by = stringify f d.used;
      size_bytes = d.size;
      smart_health = smart;
      wearout_pct = d.wearout;
      health = disk_health smart;
    }
