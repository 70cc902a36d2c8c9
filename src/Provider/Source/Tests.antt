-- ===== src/Provider/Source/Tests.antt =====
-- Runs of collectSource, and of Collect over its states, on sources that answer a few of the calls.
use mathlib.Core.List.{Permᴰ}
use mathlib.Core.List.Permᴰ
use proxmox_desk_display.Base.{[], ◌∷◌, none, false, refl, ◌≡◌, List, String, ℕ, ltb, not, ◌*◌, ◌/◌}
use proxmox_desk_display.Provider.Calls.{CallError, api_error}
use proxmox_desk_display.Provider.Api.{Gets, failed, answered, cluster_resources}
use proxmox_desk_display.Provider.Json.{Floats}
use proxmox_desk_display.Provider.Api.Clusters.{Resource}
use proxmox_desk_display.Provider.Source.Steps.{Scan}
use proxmox_desk_display.Provider.Source.Owned.{OwnedIn, Field}
use proxmox_desk_display.Provider.Source.Collected.{collect_sources, collect_sources-unreachable}
use proxmox_desk_display.Provider.Source.Collected.Sources.{collect_sources-NoneForeign}
use proxmox_desk_display.Provider.Source.Collected.Foreign.{NoneForeign, client_ids}
use proxmox_desk_display.Base.Text.{Text, codes}
use proxmox_desk_display.Base.Int.{pos, ℤ, pos_part}
use proxmox_desk_display.Provider.Client.{Client}
use proxmox_desk_display.Provider.Tests.{stable, stable-IsSort}
use proxmox_desk_display.Display.Hosts.{Host}
use proxmox_desk_display.Provider.Source.{collect_source}
use proxmox_desk_display.Config.{mock_config}
use proxmox_desk_display.Display.Health.{Health}
use proxmox_desk_display.Provider.Api.Nodes.{NodeCertificate}
use proxmox_desk_display.Provider.Source.Owned.Whole.{collect_source-IsOwned}
use proxmox_desk_display.Base.Numbers.{decimal}

abbrev pub refused : CallError
refused = api_error 403 (codes "HTTP 403: no permission")

-- Every call fails.
abbrev pub silent : Gets
silent = record {
  get_node_status = λ (path : Text). failed refused;
  get_pci = λ (path : Text). failed refused;
  get_network = λ (path : Text). failed refused;
  get_services = λ (path : Text). failed refused;
  get_disks = λ (path : Text). failed refused;
  get_tasks = λ (path : Text). failed refused;
  get_resources = λ (path : Text). failed refused;
  get_cluster_status = λ (path : Text). failed refused;
  get_backup_jobs = λ (path : Text). failed refused;
  get_ha_resources = λ (path : Text). failed refused;
  get_replications = λ (path : Text). failed refused;
  get_replication_status = λ (path : Text). failed refused;
  get_map = λ (path : Text). failed refused;
  get_storage_configs = λ (path : Text). failed refused;
  get_zfs_pools = λ (path : Text). failed refused;
  get_zfs_pool_detail = λ (path : Text). failed refused;
  get_certificates = λ (path : Text). failed refused;
  get_rrd = λ (path : Text). failed refused;
  get_apt_updates = λ (path : Text). failed refused;
  get_apt_repositories = λ (path : Text). failed refused;
  get_subscription = λ (path : Text). failed refused;
  get_snapshots = λ (path : Text). failed refused;
  get_guest_status = λ (path : Text). failed refused;
  get_interfaces = λ (path : Text). failed refused;
  get_storage_content = λ (path : Text). failed refused;
  get_ceph_status = λ (path : Text). failed refused;
  get_ceph_df = λ (path : Text). failed refused;
  get_agent_info = λ (path : Text). failed refused;
  get_agent_hostname = λ (path : Text). failed refused;
  get_agent_os_info = λ (path : Text). failed refused;
  get_agent_networks = λ (path : Text). failed refused;
  get_agent_fs_info = λ (path : Text). failed refused;
}

-- Numbers for which the tests need no more than that there are some.
abbrev pub whole : Floats
whole = record {
  is_positive = λ (x : ℕ). ltb 0 x;
  is_at_most_zero = λ (x : ℕ). not (ltb 0 x);
  is_above_one = λ (x : ℕ). ltb 1 x;
  is_nonzero = λ (x : ℕ). ltb 0 x;
  of_int = λ (n : ℤ). pos_part n;
  to_int = λ (x : ℕ). pos x;
  times = λ (x y : ℕ). x * y;
  over = λ (x y : ℕ). x / y;
  round = λ (x : ℕ). pos x;
  floor = λ (x : ℕ). pos x;
  parse = λ (t : Text). 0;
  show = λ (x : ℕ). decimal x;
  hours = λ (n : ℤ). pos_part n;
}

abbrev resource : Resource
resource = record {
  id = [];
  type = [];
  node = [];
  name = [];
  status = [];
  vmid = pos 0;
  cpu = 0;
  max_cpu = pos 0;
  mem = pos 0;
  max_mem = pos 0;
  disk = pos 0;
  max_disk = pos 0;
  uptime = pos 0;
  net_in = pos 0;
  net_out = pos 0;
  disk_read = pos 0;
  disk_write = pos 0;
  tags = [];
  storage = [];
  plugin_type = [];
  content = [];
  shared = pos 0;
}

abbrev resources : List Resource
resources =
    record resource { type = codes "node"; node = codes "pve"; status = codes "online" }
    ∷ record resource {
      type = codes "qemu";
      id = codes "qemu/100";
      node = codes "pve";
      name = codes "web";
      vmid = pos 100;
      status = codes "running";
    }
    ∷ []

-- The resources are known, and every other call fails.
abbrev partial : Gets
partial = record silent { get_resources = λ (path : Text). answered resources }

abbrev client_of : String → Client
client_of id = record {
  id = codes id;
  name = codes id;
  base_url = [];
  token = [];
  transport = record { insecure_skip_verify = false; root_cas = none; expected = none };
}

abbrev scan_of : String → Gets → Scan
scan_of id api = record {
  sorter = stable;
  floats = whole;
  api = api;
  client = client_of id;
  alerts = mock_config.alerts;
  pinned = [];
  started = pos 7;
  checked = λ (host : Text) (c : NodeCertificate). pos 7;
  now = pos 7;
  order = λ (k : ℕ) (hosts : List (Text × Host)). hosts;
}

abbrev home : Scan
home = scan_of "home" partial

abbrev away : Scan
away = scan_of "away" silent

home_order : (k : ℕ) (hosts : List (Text × Host)) → Permᴰ (home.order k hosts) hosts
home_order k hosts = Permᴰ.refl hosts

collect_source-IsOwned_example : OwnedIn (codes "home") (collect_source home) Field.guests
collect_source-IsOwned_example = collect_source-IsOwned home home_order Field.guests

away_silent : cluster_resources away.api ≡ failed refused
unfolding cluster_resources
away_silent = refl

collect_sources-unreachable_example :
    (collect_sources stable (pos 7) (home ∷ away ∷ [])).summary.health ≡ Health.critical
collect_sources-unreachable_example =
    collect_sources-unreachable stable stable-IsSort (pos 7) (home ∷ []) [] away refused away_silent

collect_sources-NoneForeign_example :
    NoneForeign
      (client_ids (home ∷ away ∷ []))
      (collect_sources stable (pos 7) (home ∷ away ∷ []))
      Field.hosts
collect_sources-NoneForeign_example =
    collect_sources-NoneForeign stable stable-IsSort (pos 7) (home ∷ away ∷ [])
      (home_order, (home_order, tt)) Field.hosts
