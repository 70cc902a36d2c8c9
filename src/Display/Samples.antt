-- ===== src/Display/Samples.antt =====
-- The zero values of some types of the state (apps/bridge/internal/display/state.go), and what the
-- tests build from them.
use proxmox_desk_display.Display.Hosts.{Host, Storage, Cluster}
use proxmox_desk_display.Display.Guests.{Guest}
use proxmox_desk_display.Display.Inventory.{Alert, Capability}
use proxmox_desk_display.Display.Health.{unset}
use proxmox_desk_display.Base.Int.{pos}
use proxmox_desk_display.Base.{[], none, false}

abbrev pub zero_host : Host
zero_host = record {
  id = [];
  name = [];
  source_id = [];
  node = [];
  online = false;
  cpu_pct = 0;
  max_cpu = pos 0;
  cpu_model = [];
  gpu_count = 0;
  gpu_summary = [];
  memory_pct = 0;
  memory_used_bytes = pos 0;
  memory_total_bytes = pos 0;
  memory_available_bytes = pos 0;
  swap_pct = 0;
  swap_used_bytes = pos 0;
  swap_total_bytes = pos 0;
  io_wait_pct = 0;
  ksm_shared_bytes = pos 0;
  storage_pct = 0;
  storage_used_bytes = pos 0;
  storage_total_bytes = pos 0;
  storage_max_pct = 0;
  storage_max_name = [];
  uptime_sec = pos 0;
  load_avg = [];
  pve_version = [];
  kernel_version = [];
  primary_address = [];
  network_active = 0;
  network_total = 0;
  services_running = 0;
  services_failed = 0;
  services_total = 0;
  updates_available = 0;
  subscription_status = [];
  disk_count = 0;
  disk_issues = 0;
  failed_tasks_24h = 0;
  last_backup_status = [];
  last_backup_age_sec = pos 0;
  data_warnings = [];
  guests_running = 0;
  guests_stopped = 0;
  health = unset;
  error = none;
}

abbrev pub zero_storage : Storage
zero_storage = record {
  id = [];
  name = [];
  source_id = [];
  host_id = [];
  host_name = [];
  node = [];
  status = [];
  plugin_type = [];
  content = [];
  path = [];
  pool = [];
  mountpoint = [];
  shared = false;
  disk_pct = 0;
  disk_used_bytes = pos 0;
  disk_total_bytes = pos 0;
  content_items = 0;
  backup_count = 0;
  iso_count = 0;
  template_count = 0;
  image_count = 0;
  rootdir_count = 0;
  health = unset;
}

abbrev pub zero_cluster : Cluster
zero_cluster = record {
  id = [];
  source_id = [];
  name = [];
  version = pos 0;
  quorate = false;
  nodes_online = pos 0;
  nodes_total = pos 0;
  nodes_expected = pos 0;
  health = unset;
  data_warnings = [];
}

abbrev pub zero_guest : Guest
zero_guest = record {
  id = [];
  vmid = [];
  name = [];
  type = [];
  host_id = [];
  host_name = [];
  source_id = [];
  status = [];
  cpu_pct = 0;
  max_cpu = pos 0;
  memory_pct = 0;
  memory_used_bytes = pos 0;
  memory_total_bytes = pos 0;
  memory_host_bytes = pos 0;
  swap_pct = 0;
  swap_used_bytes = pos 0;
  swap_total_bytes = pos 0;
  disk_pct = 0;
  disk_used_bytes = pos 0;
  disk_total_bytes = pos 0;
  uptime_sec = pos 0;
  net_in_bytes = pos 0;
  net_out_bytes = pos 0;
  disk_read_bytes = pos 0;
  disk_write_bytes = pos 0;
  tags = [];
  os_type = [];
  ip_address = [];
  ip_addresses = [];
  agent_enabled = false;
  agent_available = false;
  agent_hostname = [];
  agent_os = [];
  agent_version = [];
  agent_command_count = 0;
  agent_warning = [];
  pid = pos 0;
  qmp_status = [];
  running_qemu = [];
  ha_managed = false;
  pressure_cpu_some_pct = 0;
  pressure_cpu_full_pct = 0;
  pressure_io_some_pct = 0;
  pressure_io_full_pct = 0;
  pressure_memory_some_pct = 0;
  pressure_memory_full_pct = 0;
  on_boot = false;
  protection = false;
  template = false;
  unprivileged = false;
  cpu_type = [];
  bios = [];
  machine = [];
  boot_order = [];
  startup = [];
  nameserver = [];
  search_domain = [];
  features = [];
  disks = [];
  nics = [];
  filesystems = [];
  config_warning = [];
  pinned = false;
  expected = [];
  health = unset;
}

abbrev pub zero_alert : Alert
zero_alert = record {
  id = [];
  source_id = [];
  host_id = [];
  guest_id = [];
  severity = unset;
  title = [];
  message = [];
}

abbrev pub zero_capability : Capability
zero_capability = record {
  id = [];
  source_id = [];
  host_id = [];
  guest_id = [];
  name = [];
  endpoint = [];
  status = [];
  http_status = 0;
  message = [];
}
