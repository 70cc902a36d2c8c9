-- ===== src/Display/Hosts.antt =====
-- Clusters, hosts and what a host reports (apps/bridge/internal/display/state.go). Counters and
-- clamped percentages are natural numbers; what is read from JSON is a signed integer.
use proxmox_desk_display.Base.{ℕ, Bool, Option, List}
use proxmox_desk_display.Base.Int.{ℤ}
use proxmox_desk_display.Base.Text.{Text}
use proxmox_desk_display.Display.Health.{Health}

pub record Cluster : Type 0 where
  pub id : Text
  pub source_id : Text
  pub name : Text
  pub version : ℤ
  pub quorate : Bool
  pub nodes_online : ℤ
  pub nodes_total : ℤ
  pub nodes_expected : ℤ
  pub health : Health
  pub data_warnings : List Text

pub record Host : Type 0 where
  pub id : Text
  pub name : Text
  pub source_id : Text
  pub node : Text
  pub online : Bool
  pub cpu_pct : ℕ
  pub max_cpu : ℤ
  pub cpu_model : Text
  pub gpu_count : ℕ
  pub gpu_summary : Text
  pub memory_pct : ℕ
  pub memory_used_bytes : ℤ
  pub memory_total_bytes : ℤ
  pub memory_available_bytes : ℤ
  pub swap_pct : ℕ
  pub swap_used_bytes : ℤ
  pub swap_total_bytes : ℤ
  pub io_wait_pct : ℕ
  pub ksm_shared_bytes : ℤ
  pub storage_pct : ℕ
  pub storage_used_bytes : ℤ
  pub storage_total_bytes : ℤ
  pub storage_max_pct : ℕ
  pub storage_max_name : Text
  pub uptime_sec : ℤ
  pub load_avg : List Text
  pub pve_version : Text
  pub kernel_version : Text
  pub primary_address : Text
  pub network_active : ℕ
  pub network_total : ℕ
  pub services_running : ℕ
  pub services_failed : ℕ
  pub services_total : ℕ
  pub updates_available : ℕ
  pub subscription_status : Text
  pub disk_count : ℕ
  pub disk_issues : ℕ
  pub failed_tasks_24h : ℕ
  pub last_backup_status : Text
  pub last_backup_age_sec : ℤ
  pub data_warnings : List Text
  pub guests_running : ℕ
  pub guests_stopped : ℕ
  pub health : Health
  pub error : Option Text

pub record Storage : Type 0 where
  pub id : Text
  pub name : Text
  pub source_id : Text
  pub host_id : Text
  pub host_name : Text
  pub node : Text
  pub status : Text
  pub plugin_type : Text
  pub content : Text
  pub path : Text
  pub pool : Text
  pub mountpoint : Text
  pub shared : Bool
  pub disk_pct : ℕ
  pub disk_used_bytes : ℤ
  pub disk_total_bytes : ℤ
  pub content_items : ℕ
  pub backup_count : ℕ
  pub iso_count : ℕ
  pub template_count : ℕ
  pub image_count : ℕ
  pub rootdir_count : ℕ
  pub health : Health

pub record Disk : Type 0 where
  pub id : Text
  pub source_id : Text
  pub host_id : Text
  pub host_name : Text
  pub node : Text
  pub name : Text
  pub model : Text
  pub serial : Text
  pub type : Text
  pub used_by : Text
  pub size_bytes : ℤ
  pub smart_health : Text
  pub wearout_pct : ℤ
  pub health : Health

pub record Network : Type 0 where
  pub id : Text
  pub source_id : Text
  pub host_id : Text
  pub host_name : Text
  pub node : Text
  pub iface : Text
  pub type : Text
  pub active : Bool
  pub autostart : Bool
  pub method : Text
  pub address : Text
  pub cidr : Text
  pub gateway : Text
  pub bridge_ports : Text
  pub slaves : Text
  pub vlan_aware : Bool
  pub comments : Text
  pub health : Health

pub record Service : Type 0 where
  pub id : Text
  pub source_id : Text
  pub host_id : Text
  pub host_name : Text
  pub node : Text
  pub name : Text
  pub state : Text
  pub unit_state : Text
  pub description : Text
  pub health : Health

pub record ZfsPool : Type 0 where
  pub id : Text
  pub source_id : Text
  pub host_id : Text
  pub host_name : Text
  pub node : Text
  pub name : Text
  pub health_text : Text
  pub status : Text
  pub state : Text
  pub scan : Text
  pub errors : Text
  pub device_count : ℕ
  pub issue_count : ℕ
  pub size_bytes : ℤ
  pub allocated_bytes : ℤ
  pub free_bytes : ℤ
  pub fragmentation_pct : ℤ
  pub dedup_ratio : Text
  pub health : Health
