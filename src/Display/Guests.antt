-- ===== src/Display/Guests.antt =====
-- Guests and their snapshots (apps/bridge/internal/display/state.go).
use proxmox_desk_display.Base.{ℕ, Bool, List}
use proxmox_desk_display.Base.Int.{ℤ}
use proxmox_desk_display.Base.Text.{Text}
use proxmox_desk_display.Display.Health.{Health}

pub record GuestDisk : Type 0 where
  pub name : Text
  pub storage : Text
  pub volume : Text
  pub size : Text
  pub format : Text
  pub backup : Bool
  pub replicate : Bool
  pub ssd : Bool

pub record GuestNic : Type 0 where
  pub name : Text
  pub model : Text
  pub mac : Text
  pub bridge : Text
  pub firewall : Bool
  pub tag : Text
  pub rate : Text

pub record GuestFilesystem : Type 0 where
  pub name : Text
  pub mountpoint : Text
  pub type : Text
  pub used_bytes : ℤ
  pub total_bytes : ℤ

pub record Guest : Type 0 where
  pub id : Text
  pub vmid : Text
  pub name : Text
  pub type : Text
  pub host_id : Text
  pub host_name : Text
  pub source_id : Text
  pub status : Text
  pub cpu_pct : ℕ
  pub max_cpu : ℤ
  pub memory_pct : ℕ
  pub memory_used_bytes : ℤ
  pub memory_total_bytes : ℤ
  pub memory_host_bytes : ℤ
  pub swap_pct : ℕ
  pub swap_used_bytes : ℤ
  pub swap_total_bytes : ℤ
  pub disk_pct : ℕ
  pub disk_used_bytes : ℤ
  pub disk_total_bytes : ℤ
  pub uptime_sec : ℤ
  pub net_in_bytes : ℤ
  pub net_out_bytes : ℤ
  pub disk_read_bytes : ℤ
  pub disk_write_bytes : ℤ
  pub tags : Text
  pub os_type : Text
  pub ip_address : Text
  pub ip_addresses : List Text
  pub agent_enabled : Bool
  pub agent_available : Bool
  pub agent_hostname : Text
  pub agent_os : Text
  pub agent_version : Text
  pub agent_command_count : ℕ
  pub agent_warning : Text
  pub pid : ℤ
  pub qmp_status : Text
  pub running_qemu : Text
  pub ha_managed : Bool
  pub pressure_cpu_some_pct : ℕ
  pub pressure_cpu_full_pct : ℕ
  pub pressure_io_some_pct : ℕ
  pub pressure_io_full_pct : ℕ
  pub pressure_memory_some_pct : ℕ
  pub pressure_memory_full_pct : ℕ
  pub on_boot : Bool
  pub protection : Bool
  pub template : Bool
  pub unprivileged : Bool
  pub cpu_type : Text
  pub bios : Text
  pub machine : Text
  pub boot_order : Text
  pub startup : Text
  pub nameserver : Text
  pub search_domain : Text
  pub features : Text
  pub disks : List GuestDisk
  pub nics : List GuestNic
  pub filesystems : List GuestFilesystem
  pub config_warning : Text
  pub pinned : Bool
  pub expected : Text
  pub health : Health

pub record Snapshot : Type 0 where
  pub id : Text
  pub source_id : Text
  pub host_id : Text
  pub host_name : Text
  pub guest_id : Text
  pub guest_name : Text
  pub vmid : Text
  pub type : Text
  pub name : Text
  pub description : Text
  pub snap_time : ℤ
  pub parent : Text
  pub vm_state : Bool
  pub health : Health
