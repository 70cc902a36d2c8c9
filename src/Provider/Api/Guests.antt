-- ===== src/Provider/Api/Guests.antt =====
-- What the API answers on guests and the trends (apps/bridge/internal/proxmox/provider.go). A field of a nested struct
-- stands under the names of both.
use proxmox_desk_display.Base.Int.{ℤ}
use proxmox_desk_display.Base.Text.{Text}
use proxmox_desk_display.Base.{List, Bool}
use proxmox_desk_display.Provider.Json.{Float64, Any}

pub record RrdPoint : Type 0 where
  pub time : ℤ
  pub cpu : Float64
  pub max_cpu : Float64
  pub mem : Float64
  pub mem_host : Float64
  pub mem_used : Float64
  pub mem_available : Float64
  pub max_mem : Float64
  pub mem_total : Float64
  pub disk : Float64
  pub max_disk : Float64
  pub root_used : Float64
  pub root_total : Float64
  pub net_in : Float64
  pub net_out : Float64
  pub disk_read : Float64
  pub disk_write : Float64
  pub io_wait : Float64
  pub pressure_io_some : Float64
  pub pressure_io_full : Float64
  pub pressure_cpu_some : Float64
  pub pressure_cpu_full : Float64
  pub pressure_memory_some : Float64
  pub pressure_memory_full : Float64

pub record GuestStatus : Type 0 where
  pub status : Text
  pub qmp_status : Text
  pub cpu : Float64
  pub cpus : ℤ
  pub mem : ℤ
  pub mem_host : ℤ
  pub max_mem : ℤ
  pub swap : ℤ
  pub max_swap : ℤ
  pub disk : ℤ
  pub max_disk : ℤ
  pub disk_read : ℤ
  pub disk_write : ℤ
  pub net_in : ℤ
  pub net_out : ℤ
  pub uptime : ℤ
  pub pid : ℤ
  pub tags : Text
  pub running_qemu : Text
  pub pressure_cpu_some : Any
  pub pressure_cpu_full : Any
  pub pressure_io_some : Any
  pub pressure_io_full : Any
  pub pressure_memory_some : Any
  pub pressure_memory_full : Any
  pub ha_managed : ℤ

pub record ContainerIp : Type 0 where
  pub ip_address : Text
  pub ip_address_type : Text
  pub prefix : Any

pub record ContainerInterface : Type 0 where
  pub name : Text
  pub inet : Text
  pub inet6 : Text
  pub hardware_address : Text
  pub hw_addr : Text
  pub ip_addresses : List ContainerIp

pub record GuestSnapshot : Type 0 where
  pub name : Text
  pub description : Text
  pub snap_time : ℤ
  pub parent : Text
  pub vm_state : ℤ

pub record AgentCommand : Type 0 where
  pub name : Text
  pub enabled : Bool

pub record AgentInfo : Type 0 where
  pub version : Text
  pub supported_commands : List AgentCommand

pub record AgentHostname : Type 0 where
  pub host_name : Text

pub record AgentOsInfo : Type 0 where
  pub id : Text
  pub name : Text
  pub pretty_name : Text
  pub version : Text

pub record AgentIp : Type 0 where
  pub ip_address : Text
  pub ip_address_type : Text
  pub prefix : ℤ

pub record AgentInterface : Type 0 where
  pub name : Text
  pub hardware_address : Text
  pub ip_addresses : List AgentIp

pub record AgentNetworkInterfaces : Type 0 where
  pub result : List AgentInterface

pub record AgentDisk : Type 0 where
  pub bus_type : Text

pub record AgentFs : Type 0 where
  pub name : Text
  pub mountpoint : Text
  pub type : Text
  pub used_bytes : ℤ
  pub total_bytes : ℤ
  pub disk : List AgentDisk

pub record AgentFsInfo : Type 0 where
  pub result : List AgentFs
