-- ===== src/Provider/Api/Nodes.antt =====
-- What the API answers on nodes (apps/bridge/internal/proxmox/provider.go). A field of a nested struct
-- stands under the names of both.
use proxmox_desk_display.Base.{Option, List}
use proxmox_desk_display.Base.Text.{Text}
use proxmox_desk_display.Provider.Json.{Float64, Any}
use proxmox_desk_display.Base.Int.{ℤ}

pub record NodeStatus : Type 0 where
  pub cpu : Option Float64
  pub uptime : ℤ
  pub load_avg : List Text
  pub pve_version : Text
  pub k_version : Text
  pub wait : Float64
  pub memory_used : ℤ
  pub memory_total : ℤ
  pub memory_available : ℤ
  pub swap_used : ℤ
  pub swap_total : ℤ
  pub ksm_shared : ℤ
  pub root_fs_used : ℤ
  pub root_fs_total : ℤ
  pub cpu_info_model : Text
  pub cpu_info_cpus : ℤ
  pub cpu_info_cores : ℤ
  pub current_kernel_release : Text
  pub current_kernel_version : Text

pub record NodeCertificate : Type 0 where
  pub filename : Text
  pub subject : Text
  pub issuer : Text
  pub sans : List Text
  pub fingerprint : Text
  pub public_key_type : Text
  pub public_key_bits : ℤ
  pub not_before : ℤ
  pub not_after : ℤ

pub record PciDevice : Type 0 where
  pub id : Text
  pub class : Text
  pub vendor_name : Text
  pub device_name : Text
  pub subsystem_vendor_name : Text
  pub subsystem_device_name : Text

pub record NetworkInterface : Type 0 where
  pub iface : Text
  pub type : Text
  pub active : ℤ
  pub autostart : ℤ
  pub method : Text
  pub address : Text
  pub cidr : Text
  pub gateway : Text
  pub bridge_ports : Text
  pub slaves : Text
  pub vlan_aware : ℤ
  pub comments : Text

pub record NodeService : Type 0 where
  pub name : Text
  pub service : Text
  pub state : Text
  pub unit_state : Text
  pub description : Text

pub record NodeDisk : Type 0 where
  pub dev_path : Text
  pub device : Text
  pub model : Text
  pub vendor : Text
  pub serial : Text
  pub type : Text
  pub used : Any
  pub size : ℤ
  pub health : Text
  pub smart_health : Text
  pub wearout : ℤ

pub record NodeTask : Type 0 where
  pub upid : Text
  pub node : Text
  pub type : Text
  pub id : Text
  pub user : Text
  pub status : Text
  pub start_time : ℤ
  pub end_time : ℤ

pub record ZfsItem : Type 0 where
  pub name : Text
  pub pool : Text
  pub health : Text
  pub status : Text
  pub size : ℤ
  pub alloc : ℤ
  pub free : ℤ
  pub frag : ℤ
  pub dedup : Any

pub record AptUpdate : Type 0 where
  pub pkg : Text
  pub title : Text
  pub current_version : Text
  pub candidate_version : Text
  pub origin : Text
  pub section : Text
  pub priority : Text

pub record AptRepositoryEntry : Type 0 where
  pub types : List Text
  pub uris : List Text
  pub suites : List Text
  pub components : List Text
  pub enabled : Any

pub record AptRepositoryFile : Type 0 where
  pub path : Text
  pub repositories : List AptRepositoryEntry

pub record AptRepositoryInfo : Type 0 where
  pub path : Text
  pub index : Any
  pub status : Text
  pub message : Text

pub record AptRepositories : Type 0 where
  pub files : List AptRepositoryFile
  pub infos : List AptRepositoryInfo

pub record SubscriptionInfo : Type 0 where
  pub status : Text
  pub level : Text
  pub product_name : Text
  pub server_id : Text
  pub next_due_date : Text
  pub message : Text
