-- ===== src/Provider/Api/Clusters.antt =====
-- What the API answers on clusters and storages (apps/bridge/internal/proxmox/provider.go). A field of a nested struct
-- stands under the names of both.
use proxmox_desk_display.Base.Text.{Text}
use proxmox_desk_display.Base.Int.{ℤ}
use proxmox_desk_display.Provider.Json.{Float64, Any}
use proxmox_desk_display.Base.{Option, List}

pub record Resource : Type 0 where
  pub id : Text
  pub type : Text
  pub node : Text
  pub name : Text
  pub status : Text
  pub vmid : ℤ
  pub cpu : Float64
  pub max_cpu : ℤ
  pub mem : ℤ
  pub max_mem : ℤ
  pub disk : ℤ
  pub max_disk : ℤ
  pub uptime : ℤ
  pub net_in : ℤ
  pub net_out : ℤ
  pub disk_read : ℤ
  pub disk_write : ℤ
  pub tags : Text
  pub storage : Text
  pub plugin_type : Text
  pub content : Text
  pub shared : ℤ

pub record ClusterStatus : Type 0 where
  pub id : Text
  pub name : Text
  pub type : Text
  pub node_id : ℤ
  pub online : ℤ
  pub quorate : ℤ
  pub version : ℤ
  pub nodes : ℤ
  pub expected : ℤ

pub record BackupItem : Type 0 where
  pub id : Text
  pub storage : Text
  pub schedule : Text
  pub mode : Text
  pub enabled : ℤ
  pub all : ℤ
  pub vmid : Text
  pub compress : Text
  pub mail_to : Text

pub record HaItem : Type 0 where
  pub sid : Text
  pub type : Text
  pub state : Text
  pub request_state : Text
  pub group : Text
  pub node : Text
  pub max_restart : ℤ
  pub max_relocate : ℤ

pub record ReplicationJob : Type 0 where
  pub id : Text
  pub guest : ℤ
  pub source : Text
  pub target : Text
  pub schedule : Text
  pub rate : ℤ
  pub disable : ℤ
  pub status : Text
  pub state : Text
  pub duration : ℤ
  pub fail_count : ℤ
  pub last_sync : ℤ
  pub next_sync : ℤ
  pub last_sync_status : Text
  pub error : Text
  pub type : Text

pub record ReplicationStatus : Type 0 where
  pub status : Text
  pub state : Text
  pub duration : ℤ
  pub fail_count : ℤ
  pub last_sync : ℤ
  pub next_sync : ℤ
  pub last_sync_status : Text
  pub error : Text

pub record CephStatus : Type 0 where
  pub fsid : Text
  pub health_status : Text
  pub osd_num_osds : ℤ
  pub osd_num_up : ℤ
  pub osd_num_in : ℤ
  pub pg_map_num_pgs : ℤ

pub record CephDf : Type 0 where
  pub summary_total_bytes : ℤ
  pub summary_total_used_bytes : ℤ
  pub summary_total_avail_bytes : ℤ

pub record StorageConfig : Type 0 where
  pub storage : Text
  pub type : Text
  pub content : Text
  pub path : Text
  pub pool : Text
  pub mountpoint : Text
  pub nodes : Text
  pub shared : Any

pub record StorageContent : Type 0 where
  pub vol_id : Text
  pub content : Text
  pub format : Text
  pub size : ℤ
  pub c_time : ℤ
  pub vmid : Any
  pub notes : Text
  pub protected : ℤ
  pub verification : Option (List (Text × Any))
  pub verified : ℤ
