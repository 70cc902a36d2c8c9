-- ===== src/Display/Jobs.antt =====
-- Tasks, backup jobs, replications and HA resources (apps/bridge/internal/display/state.go).
use proxmox_desk_display.Base.{Bool}
use proxmox_desk_display.Base.Int.{ℤ}
use proxmox_desk_display.Base.Text.{Text}
use proxmox_desk_display.Display.Health.{Health}

pub record Task : Type 0 where
  pub id : Text
  pub source_id : Text
  pub host_id : Text
  pub host_name : Text
  pub node : Text
  pub type : Text
  pub user : Text
  pub status : Text
  pub target : Text
  pub vmid : Text
  pub guest_name : Text
  pub started_at : ℤ
  pub started_age_sec : ℤ
  pub ended_at : ℤ
  pub duration_sec : ℤ
  pub health : Health

pub record BackupJob : Type 0 where
  pub id : Text
  pub source_id : Text
  pub storage : Text
  pub schedule : Text
  pub mode : Text
  pub enabled : Bool
  pub all : Bool
  pub vmids : Text
  pub compress : Text
  pub mail_to : Text
  pub health : Health

pub record Replication : Type 0 where
  pub id : Text
  pub source_id : Text
  pub guest_id : Text
  pub guest_name : Text
  pub vmid : Text
  pub source_node : Text
  pub target_node : Text
  pub schedule : Text
  pub rate : ℤ
  pub enabled : Bool
  pub status : Text
  pub state : Text
  pub duration_sec : ℤ
  pub fail_count : ℤ
  pub last_sync : ℤ
  pub next_sync : ℤ
  pub last_sync_status : Text
  pub error : Text
  pub health : Health

pub record HaResource : Type 0 where
  pub id : Text
  pub source_id : Text
  pub sid : Text
  pub type : Text
  pub state : Text
  pub request_state : Text
  pub group : Text
  pub node : Text
  pub max_restart : ℤ
  pub max_relocate : ℤ
  pub health : Health
