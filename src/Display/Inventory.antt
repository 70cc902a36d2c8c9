-- ===== src/Display/Inventory.antt =====
-- The inventory records and the alerts (apps/bridge/internal/display/state.go).
use proxmox_desk_display.Base.{ℕ, Bool, List}
use proxmox_desk_display.Base.Int.{ℤ}
use proxmox_desk_display.Base.Text.{Text}
use proxmox_desk_display.Display.Health.{Health}

pub record Certificate : Type 0 where
  pub id : Text
  pub source_id : Text
  pub host_id : Text
  pub host_name : Text
  pub node : Text
  pub filename : Text
  pub subject : Text
  pub issuer : Text
  pub sans : List Text
  pub fingerprint : Text
  pub public_key_type : Text
  pub public_key_bits : ℤ
  pub not_before : ℤ
  pub not_after : ℤ
  pub days_remaining : ℤ
  pub health : Health

pub record StorageItem : Type 0 where
  pub id : Text
  pub source_id : Text
  pub host_id : Text
  pub host_name : Text
  pub node : Text
  pub storage : Text
  pub content : Text
  pub vol_id : Text
  pub vmid : Text
  pub format : Text
  pub size_bytes : ℤ
  pub created_at : ℤ
  pub notes : Text
  pub protected : Bool
  pub verification_state : Text
  pub health : Health

pub record MetricTrend : Type 0 where
  pub id : Text
  pub source_id : Text
  pub host_id : Text
  pub guest_id : Text
  pub resource_type : Text
  pub resource_name : Text
  pub metric : Text
  pub unit : Text
  pub timeframe : Text
  pub last : ℤ
  pub values : List ℤ

pub record ClusterOption : Type 0 where
  pub id : Text
  pub source_id : Text
  pub key : Text
  pub value : Text

pub record CephCluster : Type 0 where
  pub id : Text
  pub source_id : Text
  pub fsid : Text
  pub health_text : Text
  pub total_bytes : ℤ
  pub used_bytes : ℤ
  pub available_bytes : ℤ
  pub usage_pct : ℕ
  pub osds : ℤ
  pub osds_up : ℤ
  pub osds_in : ℤ
  pub pgs : ℤ
  pub health : Health

pub record Capability : Type 0 where
  pub id : Text
  pub source_id : Text
  pub host_id : Text
  pub guest_id : Text
  pub name : Text
  pub endpoint : Text
  pub status : Text
  pub http_status : ℕ
  pub message : Text

pub record Update : Type 0 where
  pub id : Text
  pub source_id : Text
  pub host_id : Text
  pub host_name : Text
  pub node : Text
  pub pkg : Text
  pub title : Text
  pub current_version : Text
  pub candidate_version : Text
  pub origin : Text
  pub section : Text
  pub priority : Text
  pub health : Health

pub record Repository : Type 0 where
  pub id : Text
  pub source_id : Text
  pub host_id : Text
  pub host_name : Text
  pub node : Text
  pub file : Text
  pub types : Text
  pub uris : Text
  pub suites : Text
  pub components : Text
  pub enabled : Bool
  pub status : Text
  pub warning : Text
  pub health : Health

pub record Subscription : Type 0 where
  pub id : Text
  pub source_id : Text
  pub host_id : Text
  pub host_name : Text
  pub node : Text
  pub status : Text
  pub level : Text
  pub product_name : Text
  pub server_id : Text
  pub next_due_date : Text
  pub health : Health

pub record Alert : Type 0 where
  pub id : Text
  pub source_id : Text
  pub host_id : Text
  pub guest_id : Text
  pub severity : Health
  pub title : Text
  pub message : Text
