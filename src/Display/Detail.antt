-- ===== src/Display/Detail.antt =====
-- DetailForDisplay and the order of the capabilities (apps/bridge/internal/display/state.go).
pub mod Bounds
pub mod Priority
use proxmox_desk_display.Base.{
  ℕ, Bool, true, false, not, ◌||◌, Option, none, some, List, [], Slice, length, take, ltb, leb,
  ◌==◌, if◌then◌else◌,
}
use proxmox_desk_display.Base.Text.{Text, codes, text_eq, text_lt}
use proxmox_desk_display.Base.Order.{sort_stable}
use proxmox_desk_display.Display.Inventory.{Capability}
use proxmox_desk_display.Display.State.{State, DetailState}

abbrev pub max_detail_zfs_pools : ℕ
max_detail_zfs_pools = 24

abbrev pub max_detail_certificates : ℕ
max_detail_certificates = 24

abbrev pub max_detail_storage_items : ℕ
max_detail_storage_items = 48

abbrev pub max_detail_metric_trends : ℕ
max_detail_metric_trends = 64

abbrev pub max_detail_cluster_options : ℕ
max_detail_cluster_options = 32

abbrev pub max_detail_ceph_clusters : ℕ
max_detail_ceph_clusters = 8

abbrev pub max_detail_capabilities : ℕ
max_detail_capabilities = 64

unfoldable pub first_n {ℓ} : {A : Type ℓ} → Slice A → ℕ → Slice A
first_n none max = some []
first_n (some xs) max = if leb (length xs) max then some xs else some (take max xs)

unfoldable pub capability_rank : Text → ℕ
capability_rank status =
    if text_eq status (codes "error")
    then 5
    else if text_eq status (codes "forbidden") || text_eq status (codes "unauthorized")
    then 4
    else if text_eq status (codes "not_available") || text_eq status (codes "not_found")
    then 3
    else if text_eq status (codes "ok")
    then 1
    else 2

-- The comparator of the sort.
unfoldable pub capability_less : Capability → Capability → Bool
capability_less a b =
    let left = capability_rank a.status in
    let right = capability_rank b.status in
    if not (left == right)
    then ltb right left
    else if not (text_eq a.source_id b.source_id)
    then text_lt a.source_id b.source_id
    else if not (text_eq a.name b.name)
    then text_lt a.name b.name
    else text_lt a.endpoint b.endpoint

unfoldable pub prioritized_capabilities : Slice Capability → ℕ → Slice Capability
unfolding first_n
prioritized_capabilities none max = some []
prioritized_capabilities (some values) max = first_n (some (sort_stable capability_less values)) max

unfoldable pub detail_for_display : State → DetailState
detail_for_display s = record {
  schema = s.schema;
  generated_at = s.generated_at;
  stale = s.stale;
  zfs_pools = first_n s.zfs_pools max_detail_zfs_pools;
  certificates = first_n s.certificates max_detail_certificates;
  storage_items = first_n s.storage_items max_detail_storage_items;
  metric_trends = first_n s.metric_trends max_detail_metric_trends;
  cluster_options = first_n s.cluster_options max_detail_cluster_options;
  ceph_clusters = first_n s.ceph_clusters max_detail_ceph_clusters;
  capabilities = prioritized_capabilities s.capabilities max_detail_capabilities;
}
