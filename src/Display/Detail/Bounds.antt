-- ===== src/Display/Detail/Bounds.antt =====
-- The lists of the detail view and their limits (apps/bridge/internal/display/state.go).
use proxmox_desk_display.Base.{
  ℕ, ◌≡◌, refl, none, some, List, [], ◌++◌, Slice, elems, IsNonNil, length, take, drop, length-take,
  take-append-drop, arith, min,
}
use proxmox_desk_display.Display.State.{State, DetailState}
use proxmox_desk_display.Display.Detail.{
  first_n, detail_for_display, max_detail_zfs_pools, max_detail_certificates,
  max_detail_storage_items, max_detail_metric_trends, max_detail_cluster_options,
  max_detail_ceph_clusters,
}
use proxmox_desk_display.Display.Detail.Priority.{first_n-some}

-- `t` is the head of `s`, is not nil, and has `max` elements, or all of `s` if that has fewer.
pub record IsHead {A : Type 0} (s t : Slice A) (max : ℕ) : Type 0 where
  pub not_nil : IsNonNil t
  pub rest : List A
  pub head : elems t ++ rest ≡ elems s
  pub count : length (elems t) ≡ min max (length (elems s))

first_n-IsHead : {A : Type 0} (s : Slice A) (n : ℕ) → IsHead s (first_n s n) n
unfolding first_n
first_n-IsHead none n = record { not_nil = ([], refl); rest = []; head = refl; count = omega arith }
first_n-IsHead (some xs) n = rw (first_n-some xs n) (record {
  not_nil = (take n xs, refl);
  rest = drop n xs;
  head = take-append-drop n xs;
  count = length-take n xs;
})

-- Each list of the detail view but the capabilities is the head of the state's list, as long as its
-- limit allows, and is not nil.
pub record IsDetailOf (s : State) (d : DetailState) : Type 0 where
  pub zfs_pools : IsHead s.zfs_pools d.zfs_pools max_detail_zfs_pools
  pub certificates : IsHead s.certificates d.certificates max_detail_certificates
  pub storage_items : IsHead s.storage_items d.storage_items max_detail_storage_items
  pub metric_trends : IsHead s.metric_trends d.metric_trends max_detail_metric_trends
  pub cluster_options : IsHead s.cluster_options d.cluster_options max_detail_cluster_options
  pub ceph_clusters : IsHead s.ceph_clusters d.ceph_clusters max_detail_ceph_clusters
  pub schema : d.schema ≡ s.schema
  pub generated_at : d.generated_at ≡ s.generated_at
  pub stale : d.stale ≡ s.stale

-- The lists of the detail view but the capabilities are the heads of the state's lists up to their
-- limits, all of a shorter list, and never nil; the schema, the time and the stale mark are the
-- state's.
pub detail_for_display-IsDetailOf : (s : State) → IsDetailOf s (detail_for_display s)
unfolding detail_for_display
detail_for_display-IsDetailOf s = record {
  zfs_pools = first_n-IsHead s.zfs_pools max_detail_zfs_pools;
  certificates = first_n-IsHead s.certificates max_detail_certificates;
  storage_items = first_n-IsHead s.storage_items max_detail_storage_items;
  metric_trends = first_n-IsHead s.metric_trends max_detail_metric_trends;
  cluster_options = first_n-IsHead s.cluster_options max_detail_cluster_options;
  ceph_clusters = first_n-IsHead s.ceph_clusters max_detail_ceph_clusters;
  schema = refl;
  generated_at = refl;
  stale = refl;
}
