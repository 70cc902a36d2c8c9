-- ===== src/Provider/Convert/Clusters.antt =====
-- The status and the options of a cluster, and Ceph (apps/bridge/internal/proxmox/provider.go).
use proxmox_desk_display.Base.{[], ◌∷◌, List, ℕ, if◌then◌else◌, ◌==◌, ◌&&◌, map, ◌++◌, ◌+◌}
use proxmox_desk_display.Provider.Api.Clusters.{ClusterStatus, CephDf, CephStatus}
use proxmox_desk_display.Display.Hosts.{Cluster}
use proxmox_desk_display.Provider.Collect.{Sorter}
use proxmox_desk_display.Provider.Api.{answered, failed, Call, Gets, ceph_status, ceph_df}
use proxmox_desk_display.Provider.Json.{
  Floats, Any, compact_value, pct_int64, value_of, first_non_empty,
}
use proxmox_desk_display.Base.Int.{ℤ, is_above_zero, pos, ltb_ℤ, is_set}
use proxmox_desk_display.Base.Text.{Text, text_eq, codes, trim_prefix, is_empty, text_lt}
use proxmox_desk_display.Provider.Client.{Client}
use proxmox_desk_display.Display.Inventory.{CephCluster, ClusterOption}
use proxmox_desk_display.Display.Health.{max_health, Health}
use proxmox_desk_display.Provider.Rules.{health_from_text}

-- One entry of the cluster's status. The counters of nodes are an int each, which only grow here.
unfoldable pub count_status : ClusterStatus → Cluster × ℕ × ℕ → Cluster × ℕ × ℕ
count_status s (c, total, online) =
    if text_eq s.type (codes "cluster")
    then (
      record c {
        name = first_non_empty (s.name ∷ c.name ∷ []);
        quorate = is_set s.quorate;
        version = s.version;
        nodes_expected = s.expected;
      },
      total,
      online,
    )
    else if text_eq s.type (codes "node")
    then (c, total + 1, if is_set s.online then online + 1 else online)
    else (c, total, online)

unfoldable pub count_statuses : List ClusterStatus → Cluster × ℕ × ℕ → Cluster × ℕ × ℕ
unfolding count_status
count_statuses [] acc = acc
count_statuses (s ∷ rest) acc = count_statuses rest (count_status s acc)

unfoldable pub with_nodes : Cluster → ℤ → ℤ → Cluster
with_nodes c total online =
    let counted = record c { nodes_total = total; nodes_online = online } in
    if is_above_zero total && ltb_ℤ online total
    then record counted { health = max_health c.health Health.warning }
    else counted

unfoldable pub apply_cluster_status : List ClusterStatus → Cluster → Cluster
unfolding count_statuses with_nodes
apply_cluster_status statuses cluster =
    let (c, total, online) = count_statuses statuses (cluster, 0, 0) in
    with_nodes c (if total == 0 then c.nodes_expected else pos total) (pos online)

-- The keys but the digest.
unfoldable pub option_keys : List (Text × Any) → List Text
option_keys [] = []
option_keys ((k, v) ∷ rest) =
    if text_eq k (codes "digest") then option_keys rest else k ∷ option_keys rest

-- A JSON object has one value for each key; sort.Strings is the sort by `<`.
unfoldable pub cluster_options_display :
    Sorter → Floats → Client → List (Text × Any) → List ClusterOption
unfolding option_keys
cluster_options_display s f client options =
    map
      (λ key. record {
        id = client.id ++ codes "/" ++ key;
        source_id = client.id;
        key = key;
        value = compact_value f (value_of key options);
      })
      (s.sort text_lt (option_keys options))

-- A struct that is not filled in after a failed call.
unfoldable pub ceph_df_of : Call CephDf → CephDf
ceph_df_of (answered df) = df
ceph_df_of (failed e) = record {
  summary_total_bytes = pos 0;
  summary_total_used_bytes = pos 0;
  summary_total_avail_bytes = pos 0;
}

unfoldable pub ceph_display : Floats → Client → CephStatus → CephDf → CephCluster
ceph_display f client status df =
    let cut_text = trim_prefix status.health_status (codes "HEALTH_") in
    let health_text = if is_empty cut_text then status.health_status else cut_text in
    record {
      id = client.id ++ codes "/ceph";
      source_id = client.id;
      fsid = status.fsid;
      health_text = health_text;
      total_bytes = df.summary_total_bytes;
      used_bytes = df.summary_total_used_bytes;
      available_bytes = df.summary_total_avail_bytes;
      usage_pct = pct_int64 f df.summary_total_used_bytes df.summary_total_bytes;
      osds = status.osd_num_osds;
      osds_up = status.osd_num_up;
      osds_in = status.osd_num_in;
      pgs = status.pg_map_num_pgs;
      health = health_from_text health_text;
    }

unfoldable pub ceph_cluster : Floats → Gets → Client → Call CephCluster
unfolding ceph_display ceph_df_of
ceph_cluster f api client = elim (ceph_status api) [
  | failed e ↦ failed e
  | answered status ↦ answered (ceph_display f client status (ceph_df_of (ceph_df api)))
]
