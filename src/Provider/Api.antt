-- ===== src/Provider/Api.antt =====
-- The answers of the API of Proxmox and the calls of the collector
-- (apps/bridge/internal/proxmox/provider.go). A call is Get on a path.
pub mod Nodes
pub mod Clusters
pub mod Guests
pub mod Segments
use proxmox_desk_display.Provider.Calls.{CallError}
use proxmox_desk_display.Base.Text.{Text, codes, text_eq}
use proxmox_desk_display.Provider.Paths.{path_escape}
use proxmox_desk_display.Base.{List, ◌++◌, if◌then◌else◌, refl, inl, inr, ◌≡◌, ◌⊎◌}
use proxmox_desk_display.Provider.Api.Clusters.{
  CephStatus, CephDf, Resource, ClusterStatus, BackupItem, HaItem, ReplicationJob,
  ReplicationStatus, StorageConfig, StorageContent,
}
use proxmox_desk_display.Provider.Api.Nodes.{
  NodeStatus, PciDevice, NetworkInterface, NodeService, NodeDisk, NodeTask, ZfsItem,
  NodeCertificate, AptUpdate, AptRepositories, SubscriptionInfo,
}
use proxmox_desk_display.Provider.Json.{Any}
use proxmox_desk_display.Provider.Zfs.{ZfsPoolDetail}
use proxmox_desk_display.Provider.Api.Guests.{
  RrdPoint, GuestSnapshot, GuestStatus, ContainerInterface, AgentInfo, AgentHostname, AgentOsInfo,
  AgentNetworkInterfaces, AgentFsInfo,
}

-- What a call returns: the decoded answer or the error.
pub data Call (A : Type 0) : Type 0 where
  answered : A → Call A
  failed : CallError → Call A

pub Call-cases :
    {A : Type 0} (r : Call A) → ((e : CallError) × (r ≡ failed e)) ⊎ ((a : A) × (r ≡ answered a))
Call-cases (failed e) = inl (e, refl)
Call-cases (answered a) = inr (a, refl)

-- Get of a client, at each type that the collector decodes.
pub record Gets : Type 0 where
  pub get_node_status : Text → Call NodeStatus
  pub get_pci : Text → Call (List PciDevice)
  pub get_network : Text → Call (List NetworkInterface)
  pub get_services : Text → Call (List NodeService)
  pub get_disks : Text → Call (List NodeDisk)
  pub get_tasks : Text → Call (List NodeTask)
  pub get_resources : Text → Call (List Resource)
  pub get_cluster_status : Text → Call (List ClusterStatus)
  pub get_backup_jobs : Text → Call (List BackupItem)
  pub get_ha_resources : Text → Call (List HaItem)
  pub get_replications : Text → Call (List ReplicationJob)
  pub get_replication_status : Text → Call ReplicationStatus
  pub get_map : Text → Call (List (Text × Any))
  pub get_storage_configs : Text → Call (List StorageConfig)
  pub get_zfs_pools : Text → Call (List ZfsItem)
  pub get_zfs_pool_detail : Text → Call ZfsPoolDetail
  pub get_certificates : Text → Call (List NodeCertificate)
  pub get_rrd : Text → Call (List RrdPoint)
  pub get_apt_updates : Text → Call (List AptUpdate)
  pub get_apt_repositories : Text → Call AptRepositories
  pub get_subscription : Text → Call SubscriptionInfo
  pub get_snapshots : Text → Call (List GuestSnapshot)
  pub get_guest_status : Text → Call GuestStatus
  pub get_interfaces : Text → Call (List ContainerInterface)
  pub get_storage_content : Text → Call (List StorageContent)
  pub get_ceph_status : Text → Call CephStatus
  pub get_ceph_df : Text → Call CephDf
  pub get_agent_info : Text → Call AgentInfo
  pub get_agent_hostname : Text → Call AgentHostname
  pub get_agent_os_info : Text → Call AgentOsInfo
  pub get_agent_networks : Text → Call AgentNetworkInterfaces
  pub get_agent_fs_info : Text → Call AgentFsInfo

unfoldable pub guest_path : Text → Text → Text → Text
unfolding path_escape
guest_path node guest_type vmid =
    codes "/api2/json/nodes/"
    ++ path_escape node
    ++ (if text_eq guest_type (codes "lxc") then codes "/lxc/" else codes "/qemu/")
    ++ path_escape vmid

unfoldable pub node_status : Gets → Text → Call NodeStatus
unfolding path_escape
node_status api node =
    api.get_node_status (codes "/api2/json/nodes/" ++ path_escape node ++ codes "/status")

unfoldable pub node_pci : Gets → Text → Call (List PciDevice)
unfolding path_escape
node_pci api node =
    api.get_pci (codes "/api2/json/nodes/" ++ path_escape node ++ codes "/hardware/pci")

unfoldable pub node_network : Gets → Text → Call (List NetworkInterface)
unfolding path_escape
node_network api node =
    api.get_network (codes "/api2/json/nodes/" ++ path_escape node ++ codes "/network")

unfoldable pub node_services : Gets → Text → Call (List NodeService)
unfolding path_escape
node_services api node =
    api.get_services (codes "/api2/json/nodes/" ++ path_escape node ++ codes "/services")

unfoldable pub node_disks : Gets → Text → Call (List NodeDisk)
unfolding path_escape
node_disks api node =
    api.get_disks (codes "/api2/json/nodes/" ++ path_escape node ++ codes "/disks/list")

unfoldable pub node_tasks : Gets → Text → Call (List NodeTask)
unfolding path_escape
node_tasks api node =
    api.get_tasks (codes "/api2/json/nodes/" ++ path_escape node ++ codes "/tasks?limit=25")

unfoldable pub cluster_resources : Gets → Call (List Resource)
cluster_resources api = api.get_resources (codes "/api2/json/cluster/resources")

unfoldable pub cluster_status : Gets → Call (List ClusterStatus)
cluster_status api = api.get_cluster_status (codes "/api2/json/cluster/status")

unfoldable pub cluster_backup_jobs : Gets → Call (List BackupItem)
cluster_backup_jobs api = api.get_backup_jobs (codes "/api2/json/cluster/backup")

unfoldable pub cluster_ha_resources : Gets → Call (List HaItem)
cluster_ha_resources api = api.get_ha_resources (codes "/api2/json/cluster/ha/resources")

unfoldable pub cluster_replications : Gets → Call (List ReplicationJob)
cluster_replications api = api.get_replications (codes "/api2/json/cluster/replication")

unfoldable pub replication_status : Gets → Text → Text → Call ReplicationStatus
unfolding path_escape
replication_status api node id = api.get_replication_status (
    codes "/api2/json/nodes/"
    ++ path_escape node
    ++ codes "/replication/"
    ++ path_escape id
    ++ codes "/status")

unfoldable pub cluster_options : Gets → Call (List (Text × Any))
cluster_options api = api.get_map (codes "/api2/json/cluster/options")

unfoldable pub cluster_storage : Gets → Call (List StorageConfig)
cluster_storage api = api.get_storage_configs (codes "/api2/json/storage")

unfoldable pub node_zfs_pools : Gets → Text → Call (List ZfsItem)
unfolding path_escape
node_zfs_pools api node =
    api.get_zfs_pools (codes "/api2/json/nodes/" ++ path_escape node ++ codes "/disks/zfs")

unfoldable pub node_zfs_pool_detail : Gets → Text → Text → Call ZfsPoolDetail
unfolding path_escape
node_zfs_pool_detail api node pool =
    api.get_zfs_pool_detail
      (codes "/api2/json/nodes/" ++ path_escape node ++ codes "/disks/zfs/" ++ path_escape pool)

unfoldable pub node_certificates : Gets → Text → Call (List NodeCertificate)
unfolding path_escape
node_certificates api node =
    api.get_certificates
      (codes "/api2/json/nodes/" ++ path_escape node ++ codes "/certificates/info")

unfoldable pub node_rrd_data : Gets → Text → Call (List RrdPoint)
unfolding path_escape
node_rrd_data api node =
    api.get_rrd
      (codes "/api2/json/nodes/" ++ path_escape node ++ codes "/rrddata?timeframe=hour&cf=AVERAGE")

unfoldable pub node_apt_updates : Gets → Text → Call (List AptUpdate)
unfolding path_escape
node_apt_updates api node =
    api.get_apt_updates (codes "/api2/json/nodes/" ++ path_escape node ++ codes "/apt/update")

unfoldable pub node_apt_repositories : Gets → Text → Call AptRepositories
unfolding path_escape
node_apt_repositories api node =
    api.get_apt_repositories
      (codes "/api2/json/nodes/" ++ path_escape node ++ codes "/apt/repositories")

unfoldable pub node_subscription : Gets → Text → Call SubscriptionInfo
unfolding path_escape
node_subscription api node =
    api.get_subscription (codes "/api2/json/nodes/" ++ path_escape node ++ codes "/subscription")

unfoldable pub guest_config : Gets → Text → Text → Text → Call (List (Text × Any))
unfolding guest_path
guest_config api node guest_type vmid =
    api.get_map (guest_path node guest_type vmid ++ codes "/config")

unfoldable pub guest_snapshots : Gets → Text → Text → Text → Call (List GuestSnapshot)
unfolding guest_path
guest_snapshots api node guest_type vmid =
    api.get_snapshots (guest_path node guest_type vmid ++ codes "/snapshot")

unfoldable pub guest_status : Gets → Text → Text → Text → Call GuestStatus
unfolding guest_path
guest_status api node guest_type vmid =
    api.get_guest_status (guest_path node guest_type vmid ++ codes "/status/current")

unfoldable pub guest_rrd_data : Gets → Text → Text → Text → Call (List RrdPoint)
unfolding guest_path
guest_rrd_data api node guest_type vmid =
    api.get_rrd (guest_path node guest_type vmid ++ codes "/rrddata?timeframe=hour&cf=AVERAGE")

unfoldable pub container_interfaces : Gets → Text → Text → Call (List ContainerInterface)
unfolding path_escape
container_interfaces api node vmid = api.get_interfaces (
    codes "/api2/json/nodes/"
    ++ path_escape node
    ++ codes "/lxc/"
    ++ path_escape vmid
    ++ codes "/interfaces")

unfoldable pub storage_content : Gets → Text → Text → Call (List StorageContent)
unfolding path_escape
storage_content api node storage = api.get_storage_content (
    codes "/api2/json/nodes/"
    ++ path_escape node
    ++ codes "/storage/"
    ++ path_escape storage
    ++ codes "/content")

unfoldable pub ceph_status : Gets → Call CephStatus
ceph_status api = api.get_ceph_status (codes "/api2/json/cluster/ceph/status")

unfoldable pub ceph_df : Gets → Call CephDf
ceph_df api = api.get_ceph_df (codes "/api2/json/cluster/ceph/df")

unfoldable pub agent_info : Gets → Text → Text → Call AgentInfo
unfolding path_escape
agent_info api node vmid = api.get_agent_info (
    codes "/api2/json/nodes/"
    ++ path_escape node
    ++ codes "/qemu/"
    ++ path_escape vmid
    ++ codes "/agent/info")

unfoldable pub agent_hostname : Gets → Text → Text → Call AgentHostname
unfolding path_escape
agent_hostname api node vmid = api.get_agent_hostname (
    codes "/api2/json/nodes/"
    ++ path_escape node
    ++ codes "/qemu/"
    ++ path_escape vmid
    ++ codes "/agent/get-host-name")

unfoldable pub agent_os_info : Gets → Text → Text → Call AgentOsInfo
unfolding path_escape
agent_os_info api node vmid = api.get_agent_os_info (
    codes "/api2/json/nodes/"
    ++ path_escape node
    ++ codes "/qemu/"
    ++ path_escape vmid
    ++ codes "/agent/get-osinfo")

unfoldable pub agent_networks : Gets → Text → Text → Call AgentNetworkInterfaces
unfolding path_escape
agent_networks api node vmid = api.get_agent_networks (
    codes "/api2/json/nodes/"
    ++ path_escape node
    ++ codes "/qemu/"
    ++ path_escape vmid
    ++ codes "/agent/network-get-interfaces")

unfoldable pub agent_fs_info : Gets → Text → Text → Call AgentFsInfo
unfolding path_escape
agent_fs_info api node vmid = api.get_agent_fs_info (
    codes "/api2/json/nodes/"
    ++ path_escape node
    ++ codes "/qemu/"
    ++ path_escape vmid
    ++ codes "/agent/get-fsinfo")
