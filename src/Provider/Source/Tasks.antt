-- ===== src/Provider/Source/Tasks.antt =====
-- The replications and the tasks of a source (apps/bridge/internal/proxmox/provider.go).
use proxmox_desk_display.Base.{[], ◌∷◌, some, none, List, if◌then◌else◌, ◌++◌, ltb, ◌&&◌, not, ◌+◌}
use proxmox_desk_display.Display.Hosts.{Host, Cluster}
use proxmox_desk_display.Provider.Source.Steps.{
  Scan, with_capability, appended, node_endpoint, alert_of, is_bad, raise_cluster, warn_cluster,
  warn_host,
}
use proxmox_desk_display.Base.Int.{ℤ, leb_ℤ, is_above_zero, ◌-ℤ◌, pos}
use proxmox_desk_display.Provider.Api.Clusters.{ReplicationJob}
use proxmox_desk_display.Display.Jobs.{Task, Replication}
use proxmox_desk_display.Display.State.{State}
use proxmox_desk_display.Base.Text.{Text, text_eq, codes, is_empty}
use proxmox_desk_display.Display.Guests.{Guest}
use proxmox_desk_display.Display.Health.{health_eq, Health}
use proxmox_desk_display.Provider.Rules.{apply_host_alerts, push_alert, raise_host}
use proxmox_desk_display.Provider.Api.Nodes.{NodeTask}
use proxmox_desk_display.Provider.Api.{
  answered, failed, node_tasks, cluster_replications, replication_status,
}
use proxmox_desk_display.Provider.Convert.Jobs.{
  replication_display, task_display, apply_replication_status,
}
use proxmox_desk_display.Provider.Json.{first_non_empty}
use proxmox_desk_display.Base.Numbers.{decimal}
use proxmox_desk_display.Display.Inventory.{Alert}

-- The last backup of a host and the failed tasks of a day, as the loop over its tasks knows them: the
-- host and the entry of lastBackupStarted.
pub record Backups : Type 0 where
  pub host : Host
  pub last_started : ℤ

module _ (w : Scan) where
  unfoldable pub ask_replication : ReplicationJob → State → State × ReplicationJob
  ask_replication r s =
      let add =
        with_capability w.client (w.client.id ++ codes "/" ++ r.source) []
          (codes "replication_status")
          (node_endpoint r.source "/replication/" ++ r.id ++ codes "/status") in
      if not (is_empty r.source) && not (is_empty r.id)
      then elim (replication_status w.api r.source r.id) [
        | failed e ↦ (add (some e) s, r)
        | answered status ↦ (add none s, apply_replication_status status r)
      ]
      else (s, r)

  abbrev pub replication_alert : Replication → Alert
  replication_alert r =
      alert_of w.client.id (r.id ++ codes "/replication") [] r.guest_id r.health
        (w.client.name ++ codes " replication " ++ r.id)
        (first_non_empty (r.error ∷ codes "not healthy" ∷ []))

  unfoldable pub add_replication :
      List (Text × Guest) → ReplicationJob → State × Cluster → State × Cluster
  unfolding ask_replication
  add_replication guests job (s, c) =
      let asked = ask_replication job s in
      let r = replication_display w.client asked.1 guests in
      let raised = if is_bad r.health then push_alert (replication_alert r) asked.0 else asked.0 in
      (
        record raised { replications = appended raised.replications (r ∷ []) },
        if is_bad r.health then raise_cluster r.health c else c,
      )

  unfoldable pub add_replications :
      List (Text × Guest) → List ReplicationJob → State × Cluster → State × Cluster
  unfolding add_replication
  add_replications guests [] acc = acc
  add_replications guests (job ∷ rest) acc =
      add_replications guests rest (add_replication guests job acc)

  unfoldable pub scan_replications : List (Text × Guest) → State × Cluster → State × Cluster
  unfolding add_replications
  scan_replications guests (s, c) =
      let add =
        with_capability w.client [] [] (codes "replication")
          (codes "/api2/json/cluster/replication") in
      elim (cluster_replications w.api) [
        | failed e ↦ (add (some e) s, warn_cluster (codes "replication unavailable") c)
        | answered jobs ↦ add_replications guests jobs (add none s, c)
      ]

  -- A backup that is not older than the last one that was seen.
  unfoldable pub note_backup : Task → Backups → Backups
  note_backup t b =
      if text_eq t.type (codes "vzdump") && leb_ℤ b.last_started t.started_at
      then (if is_above_zero t.started_at
          then record {
            host = record b.host {
              last_backup_status = t.status;
              last_backup_age_sec = w.now -ℤ t.started_at;
            };
            last_started = t.started_at;
          }
          else record b { host = record b.host { last_backup_status = t.status } })
      else b

  unfoldable pub note_failure : Task → Backups → Backups
  note_failure t b =
      if health_eq t.health Health.warning
        && is_above_zero t.ended_at
        && leb_ℤ (w.now -ℤ t.ended_at) (pos 86400)
      then record b { host = record b.host { failed_tasks_24h = b.host.failed_tasks_24h + 1 } }
      else b

  unfoldable pub add_tasks : List (Text × Guest) → List NodeTask → State × Backups → State × Backups
  unfolding note_backup note_failure
  add_tasks guests [] acc = acc
  add_tasks guests (task ∷ rest) (s, b) =
      let t = task_display w.client b.host task guests w.now in
      add_tasks guests rest
        (record s { tasks = appended s.tasks (t ∷ []) }, note_failure t (note_backup t b))

  abbrev pub tasks_alert : Host → Alert
  tasks_alert h =
      alert_of h.source_id (h.id ++ codes "/tasks-failed-24h") h.id [] Health.warning
        (h.name ++ codes " failed tasks") (decimal h.failed_tasks_24h ++ codes " failed in 24h")

  unfoldable pub check_tasks : State × Host → State × Host
  check_tasks (s, h) =
      if ltb 0 h.failed_tasks_24h
      then (push_alert (tasks_alert h) s, raise_host Health.warning h)
      else (s, h)

  -- One turn of the second loop over hostByNode.
  unfoldable pub scan_tasks : List (Text × Guest) → Text → State × Host → State × Host
  unfolding add_tasks check_tasks
  scan_tasks guests node (s, h) = elim (node_tasks w.api node) [
    | failed e ↦ (s, warn_host (codes "tasks unavailable") h)
    | answered tasks ↦
        let r = add_tasks guests tasks (s, record { host = h; last_started = pos 0 }) in
        check_tasks (r.0, r.1.host)
  ]

  unfoldable pub scan_all_tasks :
      List (Text × Guest) → List (Text × Host) → State → State × List (Text × Host)
  unfolding scan_tasks
  scan_all_tasks guests [] s = (s, [])
  scan_all_tasks guests ((node, h) ∷ rest) s =
      let r = scan_tasks guests node (s, h) in
      let others = scan_all_tasks guests rest r.0 in (others.0, (node, r.1) ∷ others.1)

  -- The last loop over hostByNode.
  unfoldable pub finish_hosts : List (Text × Host) → State → State
  finish_hosts [] s = s
  finish_hosts ((node, h) ∷ rest) s =
      let r = apply_host_alerts w.alerts s h in
      finish_hosts rest (record r.0 { hosts = appended r.0.hosts (r.1 ∷ []) })
