-- ===== src/Provider/Convert/Jobs.antt =====
-- Backup jobs, HA resources, replications and tasks (apps/bridge/internal/proxmox/provider.go).
use proxmox_desk_display.Base.{
  [], ◌∷◌, some, none, Option, List, if◌then◌else◌, ◌++◌, not, ◌&&◌, ◌||◌,
}
use proxmox_desk_display.Provider.Client.{Client}
use proxmox_desk_display.Base.Text.{Text, text_eq, to_lower, codes, is_empty}
use proxmox_desk_display.Provider.Api.Clusters.{
  ReplicationJob, ReplicationStatus, BackupItem, HaItem,
}
use proxmox_desk_display.Base.Int.{ℤ, is_above_zero, is_set, ◌-ℤ◌, pos}
use proxmox_desk_display.Display.Health.{Health}
use proxmox_desk_display.Display.Guests.{Guest}
use proxmox_desk_display.Display.Hosts.{Host}
use proxmox_desk_display.Display.Jobs.{BackupJob, HaResource, Replication, Task}
use proxmox_desk_display.Provider.Rules.{contains_any}
use proxmox_desk_display.Base.Numbers.{atoi, itoa}
use proxmox_desk_display.Provider.Api.Nodes.{NodeTask}
use proxmox_desk_display.Provider.Zfs.{to_upper}
use proxmox_desk_display.Provider.Json.{first_non_empty}

unfoldable pub backup_job_display : Client → BackupItem → BackupJob
backup_job_display client job =
    let enabled = is_set job.enabled in
    record {
      id =
          client.id
          ++ codes "/"
          ++ first_non_empty (job.id ∷ (job.storage ++ codes "/" ++ job.schedule) ∷ []);
      source_id = client.id;
      storage = job.storage;
      schedule = job.schedule;
      mode = job.mode;
      enabled = enabled;
      all = is_set job.all;
      vmids = job.vmid;
      compress = job.compress;
      mail_to = job.mail_to;
      health = if enabled then Health.ok else Health.warning;
    }

unfoldable pub ha_health : Text → Health
ha_health state =
    if contains_any (codes "error" ∷ codes "fail" ∷ codes "fence" ∷ []) state
    then Health.critical
    else if not (is_empty state)
        && not (contains_any (codes "started" ∷ codes "disabled" ∷ codes "ignored" ∷ []) state)
    then Health.warning
    else Health.ok

unfoldable pub ha_resource_display : Client → HaItem → HaResource
unfolding ha_health
ha_resource_display client r = record {
  id = client.id ++ codes "/" ++ r.sid;
  source_id = client.id;
  sid = r.sid;
  type = r.type;
  state = r.state;
  request_state = r.request_state;
  group = r.group;
  node = r.node;
  max_restart = r.max_restart;
  max_relocate = r.max_relocate;
  health = ha_health (to_lower (first_non_empty (r.state ∷ r.request_state ∷ [])));
}

-- `guests[id]`, in a map whose last entry comes first.
unfoldable pub guest_at : Text → List (Text × Guest) → Option Guest
guest_at id [] = none
guest_at id ((k, g) ∷ rest) = if text_eq k id then some g else guest_at id rest

unfoldable pub name_of : Option Guest → Text
name_of none = []
name_of (some g) = g.name

unfoldable pub replication_health : ReplicationJob → Health
replication_health r =
    let state = to_lower (first_non_empty (r.status ∷ r.state ∷ [])) in
    if not (is_empty r.error) || is_above_zero r.fail_count
    then Health.warning
    else if not (is_empty state) && not (text_eq state (codes "ok"))
    then Health.warning
    else Health.ok

unfoldable pub replication_display : Client → ReplicationJob → List (Text × Guest) → Replication
unfolding replication_health guest_at name_of
replication_display client r guests =
    let vmid = if is_set r.guest then itoa r.guest else [] in
    let guest_id = if is_empty vmid then [] else client.id ++ codes "/" ++ vmid in
    record {
      id = client.id ++ codes "/" ++ r.id;
      source_id = client.id;
      guest_id = guest_id;
      guest_name = if is_empty vmid then [] else name_of (guest_at guest_id guests);
      vmid = vmid;
      source_node = r.source;
      target_node = r.target;
      schedule = r.schedule;
      rate = r.rate;
      enabled = not (is_set r.disable);
      status = r.status;
      state = r.state;
      duration_sec = r.duration;
      fail_count = r.fail_count;
      last_sync = r.last_sync;
      next_sync = r.next_sync;
      last_sync_status = r.last_sync_status;
      error = r.error;
      health = replication_health r;
    }

-- `if new > 0 { old = new }`
abbrev pub updated : ℤ → ℤ → ℤ
updated new old = if is_above_zero new then new else old

unfoldable pub apply_replication_status : ReplicationStatus → ReplicationJob → ReplicationJob
apply_replication_status s r = record r {
  status = first_non_empty (s.status ∷ r.status ∷ []);
  state = first_non_empty (s.state ∷ r.state ∷ []);
  duration = updated s.duration r.duration;
  fail_count = updated s.fail_count r.fail_count;
  last_sync = updated s.last_sync r.last_sync;
  next_sync = updated s.next_sync r.next_sync;
  last_sync_status = first_non_empty (s.last_sync_status ∷ r.last_sync_status ∷ []);
  error = first_non_empty (s.error ∷ r.error ∷ []);
}

-- The guest that a task is about: its vmid, and its entry in the map.
unfoldable pub task_guest : Client → Text → List (Text × Guest) → Text × Option Guest
unfolding guest_at
task_guest client id guests = elim (atoi id) [
  | none ↦ ([], none)
  | some n ↦ (id, guest_at (client.id ++ codes "/" ++ id) guests)
]

unfoldable pub target_of : Text → Option Guest → Text
target_of id none = id
target_of id (some g) = g.vmid ++ codes " " ++ g.name

unfoldable pub task_health : Text → Health
task_health status =
    if not (is_empty status) && not (text_eq (to_upper status) (codes "OK"))
    then Health.warning
    else Health.ok

unfoldable pub task_display : Client → Host → NodeTask → List (Text × Guest) → ℤ → Task
unfolding task_guest target_of task_health name_of
task_display client host t guests now =
    let about = task_guest client t.id guests in
    let age = now -ℤ t.start_time in
    record {
      id =
          first_non_empty
            (t.upid ∷ (host.id ++ codes "/" ++ t.type ++ codes "/" ++ itoa t.start_time) ∷ []);
      source_id = client.id;
      host_id = host.id;
      host_name = host.name;
      node = host.node;
      type = t.type;
      user = t.user;
      status = first_non_empty (t.status ∷ codes "running" ∷ []);
      target = target_of t.id about.1;
      vmid = about.0;
      guest_name = name_of about.1;
      started_at = t.start_time;
      started_age_sec =
          if is_above_zero t.start_time then (if is_above_zero age then age else pos 0) else pos 0;
      ended_at = t.end_time;
      duration_sec =
          if is_above_zero t.end_time && is_above_zero t.start_time
          then t.end_time -ℤ t.start_time
          else pos 0;
      health = task_health t.status;
    }
