-- ===== src/Provider/Source/Owned/Tasks.antt =====
-- The source of guests, replications and tasks
-- (apps/bridge/internal/proxmox/provider.go).
use proxmox_desk_display.Base.{
  [], ◌∷◌, some, none, refl, inl, inr, ◌≡◌, List, Bool-cases, ◌++◌, if◌then◌else◌, ltb, ◌||◌, not,
  ◌&&◌, ◌∙◌,
}
use proxmox_desk_display.Base.Text.{Text, codes, text_eq, is_empty}
use proxmox_desk_display.Provider.Source.Steps.{
  Scan, appended, node_endpoint, is_bad, with_capability, raise_cluster,
}
use proxmox_desk_display.Display.State.{State}
use proxmox_desk_display.Display.Guests.{Guest}
use proxmox_desk_display.Provider.Source.Guests.{
  add_guest, add_guests, count_guest, Scanned, scan_guest,
}
use proxmox_desk_display.Provider.Source.Tasks.{
  ask_replication, add_replications, scan_replications, note_backup, note_failure, add_tasks,
  check_tasks, scan_tasks, scan_all_tasks, add_replication, Backups, replication_alert, tasks_alert,
}
use proxmox_desk_display.Display.Hosts.{Host, Cluster}
use proxmox_desk_display.Provider.Api.Clusters.{Resource, ReplicationJob}
use proxmox_desk_display.Display.Jobs.{Task}
use proxmox_desk_display.Provider.Convert.Jobs.{task_display, replication_display}
use proxmox_desk_display.Provider.Source.Owned.{IsOwned, Field}
use proxmox_desk_display.Provider.Api.Nodes.{NodeTask}
use proxmox_desk_display.Provider.Source.Owned.Reports.{Kept}
use proxmox_desk_display.Provider.Source.Owned.Hosts.{HostsOwned, change_host-HostsOwned}
use proxmox_desk_display.Provider.Api.{
  Call-cases, node_tasks, cluster_replications, replication_status,
}
use proxmox_desk_display.Provider.Rules.{push_alert}
use proxmox_desk_display.Provider.Source.Owned.Appends.{
  appended_hosts, with_capability-IsOwned, appended_tasks, appended_guests, push_alert-IsOwned,
  appended_replications, may_push-IsOwned,
}
use proxmox_desk_display.Provider.Source.Owned.Guests.{scan_guest-KeptGuest}
use proxmox_desk_display.Display.Health.{health_eq, Health}
use proxmox_desk_display.Base.Int.{pos, leb_ℤ, is_above_zero, ◌-ℤ◌, ℤ}
use proxmox_desk_display.Display.Finalize.{new_state}
use proxmox_desk_display.Provider.Source.Owned.ClusterSteps.{raised_cluster-source}

pub appended_host :
    (id : Text) (s : State) (h : Host)
    → h.source_id ≡ id
    → IsOwned id s
    → IsOwned id (record s { hosts = appended s.hosts (h ∷ []) })
appended_host id s h e own = appended_hosts id s (h ∷ []) (e, tt) own

pub new_state-IsOwned : (id : Text) (now : ℤ) → IsOwned id (new_state now)
unfolding new_state
new_state-IsOwned id now Field.hosts = tt
new_state-IsOwned id now f = tt

module _ (w : Scan) where
  count_guest-source : (g : Guest) (h : Host) → (count_guest w g h).source_id ≡ h.source_id
  count_guest-source g h = elim (Bool-cases (text_eq g.status (codes "running"))) [
    | inl p ↦ rw p refl
    | inr p ↦ rw p refl
  ]

  add_guest-Owned :
      (r : Resource) (acc : Scanned)
      → IsOwned w.client.id acc.state
      → HostsOwned w acc.hosts
      → IsOwned w.client.id (add_guest w r acc).state × HostsOwned w (add_guest w r acc).hosts
  unfolding add_guest
  add_guest-Owned r acc own hs =
      let x = scan_guest w r acc.state in
      let k = scan_guest-KeptGuest w r acc.state own in
      (
        appended_guests w.client.id x.0 (x.1 ∷ []) (k.1, tt) k.0,
        change_host-HostsOwned w r.node (count_guest w x.1) acc.hosts (count_guest-source x.1) hs,
      )

  pub add_guests-Owned :
      (rs : List Resource) (acc : Scanned)
      → IsOwned w.client.id acc.state
      → HostsOwned w acc.hosts
      → IsOwned w.client.id (add_guests w rs acc).state × HostsOwned w (add_guests w rs acc).hosts
  unfolding add_guests
  add_guests-Owned [] acc own hs = (own, hs)
  add_guests-Owned (r ∷ rest) acc own hs =
      elim (Bool-cases (text_eq r.type (codes "qemu") || text_eq r.type (codes "lxc"))) [
        | inl p ↦
            rw (p, add_guests)
              (let k = add_guest-Owned r acc own hs in
                add_guests-Owned rest (add_guest w r acc) k.0 k.1)
        | inr p ↦ rw (p, add_guests) (add_guests-Owned rest acc own hs)
      ]

  ask_replication-IsOwned :
      (r : ReplicationJob) (s : State)
      → IsOwned w.client.id s
      → IsOwned w.client.id (ask_replication w r s).0
  unfolding ask_replication
  ask_replication-IsOwned r s own =
      let path = node_endpoint r.source "/replication/" ++ r.id ++ codes "/status" in
      let add =
        with_capability-IsOwned w.client s (w.client.id ++ codes "/" ++ r.source) []
          (codes "replication_status") path in
      elim (Bool-cases (not (is_empty r.source) && not (is_empty r.id))) [
        | inr q ↦ rw q own
        | inl q ↦ rw q (elim (Call-cases (replication_status w.api r.source r.id)) [
          | inl (d, p) ↦ rw p (add (some d) own)
          | inr (a, p) ↦ rw p (add none own)
        ])
      ]

  add_replications-IsOwned :
      (guests : List (Text × Guest)) (jobs : List ReplicationJob) (s : State) (c : Cluster)
      → IsOwned w.client.id s
      → c.source_id ≡ w.client.id
      → IsOwned w.client.id (add_replications w guests jobs (s, c)).0
        × ((add_replications w guests jobs (s, c)).1.source_id ≡ w.client.id)
  unfolding add_replications add_replication replication_display
  add_replications-IsOwned guests [] s c own e = (own, e)
  add_replications-IsOwned guests (job ∷ rest) s c own e =
      let asked = ask_replication w job s in
      let r = replication_display w.client asked.1 guests in
      let bad = is_bad r.health in
      let raised = if bad then push_alert (replication_alert w r) asked.0 else asked.0 in
      add_replications-IsOwned guests rest
        (record raised { replications = appended raised.replications (r ∷ []) })
        (if bad then raise_cluster r.health c else c)
        (appended_replications w.client.id raised (r ∷ []) (refl, tt)
          (may_push-IsOwned w.client.id asked.0 bad (replication_alert w r) refl
            (ask_replication-IsOwned job s own)))
        (raised_cluster-source bad r.health c ∙ e)

  pub scan_replications-IsOwned :
      (guests : List (Text × Guest)) (s : State) (c : Cluster)
      → IsOwned w.client.id s
      → c.source_id ≡ w.client.id
      → IsOwned w.client.id (scan_replications w guests (s, c)).0
        × ((scan_replications w guests (s, c)).1.source_id ≡ w.client.id)
  unfolding scan_replications
  scan_replications-IsOwned guests s c own e =
      let path = codes "/api2/json/cluster/replication" in
      let add = with_capability-IsOwned w.client s [] [] (codes "replication") path in
      let s' = with_capability w.client [] [] (codes "replication") path none s in
      elim (Call-cases (cluster_replications w.api)) [
        | inl (d, p) ↦ rw (p, scan_replications) (add (some d) own, e)
        | inr (a, p) ↦
            rw (p, scan_replications) (add_replications-IsOwned guests a s' c (add none own) e)
      ]

  note_backup-source :
      (t : Task) (b : Backups) → (note_backup w t b).host.source_id ≡ b.host.source_id
  unfolding note_backup
  note_backup-source t b =
      elim (Bool-cases (text_eq t.type (codes "vzdump") && leb_ℤ b.last_started t.started_at)) [
        | inr q ↦ rw q refl
        | inl q ↦ elim (Bool-cases (is_above_zero t.started_at)) [
          | inl p ↦ rw (q, p) refl
          | inr p ↦ rw (q, p) refl
        ]
      ]

  note_failure-source :
      (t : Task) (b : Backups) → (note_failure w t b).host.source_id ≡ b.host.source_id
  unfolding note_failure
  note_failure-source t b =
      elim (Bool-cases (
        health_eq t.health Health.warning
        && is_above_zero t.ended_at
        && leb_ℤ (w.now -ℤ t.ended_at) (pos 86400))) [ inl p ↦ rw p refl | inr p ↦ rw p refl ]

  add_tasks-Owned :
      (guests : List (Text × Guest)) (tasks : List NodeTask) (s : State) (b : Backups)
      → IsOwned w.client.id s
      → b.host.source_id ≡ w.client.id
      → IsOwned w.client.id (add_tasks w guests tasks (s, b)).0
        × ((add_tasks w guests tasks (s, b)).1.host.source_id ≡ w.client.id)
  unfolding add_tasks task_display
  add_tasks-Owned guests [] s b own e = (own, e)
  add_tasks-Owned guests (task ∷ rest) s b own e =
      let t = task_display w.client b.host task guests w.now in
      add_tasks-Owned guests rest (record s { tasks = appended s.tasks (t ∷ []) })
        (note_failure w t (note_backup w t b))
        (appended_tasks w.client.id s (t ∷ []) (refl, tt) own)
        (note_failure-source t (note_backup w t b) ∙ note_backup-source t b ∙ e)

  check_tasks-Kept : (s : State) (h : Host) → Kept w (s, h) → Kept w (check_tasks w (s, h))
  unfolding check_tasks
  check_tasks-Kept s h (own, e) = elim (Bool-cases (ltb 0 h.failed_tasks_24h)) [
    | inl p ↦ rw p (push_alert-IsOwned w.client.id s (tasks_alert w h) e own, e)
    | inr p ↦ rw p (own, e)
  ]

  scan_tasks-Kept :
      (guests : List (Text × Guest)) (node : Text) (s : State) (h : Host)
      → Kept w (s, h)
      → Kept w (scan_tasks w guests node (s, h))
  unfolding scan_tasks
  scan_tasks-Kept guests node s h (own, e) = elim (Call-cases (node_tasks w.api node)) [
    | inl (d, p) ↦ rw (p, scan_tasks) (own, e)
    | inr (a, p) ↦
        rw (p, scan_tasks)
          (let start : Backups = record { host = h; last_started = pos 0 } in
            let r = add_tasks w guests a (s, start) in
            check_tasks-Kept r.0 r.1.host (add_tasks-Owned guests a s start own e))
  ]

  pub scan_all_tasks-Owned :
      (guests : List (Text × Guest)) (hosts : List (Text × Host)) (s : State)
      → HostsOwned w hosts
      → IsOwned w.client.id s
      → IsOwned w.client.id (scan_all_tasks w guests hosts s).0
        × HostsOwned w (scan_all_tasks w guests hosts s).1
  unfolding scan_all_tasks
  scan_all_tasks-Owned guests [] s hs own = (own, tt)
  scan_all_tasks-Owned guests ((node, h) ∷ rest) s (e, hs) own =
      let r = scan_tasks-Kept guests node s h (own, e) in
      let others = scan_all_tasks-Owned guests rest (scan_tasks w guests node (s, h)).0 hs r.0 in
      (others.0, (r.1, others.1))
