-- ===== src/Runtime/Manager.antt =====
-- The manager of the running configuration (apps/bridge/internal/runtime/manager.go). The locks make
-- each part that reads or writes the manager atomic; the operations below are the code's sequences
-- of these parts, run by one admin call at a time.
use proxmox_desk_display.Config.{poll_interval, stale_after}
use proxmox_desk_display.Base.{
  [], ◌∷◌, some, none, true, false, Option, Bool, List, if◌then◌else◌, not, keep_if, ◌++◌, set, any,
  ℕ,
}
use proxmox_desk_display.Errors.{
  ok, err, Error, Result, poll_too_short, stale_before_poll, source_id_required, ◌>>=◌,
  source_not_found,
}
use proxmox_desk_display.Provider.Client.{ProxmoxCollector, TlsEnv, new_collector}
use proxmox_desk_display.Config.{Config, Env, ProxmoxHost, apply_defaults}
use proxmox_desk_display.Base.Int.{ℤ, pos, ltb_ℤ}
use proxmox_desk_display.ConfigStore.Secrets.{Secrets, apply_secrets, set_token, delete_token}
use proxmox_desk_display.Base.Text.{Text, trim_space, is_empty, text_eq}
use proxmox_desk_display.Runtime.Source.{
  SourceUpdate, clamp, first_non_empty, source_index, source_from_update,
}
use proxmox_desk_display.ConfigStore.Files.{Store, Yaml, Saved, Faults, save, DiskFiles}
use proxmox_desk_display.Cache.{Cache, reconfigure, refresh}
use proxmox_desk_display.ConfigStore.Ids.{sanitize_id}
use proxmox_desk_display.Config.Validation.{no_sources, validate}
use proxmox_desk_display.Display.State.{State}

pub data Collector : Type 0 where
  mock_collector empty_collector : Collector
  proxmox_collector : ProxmoxCollector → Collector

pub record Manager : Type 0 where
  pub cfg : Config
  pub secrets : Secrets
  pub store : Store
  pub cache : Cache Collector
  pub mock : Bool

-- What the manager meets outside: the environment, the YAML library, the operating system, what a
-- call of Collect returns, and the time at which it returns.
pub record World : Type 0 where
  pub getenv : Env
  pub yaml : Yaml
  pub os : Faults
  pub tls : TlsEnv
  pub collect : Collector → Result State
  pub now : ℤ

pub record Bridge : Type 0 where
  pub manager : Manager
  pub disk : DiskFiles

pub record ServerUpdate : Type 0 where
  pub poll_interval_seconds : ℤ
  pub stale_after_seconds : ℤ
  pub display_token : Text
  pub admin_token : Text
  pub memory_warning_pct : ℤ
  pub memory_critical_pct : ℤ
  pub storage_warning_pct : ℤ
  pub storage_critical_pct : ℤ

-- CollectorForConfig
unfoldable pub collector_for_config : World → Config → Bool → Result Collector
collector_for_config w c true = ok mock_collector
collector_for_config w c false =
    if no_sources c.proxmox then ok empty_collector else elim (validate w.getenv false c) [
      | some e ↦ err e
      | none ↦ new_collector w.getenv w.tls c >>= λ p. ok (proxmox_collector p)
    ]

-- The configuration that `apply` works with.
unfoldable pub prepared : Config → Secrets → Config
prepared c secrets = apply_secrets secrets (apply_defaults c)

-- The last part of `apply`: the cache gets the collector, the manager the configuration, whose
-- sources are those of the array that Save shares with it, and the cache is refreshed.
unfoldable pub install :
    World → Collector → Config → Secrets → Saved → Bridge → Option Error × Bridge
install w collector c secrets saved b =
    let cache =
      reconfigure collector (poll_interval c.server) (stale_after c.server) b.manager.cache in
    let refreshed = refresh (w.collect collector) w.now cache in
    (
      refreshed.0,
      record {
        manager = record b.manager {
          cfg = record c { proxmox = saved.shared };
          secrets = secrets;
          cache = refreshed.1;
        };
        disk = saved.disk;
      },
    )

unfoldable pub apply : World → Config → Secrets → Bridge → Option Error × Bridge
unfolding install prepared
apply w cfg secrets b =
    let c = prepared cfg secrets in
    elim (collector_for_config w c b.manager.mock) [
      | err e ↦ (some e, b)
      | ok collector ↦
          let saved = save w.yaml w.os b.manager.store c secrets b.disk in
          elim saved.result [
            | err e ↦ (some e, record b { disk = saved.disk })
            | ok _ ↦ install w collector c secrets saved b
          ]
    ]

-- The settings that UpdateServer puts into its copy.
unfoldable pub updated_config : ServerUpdate → Config → Config
updated_config input c =
    let memory_warning = clamp input.memory_warning_pct (pos 1) (pos 100) in
    let storage_warning = clamp input.storage_warning_pct (pos 1) (pos 100) in
    record c {
      server = record c.server {
        poll_interval_seconds = input.poll_interval_seconds;
        stale_after_seconds = input.stale_after_seconds;
      };
      alerts = record {
        memory_warning_pct = memory_warning;
        memory_critical_pct = clamp input.memory_critical_pct memory_warning (pos 100);
        storage_warning_pct = storage_warning;
        storage_critical_pct = clamp input.storage_critical_pct storage_warning (pos 100);
      };
    }

-- A token that is not blank replaces the old one.
unfoldable pub updated_secrets : ServerUpdate → Secrets → Secrets
updated_secrets input s = record s {
  display_token = first_non_empty (trim_space input.display_token) s.display_token;
  admin_token = first_non_empty (trim_space input.admin_token) s.admin_token;
}

unfoldable pub update_server : World → ServerUpdate → Bridge → Option Error × Bridge
unfolding updated_config updated_secrets
update_server w input b =
    if ltb_ℤ input.poll_interval_seconds (pos 5)
    then (some poll_too_short, b)
    else if ltb_ℤ input.stale_after_seconds input.poll_interval_seconds
    then (some stale_before_poll, b)
    else (let secrets = updated_secrets input b.manager.secrets in
        apply w (apply_secrets secrets (updated_config input b.manager.cfg)) secrets b)

-- `cfg.Proxmox[idx] = source`, or append
abbrev pub put_at : ProxmoxHost → List ProxmoxHost → Option ℕ → List ProxmoxHost
put_at h hosts none = hosts ++ h ∷ []
put_at h hosts (some i) = set hosts i h

unfoldable pub put_source : ProxmoxHost → List ProxmoxHost → List ProxmoxHost
put_source h hosts = put_at h hosts (source_index hosts h.id)

unfoldable pub put_token : Text → Text → Secrets → Secrets
put_token id token s =
    if is_empty (trim_space token)
    then s
    else record s { proxmox_tokens = set_token id (trim_space token) s.proxmox_tokens }

unfoldable pub upsert_source : World → SourceUpdate → Bridge → Option Error × Bridge
unfolding put_source put_token
upsert_source w input b =
    let c = b.manager.cfg in
    elim (source_from_update c.proxmox b.manager.secrets.proxmox_tokens input) [
      | err e ↦ (some e, b)
      | ok h ↦
          let secrets = put_token h.id input.token b.manager.secrets in
          apply w (apply_secrets secrets (record c { proxmox = put_source h c.proxmox })) secrets b
    ]

-- The loop of DeleteSource: what it keeps, and whether it found the id.
unfoldable pub remove_source : Text → List ProxmoxHost → List ProxmoxHost
remove_source id hosts = keep_if (λ h. not (text_eq h.id id)) hosts

unfoldable pub delete_source : World → Text → Bridge → Option Error × Bridge
unfolding remove_source
delete_source w raw b =
    let id = sanitize_id raw in
    let c = b.manager.cfg in
    let s = b.manager.secrets in
    let secrets = record s { proxmox_tokens = delete_token id s.proxmox_tokens } in
    if is_empty id
    then (some source_id_required, b)
    else if not (any (λ h. text_eq h.id id) c.proxmox)
    then (some (source_not_found id), b)
    else apply w (apply_secrets secrets (record c { proxmox = remove_source id c.proxmox })) secrets
        b

-- Refresh
unfoldable pub refresh_bridge : World → Bridge → Option Error × Bridge
refresh_bridge w b =
    let refreshed = refresh (w.collect b.manager.cache.collector) w.now b.manager.cache in
    (refreshed.0, record b { manager = record b.manager { cache = refreshed.1 } })
