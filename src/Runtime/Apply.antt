-- ===== src/Runtime/Apply.antt =====
-- The ways in which `apply` ends, and what an installed configuration is
-- (apps/bridge/internal/runtime/manager.go).
use proxmox_desk_display.Base.Int.{ℤ}
use proxmox_desk_display.Cache.{Cache, refresh, reconfigure}
use proxmox_desk_display.Display.State.{State}
use proxmox_desk_display.Display.Finalize.{finalize}
use proxmox_desk_display.Base.{refl, [], map, none, true, some, inl, inr, ◌≡◌, Option, ap}
use proxmox_desk_display.Errors.{Result, ok, err, Result-cases, Error}
use proxmox_desk_display.Runtime.Manager.{
  World, apply, Bridge, collector_for_config, prepared, Collector, install, Manager,
}
use proxmox_desk_display.Config.{ProxmoxHost, Config, apply_defaults, poll_interval, stale_after}
use proxmox_desk_display.ConfigStore.Secrets.{Secrets, apply_secrets}
use proxmox_desk_display.ConfigStore.Files.{save, saved_config, blank_token}

-- The branch that a call of `apply` took.
pub data Ending (w : World) (cfg : Config) (secrets : Secrets) (b : Bridge)
    (r : Option Error × Bridge) : Type 0 where
  -- no collector for the configuration: nothing has changed
  rejected :
      (e : Error)
      → collector_for_config w (prepared cfg secrets) b.manager.mock ≡ err e
      → r ≡ (some e, b)
      → Ending w cfg secrets b r
  -- not saved: the manager and its cache have not changed
  unsaved :
      (e : Error)
      → (save w.yaml w.os b.manager.store (prepared cfg secrets) secrets b.disk).result ≡ err e
      → r.0 ≡ some e
      → r.1.manager ≡ b.manager
      → r.1.disk ≡ (save w.yaml w.os b.manager.store (prepared cfg secrets) secrets b.disk).disk
      → Ending w cfg secrets b r
  installed :
      (collector : Collector)
      → collector_for_config w (prepared cfg secrets) b.manager.mock ≡ ok collector
      → (save w.yaml w.os b.manager.store (prepared cfg secrets) secrets b.disk).result ≡ ok tt
      → r
        ≡ install w collector
            (prepared cfg secrets)
            secrets
            (save w.yaml w.os b.manager.store (prepared cfg secrets) secrets b.disk)
            b
      → Ending w cfg secrets b r

pub apply-Ending :
    (w : World) (cfg : Config) (secrets : Secrets) (b : Bridge)
    → Ending w cfg secrets b (apply w cfg secrets b)
unfolding apply
apply-Ending w cfg secrets b =
    elim (Result-cases (collector_for_config w (prepared cfg secrets) b.manager.mock)) [
      | inl (e, p) ↦ rejected e p (rw (p, apply))
      | inr (collector, p) ↦
          elim (Result-cases
            (save w.yaml w.os b.manager.store (prepared cfg secrets) secrets b.disk).result) [
              | inl (e, q) ↦ unsaved e q (rw (p, q, apply)) (rw (p, q, apply)) (rw (p, q, apply))
              | inr (u, q) ↦ installed collector p q (rw (p, q, apply))
            ]
    ]

-- The configuration of a manager that `apply` has changed.
abbrev pub running_config : Config → Secrets → Config
running_config cfg secrets = record (prepared cfg secrets) {
  proxmox = (saved_config (prepared cfg secrets)).proxmox;
}

-- What `apply` does to the manager: an error and nothing, or the new configuration.
pub data Change (cfg : Config) (secrets : Secrets) (m : Manager) (r : Option Error × Bridge)
    : Type 0 where
  kept : (e : Error) → r.0 ≡ some e → r.1.manager ≡ m → Change cfg secrets m r
  changed :
      r.1.manager.cfg ≡ running_config cfg secrets
      → r.1.manager.secrets ≡ secrets
      → r.1.manager.mock ≡ m.mock
      → Change cfg secrets m r

pub apply-Change :
    (w : World) (cfg : Config) (secrets : Secrets) (b : Bridge)
    → Change cfg secrets b.manager (apply w cfg secrets b)
unfolding save install
apply-Change w cfg secrets b = elim (apply-Ending w cfg secrets b) [
  | rejected e p q ↦ kept e (ap (λ r. r.0) q) (ap (λ r. r.1.manager) q)
  | unsaved e p q r s ↦ kept e q r
  | installed collector p q r ↦
      changed (ap (λ x. x.1.manager.cfg) r) (ap (λ x. x.1.manager.secrets) r)
        (ap (λ x. x.1.manager.mock) r)
]

-- What the first Refresh with the new collector makes of the cache, and what it returns.
pub data IsRefreshed (w : World) (collector : Collector) (old new : Cache Collector)
    : Option Error → Type 0 where
  fresh :
      (t : State)
      → w.collect collector ≡ ok t
      → new.state ≡ finalize t
      → new.last_ok ≡ w.now
      → new.last_err ≡ none
      → new.has_state ≡ true
      → IsRefreshed w collector old new none
  failed :
      (e : Error)
      → w.collect collector ≡ err e
      → new.state ≡ old.state
      → new.last_ok ≡ old.last_ok
      → new.last_err ≡ some e
      → new.has_state ≡ old.has_state
      → IsRefreshed w collector old new (some e)

-- A manager that runs a configuration: with its settings, its sources without their tokens, its
-- secrets, and a cache that collects for it.
pub record IsRunning (w : World) (c : Config) (secrets : Secrets) (collector : Collector)
    (old new : Manager) (e : Option Error) : Type 0 where
  pub cfg : new.cfg ≡ record c {
    proxmox = map (λ (h : ProxmoxHost). record h { token_value = [] }) (apply_defaults c).proxmox;
  }
  pub secrets_kept : new.secrets ≡ secrets
  pub store : new.store ≡ old.store
  pub mock : new.mock ≡ old.mock
  pub collecting : new.cache.collector ≡ collector
  pub poll : new.cache.poll_interval ≡ poll_interval c.server
  pub stale : new.cache.stale_after ≡ stale_after c.server
  pub refreshed : IsRefreshed w collector old.cache new.cache e

-- How a call of `apply` ended, with what the bridge has then.
pub data Outcome (w : World) (c : Config) (secrets : Secrets) (b : Bridge)
    (r : Option Error × Bridge) : Type 0 where
  refused :
      (e : Error)
      → collector_for_config w c b.manager.mock ≡ err e
      → r ≡ (some e, b)
      → Outcome w c secrets b r
  not_saved :
      (e : Error)
      → (save w.yaml w.os b.manager.store c secrets b.disk).result ≡ err e
      → r.0 ≡ some e
      → r.1.manager ≡ b.manager
      → r.1.disk ≡ (save w.yaml w.os b.manager.store c secrets b.disk).disk
      → Outcome w c secrets b r
  running :
      (collector : Collector)
      → collector_for_config w c b.manager.mock ≡ ok collector
      → (save w.yaml w.os b.manager.store c secrets b.disk).result ≡ ok tt
      → IsRunning w c secrets collector b.manager r.1.manager r.0
      → r.1.disk ≡ (save w.yaml w.os b.manager.store c secrets b.disk).disk
      → Outcome w c secrets b r

refresh-IsRefreshed :
    (w : World) (collector : Collector) (poll stale : ℤ) (old : Cache Collector) (x : Result State)
    → w.collect collector ≡ x
    → IsRefreshed w collector old
        (refresh x w.now (reconfigure collector poll stale old)).1
        (refresh x w.now (reconfigure collector poll stale old)).0
unfolding refresh reconfigure
refresh-IsRefreshed w collector poll stale old (ok t) h = fresh t h refl refl refl refl
refresh-IsRefreshed w collector poll stale old (err e) h = failed e h refl refl refl refl

refresh-keeps :
    (x : Result State) (now : ℤ) (c : Cache Collector)
    → ((refresh x now c).1.collector ≡ c.collector)
      × ((refresh x now c).1.poll_interval ≡ c.poll_interval)
      × ((refresh x now c).1.stale_after ≡ c.stale_after)
unfolding refresh
refresh-keeps (ok t) now c = (refl, refl, refl)
refresh-keeps (err e) now c = (refl, refl, refl)

install-IsRunning :
    (w : World) (collector : Collector) (c : Config) (secrets : Secrets) (b : Bridge)
    → (let r =
          install w collector c secrets (save w.yaml w.os b.manager.store c secrets b.disk) b in
        IsRunning w c secrets collector b.manager r.1.manager r.0)
unfolding install save reconfigure saved_config blank_token
install-IsRunning w collector c secrets b =
    let cache =
      reconfigure collector (poll_interval c.server) (stale_after c.server) b.manager.cache in
    let kept = refresh-keeps (w.collect collector) w.now cache in
    record {
      cfg = refl;
      secrets_kept = refl;
      store = refl;
      mock = refl;
      collecting = kept.0;
      poll = kept.1;
      stale = kept.2;
      refreshed =
          refresh-IsRefreshed w collector (poll_interval c.server) (stale_after c.server)
            b.manager.cache (w.collect collector) refl;
    }

-- A call of `apply` completes the configuration with its defaults and its secrets. It returns the error
-- of the collector's construction, with nothing changed; or that of Save, with the files as Save leaves
-- them and the manager as it was; or it is saved. Then the manager has the completed configuration, but
-- with the tokens of its sources cleared, and the secrets, and keeps its store and its mode; its cache
-- has the collector and the two intervals of the configuration; and Collect has been called once: its
-- answer is the state in the cache, and its error is returned and recorded beside the old state.
pub apply-Outcome :
    (w : World) (cfg : Config) (secrets : Secrets) (b : Bridge)
    → Outcome w (apply_secrets secrets (apply_defaults cfg)) secrets b (apply w cfg secrets b)
unfolding apply prepared install
apply-Outcome w cfg secrets b = elim (apply-Ending w cfg secrets b) [
  | rejected e p q ↦ refused e p q
  | unsaved e p q r s ↦ not_saved e p q r s
  | installed collector p q r ↦
      rw r (
        running collector p q (install-IsRunning w collector (prepared cfg secrets) secrets b) refl)
]
