-- ===== src/Runtime/Operations/Success.antt =====
-- When an operation returns no error, and what is installed then
-- (apps/bridge/internal/runtime/manager.go).
use proxmox_desk_display.Runtime.Apply.{rejected, unsaved, installed, apply-Ending}
use proxmox_desk_display.Runtime.Manager.{
  World, apply, Bridge, collector_for_config, prepared, Collector, install,
}
use proxmox_desk_display.Base.{none, refl, ◌≡◌, none-ne-some, ◌∙◌, ◌↔◌, sym, ap}
use proxmox_desk_display.Errors.{ok, err, Result}
use proxmox_desk_display.Config.{Config, poll_interval, stale_after}
use proxmox_desk_display.Cache.{refresh, Cache, reconfigure}
use proxmox_desk_display.ConfigStore.Secrets.{Secrets}
use proxmox_desk_display.Display.State.{State}
use proxmox_desk_display.ConfigStore.Files.{save}
use proxmox_desk_display.Base.Int.{ℤ}

-- The three steps of `apply` that can fail have not.
pub record Succeeds (w : World) (c : Config) (s : Secrets) (b : Bridge) : Type 0 where
  pub collector : Collector
  pub state : State
  pub built : collector_for_config w (prepared c s) b.manager.mock ≡ ok collector
  pub saved : (save w.yaml w.os b.manager.store (prepared c s) s b.disk).result ≡ ok tt
  pub collected : w.collect collector ≡ ok state

refresh-collected :
    (x : Result State) (now : ℤ) (cache : Cache Collector)
    → (refresh x now cache).0 ≡ none
    → (t : State) × (x ≡ ok t)
unfolding refresh
refresh-collected (err e) now cache h = absurd (none-ne-some e (sym h))
refresh-collected (ok t) now cache h = (t, refl)

module _ (w : World) (c : Config) (s : Secrets) (b : Bridge) where
  apply-refresh :
      (collector : Collector)
      → collector_for_config w (prepared c s) b.manager.mock ≡ ok collector
      → (save w.yaml w.os b.manager.store (prepared c s) s b.disk).result ≡ ok tt
      → (cache : Cache Collector) × ((apply w c s b).0
          ≡ (refresh (w.collect collector) w.now cache).0)
  unfolding apply install
  apply-refresh collector p q = (
    reconfigure collector (poll_interval (prepared c s).server) (stale_after (prepared c s).server)
        b.manager.cache,
    rw (p, q, apply) refl,
  )

  apply-Succeeds : (apply w c s b).0 ≡ none → Succeeds w c s b
  apply-Succeeds h = elim (apply-Ending w c s b) [
    | rejected e p q ↦ absurd (none-ne-some e (sym h ∙ ap (λ r. r.0) q))
    | unsaved e p q r s ↦ absurd (none-ne-some e (sym h ∙ q))
    | installed collector p q r ↦
        (let (cache, same) = apply-refresh collector p q in
          let (t, k) = refresh-collected (w.collect collector) w.now cache (sym same ∙ h) in
          record { collector = collector; state = t; built = p; saved = q; collected = k })
  ]

  Succeeds-apply : Succeeds w c s b → (apply w c s b).0 ≡ none
  unfolding refresh
  Succeeds-apply done =
      let (cache, same) = apply-refresh done.collector done.built done.saved in
      same ∙ rw (done.collected, refresh) refl

  -- `apply` returns no error exactly when a collector is built for the configuration, the files are
  -- saved and the first call of Collect succeeds.
  pub apply_iff : ((apply w c s b).0 ≡ none) ↔ Succeeds w c s b
  apply_iff = (apply-Succeeds, Succeeds-apply)
