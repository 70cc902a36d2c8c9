-- ===== src/Runtime/Operations/Invariant.antt =====
-- What every sequence of the admin's operations keeps of the manager
-- (apps/bridge/internal/runtime/manager.go).
use proxmox_desk_display.Runtime.Apply.{kept, changed}
use proxmox_desk_display.Runtime.Operations.{updating, upserting, deleting, refreshing}
use proxmox_desk_display.Config.{Config}
use proxmox_desk_display.Config.Validation.{AreFresh}
use proxmox_desk_display.Base.{[], inl, inr, Bool-cases, ◌∷◌, List, arith, any}
use proxmox_desk_display.Runtime.Thresholds.{
  HasSafeSettings, updated_config-HasSafeSettings, running_config-HasSafeSettings,
}
use proxmox_desk_display.Runtime.Manager.{
  World, update_server, Bridge, ServerUpdate, apply, updated_config, updated_secrets, upsert_source,
  delete_source, put_token, remove_source, put_source, refresh_bridge,
}
use proxmox_desk_display.ConfigStore.Secrets.{apply_secrets, Secrets, delete_token}
use proxmox_desk_display.Runtime.Operations.Fresh.{
  apply_secrets-AreFresh, put_source-AreFresh, source_from_update-id, remove_source-AreFresh,
  running_config-AreFresh,
}
use proxmox_desk_display.Runtime.Apply.{apply-Change}
use proxmox_desk_display.Base.Int.{ltb_ℤ, pos}
use proxmox_desk_display.Runtime.Operations.{run, run_all, Operation}
use proxmox_desk_display.Runtime.Source.{SourceUpdate, source_from_update}
use proxmox_desk_display.Base.Text.{Text, is_empty, text_eq}
use proxmox_desk_display.Errors.{Result-cases}
use proxmox_desk_display.ConfigStore.Ids.{sanitize_id}

-- The sources have distinct ids, and the settings are in range and in order.
pub record IsSound (c : Config) : Type 0 where
  pub ids : AreFresh [] c.proxmox
  pub settings : HasSafeSettings c

-- `apply` of a sound configuration.
apply-IsSound :
    (w : World) (c : Config) (s : Secrets) (b : Bridge)
    → IsSound b.manager.cfg
    → IsSound c
    → IsSound (apply w c s b).1.manager.cfg
apply-IsSound w c s b old new = elim (apply-Change w c s b) [
  | kept e p q ↦ rw q old
  | changed p q r ↦ rw p (record {
    ids = running_config-AreFresh c s new.ids;
    settings = running_config-HasSafeSettings c s new.settings;
  })
]

apply_secrets-HasSafeSettings :
    (s : Secrets) (c : Config) → HasSafeSettings c → HasSafeSettings (apply_secrets s c)
unfolding apply_secrets
apply_secrets-HasSafeSettings s c safe = safe

apply_secrets-IsSound : (s : Secrets) (c : Config) → IsSound c → IsSound (apply_secrets s c)
apply_secrets-IsSound s c sound = record {
  ids = apply_secrets-AreFresh s c sound.ids;
  settings = apply_secrets-HasSafeSettings s c sound.settings;
}

updated_config-AreFresh :
    (input : ServerUpdate) (c : Config)
    → AreFresh [] c.proxmox
    → AreFresh [] (updated_config input c).proxmox
unfolding updated_config
updated_config-AreFresh input c fresh = fresh

update_server-IsSound :
    (w : World) (input : ServerUpdate) (b : Bridge)
    → IsSound b.manager.cfg
    → IsSound (update_server w input b).1.manager.cfg
unfolding update_server
update_server-IsSound w input b sound =
    let secrets = updated_secrets input b.manager.secrets in
    let c = updated_config input b.manager.cfg in
    elim (Bool-cases (ltb_ℤ input.poll_interval_seconds (pos 5))) [
      | inl p ↦ rw p sound
      | inr p ↦ elim (Bool-cases (ltb_ℤ input.stale_after_seconds input.poll_interval_seconds)) [
        | inl q ↦ rw (p, q) sound
        | inr q ↦
            rw (p, q)
              (apply-IsSound w (apply_secrets secrets c) secrets b sound (
                apply_secrets-IsSound secrets c (record {
                  ids = updated_config-AreFresh input b.manager.cfg sound.ids;
                  settings =
                      updated_config-HasSafeSettings input b.manager.cfg (ground arith)
                        (ground arith);
                })))
      ]
    ]

upsert_source-IsSound :
    (w : World) (input : SourceUpdate) (b : Bridge)
    → IsSound b.manager.cfg
    → IsSound (upsert_source w input b).1.manager.cfg
unfolding upsert_source
upsert_source-IsSound w input b sound =
    let c = b.manager.cfg in
    let s = b.manager.secrets in
    elim (Result-cases (source_from_update c.proxmox s.proxmox_tokens input)) [
      | inl (e, p) ↦ rw (p, upsert_source) sound
      | inr (h, p) ↦
          (let secrets = put_token h.id input.token s in
            let d : Config = record c { proxmox = put_source h c.proxmox } in
            rw (p, upsert_source)
              (apply-IsSound w (apply_secrets secrets d) secrets b sound (
                apply_secrets-IsSound secrets d (record {
                  ids =
                      put_source-AreFresh h c.proxmox
                        (source_from_update-id c.proxmox s.proxmox_tokens input h p) sound.ids;
                  settings = sound.settings;
                }))))
    ]

delete_source-IsSound :
    (w : World) (raw : Text) (b : Bridge)
    → IsSound b.manager.cfg
    → IsSound (delete_source w raw b).1.manager.cfg
unfolding delete_source
delete_source-IsSound w raw b sound =
    let c = b.manager.cfg in
    let s = b.manager.secrets in
    let id = sanitize_id raw in
    let secrets : Secrets = record s { proxmox_tokens = delete_token id s.proxmox_tokens } in
    let d : Config = record c { proxmox = remove_source id c.proxmox } in
    elim (Bool-cases (is_empty id)) [
      | inl p ↦ rw p sound
      | inr p ↦ elim (Bool-cases (any (λ h. text_eq h.id id) c.proxmox)) [
        | inl q ↦
            rw (p, q)
              (apply-IsSound w (apply_secrets secrets d) secrets b sound (
                apply_secrets-IsSound secrets d (record {
                  ids = remove_source-AreFresh id [] c.proxmox sound.ids;
                  settings = sound.settings;
                })))
        | inr q ↦ rw (p, q) sound
      ]
    ]

pub run-IsSound :
    (w : World) (op : Operation) (b : Bridge)
    → IsSound b.manager.cfg
    → IsSound (run w op b).1.manager.cfg
unfolding run refresh_bridge
run-IsSound w (updating input) b sound = update_server-IsSound w input b sound
run-IsSound w (upserting input) b sound = upsert_source-IsSound w input b sound
run-IsSound w (deleting id) b sound = delete_source-IsSound w id b sound
run-IsSound w refreshing b sound = sound

-- No sequence of operations, whatever fails on the way, takes a bridge whose sources have distinct
-- ids that are not empty and whose settings are in range and in order to one that is not so.
pub run_all-IsSound :
    (ops : List (World × Operation)) (b : Bridge)
    → IsSound b.manager.cfg
    → IsSound (run_all ops b).manager.cfg
unfolding run_all
run_all-IsSound [] b sound = sound
run_all-IsSound ((w, op) ∷ rest) b sound =
    run_all-IsSound rest (run w op b).1 (run-IsSound w op b sound)
