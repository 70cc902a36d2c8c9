-- ===== src/Runtime/Tests.antt =====
-- Runs of the manager in mock mode, with files that can be written and a collector that answers.
use proxmox_desk_display.Runtime.Source.{source_from_update}
use proxmox_desk_display.ConfigStore.Files.{save}
use proxmox_desk_display.Cache.{refresh}
use proxmox_desk_display.ConfigStore.Secrets.{apply_secrets}
use proxmox_desk_display.ConfigStore.Ids.{collapse_dashes}
use proxmox_desk_display.Base.{keep_if, ◌∙◌, sym}
use proxmox_desk_display.Base.Text.{to_lower}
use proxmox_desk_display.Base.Text.{text_eq}
use proxmox_desk_display.Base.{any}
use proxmox_desk_display.Base.Text.{trim}
use proxmox_desk_display.ConfigStore.Files.{write_file_atomic}
use mathlib.Core.Option
use proxmox_desk_display.Config.Tests.{no_env, home}
use proxmox_desk_display.Config.{Config, mock_config, apply_defaults}
use proxmox_desk_display.ConfigStore.Tests.{no_faults, store, secrets, one_yaml, no_files}
use proxmox_desk_display.Runtime.Manager.{
  World, Bridge, mock_collector, ServerUpdate, upsert_source, delete_source, apply,
  collector_for_config,
}
use proxmox_desk_display.Runtime.Source.{SourceUpdate, update_id, built_source, first_non_empty}
use proxmox_desk_display.Runtime.Operations.{
  Operation, updating, upserting, deleting, refreshing, run_all,
}
use proxmox_desk_display.Base.Text.{codes, trim_space}
use proxmox_desk_display.Runtime.Operations.Running.{running_host}
use proxmox_desk_display.Runtime.Apply.{Outcome, apply-Outcome}
use proxmox_desk_display.Cache.{new_cache}
use proxmox_desk_display.Base.{
  [], ◌∷◌, some, none, true, false, refl, ◌≡◌, List, ◌≢◌, ◌↔◌, map, ◌⊎◌, arith,
}
use proxmox_desk_display.Errors.{ok}
use proxmox_desk_display.Display.Finalize.{new_state}
use proxmox_desk_display.Base.Int.{pos}
use proxmox_desk_display.Runtime.Operations.Invariant.{IsSound, run_all-IsSound}
use proxmox_desk_display.Runtime.Sources.{host_for}
use proxmox_desk_display.ConfigStore.Ids.{sanitize_id}
use proxmox_desk_display.ConfigStore.Secrets.{token_for}
use proxmox_desk_display.Runtime.Operations.Success.{Succeeds, apply_iff}
use proxmox_desk_display.Runtime.Snapshot.{snapshot}
use proxmox_desk_display.Runtime.Operations.Effects.{delete_source-removes, upsert_source-puts}
use proxmox_desk_display.Runtime.Operations.Shown.{shown_by_env, apply-token_set}

abbrev pub world : World
world = record {
  getenv = no_env;
  yaml = one_yaml;
  os = no_faults;
  tls = record { read_file = λ p. ok []; has_certs = λ b. true };
  collect = λ c. ok (new_state (pos 7));
  now = pos 9;
}

abbrev one_home : Config
one_home = record mock_config { proxmox = home ∷ [] }

abbrev pub bridge : Bridge
bridge = record {
  manager = record {
    cfg = one_home;
    secrets = secrets;
    store = store;
    cache = new_cache mock_collector (pos 10) (pos 45);
    mock = true;
  };
  disk = no_files;
}

pub bridge-IsSound : IsSound bridge.manager.cfg
unfolding mock_config
bridge-IsSound = record {
  ids = ((λ e. cc), tt, tt);
  settings = record {
    poll_low = omega arith;
    stale_low = omega arith;
    memory_low = omega arith;
    memory_order = omega arith;
    memory_high = omega arith;
    storage_low = omega arith;
    storage_order = omega arith;
    storage_high = omega arith;
  };
}

abbrev lab_update : SourceUpdate
lab_update = record {
  id = [];
  name = codes "Lab";
  base_url = codes "https://lab:8006/";
  token = codes "lab-token";
  tls_mode = codes "insecure";
  fingerprint = [];
  ca_file = [];
}

abbrev server_update : ServerUpdate
server_update = record {
  poll_interval_seconds = pos 5;
  stale_after_seconds = pos 20;
  display_token = [];
  admin_token = [];
  memory_warning_pct = pos 0;
  memory_critical_pct = pos 300;
  storage_warning_pct = pos 80;
  storage_critical_pct = pos 70;
}

abbrev operations : List (World × Operation)
operations =
    (world, updating server_update)
    ∷ (world, upserting lab_update)
    ∷ (world, deleting (codes "Home"))
    ∷ (world, refreshing)
    ∷ []

run_all-IsSound_example : IsSound (run_all operations bridge).manager.cfg
run_all-IsSound_example = run_all-IsSound operations bridge bridge-IsSound

differ : codes "home" ≢ codes "lab"
differ e = cc

lab_id : update_id lab_update ≡ codes "lab"
unfolding update_id sanitize_id collapse_dashes trim keep_if to_lower trim_space
lab_id = refl

upserted : (upsert_source world lab_update bridge).0 ≡ none
unfolding upsert_source source_from_update sanitize_id collapse_dashes trim keep_if to_lower
    trim_space apply collector_for_config save write_file_atomic refresh text_eq
upserted = refl

home-ne-lab : codes "home" ≢ update_id lab_update
home-ne-lab e = differ (e ∙ lab_id)

upsert_source-puts_example :
    (host_for (update_id lab_update) (upsert_source world lab_update bridge).1.manager.cfg.proxmox
      ≡ some (running_host (built_source (home ∷ []) secrets.proxmox_tokens lab_update)))
    × (token_for
          (update_id lab_update)
          (upsert_source world lab_update bridge).1.manager.secrets.proxmox_tokens
        ≡ first_non_empty
            (trim_space (codes "lab-token"))
            (token_for (update_id lab_update) secrets.proxmox_tokens))
    × (host_for (codes "home") (upsert_source world lab_update bridge).1.manager.cfg.proxmox
        ≡ Option.map running_host (host_for (codes "home") (home ∷ [])))
    × (token_for
          (codes "home")
          (upsert_source world lab_update bridge).1.manager.secrets.proxmox_tokens
        ≡ token_for (codes "home") secrets.proxmox_tokens)
upsert_source-puts_example =
    upsert_source-puts world lab_update bridge (codes "home") upserted home-ne-lab

home_id : sanitize_id (codes "Home") ≡ codes "home"
unfolding sanitize_id collapse_dashes trim keep_if to_lower trim_space
home_id = refl

deleted : (delete_source world (codes "Home") bridge).0 ≡ none
unfolding delete_source sanitize_id collapse_dashes trim keep_if to_lower trim_space any text_eq
    apply collector_for_config save write_file_atomic refresh
deleted = refl

lab-ne-home : codes "lab" ≢ sanitize_id (codes "Home")
lab-ne-home e = differ (sym (e ∙ home_id))

delete_source-removes_example :
    (host_for
        (sanitize_id (codes "Home"))
        (delete_source world (codes "Home") bridge).1.manager.cfg.proxmox
      ≡ none)
    × (token_for
          (sanitize_id (codes "Home"))
          (delete_source world (codes "Home") bridge).1.manager.secrets.proxmox_tokens
        ≡ [])
    × (host_for (codes "lab") (delete_source world (codes "Home") bridge).1.manager.cfg.proxmox
        ≡ Option.map running_host (host_for (codes "lab") (home ∷ [])))
    × (token_for
          (codes "lab")
          (delete_source world (codes "Home") bridge).1.manager.secrets.proxmox_tokens
        ≡ token_for (codes "lab") secrets.proxmox_tokens)
delete_source-removes_example =
    delete_source-removes world (codes "Home") bridge (codes "lab") deleted lab-ne-home

apply-Outcome_example :
    Outcome world
      (apply_secrets secrets (apply_defaults one_home))
      secrets
      bridge
      (apply world one_home secrets bridge)
apply-Outcome_example = apply-Outcome world one_home secrets bridge

apply_iff_example :
    ((apply world one_home secrets bridge).0 ≡ none) ↔ Succeeds world one_home secrets bridge
apply_iff_example = apply_iff world one_home secrets bridge

-- The source has a token in the secrets, and is shown without one.
shown_without_token :
    map (λ s. s.token_set) (snapshot no_env (apply world one_home secrets bridge).1.manager).sources
    ≡ false ∷ []
unfolding snapshot apply collector_for_config save write_file_atomic apply_secrets trim_space
    token_for text_eq
shown_without_token = refl

apply-token_set_example :
    ((apply world one_home secrets bridge).1.manager ≡ bridge.manager)
    ⊎ ((snapshot world.getenv (apply world one_home secrets bridge).1.manager).sources
        ≡ map shown_by_env (apply world one_home secrets bridge).1.manager.cfg.proxmox)
apply-token_set_example = apply-token_set world one_home secrets bridge

abbrev pub live : Bridge
live = record bridge { manager = record bridge.manager { mock = false } }
