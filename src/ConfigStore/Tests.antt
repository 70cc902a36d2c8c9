-- ===== src/ConfigStore/Tests.antt =====
-- Runs of package configstore on concrete ids, files and faults.
use proxmox_desk_display.Base.Text.{trim}
use proxmox_desk_display.Base.Text.{to_lower}
use proxmox_desk_display.Base.{keep_if, subst, ◌++◌}
use proxmox_desk_display.ConfigStore.Files.{write_file_atomic}
use proxmox_desk_display.Base.Text.{text_eq}
use proxmox_desk_display.Base.Text.{trim_space}
use proxmox_desk_display.Config.{apply_defaults}
use proxmox_desk_display.Base.{[], ◌∷◌, some, none, refl, ◌≡◌, ◌≢◌, false, arith}
use proxmox_desk_display.Config.Tests.{one_source, home}
use proxmox_desk_display.Config.{Config}
use proxmox_desk_display.Base.Text.{Text, codes}
use proxmox_desk_display.ConfigStore.Secrets.{Secrets, apply_secrets}
use proxmox_desk_display.ConfigStore.Files.{Store, Yaml, Faults, DiskFiles, save, load, save_files}
use proxmox_desk_display.ConfigStore.Files.Atomicity.{Outcome, save_files-Outcome}
use proxmox_desk_display.Errors.{ok, external}
use proxmox_desk_display.ConfigStore.Ids.{sanitize_id, has_double_dash, collapse_dashes}
use proxmox_desk_display.ConfigStore.Ids.Clean.{
  IsCleanId, sanitize_id-IsCleanId, collapse_dashes_total,
}
use proxmox_desk_display.ConfigStore.Files.Secrecy.{IsTokenFree, save-IsTokenFree}
use proxmox_desk_display.ConfigStore.Files.RoundTrip.{load-save}

sanitized : sanitize_id (codes " Home -- Lab_1 ") ≡ codes "home-lab-1"
unfolding sanitize_id collapse_dashes trim keep_if to_lower trim_space
sanitized = refl

collapse_dashes_total_example : has_double_dash (collapse_dashes 5 (codes "a---b")) ≡ false
collapse_dashes_total_example = collapse_dashes_total 5 (codes "a---b") (omega arith)

sanitize_id-IsCleanId_example : IsCleanId (sanitize_id (codes " Home -- Lab_1 "))
sanitize_id-IsCleanId_example = sanitize_id-IsCleanId (codes " Home -- Lab_1 ")

lab : sanitize_id (codes "Lab 1") ≡ codes "lab-1"
unfolding sanitize_id collapse_dashes trim keep_if to_lower trim_space
lab = refl

lab-IsCleanId : IsCleanId (codes "lab-1")
lab-IsCleanId = subst IsCleanId lab (sanitize_id-IsCleanId (codes "Lab 1"))

abbrev pub no_faults : Faults
no_faults = record {
  temp = λ p. p ++ codes ".tmp";
  written = λ p b. b;
  remove = λ p. none;
  mkdir = λ p. none;
  create = λ p. none;
  write = λ p. none;
  chmod = λ p. none;
  close = λ p. none;
  rename = λ p. none;
  read = λ p. none;
}

abbrev pub store : Store
store = record {
  data_dir = codes "/data";
  config_path = codes "/data/config.yaml";
  secrets_path = codes "/data/secrets.yaml";
}

abbrev pub secrets : Secrets
secrets = record {
  admin_token = codes "admin";
  display_token = codes "secret";
  proxmox_tokens = (codes "home", codes "root@pam!desk=1") ∷ [];
}

-- The sample configuration without its tokens.
abbrev pub bare : Config
bare = record one_source {
  server = record one_source.server { display_token_value = [] };
  proxmox = record home { token_value = [] } ∷ [];
}

-- A codec for one configuration and its secrets.
abbrev pub one_yaml : Yaml
one_yaml = record {
  encode_config = λ c. ok (codes "config");
  decode_config = λ t. ok (apply_defaults bare);
  encode_secrets = λ s. ok (codes "secrets");
  decode_secrets = λ t. ok secrets;
}

abbrev pub no_files : DiskFiles
no_files path = none

paths_differ : store.config_path ≢ store.secrets_path
paths_differ e = cc

save_files-Outcome_example :
    Outcome one_yaml no_faults store bare secrets no_files
      (save_files one_yaml no_faults store bare secrets no_files)
save_files-Outcome_example = save_files-Outcome one_yaml no_faults store bare secrets no_files

saved : (save one_yaml no_faults store one_source secrets no_files).result ≡ ok tt
unfolding save write_file_atomic text_eq
saved = refl

-- A rename that fails, and then a removal: the data stays in the temporary file.
abbrev stuck : Faults
stuck = record no_faults {
  rename = λ p. some (external (codes "cross-device link"));
  remove = λ p. some (external (codes "permission denied"));
}

left_behind :
    (write_file_atomic stuck (codes "/data/s") (codes "t") no_files).1 (codes "/data/s.tmp")
    ≡ some (codes "t")
unfolding write_file_atomic text_eq
left_behind = refl

save-IsTokenFree_example :
    (d : Config) × (b : Text) × (t : Text) × IsTokenFree d
    × (one_yaml.encode_config d ≡ ok b)
    × (one_yaml.encode_secrets secrets ≡ ok t)
    × ((save one_yaml no_faults store one_source secrets no_files).disk store.config_path ≡ some b)
    × ((save one_yaml no_faults store one_source secrets no_files).disk store.secrets_path ≡ some t)
save-IsTokenFree_example =
    save-IsTokenFree one_yaml no_faults store one_source secrets no_files paths_differ saved

bare-IsTokenFree : IsTokenFree bare
bare-IsTokenFree = record { display = refl; admin = refl; sources = (refl, tt) }

saved_with_secrets :
    (save one_yaml no_faults store (apply_secrets secrets bare) secrets no_files).result ≡ ok tt
unfolding save write_file_atomic text_eq
saved_with_secrets = refl

load-save_example :
    load one_yaml no_faults store
      (save one_yaml no_faults store (apply_secrets secrets bare) secrets no_files).disk
    ≡ ok (apply_secrets secrets (apply_defaults bare), secrets)
load-save_example =
    load-save one_yaml no_faults store bare secrets no_files bare-IsTokenFree paths_differ refl refl
      (λ b h. refl) (λ t h. refl) saved_with_secrets
