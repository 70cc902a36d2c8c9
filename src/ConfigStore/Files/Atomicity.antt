-- ===== src/ConfigStore/Files/Atomicity.antt =====
-- The ways in which Save ends, and what is on the disk then (apps/bridge/internal/configstore/store.go).
use proxmox_desk_display.Base.{refl, inl, inr, ◌≡◌, ◌≢◌, none, some, Option-cases, ◌∙◌}
use proxmox_desk_display.Errors.{ok, err, Result, Error}
use proxmox_desk_display.ConfigStore.Files.{
  write_file_atomic, Yaml, Faults, Store, DiskFiles, save_files, then_write,
}
use proxmox_desk_display.ConfigStore.Files.Writes.{IsUntouched, untouched, write_file-cases}
use proxmox_desk_display.Base.Text.{Text}
use proxmox_desk_display.Config.{Config}
use proxmox_desk_display.ConfigStore.Secrets.{Secrets}

-- What the writes of Save return and leave on the disk.
pub data Outcome (yaml : Yaml) (os : Faults) (store : Store) (c : Config) (secrets : Secrets)
    (disk : DiskFiles) (r : Result (Unit {0}) × DiskFiles) : Type 0 where
  unchanged :
      (e : Error) (d : DiskFiles)
      → IsUntouched os store.config_path disk d
      → r ≡ (err e, d)
      → Outcome yaml os store c secrets disk r
  config_only :
      (e : Error) (b : Text) (d : DiskFiles)
      → yaml.encode_config c ≡ ok b
      → d store.config_path ≡ some b
      → ((q x : Text) → q ≢ store.config_path → disk q ≡ some x → d q ≡ some x)
      → ((q : Text) → q ≢ store.config_path → q ≢ os.temp store.secrets_path → d q ≡ disk q)
      → (os.remove (os.temp store.secrets_path) ≡ none
          → (q : Text) → q ≢ store.config_path
          → d q ≡ disk q)
      → r ≡ (err e, d)
      → Outcome yaml os store c secrets disk r
  both :
      (b t : Text) (d : DiskFiles)
      → yaml.encode_config c ≡ ok b
      → yaml.encode_secrets secrets ≡ ok t
      → d store.secrets_path ≡ some t
      → (store.config_path ≢ store.secrets_path → d store.config_path ≡ some b)
      → ((q : Text) → q ≢ store.config_path → q ≢ store.secrets_path → d q ≡ disk q)
      → r ≡ (ok tt, d)
      → Outcome yaml os store c secrets disk r

module _ (yaml : Yaml) (os : Faults) (store : Store) (c : Config) (secrets : Secrets)
    (disk : DiskFiles) where
  -- Save after the configuration file has been written.
  second-Outcome :
      (b : Text) (disk' : DiskFiles)
      → yaml.encode_config c ≡ ok b
      → disk' store.config_path ≡ some b
      → ((q : Text) → q ≢ store.config_path → disk' q ≡ disk q)
      → (x : Result Text) → yaml.encode_secrets secrets ≡ x
      → Outcome yaml os store c secrets disk (
          then_write x (λ t. write_file_atomic os store.secrets_path t disk') disk' λ d. (ok tt, d))
  second-Outcome b disk' p own kept (err e) y =
      config_only e b disk' p own (λ q x ne h. kept q ne ∙ h) (λ q ne m. kept q ne)
        (λ r q ne. kept q ne) refl
  second-Outcome b disk' p own kept (ok t) y =
      elim (write_file-cases os store.secrets_path t disk') [
        | inl (e, d, w, u) ↦
            config_only e b d p (u.existing store.config_path b own)
              (λ q x ne h. u.existing q x (kept q ne ∙ h)) (λ q ne m. u.others q m ∙ kept q ne)
              (λ r q ne. u.removed r q ∙ kept q ne) (rw (w, then_write) refl)
        | inr (d, w, mine, others) ↦
            both b t d p y mine (λ ne. others store.config_path ne ∙ own)
              (λ q n m. others q m ∙ kept q n) (rw (w, then_write) refl)
      ]

  first-Outcome :
      (x : Result Text)
      → yaml.encode_config c ≡ x
      → Outcome yaml os store c secrets disk (
          then_write x
            (λ b. write_file_atomic os store.config_path b disk)
            disk
            λ disk'.
              then_write
                (yaml.encode_secrets secrets)
                (λ t. write_file_atomic os store.secrets_path t disk')
                disk'
                λ d. (ok tt, d))
  first-Outcome (err e) p = unchanged e disk (untouched os store.config_path disk) refl
  first-Outcome (ok b) p = elim (write_file-cases os store.config_path b disk) [
    | inl (e, d, w, u) ↦ unchanged e d u (rw (w, then_write) refl)
    | inr (d, w, mine, others) ↦
        rw (w, then_write) (second-Outcome b d p mine others (yaml.encode_secrets secrets) refl)
  ]

  -- The writes of Save fail and every file is as it was; or they fail after the configuration file, which
  -- then holds the whole encoding of the configuration, while every other file is as it was; or they
  -- succeed: the secrets file holds the whole encoding of the secrets, the configuration file, if its
  -- path is another, that of the configuration, and every other path is as it was. After a failure there
  -- can be one new file, the temporary one of the write that failed, if os.Remove failed on it as well.
  pub save_files-Outcome :
      Outcome yaml os store c secrets disk (save_files yaml os store c secrets disk)
  unfolding save_files
  save_files-Outcome = elim (Option-cases (os.mkdir store.data_dir)) [
    | inl p ↦ rw (p, save_files) (first-Outcome (yaml.encode_config c) refl)
    | inr (e, p) ↦ unchanged e disk (untouched os store.config_path disk) (rw (p, save_files) refl)
  ]
