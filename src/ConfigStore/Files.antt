-- ===== src/ConfigStore/Files.antt =====
-- The store's files (apps/bridge/internal/configstore/store.go). The YAML library is a parameter; the
-- operating system's failures are an argument of each operation.
pub mod Secrecy
pub mod Writes
pub mod Atomicity
pub mod RoundTrip
use proxmox_desk_display.Base.Text.{Text, text_eq, codes}
use proxmox_desk_display.Config.{Config, ProxmoxHost, apply_defaults, new_default}
use proxmox_desk_display.Base.{Option, [], List, map, some, none, if◌then◌else◌}
use proxmox_desk_display.Errors.{Result, Error, ◌>>=◌, err, empty_path, ok, external}
use proxmox_desk_display.ConfigStore.Secrets.{Secrets, apply_secrets}

pub record Store : Type 0 where
  pub data_dir : Text
  pub config_path : Text
  pub secrets_path : Text

-- The files by their paths.
abbrev pub DiskFiles : Type 0
DiskFiles = Text → Option Text

-- What each call of the operating system answers for a path; none is success. `temp` is the name that
-- CreateTemp makes for a path, and `written` is the part of the data that a failed write has put.
pub record Faults : Type 0 where
  pub temp : Text → Text
  pub written : Text → Text → Text
  pub remove : Text → Option Error
  pub mkdir : Text → Option Error
  pub create : Text → Option Error
  pub write : Text → Option Error
  pub chmod : Text → Option Error
  pub close : Text → Option Error
  pub rename : Text → Option Error
  pub read : Text → Option Error

-- gopkg.in/yaml.v3 on the two types that the program stores.
pub record Yaml : Type 0 where
  pub encode_config : Config → Result Text
  pub decode_config : Text → Result Config
  pub encode_secrets : Secrets → Result Text
  pub decode_secrets : Text → Result Secrets

-- `if err := f(); err != nil { return err }`
abbrev pub check : Option Error → Result (Unit {0})
check none = ok tt
check (some e) = err e

infixl 5 ◌>>◌
abbrev pub ◌>>◌ {ℓ} : {B : Type ℓ} → Result (Unit {0}) → Result B → Result B
m >> k = m >>= λ _. k

-- CreateTemp makes no file whose name is taken.
abbrev pub absent : Option Text → Result (Unit {0})
absent none = ok tt
absent (some bytes) = err (external (codes "file exists"))

-- The end of a run that has made the temporary file and failed: the deferred os.Remove, whose error is
-- dropped.
unfoldable pub clean_up : Faults → Text → Text → DiskFiles → DiskFiles
clean_up os temp left disk = elim (os.remove temp) [
  | none ↦ λ p. if text_eq p temp then none else disk p
  | some e ↦ λ p. if text_eq p temp then some left else disk p
]

-- writeFileAtomic: the data goes to a temporary file, which the last step renames to the path, so that
-- a path holds its old data or all of the new; the deferred os.Remove finds no file then. Two paths are
-- those of one file exactly if their texts are equal.
unfoldable pub write_file_atomic : Faults → Text → Text → DiskFiles → Result (Unit {0}) × DiskFiles
unfolding clean_up
write_file_atomic os [] bytes disk = (err empty_path, disk)
write_file_atomic os path bytes disk =
    let temp = os.temp path in
    elim (check (os.mkdir path) >> check (os.create path) >> absent (disk temp)) [
      | err e ↦ (err e, disk)
      | ok _ ↦ elim (os.write path) [
        | some e ↦ (err e, clean_up os temp (os.written path bytes) disk)
        | none ↦ elim (check (os.chmod path) >> check (os.close path) >> check (os.rename path)) [
          | err e ↦ (err e, clean_up os temp bytes disk)
          | ok _ ↦ (
            ok tt,
            λ p. if text_eq p path then some bytes else if text_eq p temp then none else disk p,
          )
        ]
      ]
    ]

-- The loop of Save that clears the tokens of the sources.
unfoldable pub blank_token : ProxmoxHost → ProxmoxHost
blank_token h = record h { token_value = [] }

-- The configuration that Save encodes.
unfoldable pub saved_config : Config → Config
unfolding blank_token apply_defaults
saved_config c =
    let d = apply_defaults c in
    record d {
      server = record d.server { display_token_value = []; admin_token_value = [] };
      proxmox = map blank_token d.proxmox;
    }

-- What a call of Save leaves: its result, the files, and the elements of the caller's `cfg.Proxmox`,
-- whose array the copy shares.
pub record Saved : Type 0 where
  pub result : Result (Unit {0})
  pub disk : DiskFiles
  pub shared : List ProxmoxHost

-- `if err := write(); err != nil { return err }`
abbrev pub if_written :
    Result (Unit {0}) × DiskFiles
    → (DiskFiles → Result (Unit {0}) × DiskFiles)
    → Result (Unit {0}) × DiskFiles
if_written (err e, disk) next = (err e, disk)
if_written (ok _, disk) next = next disk

-- The write of one file as a step of Save.
abbrev pub then_write :
    Result Text
    → (Text → Result (Unit {0}) × DiskFiles)
    → DiskFiles
    → (DiskFiles → Result (Unit {0}) × DiskFiles)
    → Result (Unit {0}) × DiskFiles
then_write (err e) write disk next = (err e, disk)
then_write (ok bytes) write disk next = if_written (write bytes) next

unfoldable pub save_files :
    Yaml → Faults → Store → Config → Secrets → DiskFiles → Result (Unit {0}) × DiskFiles
save_files yaml os store c secrets disk = elim (os.mkdir store.data_dir) [
  | some e ↦ (err e, disk)
  | none ↦
      then_write (yaml.encode_config c) (λ b. write_file_atomic os store.config_path b disk) disk
        λ disk'.
          then_write (yaml.encode_secrets secrets)
            (λ b. write_file_atomic os store.secrets_path b disk') disk' λ disk''. (ok tt, disk'')
]

unfoldable pub save : Yaml → Faults → Store → Config → Secrets → DiskFiles → Saved
unfolding save_files saved_config
save yaml os store c secrets disk =
    let written = save_files yaml os store (saved_config c) secrets disk in
    record { result = written.0; disk = written.1; shared = (saved_config c).proxmox }

-- os.ReadFile of a path that os.Stat has found
abbrev read_file : Faults → Text → Text → Result Text
read_file os path bytes = check (os.read path) >> ok bytes

unfoldable pub load_secrets : Yaml → Faults → Store → DiskFiles → Result Secrets
load_secrets yaml os store disk = elim (disk store.secrets_path) [
  | none ↦ ok (record { admin_token = []; display_token = []; proxmox_tokens = [] })
  | some bytes ↦ read_file os store.secrets_path bytes >>= yaml.decode_secrets
]

-- config.Load (apps/bridge/internal/config/config.go), and the default where there is no file
unfoldable pub load_config : Yaml → Faults → Store → DiskFiles → Result Config
load_config yaml os store disk = elim (disk store.config_path) [
  | none ↦ ok new_default
  | some bytes ↦ read_file os store.config_path bytes >>= λ b.
      yaml.decode_config b >>= λ c. ok (apply_defaults c)
]

unfoldable pub load : Yaml → Faults → Store → DiskFiles → Result (Config × Secrets)
unfolding load_secrets load_config
load yaml os store disk = load_config yaml os store disk >>= λ c.
    load_secrets yaml os store disk >>= λ secrets. ok (apply_secrets secrets c, secrets)
