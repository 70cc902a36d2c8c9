-- ===== src/Provider/Guests/Config.antt =====
-- The configuration of a guest (apps/bridge/internal/proxmox/provider.go).
pub mod Limits
use proxmox_desk_display.Base.{
  [], ◌∷◌, some, none, ℕ, List, Option, if◌then◌else◌, Bool, any, not, ◌++◌, ◌||◌, ◌&&◌,
}
use proxmox_desk_display.Base.Text.{
  Text, split_first, trim_space, text_eq, split, has_prefix, codes, to_lower, is_empty, contains,
  trim_prefix,
}
use proxmox_desk_display.Provider.Json.{
  Floats, Any, is_yes, string_value, first_non_empty, value_of, bool_value, pct_float, int64_value,
  pct_int64, pct_any,
}
use proxmox_desk_display.Provider.Collect.{Sorter, cut, by_id}
use proxmox_desk_display.Base.Int.{ℤ, mul64, is_above_zero, is_set}
use proxmox_desk_display.Display.Guests.{GuestDisk, GuestNic, Guest}
use proxmox_desk_display.Provider.Api.Guests.{GuestStatus}
use proxmox_desk_display.Provider.Convert.Jobs.{updated}

abbrev pub max_guest_disks : ℕ
max_guest_disks = 12

abbrev pub max_guest_nics : ℕ
max_guest_nics = 8

-- The options of the parts `key=value`, the last one first, so that it is found first.
unfoldable pub parse_options : List Text → List (Text × Text) → List (Text × Text)
parse_options [] options = options
parse_options (part ∷ rest) options =
    parse_options rest
      (elim (split_first b'=' (trim_space part)) [ none ↦ options | some pair ↦ pair ∷ options ])

-- `options[key]`
unfoldable pub option_of : Text → List (Text × Text) → Text
option_of key [] = []
option_of key ((k, v) ∷ rest) = if text_eq k key then v else option_of key rest

unfoldable pub is_guest_disk_key : Text → Bool
is_guest_disk_key key =
    any (has_prefix key) (
      codes "scsi" ∷ codes "virtio" ∷ codes "sata" ∷ codes "ide" ∷ codes "mp" ∷ codes "unused" ∷ [])
    || text_eq key (codes "rootfs")

abbrev pub first_part : List Text → Text
first_part [] = []
first_part (p ∷ ps) = p

abbrev pub other_parts : List Text → List Text
other_parts [] = []
other_parts (p ∷ ps) = ps

abbrev pub before : Option (Text × Text) → Text
before none = []
before (some p) = p.0

-- The disk of a key and its text.
unfoldable pub guest_disk : Text → Text → GuestDisk
unfolding parse_options option_of
guest_disk key value =
    let parts = split b',' value in
    let volume = trim_space (first_part parts) in
    let options = parse_options (other_parts parts) [] in
    record {
      name = key;
      storage = before (split_first b':' volume);
      volume = volume;
      size = option_of (codes "size") options;
      format = option_of (codes "format") options;
      backup = is_yes (option_of (codes "backup") options);
      replicate = is_yes (option_of (codes "replicate") options);
      ssd = is_yes (option_of (codes "ssd") options);
    }

-- One turn of the loop of guestDisks: a disk or nothing.
unfoldable pub disk_of_entry : Floats → Text × Any → List GuestDisk
unfolding is_guest_disk_key guest_disk
disk_of_entry f (key, value) =
    if not (is_guest_disk_key key)
    then []
    else if is_empty (string_value f value)
    then []
    else guest_disk key (string_value f value) ∷ []

-- What the turns of a loop over a map append.
unfoldable pub each_entry : {A : Type 0} → (Text × Any → List A) → List (Text × Any) → List A
each_entry turn [] = []
each_entry turn (e ∷ rest) = turn e ++ each_entry turn rest

unfoldable pub guest_disks : Sorter → Floats → List (Text × Any) → List GuestDisk
unfolding each_entry disk_of_entry
guest_disks s f cfg =
    cut max_guest_disks
      (s.sort (by_id (λ (d : GuestDisk). d.name)) (each_entry (disk_of_entry f) cfg))

-- The model and the MAC address, from the first part `model=mac` that is no bridge.
unfoldable pub nic_model : List Text → Text × Text
nic_model [] = ([], [])
nic_model (part ∷ rest) =
    let others = nic_model rest in
    elim (split_first b'=' (trim_space part)) [
      | none ↦ others
      | some pair ↦
          if contains pair.1 (codes ":") && not (text_eq pair.0 (codes "bridge"))
          then pair
          else others
    ]

unfoldable pub guest_nic : Text → Text → GuestNic
unfolding parse_options option_of nic_model
guest_nic key value =
    let parts = split b',' value in
    let options = parse_options parts [] in
    let model = nic_model parts in
    record {
      name = key;
      model = model.0;
      mac = model.1;
      bridge = option_of (codes "bridge") options;
      firewall = is_yes (option_of (codes "firewall") options);
      tag = option_of (codes "tag") options;
      rate = option_of (codes "rate") options;
    }

unfoldable pub nic_of_entry : Floats → Text × Any → List GuestNic
unfolding guest_nic
nic_of_entry f (key, value) =
    if not (has_prefix key (codes "net"))
    then []
    else if is_empty (string_value f value)
    then []
    else guest_nic key (string_value f value) ∷ []

unfoldable pub guest_nics : Sorter → Floats → List (Text × Any) → List GuestNic
unfolding each_entry nic_of_entry
guest_nics s f cfg =
    cut max_guest_nics (s.sort (by_id (λ (n : GuestNic). n.name)) (each_entry (nic_of_entry f) cfg))

-- The first part `ip=…`.
unfoldable pub ip_part : List Text → Option Text
ip_part [] = none
ip_part (part ∷ rest) =
    let others = ip_part rest in
    if has_prefix (trim_space part) (codes "ip=")
    then some (trim_prefix (trim_space part) (codes "ip="))
    else others

unfoldable pub ip_of_keys : Floats → List (Text × Any) → List Text → Text
unfolding ip_part
ip_of_keys f cfg [] = []
ip_of_keys f cfg (key ∷ rest) =
    let others = ip_of_keys f cfg rest in
    elim (ip_part (split b',' (string_value f (value_of key cfg)))) [ none ↦ others | some ip ↦ ip ]

unfoldable pub guest_ip_address : Floats → List (Text × Any) → Text
unfolding ip_of_keys
guest_ip_address f cfg =
    ip_of_keys f cfg (codes "ipconfig0" ∷ codes "ipconfig1" ∷ codes "net0" ∷ codes "net1" ∷ [])

unfoldable pub agent_enabled : Floats → Any → Bool
agent_enabled f value =
    let shown = to_lower (string_value f value) in
    bool_value f value
    || contains shown (codes "enabled=1")
    || contains shown (codes "enabled=true")

-- int64 * 1024 * 1024
unfoldable pub mebibytes : ℤ → ℤ
mebibytes n = mul64 (mul64 n 1024) 1024

unfoldable pub apply_guest_config : Sorter → Floats → List (Text × Any) → Guest → Guest
unfolding agent_enabled guest_ip_address guest_disks guest_nics mebibytes
apply_guest_config s f cfg g =
    let read = λ (key : Text). string_value f (value_of key cfg) in
    let flag = λ (key : Text). bool_value f (value_of key cfg) in
    let tags = read (codes "tags") in
    let cores = int64_value f (value_of (codes "cores") cfg) in
    let memory_mb = int64_value f (value_of (codes "memory") cfg) in
    record g {
      tags = if not (is_empty tags) && is_empty g.tags then tags else g.tags;
      max_cpu = if is_above_zero cores && not (is_set g.max_cpu) then cores else g.max_cpu;
      memory_total_bytes =
          if is_above_zero memory_mb && not (is_set g.memory_total_bytes)
          then mebibytes memory_mb
          else g.memory_total_bytes;
      os_type = first_non_empty (read (codes "ostype") ∷ read (codes "arch") ∷ []);
      cpu_type = read (codes "cpu");
      bios = read (codes "bios");
      machine = read (codes "machine");
      boot_order = read (codes "boot");
      startup = read (codes "startup");
      nameserver = read (codes "nameserver");
      search_domain = read (codes "searchdomain");
      features = read (codes "features");
      on_boot = flag (codes "onboot");
      protection = flag (codes "protection");
      template = flag (codes "template");
      unprivileged = flag (codes "unprivileged");
      agent_enabled = agent_enabled f (value_of (codes "agent") cfg);
      ip_address = guest_ip_address f cfg;
      disks = guest_disks s f cfg;
      nics = guest_nics s f cfg;
    }

unfoldable pub apply_guest_status : Floats → GuestStatus → Guest → Guest
apply_guest_status f s g = record g {
  status = first_non_empty (s.status ∷ g.status ∷ []);
  cpu_pct = if f.is_positive s.cpu then pct_float f s.cpu else g.cpu_pct;
  max_cpu = updated s.cpus g.max_cpu;
  memory_pct = if is_above_zero s.max_mem then pct_int64 f s.mem s.max_mem else g.memory_pct;
  memory_used_bytes = if is_above_zero s.max_mem then s.mem else g.memory_used_bytes;
  memory_total_bytes = updated s.max_mem g.memory_total_bytes;
  memory_host_bytes = updated s.mem_host g.memory_host_bytes;
  swap_pct = if is_above_zero s.max_swap then pct_int64 f s.swap s.max_swap else g.swap_pct;
  swap_used_bytes = if is_above_zero s.max_swap then s.swap else g.swap_used_bytes;
  swap_total_bytes = updated s.max_swap g.swap_total_bytes;
  disk_pct = if is_above_zero s.max_disk then pct_int64 f s.disk s.max_disk else g.disk_pct;
  disk_used_bytes = if is_above_zero s.max_disk then s.disk else g.disk_used_bytes;
  disk_total_bytes = updated s.max_disk g.disk_total_bytes;
  uptime_sec = updated s.uptime g.uptime_sec;
  net_in_bytes = updated s.net_in g.net_in_bytes;
  net_out_bytes = updated s.net_out g.net_out_bytes;
  disk_read_bytes = updated s.disk_read g.disk_read_bytes;
  disk_write_bytes = updated s.disk_write g.disk_write_bytes;
  tags = if not (is_empty s.tags) && is_empty g.tags then s.tags else g.tags;
  pid = s.pid;
  qmp_status = s.qmp_status;
  running_qemu = s.running_qemu;
  ha_managed = is_set s.ha_managed;
  pressure_cpu_some_pct = pct_any f s.pressure_cpu_some;
  pressure_cpu_full_pct = pct_any f s.pressure_cpu_full;
  pressure_io_some_pct = pct_any f s.pressure_io_some;
  pressure_io_full_pct = pct_any f s.pressure_io_full;
  pressure_memory_some_pct = pct_any f s.pressure_memory_some;
  pressure_memory_full_pct = pct_any f s.pressure_memory_full;
}
