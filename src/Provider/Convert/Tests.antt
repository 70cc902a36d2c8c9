-- ===== src/Provider/Convert/Tests.antt =====
-- Runs of the conversions on small answers.
use proxmox_desk_display.Base.{[], ◌∷◌, some, refl, ◌≡◌, List, map, count_if}
use proxmox_desk_display.Provider.Api.Guests.{RrdPoint}
use proxmox_desk_display.Provider.Api.Nodes.{NodeService, NetworkInterface}
use proxmox_desk_display.Provider.Summaries.Tallies.{ServicesAre, NetworksAre, summaries_lem}
use proxmox_desk_display.Provider.Paths.{path_escape}
use proxmox_desk_display.Base.Int.{pos, ℤ}
use proxmox_desk_display.Base.Text.{codes}
use proxmox_desk_display.Provider.Summaries.{summarize_services, summarize_network}
use proxmox_desk_display.Provider.Trends.{sample_index, trend_values}
use proxmox_desk_display.Provider.Trends.Samples.{IsSampled, trend_values-IsSampled}
use proxmox_desk_display.Provider.Api.Segments.{is_slash, is_path_end, guest_path-segments}
use proxmox_desk_display.Provider.Api.{guest_path}

abbrev quiet : RrdPoint
quiet = record {
  time = pos 0;
  cpu = 0;
  max_cpu = 0;
  mem = 0;
  mem_host = 0;
  mem_used = 0;
  mem_available = 0;
  max_mem = 0;
  mem_total = 0;
  disk = 0;
  max_disk = 0;
  root_used = 0;
  root_total = 0;
  net_in = 0;
  net_out = 0;
  disk_read = 0;
  disk_write = 0;
  io_wait = 0;
  pressure_io_some = 0;
  pressure_io_full = 0;
  pressure_cpu_some = 0;
  pressure_cpu_full = 0;
  pressure_memory_some = 0;
  pressure_memory_full = 0;
}

abbrev service : NodeService
service = record { name = []; service = []; state = []; unit_state = []; description = [] }

abbrev services : List NodeService
services =
    record service { name = codes "sshd"; state = codes "running" }
    ∷ record service { service = codes "cron"; unit_state = codes "Failed" }
    ∷ service
    ∷ []

abbrev interface : NetworkInterface
interface = record {
  iface = [];
  type = [];
  active = pos 0;
  autostart = pos 0;
  method = [];
  address = [];
  cidr = [];
  gateway = [];
  bridge_ports = [];
  slaves = [];
  vlan_aware = pos 0;
  comments = [];
}

abbrev interfaces : List NetworkInterface
interfaces =
    record interface { iface = codes "lo"; active = pos 1; address = codes "127.0.0.1" }
    ∷ record interface { iface = codes "vmbr0"; active = pos 1; cidr = codes "10.0.0.2/24" }
    ∷ record interface { iface = codes "eno1" }
    ∷ []

summaries_lem_example :
    ServicesAre services (summarize_services services)
    × NetworksAre interfaces (summarize_network interfaces)
summaries_lem_example = summaries_lem services interfaces

abbrev points : List RrdPoint
points = record quiet { time = pos 1; cpu = 1 } ∷ record quiet { time = pos 2 } ∷ []

trend_values-IsSampled_example :
    (values : List ℤ) × (trend_values points (λ p. p.time) ≡ some values)
    × IsSampled points (λ p. p.time) values
trend_values-IsSampled_example = trend_values-IsSampled points (λ p. p.time)

guest_path-segments_example :
    (count_if is_slash (guest_path (codes "../x?y") (codes "lxc") (codes "1#2/3")) ≡ 6)
    × (count_if is_path_end (guest_path (codes "../x?y") (codes "lxc") (codes "1#2/3")) ≡ 0)
guest_path-segments_example = guest_path-segments (codes "../x?y") (codes "lxc") (codes "1#2/3")

escaped : path_escape (codes "a/b é") ≡ codes "a%2Fb%20%C3%A9"
unfolding path_escape
escaped = refl

-- 25 points give 24 values, of which none is that of the point 12.
sampled : map (sample_index 25 24) (0 ∷ 1 ∷ 11 ∷ 12 ∷ 23 ∷ []) ≡ 0 ∷ 1 ∷ 11 ∷ 13 ∷ 24 ∷ []
unfolding sample_index
sampled = refl
