-- ===== src/Provider/Summaries.antt =====
-- The summaries of a host (apps/bridge/internal/proxmox/provider.go).
pub mod Counts
pub mod Words
pub mod Tallies
use proxmox_desk_display.Base.{
  [], ◌∷◌, List, ℕ, Bool, length, map, if◌then◌else◌, ◌++◌, keep_if, not, ◌+◌, ◌&&◌, ◌||◌,
}
use proxmox_desk_display.Base.Text.{
  Text, trim_space, trim_prefix, contains, to_lower, codes, is_empty, has_prefix, text_eq,
}
use proxmox_desk_display.Provider.Api.Nodes.{PciDevice, NetworkInterface, NodeService}
use proxmox_desk_display.Provider.Convert.Nodes.{service_state, service_name}
use proxmox_desk_display.Base.Numbers.{decimal}
use proxmox_desk_display.Provider.Json.{first_non_empty}
use proxmox_desk_display.Base.Int.{is_set}

unfoldable pub is_gpu_class : Text → Bool
is_gpu_class class =
    let value = trim_prefix (to_lower (trim_space class)) (codes "0x") in
    has_prefix value (codes "03")
    || contains value (codes "vga")
    || contains value (codes "display")
    || contains value (codes "3d controller")

unfoldable pub gpu_name : PciDevice → Text
gpu_name d =
    let vendor = trim_space (first_non_empty (d.vendor_name ∷ d.subsystem_vendor_name ∷ [])) in
    let name = trim_space (first_non_empty (d.device_name ∷ d.subsystem_device_name ∷ d.id ∷ [])) in
    if is_empty vendor
    then name
    else if is_empty name
    then vendor
    else if contains (to_lower name) (to_lower vendor)
    then name
    else vendor ++ codes " " ++ name

-- The number of the names and the first of them, with the number of the others.
unfoldable pub summary_of_names : List Text → ℕ × Text
summary_of_names [] = (0, [])
summary_of_names (n ∷ []) = (1, n)
summary_of_names (n ∷ m ∷ rest) =
    (length (n ∷ m ∷ rest), n ++ codes " +" ++ decimal (length (m ∷ rest)))

unfoldable pub summarize_gpus : List PciDevice → ℕ × Text
unfolding is_gpu_class gpu_name summary_of_names
summarize_gpus devices =
    summary_of_names (map gpu_name (keep_if (λ d. is_gpu_class d.class) devices))

-- The interfaces that are shown.
abbrev pub is_shown : NetworkInterface → Bool
is_shown n = not (is_empty n.iface) && not (text_eq n.iface (codes "lo"))

pub record NetworkCounts : Type 0 where
  pub total : ℕ
  pub active : ℕ
  pub primary : Text

unfoldable pub count_network : NetworkInterface → NetworkCounts → NetworkCounts
count_network n c =
    let address = first_non_empty (n.address ∷ n.cidr ∷ []) in
    record {
      total = c.total + 1;
      active = if is_set n.active then c.active + 1 else c.active;
      primary =
          if is_empty c.primary && is_set n.active && not (is_empty address)
          then address
          else c.primary;
    }

unfoldable pub count_networks : List NetworkInterface → NetworkCounts → NetworkCounts
unfolding count_network
count_networks [] c = c
count_networks (n ∷ rest) c = count_networks rest (if is_shown n then count_network n c else c)

unfoldable pub summarize_network : List NetworkInterface → NetworkCounts
unfolding count_networks
summarize_network networks =
    count_networks networks (record { total = 0; active = 0; primary = [] })

pub record ServiceCounts : Type 0 where
  pub total : ℕ
  pub running : ℕ
  pub failed : ℕ

abbrev pub is_named : NodeService → Bool
is_named s = not (is_empty (service_name s))

abbrev pub is_running : NodeService → Bool
is_running s =
    contains (service_state s) (codes "running") || contains (service_state s) (codes "active")

abbrev pub is_failed : NodeService → Bool
is_failed s = contains (service_state s) (codes "failed")

unfoldable pub count_services : List NodeService → ServiceCounts → ServiceCounts
count_services [] c = c
count_services (s ∷ rest) c = count_services rest (
    if is_named s
    then record {
      total = c.total + 1;
      running = if is_running s then c.running + 1 else c.running;
      failed = if is_failed s then c.failed + 1 else c.failed;
    }
    else c)

unfoldable pub summarize_services : List NodeService → ServiceCounts
unfolding count_services
summarize_services services =
    count_services services (record { total = 0; running = 0; failed = 0 })
