-- ===== src/Provider/Guests/Tests.antt =====
-- Runs of what a guest's configuration and its agent give.
use proxmox_desk_display.Base.{[], ◌∷◌, none, true, refl, ◌≡◌, List, map, ◌⊎◌, any}
use proxmox_desk_display.Provider.Guests.Config.Limits.{HasDevices, apply_guest_config-HasDevices}
use proxmox_desk_display.Provider.Api.{Gets, answered}
use proxmox_desk_display.Provider.Guests.Agent.Outcome.{
  AllFail, HasError, SomeAnswered, apply_guest_agent_cases,
}
use proxmox_desk_display.Provider.Api.Guests.{AgentNetworkInterfaces, ContainerInterface}
use proxmox_desk_display.Provider.Guests.Addresses.Sources.{FromAgent, FromContainer}
use proxmox_desk_display.Provider.Guests.Addresses.Distinct.{ip_addresses-IsAddressList, Lists}
use proxmox_desk_display.Base.Text.{
  Text, codes, has_prefix, trim_space, text_eq, split, split_first,
}
use proxmox_desk_display.Provider.Source.Tests.{whole, silent}
use proxmox_desk_display.Display.Guests.{GuestDisk}
use proxmox_desk_display.Provider.Json.{Any, str, string_value}
use proxmox_desk_display.Provider.Guests.Config.{apply_guest_config}
use proxmox_desk_display.Provider.Guests.Agent.{apply_guest_agent}
use proxmox_desk_display.Base.Int.{pos}
use proxmox_desk_display.Provider.Guests.Addresses.{agent_ip_addresses, container_ip_addresses}
use proxmox_desk_display.Provider.Tests.{stable, stable-IsSort}
use proxmox_desk_display.Display.Samples.{zero_guest}
use proxmox_desk_display.Provider.Collect.{cut}
use proxmox_desk_display.Base.Order.{sort_stable}

abbrev config : List (Text × Any)
config =
    (codes "scsi0", str (codes "local:vm-100-disk-0,size=32G,ssd=1"))
    ∷ (codes "net0", str (codes "virtio=BC:24:11:00:00:01,bridge=vmbr0"))
    ∷ (codes "cores", str (codes "2"))
    ∷ []

apply_guest_config-HasDevices_example :
    HasDevices whole config (apply_guest_config stable whole config zero_guest)
apply_guest_config-HasDevices_example =
    apply_guest_config-HasDevices stable stable-IsSort whole config zero_guest

configured_sizes :
    map (λ (d : GuestDisk). d.size) (apply_guest_config stable whole config zero_guest).disks
    ≡ codes "32G" ∷ []
unfolding apply_guest_config cut sort_stable any has_prefix string_value trim_space text_eq split
    split_first
configured_sizes = refl

-- Only the host name is answered.
abbrev named : Gets
named = record silent {
  get_agent_hostname = λ (path : Text). answered (record { host_name = codes "web" });
}

apply_guest_agent_cases_example :
    (AllFail named (codes "pve") (codes "100")
      × ((apply_guest_agent named (codes "pve") (codes "100") zero_guest).0 ≡ zero_guest)
      × HasError (apply_guest_agent named (codes "pve") (codes "100") zero_guest))
    ⊎ (SomeAnswered named (codes "pve") (codes "100")
        × ((apply_guest_agent named (codes "pve") (codes "100") zero_guest).0.agent_available
            ≡ true)
        × ((apply_guest_agent named (codes "pve") (codes "100") zero_guest).1 ≡ none))
apply_guest_agent_cases_example =
    apply_guest_agent_cases named (codes "pve") (codes "100") zero_guest refl

abbrev reported : AgentNetworkInterfaces
reported = record {
  result =
      record {
        name = codes "eth0";
        hardware_address = [];
        ip_addresses =
            record {
              ip_address = codes "10.0.0.9";
              prefix = pos 24;
              ip_address_type = codes "ipv4";
            }
            ∷ record {
              ip_address = codes "10.0.0.9";
              prefix = pos 24;
              ip_address_type = codes "ipv4";
            }
            ∷ [];
      }
      ∷ [];
}

-- A container with an address that has a length, and one that is link-local.
abbrev contained : List ContainerInterface
contained =
    record {
      name = codes "eth0";
      inet = codes " 10.0.0.9/24";
      inet6 = codes "fe80::9/64";
      hardware_address = [];
      hw_addr = [];
      ip_addresses = [];
    }
    ∷ []

ip_addresses-IsAddressList_example :
    Lists (FromAgent reported) (agent_ip_addresses reported)
    × Lists (FromContainer whole contained) (container_ip_addresses whole contained)
ip_addresses-IsAddressList_example = ip_addresses-IsAddressList whole reported contained

-- The loopback address of a container is listed where it has a prefix length.
loopback_is_listed :
    container_ip_addresses whole (
      record {
        name = codes "eth0";
        inet = [];
        inet6 = codes "::1/128";
        hardware_address = [];
        hw_addr = [];
        ip_addresses = [];
      }
      ∷ [])
    ≡ codes "::1/128" ∷ []
unfolding container_ip_addresses any text_eq has_prefix trim_space
loopback_is_listed = refl
