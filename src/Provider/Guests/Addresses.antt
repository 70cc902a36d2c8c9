-- ===== src/Provider/Guests/Addresses.antt =====
-- The addresses of a guest (apps/bridge/internal/proxmox/provider.go). A full list ends the loops: the
-- code tests it after each append, the model before the next address.
pub mod Sources
pub mod Extended
pub mod Complete
pub mod Distinct
use proxmox_desk_display.Base.{[], ◌∷◌, ℕ, List, Bool, if◌then◌else◌, any, leb, ◌++◌, ◌||◌, length}
use proxmox_desk_display.Base.Text.{
  Text, trim_space, is_empty, text_eq, to_lower, has_prefix, codes,
}
use proxmox_desk_display.Provider.Api.Guests.{
  AgentNetworkInterfaces, AgentIp, AgentInterface, ContainerIp, ContainerInterface,
}
use proxmox_desk_display.Provider.Json.{Floats, int64_value}
use proxmox_desk_display.Base.Int.{ℤ, is_above_zero}
use proxmox_desk_display.Base.Numbers.{itoa}

abbrev pub max_guest_ips : ℕ
max_guest_ips = 8

-- `seen[address]`: the addresses that were seen are those of the list.
abbrev pub is_seen : Text → List Text → Bool
is_seen address addresses = any (λ a. text_eq a address) addresses

abbrev pub is_full : List Text → Bool
is_full addresses = leb max_guest_ips (length addresses)

-- An address that was not seen is appended.
unfoldable pub add_address : Text → List Text → List Text
add_address address addresses =
    if is_seen address addresses then addresses else addresses ++ address ∷ []

-- The agent's addresses that are left out.
unfoldable pub is_local : Text → Bool
is_local a = is_empty a || has_prefix a (codes "127.") || text_eq a (codes "::1")

-- An address with its prefix length.
abbrev pub with_prefix : Text → ℤ → Text
with_prefix address prefix =
    if is_above_zero prefix then address ++ codes "/" ++ itoa prefix else address

unfoldable pub add_agent_ips : List AgentIp → List Text → List Text
unfolding is_local add_address
add_agent_ips [] addresses = addresses
add_agent_ips (ip ∷ rest) addresses =
    if is_full addresses
    then addresses
    else add_agent_ips rest (
        if is_local ip.ip_address
        then addresses
        else add_address (with_prefix ip.ip_address ip.prefix) addresses)

unfoldable pub add_agent_interfaces : List AgentInterface → List Text → List Text
unfolding add_agent_ips
add_agent_interfaces [] addresses = addresses
add_agent_interfaces (i ∷ rest) addresses =
    add_agent_interfaces rest
      (if text_eq i.name (codes "lo") then addresses else add_agent_ips i.ip_addresses addresses)

unfoldable pub agent_ip_addresses : AgentNetworkInterfaces → List Text
unfolding add_agent_interfaces
agent_ip_addresses networks = add_agent_interfaces networks.result []

-- The closure `add` of containerIPAddresses, which is called only while the list is not full.
unfoldable pub add_container_address : Text → List Text → List Text
unfolding is_local add_address
add_container_address address addresses =
    let a = trim_space address in
    if is_full addresses || is_local a || has_prefix a (codes "fe80:")
    then addresses
    else add_address a addresses

unfoldable pub add_container_ips : Floats → List ContainerIp → List Text → List Text
unfolding add_container_address
add_container_ips f [] addresses = addresses
add_container_ips f (ip ∷ rest) addresses = add_container_ips f rest (
    if is_empty ip.ip_address
    then addresses
    else add_container_address (with_prefix ip.ip_address (int64_value f ip.prefix)) addresses)

unfoldable pub add_container_interfaces : Floats → List ContainerInterface → List Text → List Text
unfolding add_container_ips
add_container_interfaces f [] addresses = addresses
add_container_interfaces f (i ∷ rest) addresses = add_container_interfaces f rest (
    if text_eq i.name (codes "lo")
    then addresses
    else add_container_address i.inet6
        (add_container_address i.inet (add_container_ips f i.ip_addresses addresses)))

unfoldable pub container_ip_addresses : Floats → List ContainerInterface → List Text
unfolding add_container_interfaces
container_ip_addresses f interfaces = add_container_interfaces f interfaces []

unfoldable pub placeholder_ip_address : Text → Bool
placeholder_ip_address value =
    let a = to_lower (trim_space value) in
    is_empty a || text_eq a (codes "dhcp") || has_prefix a (codes "dhcp/")
