-- ===== src/Provider/Guests/Agent.antt =====
-- The guest agent (apps/bridge/internal/proxmox/provider.go).
pub mod Outcome
use proxmox_desk_display.Base.{
  [], ◌∷◌, some, none, true, ℕ, Option, List, take, if◌then◌else◌, map, length,
}
use proxmox_desk_display.Provider.Api.Guests.{
  AgentFs, AgentFsInfo, AgentInfo, AgentHostname, AgentOsInfo, AgentNetworkInterfaces,
}
use proxmox_desk_display.Display.Guests.{Guest, GuestFilesystem}
use proxmox_desk_display.Provider.Api.{
  failed, answered, Call, Gets, agent_fs_info, agent_networks, agent_os_info, agent_hostname,
  agent_info,
}
use proxmox_desk_display.Provider.Guests.Addresses.{agent_ip_addresses, placeholder_ip_address}
use proxmox_desk_display.Provider.Calls.{CallError}
use proxmox_desk_display.Base.Text.{Text}
use proxmox_desk_display.Provider.Json.{first_non_empty}

abbrev pub max_guest_filesystems : ℕ
max_guest_filesystems = 8

abbrev pub filesystem_of : AgentFs → GuestFilesystem
filesystem_of fs = record {
  name = fs.name;
  mountpoint = fs.mountpoint;
  type = fs.type;
  used_bytes = fs.used_bytes;
  total_bytes = fs.total_bytes;
}

unfoldable pub agent_filesystems : AgentFsInfo → List GuestFilesystem
agent_filesystems info = take max_guest_filesystems (map filesystem_of info.result)

-- `else if firstErr == nil { firstErr = err }`
abbrev pub first_error : Option CallError → CallError → Option CallError
first_error none e = some e
first_error (some d) e = some d

-- The five calls of applyGuestAgent, each on the guest and on `firstErr`.
abbrev pub AgentState : Type 0
AgentState = Guest × Option CallError

unfoldable pub ask_info : Call AgentInfo → AgentState → AgentState
ask_info (answered a) (g, e) = (
  record g {
    agent_available = true;
    agent_version = a.version;
    agent_command_count = length a.supported_commands;
  },
  e,
)
ask_info (failed d) (g, e) = (g, some d)

unfoldable pub ask_hostname : Call AgentHostname → AgentState → AgentState
ask_hostname (answered a) (g, e) =
    (record g { agent_available = true; agent_hostname = a.host_name }, e)
ask_hostname (failed d) (g, e) = (g, some d)

unfoldable pub ask_os : Call AgentOsInfo → AgentState → AgentState
ask_os (answered a) (g, e) = (
  record g {
    agent_available = true;
    agent_os = first_non_empty (a.pretty_name ∷ a.name ∷ a.id ∷ []);
  },
  e,
)
ask_os (failed d) (g, e) = (g, first_error e d)

-- The first address, in place of one that stands for none.
abbrev pub with_first : List Text → Text → Text
with_first [] old = old
with_first (a ∷ rest) old = if placeholder_ip_address old then a else old

unfoldable pub ask_networks : Call AgentNetworkInterfaces → AgentState → AgentState
unfolding agent_ip_addresses
ask_networks (answered a) (g, e) =
    let ips = agent_ip_addresses a in
    (
      record g {
        agent_available = true;
        ip_addresses = ips;
        ip_address = with_first ips g.ip_address;
      },
      e,
    )
ask_networks (failed d) (g, e) = (g, first_error e d)

unfoldable pub ask_filesystems : Call AgentFsInfo → AgentState → AgentState
unfolding agent_filesystems
ask_filesystems (answered a) (g, e) =
    (record g { agent_available = true; filesystems = agent_filesystems a }, e)
ask_filesystems (failed d) (g, e) = (g, first_error e d)

unfoldable pub ask_agent : Gets → Text → Text → Guest → AgentState
unfolding ask_info ask_hostname ask_os ask_networks ask_filesystems
ask_agent api node vmid g = ask_filesystems (agent_fs_info api node vmid) (
    ask_networks (agent_networks api node vmid) (
      ask_os (agent_os_info api node vmid) (
        ask_hostname (agent_hostname api node vmid)
          (ask_info (agent_info api node vmid) (g, none)))))

unfoldable pub apply_guest_agent : Gets → Text → Text → Guest → AgentState
unfolding ask_agent
apply_guest_agent api node vmid g =
    let r = ask_agent api node vmid g in if r.0.agent_available then (r.0, none) else r
