-- ===== src/Provider/Source/Steps.antt =====
-- What a run of collectSource reads, and what its steps share
-- (apps/bridge/internal/proxmox/provider.go).
use proxmox_desk_display.Base.{
  [], ◌∷◌, some, Slice, List, Option, Bool, String, elems, ◌++◌, ◌||◌, ℕ,
}
use proxmox_desk_display.Provider.Collect.{Sorter}
use proxmox_desk_display.Provider.Client.{Client}
use proxmox_desk_display.Base.Text.{Text, codes}
use proxmox_desk_display.Display.Health.{Health, max_health, health_eq}
use proxmox_desk_display.Provider.Json.{Floats}
use proxmox_desk_display.Display.Hosts.{Cluster, Host}
use proxmox_desk_display.Display.Inventory.{Alert}
use proxmox_desk_display.Provider.Api.{Gets}
use proxmox_desk_display.Provider.Calls.{CallError, add_capability}
use proxmox_desk_display.Provider.Rules.{add_warning}
use proxmox_desk_display.Config.{AlertConfig, PinnedGuest}
use proxmox_desk_display.Display.State.{State}
use proxmox_desk_display.Base.Int.{ℤ}
use proxmox_desk_display.Provider.Api.Nodes.{NodeCertificate}

pub record Scan : Type 1 where
  pub sorter : Sorter
  pub floats : Floats
  pub api : Gets
  pub client : Client
  pub alerts : AlertConfig
  -- the pinned guests by their source and id
  pub pinned : List (Text × PinnedGuest)
  -- the times that time.Now gives: for NewState, for each certificate, and in seconds for the tasks
  pub started : ℤ
  pub checked : Text → NodeCertificate → ℤ
  pub now : ℤ
  -- the order of each of the loops over hostByNode
  pub order : ℕ → List (Text × Host) → List (Text × Host)

-- `append(s, xs...)`
abbrev pub appended : {A : Type 0} → Slice A → List A → Slice A
appended s [] = s
appended s (x ∷ xs) = some (elems s ++ x ∷ xs)

-- addCapability on a state
abbrev pub with_capability : Client → Text → Text → Text → Text → Option CallError → State → State
with_capability client host_id guest_id name endpoint e s = record s {
  capabilities = add_capability client.id host_id guest_id name endpoint e s.capabilities;
}

-- addClusterWarning and addDataWarning
abbrev pub warn_cluster : Text → Cluster → Cluster
warn_cluster message c = record c { data_warnings = add_warning message c.data_warnings }

abbrev pub warn_host : Text → Host → Host
warn_host message h = record h { data_warnings = add_warning message h.data_warnings }

abbrev pub raise_cluster : Health → Cluster → Cluster
raise_cluster health c = record c { health = max_health c.health health }

-- `h == display.HealthWarning || h == display.HealthCritical`
abbrev pub is_bad : Health → Bool
is_bad h = health_eq h Health.warning || health_eq h Health.critical

-- An alert of a source.
abbrev pub alert_of : Text → Text → Text → Text → Health → Text → Text → Alert
alert_of source_id id host_id guest_id severity title message = record {
  id = id;
  source_id = source_id;
  host_id = host_id;
  guest_id = guest_id;
  severity = severity;
  title = title;
  message = message;
}

-- "/api2/json/nodes/" + node + rest
abbrev pub node_endpoint : Text → String → Text
node_endpoint node rest = codes "/api2/json/nodes/" ++ node ++ codes rest
