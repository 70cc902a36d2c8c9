-- ===== src/Provider/Convert/Repositories.antt =====
-- The package repositories of a node (apps/bridge/internal/proxmox/provider.go).
use proxmox_desk_display.Base.{
  [], ◌∷◌, some, none, List, ◌++◌, Option, ℕ, if◌then◌else◌, ◌+◌, ◌||◌, not,
}
use proxmox_desk_display.Provider.Json.{Floats, null, string_value, bool_value}
use proxmox_desk_display.Base.Text.{Text, text_eq, codes, equal_fold, is_empty}
use proxmox_desk_display.Provider.Client.{Client}
use proxmox_desk_display.Provider.Api.Nodes.{
  AptRepositoryInfo, AptRepositoryFile, AptRepositories, AptRepositoryEntry,
}
use proxmox_desk_display.Display.Hosts.{Host}
use proxmox_desk_display.Display.Inventory.{Repository}
use proxmox_desk_display.Base.Numbers.{decimal}
use proxmox_desk_display.Display.Health.{Health}

-- The info of a file's entry: a later one replaces an earlier one with the same key.
unfoldable pub find_info : Floats → Text → List AptRepositoryInfo → Option AptRepositoryInfo
find_info f key [] = none
find_info f key (i ∷ rest) = elim (find_info f key rest) [
  | some j ↦ some j
  | none ↦ if text_eq (i.path ++ codes "/" ++ string_value f i.index) key then some i else none
]

unfoldable pub info_of : Floats → Text → List AptRepositoryInfo → AptRepositoryInfo
unfolding find_info
info_of f key infos = elim (find_info f key infos) [
  | some i ↦ i
  | none ↦ record { path = []; index = null; status = []; message = [] }
]

unfoldable pub join : Text → List Text → Text
join sep [] = []
join sep (s ∷ []) = s
join sep (s ∷ t ∷ rest) = s ++ sep ++ join sep (t ∷ rest)

unfoldable pub repository_display :
    Floats → Client → Host → Text → ℕ → AptRepositoryEntry → AptRepositoryInfo → Repository
unfolding join
repository_display f client host path i repo info = record {
  id = client.id ++ codes "/" ++ host.node ++ codes "/" ++ path ++ codes "/" ++ decimal i;
  source_id = client.id;
  host_id = host.id;
  host_name = host.name;
  node = host.node;
  file = path;
  types = join (codes ",") repo.types;
  uris = join (codes ",") repo.uris;
  suites = join (codes ",") repo.suites;
  components = join (codes ",") repo.components;
  enabled = bool_value f repo.enabled;
  status = info.status;
  warning = info.message;
  health =
      if equal_fold info.status (codes "warning")
        || equal_fold info.status (codes "error")
        || not (is_empty info.message)
      then Health.warning
      else Health.ok;
}

-- The entries of one file, from the index `i` on.
unfoldable pub file_repositories :
    Floats
    → Client
    → Host
    → List AptRepositoryInfo
    → Text
    → ℕ
    → List AptRepositoryEntry
    → List Repository
unfolding repository_display info_of
file_repositories f client host infos path i [] = []
file_repositories f client host infos path i (repo ∷ rest) =
    repository_display f client host path i repo (info_of f (path ++ codes "/" ++ decimal i) infos)
    ∷ file_repositories f client host infos path (i + 1) rest

unfoldable pub all_repositories :
    Floats → Client → Host → List AptRepositoryInfo → List AptRepositoryFile → List Repository
unfolding file_repositories
all_repositories f client host infos [] = []
all_repositories f client host infos (file ∷ rest) =
    file_repositories f client host infos file.path 0 file.repositories
    ++ all_repositories f client host infos rest

unfoldable pub repositories_display : Floats → Client → Host → AptRepositories → List Repository
unfolding all_repositories
repositories_display f client host repos = all_repositories f client host repos.infos repos.files
