-- ===== src/Lib.antt =====
-- Proxmox Desk Display: the bridge (apps/bridge), a Go server that collects the state of Proxmox
-- sources, keeps the last result in a cache, serves it to a small display, and has an admin page that
-- changes its configuration while it runs.
--
-- The parts, and the files that model them:
--   internal/display/state.go        Display: the types of the state (Health, Hosts, Guests, Jobs,
--     Inventory, State), Finalize and CompactForDisplay (Finalize), DetailForDisplay (Detail)
--   internal/config/config.go        Config: types, defaults, tokens; Config/Validation: Validate
--   internal/configstore/store.go    ConfigStore/Ids: SanitizeID; ConfigStore/Secrets: ApplySecrets and
--     EnsureTokens; ConfigStore/Files: Load, Save, writeFileAtomic
--   internal/store/cache.go          Cache: Refresh, Reconfigure, State; Cache/Concurrency: their
--     interleavings as a step relation; Cache/Polling: the loop of Start
--   internal/runtime/manager.go      Runtime/Manager: UpdateServer, UpsertSource, DeleteSource, apply;
--     Runtime/Source: sourceFromUpdate; Runtime/Snapshot: Snapshot; Runtime/Operations: sequences of
--     the admin's operations
--   internal/proxmox/client.go       Provider/Client: NewClient, transportForTLS, the pinned
--     certificate; Provider/Get: Get and its errors
--   internal/proxmox/provider.go     Provider/Source: collectSource, with a child for each stage of it
--     (Clusters, Nodes, Storages, Guests, Tasks; Steps has what they share), Source/Collected: Collect
--     over the sources; Provider/Collect: the merge of Collect; Provider/Api: the types of the API's
--     answers and the calls; Provider/Convert: the functions that make records of the state of them;
--     Provider/Guests: a guest's configuration, status, agent and addresses; Provider/Trends and
--     Provider/Summaries: trends, and the summaries of services, networks and GPUs; Provider/Json: the
--     functions on decoded JSON and percentages; Provider/Rules: health from text, applyHostAlerts and
--     warnings; Provider/Storage: applyStorageAlerts; Provider/Calls: addCapability; Provider/Zfs:
--     zfsDeviceCounts
--   internal/proxmox/diagnostics.go  Provider/Diagnostics: TestHost, DetectFingerprint
--   internal/server/server.go        Server: auth and adminAuth; Server/Forms, Server/Handlers and
--     Server/Routes: the forms, the handlers and ServeHTTP
--
-- collectSource asks the API of one source, call by call, and fills a state; a call that fails leaves its
-- part of the state as it was, most of them with a warning or an entry among the capabilities, and only a
-- failure of the first call ends the run. Its model is a function of
-- a record Scan: the client, the rules, the answers of Get at each type that is decoded (Gets), and the
-- times that time.Now gives. The map hostByNode is a list of nodes and hosts, and each of its three loops
-- takes its order from the Scan, since Go visits a map in any order.
--
-- An operation of the manager makes a copy of the configuration, changes it, and calls apply, which
-- builds a collector, saves both files, gives the collector to the cache and refreshes it. The models
-- follow this: apply calls save of ConfigStore/Files and reconfigure and refresh of Cache. What lies
-- outside, the environment, the file system's failures, the YAML library, X.509, and what a call of
-- Collect returns, is an argument (Runtime.Manager.World), another one for each operation.
--
-- Representation. A string is its list of code points (Base/Text); a Go int is an integer without a
-- bound, but for the intervals, whose product with a second wraps around as an int64 does; percentages
-- and counters, which the code computes by clamping and counting, are natural numbers. A slice that
-- JSON tells from nil is an Option of a list; a map from ids to tokens is a list of pairs, read by the
-- first pair with the key. Save clears the tokens in an array that it shares with its caller: its model
-- returns that array (Saved.shared), and the manager keeps it. ToLower, ToUpper and EqualFold are
-- modelled for ASCII, and for the letters outside it that they map into it: other letters outside ASCII
-- are kept as they are.
--
-- The files are a function from paths to what they hold; two paths are those of one file exactly if their
-- texts are equal. The temporary file of writeFileAtomic is one of them, under a name that is an argument
-- and must be free: it is moved by the rename, and after a failure the deferred os.Remove takes it away,
-- or leaves it where os.Remove itself fails.
--
-- Loops are structural recursion. SanitizeID's loop on double dashes is recursion on fuel: the length
-- of the string, since each turn shortens it.
--
-- A float64 is its bits, and the operations on it that the code uses (comparisons, rounding, parsing)
-- are a record of functions (Provider.Json.Floats), about which nothing is assumed. An `any` is a value
-- of the data type Any; an array or an object in it is what fmt.Sprint and json.Marshal write of it.
-- url.PathEscape (Provider/Paths) is modelled as documented, on the UTF-8 bytes; strconv.Atoi and package
-- strings are as in the Go library. Package sort is an argument, of which the record IsSort is assumed.
--
-- Not modelled: the network, the decoding of JSON, templates, the clock of Cache.Start, the demo data of
-- MockCollector, random tokens, the command's flags and signals, and the firmware (C++).
pub mod Base
pub mod Display
pub mod Errors
pub mod Config
pub mod ConfigStore
pub mod Cache
pub mod Provider
pub mod Runtime
pub mod Server
