-- ===== src/Provider/Convert.antt =====
-- The conversions of the API's answers into the types of the display
-- (apps/bridge/internal/proxmox/provider.go).
pub mod Nodes
pub mod Repositories
pub mod Jobs
pub mod Storages
pub mod Clusters
pub mod Tests
