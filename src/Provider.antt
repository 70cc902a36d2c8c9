-- ===== src/Provider.antt =====
-- Package proxmox (apps/bridge/internal/proxmox).
pub mod Client
pub mod Get
pub mod Diagnostics
pub mod Collect
pub mod Rules
pub mod Storage
pub mod Calls
pub mod Zfs
pub mod Json
pub mod Paths
pub mod Api
pub mod Convert
pub mod Summaries
pub mod Guests
pub mod Trends
pub mod Source
pub mod Tests
