-- ===== src/Provider/Guests.antt =====
-- The configuration and the status of a guest (apps/bridge/internal/proxmox/provider.go). A map that
-- JSON gives is a list of its keys and values in the order in which a loop visits them.
pub mod Config
pub mod Agent
pub mod Addresses
pub mod Tests
