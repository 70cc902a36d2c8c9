-- ===== src/Display.antt =====
-- Package display (apps/bridge/internal/display/state.go).
pub mod Health
pub mod Hosts
pub mod Guests
pub mod Jobs
pub mod Inventory
pub mod State
pub mod Finalize
pub mod Detail
pub mod Samples
pub mod Tests
