-- ===== src/Runtime.antt =====
-- Package runtime (apps/bridge/internal/runtime/manager.go).
pub mod Source
pub mod Manager
pub mod Snapshot
pub mod Diagnostics
pub mod Thresholds
pub mod Apply
pub mod Operations
pub mod Sources
pub mod Tests
