-- ===== src/ConfigStore.antt =====
-- Package configstore (apps/bridge/internal/configstore/store.go): ids, secrets, and the two files.
pub mod Ids
pub mod Secrets
pub mod Files
pub mod Tests
