-- ===== src/ConfigSync.antt =====
-- internal/configsync: the replicated settings of identity-linked engines.
pub mod Clock
pub mod Guards
pub mod Replica
pub mod Merge
