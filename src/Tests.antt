-- ===== src/Tests.antt =====
-- The theorems at concrete inputs, and runs of the definitions.
pub mod FolderShare
pub mod ConfigSync
pub mod Parts
pub mod Plans
pub mod Space
pub mod Metadata
pub mod Copies
pub mod Apply
