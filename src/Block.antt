-- ===== src/Block.antt =====
-- internal/block and internal/apply: manifests of files, delta plans, and the assembly of a file
-- from blocks that are on disk.
pub mod Manifest
pub mod Assemble
pub mod ContentDelta
