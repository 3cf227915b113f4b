-- ===== src/FolderShare.antt =====
-- internal/foldershare: the journal of a shared folder. Each path has an entry with a revision;
-- a local change raises the revision, and a peer's entry is taken when its revision is newer.
pub mod Journal
pub mod Scan
pub mod Store
pub mod Transfer
pub mod Frames
