-- ===== src/Lib.antt =====
-- Verification of File Sync Engine, an engine in Go that keeps folders aligned between peers.
--
-- The parts and how they interact. A shared folder has a journal: one entry for each path, with a
-- revision, a hash and a deletion mark. A pass scans the disk into the journal, takes the peers'
-- newer entries, and stores the journal under cursors, so that a peer asks only for what is new.
-- The names that a peer sends pass two guards before they reach the disk. Beside the folders, each
-- engine holds a replica of every engine's settings; replicas are merged under hybrid logical
-- clocks. A file is a list of hashed blocks: a manifest says which, a delta plan says what is
-- missing, and an assembly puts a file together from blocks that are on disk. The metadata store
-- numbers the changes of a folder's manifests and tells them to peers, and it keeps the writes
-- that could not be applied yet, with the deletes that wait for them; the locked apply caches the
-- blocks of such a write and retries it. An apply plan orders writes and deletes by the space they
-- need.
--
-- The files, and the code each is about:
--   Prelude and its children: names of the library passed on, integers of Go, lists, text, maps
--     from strings, and a stable sort.
--   Paths/Lexical: the functions of path/filepath on Unix that the code calls. Paths/Guards:
--     safeRel and safeJoin of internal/foldershare/sync.go.
--   FolderShare/Journal: Entry, noteLocalFile and markDeleted of internal/foldershare/sync.go.
--     FolderShare/Scan: scanFolder, absorbLocal and absorbPaths. FolderShare/Store: indexEntries,
--     saveJournal, sortEntries, and JournalDelta of internal/foldershare/journal_state.go.
--     FolderShare/Transfer: applyRemote, and applySmallBatches of internal/foldershare/batch.go.
--     FolderShare/Frames: WriteFileBatch and ReadFileBatch.
--   ConfigSync/Clock, ConfigSync/Guards, ConfigSync/Replica and ConfigSync/Merge:
--     internal/configsync/sync.go.
--   Block/Manifest: BuildManifest and PlanDelta of internal/block/manifest.go. Block/Assemble:
--     internal/apply/assembler.go. Block/ContentDelta: PlanContentDelta.
--   SyncPlan: internal/syncplan/policy.go. RepairBackoff: internal/maintenance/repair_backoff.go.
--   Routing: ChooseTransferSource of internal/routing/source_selection.go; Routing/Preference tells
--     which source goes before which without the ranks of the code.
--   Scheduler: internal/scheduler/scheduler.go. Maintenance: RunOnce of
--     internal/maintenance/worker.go.
--   Metadata, Metadata/Changes and Metadata/Peer: the manifests of a folder in
--     internal/state/json_store.go, ChangesSinceLimit and ApplyPeerFolderChanges. The children
--     History, News, View, Mirror and CatchUp follow a series of operations to the peer; WellFormed
--     and Renames are about the operations themselves, Compaction is that of the tombstones and
--     Refresh the full refresh of a copy; Asked is about the summary that a peer asks with.
--     ApplyGate: the pending writes and skipped deletes of the same file.
--   Badger: the saves, deletes and moves of internal/state/badger_store.go, compared with the JSON
--     store in Badger/Agree; Badger/Index is about its block index.
--   LockedApply: internal/lockedapply/cache.go, with its paths in LockedApply/Paths and
--     LockedApply/Conflict and the cached blocks in LockedApply/Staged.
--   ApplyPlan: internal/applyplan/order.go. RateLimit: internal/ratelimit/limiter.go.
--   Tests: every result at a concrete input, and runs of definitions.
--
-- State. A Go map from strings is a list of keys and values in which each key stands once; where
-- the code ranges over a map, the list's order is the order of the range, and results that hold
-- for every list hold for every order. An int64 keeps its wrap-around (Prelude/Int), a uint32
-- counter is taken modulo 2 ^ 32. Sizes and offsets of bytes that were read are natural numbers. A
-- string is a list of code points; the frames of a batch work on bytes.
--
-- Fuel. build_blocks has the length of the file, and a block takes a byte at least; read_frames
-- has one more than the length of the bytes, and a frame takes nine at least; batch_chunks has the
-- number of small jobs, and a chunk takes one at least; run_once takes its fuel as an argument,
-- and a result says how much is enough under a budget of files. make_room has the number of
-- deletes, and a round takes one. retry_pending takes as its fuel how many conflict names are
-- tried; the search ends as soon as one of them is free, and a folder has finitely many files. The
-- other results about them do not assume that they end.
--
-- Parameters. What the disk and the peer do in a transfer is the record Effects, with the order in
-- which the workers end; the results hold for every such record. SHA-256 is the record Hasher of
-- Block/Manifest, a digest with a decidable equality; where a result needs that two blocks do not
-- collide, it says so. The record Codec of Metadata has the manifests and the digest of the items
-- of a summary. How long a sleep takes is a parameter of RateLimit; the current directory and the
-- text of a digest in a folder's name are parameters of LockedApply.
--
-- What is not modelled: files and directories as such, JSON, HTTP and sockets, locks (the workers
-- hold a lock for each change of the journal, so a run is a sequence of changes), progress
-- counters and logs, the statistics of a merge, the loading and saving of a snapshot. Of the
-- Badger store all but the saves, deletes and moves of a folder is left out. The other stores,
-- discovery, pairing, streams, backups, the daemon and the user interfaces are left out; they are
-- files, sockets and cryptography for the most part.
pub mod Prelude
pub mod FolderShare
pub mod Paths
pub mod ConfigSync
pub mod Block
pub mod SyncPlan
pub mod RepairBackoff
pub mod Routing
pub mod Scheduler
pub mod Maintenance
pub mod ApplyPlan
pub mod Metadata
pub mod Badger
pub mod ApplyGate
pub mod LockedApply
pub mod RateLimit
pub mod Tests
