-- ===== src/FolderShare/Transfer.antt =====
-- internal/foldershare/sync.go and batch.go: `applyRemote`, which takes a peer's newer entries.
-- What the peer and the disk do is a record of functions. The 16 workers run at once, so the order
-- in which downloads end is one of those functions.
pub mod Sound
pub mod Complete
pub mod Agree
use Prim.Native.Nat.{min}
use file_sync_engine.Prelude.{
  ℕ, zero, suc, String, Bool, true, false, not, ◌&&◌, ◌||◌, Option, none, some, List, [], ◌∷◌, ◌++◌,
  if◌then◌else◌, str_eq, leb, ltb, ◌==◌,
}
use file_sync_engine.Prelude.Int.{ℤ, pos, leb_ℤ, ltb_ℤ, eqb_ℤ}
use file_sync_engine.Prelude.Lists.{length, take, drop}
use file_sync_engine.Prelude.Map.{Map, lookup, insert}
use file_sync_engine.Paths.Guards.{safe_rel, safe_join}
use file_sync_engine.FolderShare.Journal.{Entry, FileBlock}

pub record TransferJob : Type 0 where
  pub entry : Entry
  pub target : String

abbrev pub Bytes : Type 0
Bytes = List ℕ

-- What the pass asks of the disk and of the peer. `true` is success.
pub record Effects : Type 0 where
  -- os.Remove, a file that does not exist included
  pub remove : String → Bool
  -- fetchSmallBatch, which answers a map from paths to bodies or fails
  pub fetch_batch : List TransferJob → Option (Map Bytes)
  -- hashEquals
  pub hash_equals : Bytes → String → Bool
  -- writeSmallFile
  pub write_small : TransferJob → Bytes → Bool
  -- downloadFile, its retries included
  pub download : TransferJob → Bool
  -- the order in which the workers finish
  pub finish : List TransferJob → List TransferJob

-- The journal, the jobs that are left, and whether an error was joined.
pub record Pass : Type 0 where
  pub by_path : Map Entry
  pub jobs : List TransferJob
  pub failed : Bool

-- `ok && current.Revision >= entry.Revision`
abbrev pub up_to_date : Option Entry → Entry → Bool
up_to_date none entry = false
up_to_date (some current) entry = leb_ℤ entry.revision current.revision

abbrev pub small_file_batch_count : ℕ
small_file_batch_count = 32

abbrev pub small_file_batch_bytes : ℕ
small_file_batch_bytes = 262144

one_whole_block : ℤ → List FileBlock → Bool
one_whole_block size [] = false
one_whole_block size (b ∷ []) = eqb_ℤ b.index (pos 0) && eqb_ℤ b.size size
one_whole_block size (b ∷ c ∷ rest) = false

unfoldable pub small_batch_eligible : Entry → Bool
unfolding one_whole_block
small_batch_eligible entry =
    ltb_ℤ (pos 0) entry.size
    && leb_ℤ entry.size (pos small_file_batch_bytes)
    && one_whole_block entry.size entry.blocks

unfoldable pub split_small : List TransferJob → List TransferJob × List TransferJob
unfolding small_batch_eligible
split_small [] = ([], [])
split_small (job ∷ jobs) =
    let (small, rest) = split_small jobs in
    if small_batch_eligible job.entry then (job ∷ small, rest) else (small, job ∷ rest)

module _ (fx : Effects) where
  abbrev pub applied_delete : Pass → Entry → String → Pass
  applied_delete pass entry target =
      if fx.remove target
      then record pass { by_path = insert entry.path entry pass.by_path }
      else record pass { failed = true }

  plan_target : Pass → Entry → Option String → Pass
  plan_target pass entry none = pass
  plan_target pass entry (some target) =
      if entry.deleted
      then applied_delete pass entry target
      else record pass { jobs = pass.jobs ++ (record { entry = entry; target = target } ∷ []) }

  -- One round of the first loop of `applyRemote`.
  unfoldable pub plan_entry : String → Pass → Entry → Pass
  unfolding plan_target
  plan_entry root pass entry =
      if not (safe_rel entry.path) || up_to_date (lookup entry.path pass.by_path) entry
      then pass
      else plan_target pass entry (safe_join root entry.path)

  unfoldable pub plan_remote : String → Pass → List Entry → Pass
  plan_remote root pass [] = pass
  plan_remote root pass (entry ∷ rest) = plan_remote root (plan_entry root pass entry) rest

  -- The hash of block 0, which an eligible entry has.
  abbrev first_hash : List FileBlock → String
  first_hash [] = ""
  first_hash (b ∷ rest) = b.hash

  body_fits : TransferJob → Bytes → Bool
  body_fits job body =
      fx.hash_equals body (first_hash job.entry.blocks) && eqb_ℤ (pos (length body)) job.entry.size

  batch_body : Pass → TransferJob → Option Bytes → Pass
  batch_body pass job none = record pass { jobs = pass.jobs ++ (job ∷ []) }
  batch_body pass job (some body) =
      if not (body_fits job body)
      then record pass { jobs = pass.jobs ++ (job ∷ []) }
      else if fx.write_small job body
      then record pass { by_path = insert job.entry.path job.entry pass.by_path }
      else record pass { jobs = pass.jobs ++ (job ∷ []); failed = true }

  -- The files of one answer. A file that does not fit stays in the queue.
  unfoldable pub batch_files : Map Bytes → Pass → List TransferJob → Pass
  unfolding batch_body body_fits
  batch_files bodies pass [] = pass
  batch_files bodies pass (job ∷ chunk) =
      batch_files bodies (batch_body pass job (lookup job.entry.path bodies)) chunk

  batch_chunk : Pass → List TransferJob → Option (Map Bytes) → Pass
  batch_chunk pass chunk none = record pass { jobs = pass.jobs ++ chunk }
  batch_chunk pass chunk (some bodies) = batch_files bodies pass chunk

  -- `for start := 0; start < len(small); start += 32`: the fuel is a bound on the rounds.
  unfoldable pub batch_chunks : ℕ → Pass → List TransferJob → Pass
  unfolding batch_chunk batch_files
  batch_chunks zero pass small = pass
  batch_chunks (suc fuel) pass [] = pass
  batch_chunks (suc fuel) pass (job ∷ small) =
      let chunk = take small_file_batch_count (job ∷ small) in
      batch_chunks fuel (batch_chunk pass chunk (fx.fetch_batch chunk))
        (drop small_file_batch_count (job ∷ small))

  -- `applySmallBatches`. Fewer than two small files go the ordinary way.
  unfoldable pub apply_small_batches : Pass → Pass
  unfolding split_small batch_chunks
  apply_small_batches pass =
      let (small, rest) = split_small pass.jobs in
      if ltb (length small) 2
      then pass
      else batch_chunks (length small) (record pass { jobs = rest }) small

  -- A worker: the entry enters the journal only when the download succeeded.
  unfoldable pub run_jobs : Pass → List TransferJob → Pass
  run_jobs pass [] = pass
  run_jobs pass (job ∷ jobs) =
      run_jobs
        (if fx.download job
          then record pass { by_path = insert job.entry.path job.entry pass.by_path }
          else record pass { failed = true })
        jobs

  unfoldable pub apply_remote : String → Map Entry → List Entry → Pass
  unfolding plan_remote apply_small_batches run_jobs
  apply_remote root by_path remote =
      let planned =
        plan_remote root (record { by_path = by_path; jobs = []; failed = false }) remote in
      let batched = apply_small_batches planned in run_jobs batched (fx.finish batched.jobs)
