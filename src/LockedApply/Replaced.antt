-- ===== src/LockedApply/Replaced.antt =====
-- What a retry that applies a pending write makes of the disk.
use file_sync_engine.Prelude.{
  ℕ, ◌≡◌, ◌≢◌, refl, ap, sym, subst, ◌∙◌, String, Bool, true, false, Option, none, some, arith,
  eq_iff, if◌then◌else◌,
}
use file_sync_engine.Block.Manifest.{Bytes, Hasher, Manifest, build_manifest}
use file_sync_engine.Block.Assemble.{Disk, replace_file}
use file_sync_engine.ApplyGate.{PendingWrite, Gate, pending_write, mark_pending_write_committed}
use file_sync_engine.ApplyGate.Ready.{mark_pending_write_committed-reads}
use file_sync_engine.LockedApply.Cached.{assembled}
use file_sync_engine.LockedApply.Retry.{
  next_conflict_path-free, IsFinished, finish_retry-IsFinished,
}
use file_sync_engine.LockedApply.Conflict.{conflict_suffix, next_conflict_path}
use file_sync_engine.LockedApply.Staged.{equal_manifests}
use file_sync_engine.LockedApply.{
  ApplyWorld, ApplyOutcome, RetryResult, RetryPaths, finish_retry, retry_over, retry_on,
}

module _ (h : Hasher) where
  -- Where the bytes went that were in the file: they are those of the expected base, or they are in
  -- a conflict copy under a name that was free. No other path changed.
  pub data Kept (w : ApplyWorld h) (path final : String) (base : Manifest h)
      (current staged : Bytes) (after : Disk) : Type 0 where
    unchanged :
        (now : Manifest h)
        → build_manifest h path base.block_size current ≡ some now
        → equal_manifests h now base ≡ true
        → after ≡ replace_file final staged w.disk
        → Kept w path final base current staged after
    copied :
        (copy : String)
        → w.disk copy ≡ none
        → after copy ≡ some current
        → after ≡ replace_file final staged (replace_file copy current w.disk)
        → Kept w path final base current staged after

  -- A file was replaced by a pending write.
  pub record IsReplaced (w : ApplyWorld h) (folder path final : String) (pending : PendingWrite h)
      (base : Manifest h) (current : Bytes) (after : ApplyWorld h) : Type 0 where
    pub staged : Bytes
    pub got : Manifest h
    pub built : build_manifest h pending.manifest.path pending.manifest.block_size staged ≡ some got
    pub wanted : equal_manifests h got pending.manifest ≡ true
    pub written : after.disk final ≡ some staged
    pub kept : Kept w path final base current staged after.disk
    pub marked : pending_write h folder path after.gate ≡ some (record pending { committed = true })

  replaced_file :
      (path : String) (bytes : Bytes) (disk : Disk) → replace_file path bytes disk path ≡ some bytes
  unfolding replace_file
  replaced_file path bytes disk = ground (arith, eq_iff path path)

  other_file :
      (path other : String) (bytes : Bytes) (disk : Disk)
      → other ≢ path
      → replace_file path bytes disk other ≡ disk other
  unfolding replace_file
  other_file path other bytes disk n = ground (arith, eq_iff other path, n)

  committed_after :
      (folder path : String) (pending : PendingWrite h) (gate after : Gate h)
      → pending_write h folder path gate ≡ some pending
      → mark_pending_write_committed h folder path gate ≡ some after
      → pending_write h folder path after ≡ some (record pending { committed = true })
  committed_after folder path pending gate after p m =
      let r = mark_pending_write_committed-reads h folder path folder path pending gate p in
      let same : r.0 ≡ after = ground (arith, r.1, m) in
      ap (pending_write h folder path) (sym same)
      ∙ r.2
      ∙ ground (arith, eq_iff folder folder, eq_iff path path)

  -- From the end of a retry on the disk `middle`.
  replaced :
      (w middle : ApplyWorld h) (final : String) (paths : RetryPaths h) (pending : PendingWrite h)
      (base : Manifest h) (current : Bytes) (conflict : Bool) (o : ApplyOutcome h (RetryResult h))
      → middle.gate ≡ w.gate
      → pending_write h paths.folder paths.path w.gate ≡ some pending
      → (f : IsFinished h middle final paths pending conflict o)
      → Kept w paths.path final base current f.staged o.world.disk
      → IsReplaced w paths.folder paths.path final pending base current o.world
  replaced w middle final paths pending base current conflict o g p f k =
      let a = assembled h middle.disk paths.cache pending f.staged f.assembled_from in
      record {
        staged = f.staged;
        got = a.0;
        built = a.1;
        wanted = a.2;
        written = ap (λ (d : Disk). d final) f.disk ∙ replaced_file final f.staged middle.disk;
        kept = k;
        marked =
            committed_after paths.folder paths.path pending middle.gate o.world.gate
              (ap (pending_write h paths.folder paths.path) g ∙ p) f.gate;
      }

  from_base :
      (paths : RetryPaths h) (final : String) (pending : PendingWrite h) (base now : Manifest h)
      (current : Bytes) (w : ApplyWorld h) (r : RetryResult h) (target : Option String)
      → target ≡ some final
      → pending_write h paths.folder paths.path w.gate ≡ some pending
      → build_manifest h paths.path base.block_size current ≡ some now
      → equal_manifests h now base ≡ true
      → (finish_retry h target paths pending false w).result ≡ some r
      → IsReplaced w paths.folder paths.path final pending base current
          (finish_retry h target paths pending false w).world
  from_base paths final pending base now current w r none t p b q e = absurd (ground (arith, t))
  from_base paths final pending base now current w r (some target) t p b q e =
      let f = finish_retry-IsFinished h target paths pending false w r e in
      let same : target ≡ final = ground (arith, t) in
      subst
        (λ (x : String).
          IsReplaced w paths.folder paths.path x pending base current
            (finish_retry h (some target) paths pending false w).world)
        same
        (replaced w w target paths pending base current false
          (finish_retry h (some target) paths pending false w) refl p f (unchanged now b q f.disk))

  -- The conflict copy stays: its name was free, and that of the file was not.
  over_copy :
      (paths : RetryPaths h) (final : String) (pending : PendingWrite h) (base : Manifest h)
      (current : Bytes) (w : ApplyWorld h) (r : RetryResult h) (target copy : Option String)
      → target ≡ some final
      → w.disk final ≡ some current
      → pending_write h paths.folder paths.path w.gate ≡ some pending
      → paths.target ≡ target
      → ((c : String) → copy ≡ some c → w.disk c ≡ none)
      → (retry_over h copy paths pending current w).result ≡ some r
      → IsReplaced w paths.folder paths.path final pending base current
          (retry_over h copy paths pending current w).world
  unfolding retry_over
  over_copy paths final pending base current w r target none t d p k c e =
      absurd (ground (arith, e))
  over_copy paths final pending base current w r target (some copy) t d p k c e =
      let middle = record w { disk = replace_file copy current w.disk } in
      let names : paths.target ≡ some final = k ∙ t in
      let f = finish_retry-IsFinished h final paths pending true middle r (
        ap (λ (o : Option String). (finish_retry h o paths pending true middle).result) (sym names)
        ∙ e) in
      let apart : copy ≢ final = (λ same. ground (arith, d, c copy refl, ap w.disk same)) in
      let there : (finish_retry h (some final) paths pending true middle).world.disk copy
          ≡ some current =
        ap (λ (x : Disk). x copy) f.disk
        ∙ other_file final copy f.staged middle.disk apart
        ∙ replaced_file copy current w.disk in
      subst
        (λ (o : Option String).
          IsReplaced w paths.folder paths.path final pending base current
            (finish_retry h o paths pending true middle).world)
        (sym names)
        (replaced w middle final paths pending base current true
          (finish_retry h (some final) paths pending true middle) refl p f
          (copied copy (c copy refl) there f.disk))

  pub retry_on-IsReplaced :
      (fuel : ℕ) (paths : RetryPaths h) (final : String) (pending : PendingWrite h)
      (base : Manifest h) (current : Bytes) (w : ApplyWorld h) (o : Option (Manifest h))
      (r : RetryResult h)
      → paths.target ≡ some final
      → w.disk final ≡ some current
      → pending_write h paths.folder paths.path w.gate ≡ some pending
      → build_manifest h paths.path base.block_size current ≡ o
      → (retry_on h fuel paths pending base current w o).result ≡ some r
      → IsReplaced w paths.folder paths.path final pending base current
          (retry_on h fuel paths pending base current w o).world
  unfolding retry_on
  retry_on-IsReplaced fuel paths final pending base current w none r t d p b e =
      absurd (ground (arith, e))
  retry_on-IsReplaced fuel paths final pending base current w (some now) r t d p b e =
      by_test (equal_manifests h now base) refl e
    where
      outcome : Bool → ApplyOutcome h (RetryResult h)
      outcome test =
          if test
          then finish_retry h paths.target paths pending false w
          else retry_over h (next_conflict_path w.disk paths.final conflict_suffix fuel 0) paths
              pending current w

      by_test :
          (test : Bool)
          → equal_manifests h now base ≡ test
          → (outcome test).result ≡ some r
          → IsReplaced w paths.folder paths.path final pending base current (outcome test).world
      by_test true q e = from_base paths final pending base now current w r paths.target t p b q e
      by_test false q e =
          over_copy paths final pending base current w r paths.target
            (next_conflict_path w.disk paths.final conflict_suffix fuel 0) t d p refl
            (λ c n. next_conflict_path-free w.disk paths.final conflict_suffix fuel 0 c n) e
