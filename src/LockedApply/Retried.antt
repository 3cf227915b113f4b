-- ===== src/LockedApply/Retried.antt =====
-- What a retry that applies a pending write found and made.
use file_sync_engine.Prelude.{
  ℕ, ◌<◌, ◌≡◌, refl, ap, sym, ◌∙◌, String, Bool, true, false, ◌==◌, Option, none, some, arith,
  if◌then◌else◌,
}
use file_sync_engine.Block.Manifest.{Bytes, Hasher, Manifest, build_manifest}
use file_sync_engine.Block.Manifest.Content.{CollisionFree}
use file_sync_engine.ApplyGate.{PendingWrite, pending_write}
use file_sync_engine.LockedApply.Paths.{safe_root_path}
use file_sync_engine.LockedApply.Cached.{equal_manifests-content}
use file_sync_engine.LockedApply.Staged.{equal_manifests}
use file_sync_engine.LockedApply.{
  ApplyWorld, ApplyOutcome, RetryResult, applied, base_mismatch, nothing_to_do, RetryPaths,
  retry_file, retry_write, retry_found, retry_paths, retry_stored, retry_safe, retry_pending,
}
use file_sync_engine.LockedApply.Replaced.{IsReplaced, retry_on-IsReplaced}

module _ (h : Hasher) where
  -- All that a retry that applies a write has found: the write, its base and the file.
  pub record Retried (cwd root folder path : String) (w after : ApplyWorld h) : Type 0 where
    pub final : String
    pub pending : PendingWrite h
    pub base : Manifest h
    pub current : Bytes
    pub safe : safe_root_path cwd root path ≡ some final
    pub found : pending_write h folder path w.gate ≡ some pending
    pub open_write : pending.committed ≡ false
    pub expects : pending.expected_base_manifest ≡ some base
    pub there : w.disk final ≡ some current
    pub replaced : IsReplaced h w folder path final pending base current after

  not_applied :
      (test conflict : Bool) (r : Option (RetryResult h))
      → r ≡ (if test then none else some base_mismatch)
      → r ≡ some (applied conflict)
      → ⊥
  not_applied true conflict r k e = ground (arith, k, e)
  not_applied false conflict r k e = ground (arith, k, e)

  not_missing :
      (missing conflict : Bool) (r : RetryResult h)
      → r ≡ nothing_to_do missing
      → some r ≡ some (applied conflict)
      → ⊥
  not_missing missing conflict r m e = ground (arith, m, e)

  retry_found-Retried :
      (cwd : String) (name_digest : String → String) (fuel : ℕ) (root folder path final : String)
      (pending : PendingWrite h) (w : ApplyWorld h) (conflict : Bool)
      → safe_root_path cwd root path ≡ some final
      → pending_write h folder path w.gate ≡ some pending
      → safe_root_path cwd root pending.path ≡ some final
      → (retry_found h fuel
          (retry_paths h cwd name_digest root folder path final pending)
          pending
          w).result
        ≡ some (applied conflict)
      → Retried cwd root folder path w
          (retry_found h fuel
            (retry_paths h cwd name_digest root folder path final pending)
            pending
            w).world
  unfolding retry_found retry_write retry_file
  retry_found-Retried cwd name_digest fuel root folder path final pending w conflict s p t e =
      by_commit pending.committed refl e
    where
      paths : RetryPaths h
      paths = retry_paths h cwd name_digest root folder path final pending

      by_file :
          (base : Manifest h) (o : Option Bytes)
          → pending.committed ≡ false
          → pending.expected_base_manifest ≡ some base
          → w.disk final ≡ o
          → (retry_file h fuel paths pending base o w).result ≡ some (applied conflict)
          → Retried cwd root folder path w (retry_file h fuel paths pending base o w).world
      by_file base none c b d e = absurd (
          not_applied (base.block_size == 0) conflict
            (if base.block_size == 0 then none else some base_mismatch) refl e)
      by_file base (some current) c b d e = record {
        final = final;
        pending = pending;
        base = base;
        current = current;
        safe = s;
        found = p;
        open_write = c;
        expects = b;
        there = d;
        replaced =
            retry_on-IsReplaced h fuel paths final pending base current w
              (build_manifest h path base.block_size current) (applied conflict) t d p refl e;
      }

      by_base :
          (o : Option (Manifest h))
          → pending.committed ≡ false
          → pending.expected_base_manifest ≡ o
          → (retry_write h fuel paths pending o w).result ≡ some (applied conflict)
          → Retried cwd root folder path w (retry_write h fuel paths pending o w).world
      by_base none c b e = absurd (ground (arith, e))
      by_base (some base) c b e = by_file base (w.disk final) c b refl e

      outcome : Bool → ApplyOutcome h (RetryResult h)
      outcome test =
          if test
          then record { world = w; result = some (nothing_to_do false) }
          else retry_write h fuel paths pending pending.expected_base_manifest w

      by_commit :
          (test : Bool)
          → pending.committed ≡ test
          → (outcome test).result ≡ some (applied conflict)
          → Retried cwd root folder path w (outcome test).world
      by_commit true c e = absurd (not_missing false conflict (nothing_to_do false) refl e)
      by_commit false c e = by_base pending.expected_base_manifest c refl e

  -- A retry that applies a write loses no local change. It found the write, not committed, and the
  -- file that is there. The file then is one whose manifest equals the wanted one, the write is
  -- marked committed, and the bytes that were there were those of the expected base, or stand in a
  -- conflict copy under a name that was free; no other path changed. Conditions: the result is
  -- `applied`, and the store keeps the write under its own path.
  pub retry_pending-Retried :
      (cwd : String) (name_digest : String → String) (fuel : ℕ) (root folder path : String)
      (w : ApplyWorld h) (conflict : Bool)
      → (retry_pending h cwd name_digest fuel root folder path w).result ≡ some (applied conflict)
      → ((pending : PendingWrite h)
          → pending_write h folder path w.gate ≡ some pending
          → pending.path ≡ path)
      → Retried cwd root folder path w
          (retry_pending h cwd name_digest fuel root folder path w).world
  unfolding retry_pending retry_safe retry_stored
  retry_pending-Retried cwd name_digest fuel root folder path w conflict e own =
      by_path (safe_root_path cwd root path) refl e
    where
      by_write :
          (final : String) (o : Option (PendingWrite h))
          → safe_root_path cwd root path ≡ some final
          → pending_write h folder path w.gate ≡ o
          → (retry_stored h cwd name_digest fuel root folder path final o w).result
            ≡ some (applied conflict)
          → Retried cwd root folder path w
              (retry_stored h cwd name_digest fuel root folder path final o w).world
      by_write final none s p e = absurd (not_missing true conflict (nothing_to_do true) refl e)
      by_write final (some pending) s p e =
          retry_found-Retried cwd name_digest fuel root folder path final pending w conflict s p
            (ap (safe_root_path cwd root) (own pending p) ∙ s) e

      by_path :
          (o : Option String)
          → safe_root_path cwd root path ≡ o
          → (retry_safe h cwd name_digest fuel root folder path o w).result
            ≡ some (applied conflict)
          → Retried cwd root folder path w
              (retry_safe h cwd name_digest fuel root folder path o w).world
      by_path none s e = absurd (ground (arith, e))
      by_path (some final) s e = by_write final (pending_write h folder path w.gate) s refl e

  -- A retry that applies a write puts the very file there that the manifest was built from.
  -- Conditions: the result is `applied`; the store keeps the write under its own path; the manifest
  -- was built from `original` with a positive block size; and no block of the file that was written
  -- collides under the hash with another of the original.
  pub retry_pending-content :
      (cwd : String) (name_digest : String → String) (fuel : ℕ)
      (root folder path final other : String) (w : ApplyWorld h) (conflict : Bool)
      (pending : PendingWrite h) (original : Bytes) (positive : 0 < pending.manifest.block_size)
      → (retry_pending h cwd name_digest fuel root folder path w).result ≡ some (applied conflict)
      → safe_root_path cwd root path ≡ some final
      → pending_write h folder path w.gate ≡ some pending
      → pending.path ≡ path
      → build_manifest h other pending.manifest.block_size original ≡ some pending.manifest
      → ((new : Bytes)
          → (retry_pending h cwd name_digest fuel root folder path w).world.disk final ≡ some new
          → CollisionFree h pending.manifest.block_size positive new original)
      → (retry_pending h cwd name_digest fuel root folder path w).world.disk final ≡ some original
  retry_pending-content cwd name_digest fuel root folder path final other w conflict pending
        original positive e s p own built free =
      let r = retry_pending-Retried cwd name_digest fuel root folder path w conflict e (λ q g.
        let k : q ≡ pending = ground (arith, g, p) in
        ap (λ (x : PendingWrite h). x.path) k ∙ own) in
      let same : r.pending ≡ pending = ground (arith, r.found, p) in
      let here : r.final ≡ final = ground (arith, r.safe, s) in
      let stored : (retry_pending h cwd name_digest fuel root folder path w).world.disk final
          ≡ some r.replaced.staged =
        ap (retry_pending h cwd name_digest fuel root folder path w).world.disk (sym here)
        ∙ r.replaced.written in
      stored
      ∙ ap some (
          equal_manifests-content h pending.manifest.path other pending.manifest.block_size
            r.replaced.staged original r.replaced.got pending.manifest positive
            (ap
                (λ (x : PendingWrite h).
                  build_manifest h x.manifest.path x.manifest.block_size r.replaced.staged)
                (sym same)
              ∙ r.replaced.built)
            built
            (ap (λ (x : PendingWrite h). equal_manifests h r.replaced.got x.manifest) (sym same)
              ∙ r.replaced.wanted)
            (free r.replaced.staged stored))
