-- ===== src/LockedApply/Retry.antt =====
-- The name of a conflict copy, and the end of a retry.
use file_sync_engine.Prelude.{
  ℕ, zero, suc, ◌+◌, ◌<◌, ◌≡◌, refl, ap, sym, ◌∙◌, String, Bool, Option, none, some, arith,
  Option-cases, inl, inr,
}
use file_sync_engine.Block.Manifest.{Bytes, Hasher}
use file_sync_engine.Block.Assemble.{Disk, replace_file}
use file_sync_engine.ApplyGate.{PendingWrite, Gate, mark_pending_write_committed}
use file_sync_engine.LockedApply.Paths.{conflict_candidate}
use file_sync_engine.LockedApply.Conflict.{next_conflict_path}
use file_sync_engine.LockedApply.Staged.{assemble_cached_blocks}
use file_sync_engine.LockedApply.{
  ApplyWorld, ApplyOutcome, RetryResult, RetryPaths, commit_on, install, finish_retry,
}

-- The name of a conflict copy is free.
pub next_conflict_path-free :
    (disk : Disk) (final suffix : String) (fuel i : ℕ) (copy : String)
    → next_conflict_path disk final suffix fuel i ≡ some copy
    → disk copy ≡ none
unfolding next_conflict_path
next_conflict_path-free disk final suffix zero i copy e = absurd (ground (arith, e))
next_conflict_path-free disk final suffix (suc fuel) i copy e =
    elim (Option-cases (disk (conflict_candidate final suffix i))) [
      | inl free ↦
          let same : conflict_candidate final suffix i ≡ copy = ground (arith, e, free) in
          ap disk (sym same) ∙ free
      | inr taken ↦
          next_conflict_path-free disk final suffix fuel (suc i) copy (ground (arith, e, taken.1))
    ]

-- The search ends: a name is found where one of the candidates is free.
pub next_conflict_path-ends :
    (disk : Disk) (final suffix : String) (fuel i n : ℕ)
    → n < fuel
    → disk (conflict_candidate final suffix (i + n)) ≡ none
    → (copy : String) × (next_conflict_path disk final suffix fuel i ≡ some copy)
unfolding next_conflict_path
next_conflict_path-ends disk final suffix zero i n l e = absurd (omega (arith, l))
next_conflict_path-ends disk final suffix (suc fuel) i zero l e =
    let free : disk (conflict_candidate final suffix i) ≡ none =
      ap (λ (k : ℕ). disk (conflict_candidate final suffix k)) (omega arith) ∙ e in
    (conflict_candidate final suffix i, rw free refl)
next_conflict_path-ends disk final suffix (suc fuel) i (suc n) l e =
    let later =
      next_conflict_path-ends disk final suffix fuel (suc i) n (omega (arith, l))
        (ap (λ (k : ℕ). disk (conflict_candidate final suffix k)) (omega arith) ∙ e) in
    elim (Option-cases (disk (conflict_candidate final suffix i))) [
      | inl free ↦ (conflict_candidate final suffix i, rw free refl)
      | inr taken ↦ (later.0, rw taken.1 later.1)
    ]

module _ (h : Hasher) where
  -- What the end of a retry did.
  pub record IsFinished (w : ApplyWorld h) (target : String) (paths : RetryPaths h)
      (pending : PendingWrite h) (conflict : Bool) (o : ApplyOutcome h (RetryResult h))
      : Type 0 where
    pub staged : Bytes
    pub assembled_from : assemble_cached_blocks h w.disk paths.cache pending ≡ some staged
    pub disk : o.world.disk ≡ replace_file target staged w.disk
    pub gate : mark_pending_write_committed h paths.folder paths.path w.gate ≡ some o.world.gate

  pub finish_retry-IsFinished :
      (target : String) (paths : RetryPaths h) (pending : PendingWrite h) (conflict : Bool)
      (w : ApplyWorld h) (r : RetryResult h)
      → (finish_retry h (some target) paths pending conflict w).result ≡ some r
      → IsFinished w target paths pending conflict
          (finish_retry h (some target) paths pending conflict w)
  unfolding finish_retry install commit_on
  finish_retry-IsFinished target paths pending conflict w r e =
      by_file (assemble_cached_blocks h w.disk paths.cache pending) refl e
    where
      by_gate :
          (staged : Bytes) (o : Option (Gate h))
          → assemble_cached_blocks h w.disk paths.cache pending ≡ some staged
          → mark_pending_write_committed h paths.folder paths.path w.gate ≡ o
          → (commit_on h (replace_file target staged w.disk) conflict w o).result ≡ some r
          → IsFinished w target paths pending conflict
              (commit_on h (replace_file target staged w.disk) conflict w o)
      by_gate staged none a g e = absurd (ground (arith, e))
      by_gate staged (some gate) a g e = record {
        staged = staged;
        assembled_from = a;
        disk = refl;
        gate = g;
      }

      by_file :
          (o : Option Bytes)
          → assemble_cached_blocks h w.disk paths.cache pending ≡ o
          → (install h target paths conflict w o).result ≡ some r
          → IsFinished w target paths pending conflict (install h target paths conflict w o)
      by_file none a e = absurd (ground (arith, e))
      by_file (some staged) a e =
          by_gate staged (mark_pending_write_committed h paths.folder paths.path w.gate) a refl e
