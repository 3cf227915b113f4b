-- ===== src/FolderShare/Transfer/Complete/Drain.antt =====
-- The batches and the workers empty the queue: a queued entry is applied, or the pass fails.
use file_sync_engine.Prelude.{
  ℕ, zero, suc, ◌≤◌, ◌≡◌, refl, true, not, Option, none, some, List, [], ◌∷◌, arith, Bool-cases,
  if_rule, inl, inr, ◌⊎◌, ltb, subst, if◌then◌else◌,
}
use file_sync_engine.Prelude.Lists.{All, length, take, drop, All-take, All-drop, length-drop}
use file_sync_engine.Prelude.Map.{Map, lookup, insert}
use file_sync_engine.FolderShare.Journal.{Entry}
use file_sync_engine.FolderShare.Transfer.{
  TransferJob, Effects, Pass, Bytes, body_fits, batch_body, batch_files, batch_chunk, batch_chunks,
  small_batch_eligible, split_small, apply_small_batches, run_jobs, small_file_batch_count,
}
use file_sync_engine.FolderShare.Transfer.Complete.{
  AtLeast, IsOnly, HasJob, Tracked, done, queued, failed, put_self, put_AtLeast, put-Tracked,
  queue-Tracked, enqueued,
}

module _ (e : Entry) (fx : Effects) where
  abbrev pub OnlyJobs : List TransferJob → Type 0
  OnlyJobs = All λ (job : TransferJob). IsOnly e job.entry

  batch_body-Tracked :
      (pass : Pass) (job : TransferJob) (body : Option Bytes)
      → IsOnly e job.entry
      → Tracked e pass
      → Tracked e (batch_body fx pass job body)
  unfolding batch_body
  batch_body-Tracked pass job none only h = queue-Tracked e (job ∷ []) pass h
  batch_body-Tracked pass job (some body) only h =
      if_rule (Tracked e) (not (body_fits fx job body)) _ _ (λ _. queue-Tracked e (job ∷ []) pass h)
        (λ _.
          if_rule (Tracked e) (fx.write_small job body) _ _
            (λ _. put-Tracked e job.entry pass only h) (λ _. failed refl))

  batch_body_self :
      (pass : Pass) (job : TransferJob) (body : Option Bytes)
      → job.entry ≡ e
      → Tracked e (batch_body fx pass job body)
  unfolding batch_body
  batch_body_self pass job none q = enqueued e (job ∷ []) pass (job, inl refl, q)
  batch_body_self pass job (some body) q =
      if_rule (Tracked e) (not (body_fits fx job body)) _ _
        (λ _. enqueued e (job ∷ []) pass (job, inl refl, q))
        (λ _.
          if_rule (Tracked e) (fx.write_small job body) _ _
            (λ _. done (put_self e job.entry pass.by_path q)) (λ _. failed refl))

  batch_files-Tracked :
      (bodies : Map Bytes) (pass : Pass) (chunk : List TransferJob)
      → OnlyJobs chunk
      → Tracked e pass
      → Tracked e (batch_files fx bodies pass chunk)
  unfolding batch_files
  batch_files-Tracked bodies pass [] only h = h
  batch_files-Tracked bodies pass (job ∷ chunk) only h =
      batch_files-Tracked bodies (batch_body fx pass job (lookup job.entry.path bodies)) chunk
        only.1 (batch_body-Tracked pass job (lookup job.entry.path bodies) only.0 h)

  batch_files_self :
      (bodies : Map Bytes) (pass : Pass) (chunk : List TransferJob)
      → OnlyJobs chunk
      → HasJob e chunk
      → Tracked e (batch_files fx bodies pass chunk)
  unfolding batch_files
  batch_files_self bodies pass [] only (job, i, q) = elim i [ ]
  batch_files_self bodies pass (job ∷ chunk) only (found, inl same, q) =
      batch_files-Tracked bodies (batch_body fx pass job (lookup job.entry.path bodies)) chunk
        only.1
        (batch_body_self pass job (lookup job.entry.path bodies)
          (subst (λ (j : TransferJob). j.entry ≡ e) same q))
  batch_files_self bodies pass (job ∷ chunk) only (found, inr i, q) =
      batch_files_self bodies (batch_body fx pass job (lookup job.entry.path bodies)) chunk only.1
        (found, i, q)

  batch_chunk-Tracked :
      (pass : Pass) (chunk : List TransferJob) (bodies : Option (Map Bytes))
      → OnlyJobs chunk
      → Tracked e pass ⊎ HasJob e chunk
      → Tracked e (batch_chunk fx pass chunk bodies)
  unfolding batch_chunk
  batch_chunk-Tracked pass chunk none only (inl h) = queue-Tracked e chunk pass h
  batch_chunk-Tracked pass chunk none only (inr h) = enqueued e chunk pass h
  batch_chunk-Tracked pass chunk (some bodies) only (inl h) =
      batch_files-Tracked bodies pass chunk only h
  batch_chunk-Tracked pass chunk (some bodies) only (inr h) =
      batch_files_self bodies pass chunk only h

  -- A job of a list is in the first part or in the second.
  HasJob-cases :
      (n : ℕ) (jobs : List TransferJob)
      → HasJob e jobs
      → HasJob e (take n jobs) ⊎ HasJob e (drop n jobs)
  HasJob-cases zero jobs h = inr h
  HasJob-cases (suc n) [] (job, i, q) = elim i [ ]
  HasJob-cases (suc n) (x ∷ jobs) (job, inl same, q) = inl (job, inl same, q)
  HasJob-cases (suc n) (x ∷ jobs) (job, inr i, q) = elim (HasJob-cases n jobs (job, i, q)) [
    | inl (found, k, r) ↦ inl (found, inr k, r)
    | inr h ↦ inr h
  ]

  -- With a round of fuel for each small file every chunk has its turn.
  batch_chunks-Tracked :
      (fuel : ℕ) (pass : Pass) (small : List TransferJob)
      → OnlyJobs small
      → length small ≤ fuel
      → Tracked e pass ⊎ HasJob e small
      → Tracked e (batch_chunks fx fuel pass small)
  unfolding batch_chunks
  batch_chunks-Tracked zero pass [] only fits (inl h) = h
  batch_chunks-Tracked zero pass [] only fits (inr (job, i, q)) = elim i [ ]
  batch_chunks-Tracked zero pass (x ∷ small) only fits h = absurd (omega arith)
  batch_chunks-Tracked (suc fuel) pass [] only fits (inl h) = h
  batch_chunks-Tracked (suc fuel) pass [] only fits (inr (job, i, q)) = elim i [ ]
  batch_chunks-Tracked (suc fuel) pass (x ∷ small) only fits h =
      batch_chunks-Tracked fuel
        (batch_chunk fx pass (take small_file_batch_count (x ∷ small))
          (fx.fetch_batch (take small_file_batch_count (x ∷ small))))
        (drop small_file_batch_count (x ∷ small))
        (All-drop _ small_file_batch_count (x ∷ small) only)
        (omega (arith, length-drop small_file_batch_count (x ∷ small))) (turn h)
    where
      chunk : List TransferJob
      chunk = take small_file_batch_count (x ∷ small)

      after :
          Tracked e pass ⊎ HasJob e chunk
          → Tracked e (batch_chunk fx pass chunk (fx.fetch_batch chunk))
      after =
          batch_chunk-Tracked pass chunk (fx.fetch_batch chunk)
            (All-take _ small_file_batch_count (x ∷ small) only)

      turn :
          Tracked e pass ⊎ HasJob e (x ∷ small)
          → Tracked e (batch_chunk fx pass chunk (fx.fetch_batch chunk))
            ⊎ HasJob e (drop small_file_batch_count (x ∷ small))
      turn (inl t) = inl (after (inl t))
      turn (inr j) = elim (HasJob-cases small_file_batch_count (x ∷ small) j) [
        | inl now ↦ inl (after (inr now))
        | inr later ↦ inr later
      ]

  HasJob-split :
      (jobs : List TransferJob)
      → HasJob e jobs
      → HasJob e (split_small jobs).0 ⊎ HasJob e (split_small jobs).1
  unfolding split_small
  HasJob-split [] (job, i, q) = elim i [ ]
  HasJob-split (x ∷ jobs) (job, inl same, q) = elim (Bool-cases (small_batch_eligible x.entry)) [
    | inl t ↦ rw t (inl (job, inl same, q))
    | inr f ↦ rw f (inr (job, inl same, q))
  ]
  HasJob-split (x ∷ jobs) (job, inr i, q) = elim (Bool-cases (small_batch_eligible x.entry)) [
    | inl t ↦ rw t (elim (HasJob-split jobs (job, i, q)) [
      | inl (found, k, r) ↦ inl (found, inr k, r)
      | inr h ↦ inr h
    ])
    | inr f ↦ rw f (elim (HasJob-split jobs (job, i, q)) [
      | inl h ↦ inl h
      | inr (found, k, r) ↦ inr (found, inr k, r)
    ])
  ]

  split_Tracked :
      (pass : Pass)
      → Tracked e pass
      → Tracked e (record pass { jobs = (split_small pass.jobs).1 })
        ⊎ HasJob e (split_small pass.jobs).0
  split_Tracked pass (done h) = inl (done h)
  split_Tracked pass (failed h) = inl (failed h)
  split_Tracked pass (queued h) = elim (HasJob-split pass.jobs h) [
    | inl small ↦ inr small
    | inr rest ↦ inl (queued rest)
  ]

  split-OnlyJobs : (jobs : List TransferJob) → OnlyJobs jobs → OnlyJobs (split_small jobs).0
  unfolding split_small
  split-OnlyJobs [] only = tt
  split-OnlyJobs (x ∷ jobs) only =
      if_rule (λ (r : List TransferJob × List TransferJob). OnlyJobs r.0)
        (small_batch_eligible x.entry) _ _ (λ _. (only.0, split-OnlyJobs jobs only.1))
        (λ _. split-OnlyJobs jobs only.1)

  pub apply_small_batches-Tracked :
      (pass : Pass) → OnlyJobs pass.jobs → Tracked e pass → Tracked e (apply_small_batches fx pass)
  unfolding apply_small_batches
  apply_small_batches-Tracked pass only h =
      if_rule (Tracked e) (ltb (length (split_small pass.jobs).0) 2) _ _ (λ _. h)
        (λ _.
          batch_chunks-Tracked (length (split_small pass.jobs).0)
            (record pass { jobs = (split_small pass.jobs).1 }) (split_small pass.jobs).0
            (split-OnlyJobs pass.jobs only) (omega arith) (split_Tracked pass h))

  pub run_jobs-Tracked :
      (pass : Pass) (jobs : List TransferJob)
      → OnlyJobs jobs
      → AtLeast e pass.by_path ⊎ (pass.failed ≡ true) ⊎ HasJob e jobs
      → AtLeast e (run_jobs fx pass jobs).by_path ⊎ ((run_jobs fx pass jobs).failed ≡ true)
  unfolding run_jobs
  run_jobs-Tracked pass [] only (inl h) = inl h
  run_jobs-Tracked pass [] only (inr (inl h)) = inr h
  run_jobs-Tracked pass [] only (inr (inr (job, i, q))) = elim i [ ]
  run_jobs-Tracked pass (x ∷ jobs) only h =
      run_jobs-Tracked
        (if fx.download x
          then record pass { by_path = insert x.entry.path x.entry pass.by_path }
          else record pass { failed = true })
        jobs only.1
        (if_rule (λ (p : Pass). AtLeast e p.by_path ⊎ (p.failed ≡ true) ⊎ HasJob e jobs)
          (fx.download x) _ _ (λ _. ran h) (λ _. inr (inl refl)))
    where
      ran :
          AtLeast e pass.by_path ⊎ (pass.failed ≡ true) ⊎ HasJob e (x ∷ jobs)
          → AtLeast e (insert x.entry.path x.entry pass.by_path)
            ⊎ (pass.failed ≡ true)
            ⊎ HasJob e jobs
      ran (inl h) = inl (put_AtLeast e x.entry pass.by_path only.0 h)
      ran (inr (inl h)) = inr (inl h)
      ran (inr (inr (job, inl same, q))) =
          inl (put_self e x.entry pass.by_path (subst (λ (j : TransferJob). j.entry ≡ e) same q))
      ran (inr (inr (job, inr i, q))) = inr (inr (job, i, q))
