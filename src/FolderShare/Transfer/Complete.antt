-- ===== src/FolderShare/Transfer/Complete.antt =====
-- A pass that reports no error has brought every path up to the peer's revision.
pub mod Drain
use file_sync_engine.Prelude.{
  ℕ, zero, suc, ◌+◌, ◌≤◌, String, ◌≡◌, refl, Bool, true, false, not, ◌&&◌, ◌||◌, Option, none, some,
  List, [], ◌∷◌, ◌++◌, arith, if◌then◌else◌, str_eq, eq_iff, Bool-cases, if_rule, inl, inr, ◌⊎◌,
  ltb, sym, ap, ◌∙◌, subst,
}
use text.Mathlib.TextPositions.{eq_refl}
use file_sync_engine.Prelude.Lists.{
  All, All-append, All-map, All-In, In, length, take, drop, All-take, All-drop,
}
use file_sync_engine.Prelude.Map.{Map, lookup, insert, lookup-insert}
use file_sync_engine.Paths.Guards.{safe_rel, safe_join}
use file_sync_engine.FolderShare.Journal.{Entry}
use file_sync_engine.FolderShare.Transfer.{
  TransferJob, Effects, Pass, Bytes, up_to_date, plan_target, plan_entry, plan_remote, body_fits,
  batch_body, batch_files, batch_chunk, batch_chunks, split_small, apply_small_batches, run_jobs,
  apply_remote, small_file_batch_count,
}
use file_sync_engine.FolderShare.Transfer.Sound.{Within}

-- The entry of the peer that is followed through the pass.
module _ (e : Entry) where
  abbrev pub AtLeast : Map Entry → Type 0
  AtLeast m = up_to_date (lookup e.path m) e ≡ true

  -- A job for the path is the job for this entry.
  abbrev pub IsOnly : Entry → Type 0
  IsOnly x = x.path ≡ e.path → x ≡ e

  abbrev pub HasJob : List TransferJob → Type 0
  HasJob jobs = (job : TransferJob) × In job jobs × (job.entry ≡ e)

  -- The path is up to date, or waits in the queue, or the pass has failed.
  pub data Tracked (pass : Pass) : Type 0 where
    done : AtLeast pass.by_path → Tracked pass
    queued : HasJob pass.jobs → Tracked pass
    failed : pass.failed ≡ true → Tracked pass

  put_self : (x : Entry) (m : Map Entry) → x ≡ e → AtLeast (insert x.path x m)
  put_self x m q =
      subst (λ y. AtLeast (insert y.path y m)) (sym q)
        (rw lookup-insert (ground (arith, eq_refl e.path)))

  put_AtLeast : (x : Entry) (m : Map Entry) → IsOnly x → AtLeast m → AtLeast (insert x.path x m)
  put_AtLeast x m only h = elim (Bool-cases (str_eq x.path e.path)) [
    | inl hit ↦ put_self x m (only ((eq_iff x.path e.path).0 hit))
    | inr miss ↦ rw (lookup-insert x.path e.path x m, miss) h
  ]

  In-left : (job : TransferJob) (xs ys : List TransferJob) → In job xs → In job (xs ++ ys)
  In-left job [] ys h = elim h [ ]
  In-left job (x ∷ xs) ys (inl q) = inl q
  In-left job (x ∷ xs) ys (inr h) = inr (In-left job xs ys h)

  In-right : (job : TransferJob) (xs ys : List TransferJob) → In job ys → In job (xs ++ ys)
  In-right job [] ys h = h
  In-right job (x ∷ xs) ys h = inr (In-right job xs ys h)

  put-Tracked :
      (x : Entry) (pass : Pass)
      → IsOnly x
      → Tracked pass
      → Tracked (record pass { by_path = insert x.path x pass.by_path })
  put-Tracked x pass only (done h) = done (put_AtLeast x pass.by_path only h)
  put-Tracked x pass only (queued h) = queued h
  put-Tracked x pass only (failed h) = failed h

  queue-Tracked :
      (jobs : List TransferJob) (pass : Pass)
      → Tracked pass
      → Tracked (record pass { jobs = pass.jobs ++ jobs })
  queue-Tracked jobs pass (done h) = done h
  queue-Tracked jobs pass (queued (job, i, q)) = queued (job, In-left job pass.jobs jobs i, q)
  queue-Tracked jobs pass (failed h) = failed h

  fail-Tracked : (pass : Pass) → Tracked (record pass { failed = true })
  fail-Tracked pass = failed refl

  enqueued :
      (jobs : List TransferJob) (pass : Pass)
      → HasJob jobs
      → Tracked (record pass { jobs = pass.jobs ++ jobs })
  enqueued jobs pass (job, i, q) = queued (job, In-right job pass.jobs jobs i, q)

  module _ (fx : Effects) where
    plan_target-Tracked :
        (pass : Pass) (x : Entry) (target : Option String)
        → IsOnly x
        → Tracked pass
        → Tracked (plan_target fx pass x target)
    unfolding plan_target
    plan_target-Tracked pass x none only h = h
    plan_target-Tracked pass x (some target) only h =
        if_rule Tracked x.deleted _ _
          (λ _.
            if_rule Tracked (fx.remove target) _ _ (λ _. put-Tracked x pass only h)
              (λ _. fail-Tracked pass))
          (λ _. queue-Tracked (record { entry = x; target = target } ∷ []) pass h)

    plan_entry-Tracked :
        (root : String) (pass : Pass) (x : Entry)
        → IsOnly x
        → Tracked pass
        → Tracked (plan_entry fx root pass x)
    unfolding plan_entry
    plan_entry-Tracked root pass x only h =
        if_rule Tracked (not (safe_rel x.path) || up_to_date (lookup x.path pass.by_path) x) _ _
          (λ _. h) (λ _. plan_target-Tracked pass x (safe_join root x.path) only h)

    plan_remote-Tracked :
        (root : String) (pass : Pass) (entries : List Entry)
        → All IsOnly entries
        → Tracked pass
        → Tracked (plan_remote fx root pass entries)
    unfolding plan_remote
    plan_remote-Tracked root pass [] only h = h
    plan_remote-Tracked root pass (x ∷ entries) only h =
        plan_remote-Tracked root (plan_entry fx root pass x) entries only.1
          (plan_entry-Tracked root pass x only.0 h)

    -- The round of the entry itself.
    plan_target_self :
        (pass : Pass) (x : Entry) (target : String)
        → x ≡ e
        → Tracked (plan_target fx pass x (some target))
    unfolding plan_target
    plan_target_self pass x target q =
        if_rule Tracked x.deleted _ _
          (λ _.
            if_rule Tracked (fx.remove target) _ _ (λ _. done (put_self x pass.by_path q))
              (λ _. fail-Tracked pass))
          (λ _.
            enqueued (record { entry = x; target = target } ∷ []) pass
              (record { entry = x; target = target }, inl refl, q))

    plan_entry_self :
        (root : String) (pass : Pass) (target : String)
        → safe_rel e.path ≡ true
        → safe_join root e.path ≡ some target
        → Tracked (plan_entry fx root pass e)
    unfolding plan_entry
    plan_entry_self root pass target safe join =
        if_rule Tracked (not (safe_rel e.path) || up_to_date (lookup e.path pass.by_path) e) _ _
          (λ t. done (ground arith)) (λ _. rw join (plan_target_self pass e target refl))

    pub plan_remote_self :
        (root : String) (pass : Pass) (entries : List Entry) (target : String)
        → All IsOnly entries
        → In e entries
        → safe_rel e.path ≡ true
        → safe_join root e.path ≡ some target
        → Tracked (plan_remote fx root pass entries)
    unfolding plan_remote
    plan_remote_self root pass [] target only i safe join = elim i [ ]
    plan_remote_self root pass (x ∷ entries) target only (inl q) safe join =
        plan_remote-Tracked root (plan_entry fx root pass x) entries only.1 (
          subst (λ y. Tracked (plan_entry fx root pass y)) q
            (plan_entry_self root pass target safe join))
    plan_remote_self root pass (x ∷ entries) target only (inr i) safe join =
        plan_remote_self root (plan_entry fx root pass x) entries target only.1 i safe join
