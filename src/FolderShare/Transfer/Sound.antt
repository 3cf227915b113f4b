-- ===== src/FolderShare/Transfer/Sound.antt =====
-- Whatever the peer sends and whichever transfers fail, a pass never takes a path back.
use file_sync_engine.Prelude.{
  ℕ, zero, suc, String, ◌≡◌, refl, true, false, not, ◌||◌, Option, none, some, List, [], ◌∷◌, ◌++◌,
  arith, str_eq, eq_iff, Bool-cases, if_rule, inl, inr, ◌⊎◌, ltb, sym, subst,
}
use file_sync_engine.Prelude.Int.{◌<ℤ◌}
use file_sync_engine.Prelude.Lists.{
  All, All-append, All-map, All-In, In, length, take, drop, All-take, All-drop, All-In-self,
}
use file_sync_engine.Prelude.Map.{Map, lookup, insert, lookup-insert}
use file_sync_engine.Paths.Guards.{safe_rel, safe_join}
use file_sync_engine.FolderShare.Journal.{Entry}
use file_sync_engine.FolderShare.Transfer.{
  TransferJob, Effects, Pass, Bytes, up_to_date, plan_target, plan_entry, plan_remote, body_fits,
  batch_body, batch_files, batch_chunk, batch_chunks, split_small, apply_small_batches, run_jobs,
  apply_remote, small_file_batch_count,
}

-- Every element of the first list is one of the second.
abbrev pub Within : List TransferJob → List TransferJob → Type 0
Within xs ys = All (λ x. In x ys) xs

module _ (m0 : Map Entry) (remote : List Entry) where
  -- The path is as it was, or holds an entry of the peer that passed the test against what was
  -- there.
  abbrev pub TakenAt : Map Entry → String → Type 0
  TakenAt m p =
      (lookup p m ≡ lookup p m0)
      ⊎ ((e : Entry) × In e remote
          × (e.path ≡ p)
          × (lookup p m ≡ some e)
          × (up_to_date (lookup p m0) e ≡ false))

  abbrev pub Taken : Map Entry → Type 0
  Taken m = (p : String) → TakenAt m p

  abbrev pub IsNews : Entry → Type 0
  IsNews e = In e remote × (up_to_date (lookup e.path m0) e ≡ false)

  abbrev pub News : List TransferJob → Type 0
  News = All λ (job : TransferJob). IsNews job.entry

  insert-Taken : (e : Entry) (m : Map Entry) → IsNews e → Taken m → Taken (insert e.path e m)
  insert-Taken e m news r p = elim (Bool-cases (str_eq e.path p)) [
    | inl hit ↦
        let same = (eq_iff e.path p).0 hit in
        inr (
          e,
          news.0,
          same,
          rw (lookup-insert e.path p e m, hit) refl,
          subst (λ q. up_to_date (lookup q m0) e ≡ false) same news.1,
        )
    | inr miss ↦
        subst
          (λ (o : Option Entry).
            (o ≡ lookup p m0)
            ⊎ ((e' : Entry) × In e' remote
                × (e'.path ≡ p)
                × (o ≡ some e')
                × (up_to_date (lookup p m0) e' ≡ false)))
          (sym (rw (lookup-insert e.path p e m, miss) refl)) (r p)
  ]

  passed_trans :
      (o x e : Entry)
      → up_to_date (some o) x ≡ false
      → up_to_date (some x) e ≡ false
      → up_to_date (some o) e ≡ false
  passed_trans o x e h k = ground arith

  -- An entry that passes the test against the journal of the moment passes it against the first.
  news_of :
      (old now : Option Entry) (e : Entry)
      → (now ≡ old)
        ⊎ ((x : Entry) × In x remote
            × (x.path ≡ e.path)
            × (now ≡ some x)
            × (up_to_date old x ≡ false))
      → up_to_date now e ≡ false
      → up_to_date old e ≡ false
  news_of old now e (inl same) h = cc
  news_of none now e (inr (x, _, _, q, u)) h = refl
  news_of (some o) now e (inr (x, _, _, q, u)) h =
      passed_trans o x e u (subst (λ t. up_to_date t e ≡ false) q h)

  pub record Ok (pass : Pass) : Type 0 where
    pub taken : Taken pass.by_path
    pub news : News pass.jobs

  put-Ok :
      (e : Entry) (pass : Pass)
      → IsNews e
      → Ok pass
      → Ok (record pass { by_path = insert e.path e pass.by_path })
  put-Ok e pass n ok = record { taken = insert-Taken e pass.by_path n ok.taken; news = ok.news }

  queue-Ok :
      (jobs : List TransferJob) (pass : Pass)
      → News jobs
      → Ok pass
      → Ok (record pass { jobs = pass.jobs ++ jobs })
  queue-Ok jobs pass n ok = record {
    taken = ok.taken;
    news = All-append _ pass.jobs jobs ok.news n;
  }

  fail-Ok : (pass : Pass) → Ok pass → Ok (record pass { failed = true })
  fail-Ok pass ok = record { taken = ok.taken; news = ok.news }

  module _ (fx : Effects) where
    plan_target-Ok :
        (pass : Pass) (e : Entry) (target : Option String)
        → IsNews e
        → Ok pass
        → Ok (plan_target fx pass e target)
    unfolding plan_target
    plan_target-Ok pass e none n ok = ok
    plan_target-Ok pass e (some target) n ok =
        if_rule Ok e.deleted _ _
          (λ _. if_rule Ok (fx.remove target) _ _ (λ _. put-Ok e pass n ok) (λ _. fail-Ok pass ok))
          (λ _. queue-Ok (record { entry = e; target = target } ∷ []) pass (n, tt) ok)

    plan_entry-Ok :
        (root : String) (pass : Pass) (e : Entry)
        → In e remote
        → Ok pass
        → Ok (plan_entry fx root pass e)
    unfolding plan_entry
    plan_entry-Ok root pass e i ok =
        elim (Bool-cases (not (safe_rel e.path) || up_to_date (lookup e.path pass.by_path) e)) [
          | inl skip ↦ rw skip ok
          | inr take ↦ rw take (
              plan_target-Ok pass e (safe_join root e.path)
                (
                  i,
                  news_of (lookup e.path m0) (lookup e.path pass.by_path) e (ok.taken e.path)
                      (ground arith),
                )
                ok)
        ]

    pub plan_remote-Ok :
        (root : String) (pass : Pass) (entries : List Entry)
        → All (λ e. In e remote) entries
        → Ok pass
        → Ok (plan_remote fx root pass entries)
    unfolding plan_remote
    plan_remote-Ok root pass [] i ok = ok
    plan_remote-Ok root pass (e ∷ entries) i ok =
        plan_remote-Ok root (plan_entry fx root pass e) entries i.1
          (plan_entry-Ok root pass e i.0 ok)

    batch_body-Ok :
        (pass : Pass) (job : TransferJob) (body : Option Bytes)
        → IsNews job.entry
        → Ok pass
        → Ok (batch_body fx pass job body)
    unfolding batch_body
    batch_body-Ok pass job none n ok = queue-Ok (job ∷ []) pass (n, tt) ok
    batch_body-Ok pass job (some body) n ok = elim (Bool-cases (not (body_fits fx job body))) [
      | inl bad ↦ rw bad (queue-Ok (job ∷ []) pass (n, tt) ok)
      | inr fits ↦ elim (Bool-cases (fx.write_small job body)) [
        | inl w ↦ rw (fits, w) (put-Ok job.entry pass n ok)
        | inr w ↦ rw (fits, w) (fail-Ok _ (queue-Ok (job ∷ []) pass (n, tt) ok))
      ]
    ]

    batch_files-Ok :
        (bodies : Map Bytes) (pass : Pass) (chunk : List TransferJob)
        → News chunk
        → Ok pass
        → Ok (batch_files fx bodies pass chunk)
    unfolding batch_files
    batch_files-Ok bodies pass [] n ok = ok
    batch_files-Ok bodies pass (job ∷ chunk) n ok =
        batch_files-Ok bodies (batch_body fx pass job (lookup job.entry.path bodies)) chunk n.1
          (batch_body-Ok pass job (lookup job.entry.path bodies) n.0 ok)

    batch_chunk-Ok :
        (pass : Pass) (chunk : List TransferJob) (bodies : Option (Map Bytes))
        → News chunk
        → Ok pass
        → Ok (batch_chunk fx pass chunk bodies)
    unfolding batch_chunk
    batch_chunk-Ok pass chunk none n ok = queue-Ok chunk pass n ok
    batch_chunk-Ok pass chunk (some bodies) n ok = batch_files-Ok bodies pass chunk n ok

    batch_chunks-Ok :
        (fuel : ℕ) (pass : Pass) (small : List TransferJob)
        → News small
        → Ok pass
        → Ok (batch_chunks fx fuel pass small)
    unfolding batch_chunks
    batch_chunks-Ok zero pass small n ok = ok
    batch_chunks-Ok (suc fuel) pass [] n ok = ok
    batch_chunks-Ok (suc fuel) pass (job ∷ small) n ok =
        batch_chunks-Ok fuel _ (drop small_file_batch_count (job ∷ small))
          (All-drop _ small_file_batch_count (job ∷ small) n)
          (batch_chunk-Ok pass _ (fx.fetch_batch (take small_file_batch_count (job ∷ small)))
            (All-take _ small_file_batch_count (job ∷ small) n) ok)

    run_jobs-Ok :
        (pass : Pass) (jobs : List TransferJob) → News jobs → Ok pass → Ok (run_jobs fx pass jobs)
    unfolding run_jobs
    run_jobs-Ok pass [] n ok = ok
    run_jobs-Ok pass (job ∷ jobs) n ok = elim (Bool-cases (fx.download job)) [
      | inl d ↦ rw d (
          run_jobs-Ok (record pass { by_path = insert job.entry.path job.entry pass.by_path }) jobs
            n.1 (put-Ok job.entry pass n.0 ok))
      | inr d ↦ rw d (run_jobs-Ok (record pass { failed = true }) jobs n.1 (fail-Ok pass ok))
    ]

  split_small-News :
      (jobs : List TransferJob) → News jobs → News (split_small jobs).0 × News (split_small jobs).1
  unfolding split_small
  split_small-News [] n = (tt, tt)
  split_small-News (job ∷ jobs) n = ground (arith, split_small-News jobs n.1)

  module _ (fx : Effects) where
    pub apply_small_batches-Ok : (pass : Pass) → Ok pass → Ok (apply_small_batches fx pass)
    unfolding apply_small_batches
    apply_small_batches-Ok pass ok =
        let (small, rest) = split_small-News pass.jobs ok.news in
        if_rule Ok (ltb (length (split_small pass.jobs).0) 2) _ _ (λ _. ok)
          (λ _.
            batch_chunks-Ok fx (length (split_small pass.jobs).0)
              (record pass { jobs = (split_small pass.jobs).1 }) (split_small pass.jobs).0 small
              (record { taken = ok.taken; news = rest }))

    pub apply_remote-Taken :
        (root : String) (p : String)
        → ((jobs : List TransferJob) → Within (fx.finish jobs) jobs)
        → TakenAt (apply_remote fx root m0 remote).by_path p
    unfolding apply_remote
    apply_remote-Taken root p fin =
        (run_jobs-Ok fx batched (fx.finish batched.jobs)
            (All-map
              (λ job h.
                All-In (λ (j : TransferJob). IsNews j.entry) batched.jobs job batched_ok.news h)
              (fx.finish batched.jobs) (fin batched.jobs))
            batched_ok).taken
          p
      where
        planned : Pass
        planned = plan_remote fx root (record { by_path = m0; jobs = []; failed = false }) remote

        batched : Pass
        batched = apply_small_batches fx planned

        batched_ok : Ok batched
        batched_ok = apply_small_batches-Ok planned (
            plan_remote-Ok fx root _ remote (All-In-self remote)
              (record { taken = λ q. inl refl; news = tt }))

  -- The entry has a higher revision than what was there, or nothing was.
  abbrev pub IsHigher : Option Entry → Entry → Type 0
  IsHigher none e = Unit
  IsHigher (some current) e = current.revision <ℤ e.revision

  -- The path is as it was, or holds an entry of the peer with a higher revision.
  abbrev pub RisenAt : Map Entry → String → Type 0
  RisenAt m p =
      (lookup p m ≡ lookup p m0)
      ⊎ ((e : Entry) × In e remote
          × (e.path ≡ p)
          × (lookup p m ≡ some e)
          × IsHigher (lookup p m0) e)

  passed-IsHigher : (o : Option Entry) (e : Entry) → up_to_date o e ≡ false → IsHigher o e
  passed-IsHigher none e h = tt
  passed-IsHigher (some current) e h = ground arith

  taken-RisenAt : (m : Map Entry) (p : String) → TakenAt m p → RisenAt m p
  taken-RisenAt m p (inl same) = inl same
  taken-RisenAt m p (inr (e, i, q, l, u)) = inr (e, i, q, l, passed-IsHigher (lookup p m0) e u)

  -- Whichever calls fail, in whatever order the workers end jobs that they were given: after a
  -- pass each path holds the entry that it had, or an entry that the peer sent for it with a
  -- higher revision, or with any where there was none.
  pub apply_remote-Risen :
      (fx : Effects) (root : String) (p : String)
      → ((jobs : List TransferJob) → Within (fx.finish jobs) jobs)
      → RisenAt (apply_remote fx root m0 remote).by_path p
  apply_remote-Risen fx root p fin =
      taken-RisenAt (apply_remote fx root m0 remote).by_path p (apply_remote-Taken fx root p fin)
