-- ===== src/FolderShare/Transfer/Agree.antt =====
-- The result of a pass without errors, path by path, and what two peers agree on after each has
-- taken the other's journal.
use file_sync_engine.Prelude.{
  String, ◌≡◌, ◌≢◌, refl, true, false, ◌⊎◌, inl, inr, Option, none, some, List, [], arith,
  if◌then◌else◌, subst, sym, ap, ◌∙◌,
}
use file_sync_engine.Prelude.Int.{ltb_ℤ, eq_of_parts}
use file_sync_engine.Prelude.Lists.{All, All-map, All-In, In, All-In-self}
use file_sync_engine.Prelude.Map.{Map, lookup}
use file_sync_engine.Paths.Guards.{safe_rel, safe_join}
use file_sync_engine.FolderShare.Journal.{Entry}
use file_sync_engine.FolderShare.Transfer.{
  TransferJob, Effects, Pass, up_to_date, plan_remote, apply_small_batches, apply_remote,
}
use file_sync_engine.FolderShare.Transfer.Sound.{
  Within, Ok, IsNews, plan_remote-Ok, apply_small_batches-Ok, apply_remote-Taken,
}
use file_sync_engine.FolderShare.Transfer.Complete.{
  AtLeast, Tracked, IsOnly, plan_remote_self, done, queued, failed,
}
use file_sync_engine.FolderShare.Transfer.Complete.Drain.{
  apply_small_batches-Tracked, run_jobs-Tracked, OnlyJobs,
}

-- The workers finish the jobs that they were given, each of them, in some order.
pub record IsOrder (finish : List TransferJob → List TransferJob) : Type 0 where
  pub sound : (jobs : List TransferJob) → Within (finish jobs) jobs
  pub total : (jobs : List TransferJob) → Within jobs (finish jobs)

-- The peer's list has one entry for the path of `e`, and the folder accepts the path.
pub record IsOffered (root : String) (remote : List Entry) (e : Entry) : Type 0 where
  pub listed : In e remote
  pub once : All (IsOnly e) remote
  pub safe : safe_rel e.path ≡ true
  pub target : String
  pub joined : safe_join root e.path ≡ some target

-- The entry with the higher revision of what was there and what was offered; a tie stays.
abbrev pub newer : Option Entry → Entry → Option Entry
newer none e = some e
newer (some current) e = if ltb_ℤ current.revision e.revision then some e else some current

newer_stays : (o : Option Entry) (e : Entry) → up_to_date o e ≡ true → newer o e ≡ o
newer_stays none e h = absurd (ground (arith, h))
newer_stays (some current) e h = ground (arith, h)

newer_taken : (o : Option Entry) (e : Entry) → up_to_date o e ≡ false → newer o e ≡ some e
newer_taken none e h = refl
newer_taken (some current) e h = ground (arith, h)

module _ (fx : Effects) (order : IsOrder fx.finish) (root : String) (m : Map Entry)
    (remote : List Entry) (e : Entry) (offer : IsOffered root remote e) where
  planned : Pass
  planned = plan_remote fx root (record { by_path = m; jobs = []; failed = false }) remote

  planned-Ok : Ok m remote planned
  unfolding planned
  planned-Ok =
      plan_remote-Ok m remote fx root _ remote (All-In-self remote)
        (record { taken = λ q. inl refl; news = tt })

  only_of_news : (pass : Pass) → Ok m remote pass → OnlyJobs e fx pass.jobs
  only_of_news pass ok =
      All-map
        (λ (job : TransferJob) (n : IsNews m remote job.entry).
          All-In (IsOnly e) remote job.entry offer.once n.0)
        pass.jobs ok.news

  from_queue :
      (pass : Pass)
      → OnlyJobs e fx pass.jobs
      → Tracked e pass
      → AtLeast e pass.by_path
        ⊎ (pass.failed ≡ true)
        ⊎ ((job : TransferJob) × In job (fx.finish pass.jobs) × (job.entry ≡ e))
  from_queue pass only (done h) = inl h
  from_queue pass only (failed h) = inr (inl h)
  from_queue pass only (queued (job, i, q)) = inr (
      inr
        (job, All-In (λ j. In j (fx.finish pass.jobs)) pass.jobs job (order.total pass.jobs) i, q))

  apply_remote-AtLeast :
      AtLeast e (apply_remote fx root m remote).by_path
      ⊎ ((apply_remote fx root m remote).failed ≡ true)
  unfolding apply_remote planned
  apply_remote-AtLeast =
      run_jobs-Tracked e fx batched (fx.finish batched.jobs)
        (All-map (λ job h. All-In (λ (j : TransferJob). IsOnly e j.entry) batched.jobs job only h)
          (fx.finish batched.jobs) (order.sound batched.jobs))
        (from_queue batched only (
          apply_small_batches-Tracked e fx planned (only_of_news planned planned-Ok) (
            plan_remote_self e fx root _ remote offer.target offer.once offer.listed offer.safe
              offer.joined)))
    where
      batched : Pass
      batched = apply_small_batches fx planned

      only : OnlyJobs e fx batched.jobs
      only = only_of_news batched (apply_small_batches-Ok m remote fx planned planned-Ok)

  exact_of :
      (now : Option Entry)
      → (now ≡ lookup e.path m)
        ⊎ ((x : Entry) × In x remote
            × (x.path ≡ e.path)
            × (now ≡ some x)
            × (up_to_date (lookup e.path m) x ≡ false))
      → up_to_date now e ≡ true
      → now ≡ newer (lookup e.path m) e
  exact_of now (inl same) h =
      let t : up_to_date (lookup e.path m) e ≡ true = subst (λ o. up_to_date o e ≡ true) same h in
      same ∙ sym (newer_stays (lookup e.path m) e t)
  exact_of now (inr (x, i, p, q, u)) h =
      let is_e : x ≡ e = All-In (IsOnly e) remote x offer.once i p in
      let old : up_to_date (lookup e.path m) e ≡ false =
        subst (λ y. up_to_date (lookup e.path m) y ≡ false) is_e u in
      q ∙ ap some is_e ∙ sym (newer_taken (lookup e.path m) e old)

  -- A pass that reports no error, and whose workers end exactly the jobs they were given, leaves
  -- at the path of an offered entry the one of the two entries with the higher revision, the
  -- offered one where there was none, and its own on equal revisions. Offered is an entry that is the only one of the peer for its path, which the guards
  -- accept.
  pub apply_remote-newer :
      (apply_remote fx root m remote).failed ≡ false
      → lookup e.path (apply_remote fx root m remote).by_path ≡ newer (lookup e.path m) e
  apply_remote-newer clean = elim apply_remote-AtLeast [
    | inl h ↦ exact_of _ (apply_remote-Taken m remote fx root e.path order.sound) h
    | inr bad ↦ cc
  ]

-- Both ends of an exchange: the first end has taken the second's entry `b`, and then the second
-- takes what the first now holds at that path, `x`.
module _ (fx gx : Effects) (order : IsOrder fx.finish) (order' : IsOrder gx.finish)
    (root root' : String) (m m' : Map Entry) (remote remote' : List Entry) (a b x : Entry)
    (offer : IsOffered root remote b) (offer' : IsOffered root' remote' x)
    (mine : lookup b.path m ≡ some a) (theirs : lookup x.path m' ≡ some b)
    (sent : lookup b.path (apply_remote fx root m remote).by_path ≡ some x)
    (clean : (apply_remote fx root m remote).failed ≡ false)
    (clean' : (apply_remote gx root' m' remote').failed ≡ false) where
  first_pass : some x ≡ newer (some a) b
  first_pass =
      sym sent ∙ apply_remote-newer fx order root m remote b offer clean ∙ ap (λ o. newer o b) mine

  second_pass : lookup x.path (apply_remote gx root' m' remote').by_path ≡ newer (some b) x
  second_pass =
      apply_remote-newer gx order' root' m' remote' x offer' clean' ∙ ap (λ o. newer o x) theirs

  meet_of :
      (a b x : Entry)
      → some x ≡ newer (some a) b
      → a.revision ≢ b.revision
      → newer (some b) x ≡ some x
  meet_of a b x h tie = ground (arith, eq_of_parts a.revision b.revision)

  -- Two passes without errors, one in each direction, of which the second is offered what the
  -- first end holds by then, leave both ends with the same entry of a path that both had, unless
  -- their entries had the same revision.
  pub exchange_agrees :
      a.revision ≢ b.revision
      → lookup b.path (apply_remote fx root m remote).by_path
        ≡ lookup x.path (apply_remote gx root' m' remote').by_path
  exchange_agrees tie = sent ∙ sym (second_pass ∙ meet_of a b x first_pass tie)

  tie_of :
      (a b x : Entry)
      → some x ≡ newer (some a) b
      → a.revision ≡ b.revision
      → (x ≡ a) × (newer (some b) x ≡ some b)
  tie_of a b x h tie = let same : x ≡ a = ground arith in (same, ground arith)

  -- Entries with the same revision are not reconciled: after two such passes, one in each
  -- direction and without errors, each end still holds its own entry of the path.
  pub exchange_tie :
      a.revision ≡ b.revision
      → (lookup b.path (apply_remote fx root m remote).by_path ≡ some a)
        × (lookup x.path (apply_remote gx root' m' remote').by_path ≡ some b)
  exchange_tie tie =
      let (same, stay) = tie_of a b x first_pass tie in (sent ∙ ap some same, second_pass ∙ stay)
