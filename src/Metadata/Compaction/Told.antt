-- ===== src/Metadata/Compaction/Told.antt =====
-- What a folder tells its peers after a compaction.
use file_sync_engine.Prelude.{
  ℕ, ◌≡◌, ◌≢◌, ◌==◌, ◌||◌, ◌≤◌, ◌<◌, refl, ap, String, true, Option, none, some, List, [], ◌∷◌,
  ◌++◌, arith, ltb, leb, if◌then◌else◌, Bool-cases, inl, inr,
}
use file_sync_engine.Prelude.Lists.{length, In}
use file_sync_engine.Prelude.Map.{Map}
use file_sync_engine.Prelude.Sort.{sort_stable}
use file_sync_engine.Metadata.{Codec, RenameHint, CompactionSnapshot, Folder}
use file_sync_engine.Metadata.Changes.{
  FolderChange, FolderChanges, up_to, compacted_since, tombstone_changes, revision_changes, before,
  all_changes, changes_since_limit, unless_compacted,
}
use file_sync_engine.Metadata.Compaction.{
  CompactionPolicy, state_cursor, least_cursor, retained_safe, kept_above, safe_of, compaction_plan,
  compaction_snapshot, compacted_to, compact_folder,
}

least_cursor-low :
    (states : Map ℕ) (peers : List String) (safe : ℕ) → least_cursor states peers safe ≤ safe
unfolding least_cursor
least_cursor-low states [] safe = omega arith
least_cursor-low states (peer ∷ peers) safe = ground (
  arith,
  least_cursor-low states peers
      (if ltb (state_cursor states peer) safe then state_cursor states peer else safe),
)

least_cursor-peer :
    (states : Map ℕ) (peers : List String) (safe : ℕ) (peer : String)
    → In peer peers
    → least_cursor states peers safe ≤ state_cursor states peer
unfolding least_cursor
least_cursor-peer states [] safe peer i = elim i [ ]
least_cursor-peer states (p ∷ peers) safe peer (inl e) = ground (
  arith,
  ap (state_cursor states) e,
  least_cursor-low states peers
      (if ltb (state_cursor states p) safe then state_cursor states p else safe),
)
least_cursor-peer states (p ∷ peers) safe peer (inr i) =
    least_cursor-peer states peers
      (if ltb (state_cursor states p) safe then state_cursor states p else safe) peer i

retained_safe-low : (current retain safe : ℕ) → retained_safe current retain safe ≤ safe
unfolding retained_safe
retained_safe-low current retain safe = ground arith

module _ (codec : Codec) where
  kept_above-told :
      (safe cursor : ℕ) (hints : Map RenameHint) (tombstones : Map ℕ)
      → safe ≤ cursor
      → tombstone_changes codec cursor hints (kept_above safe tombstones)
        ≡ tombstone_changes codec cursor hints tombstones
  unfolding tombstone_changes kept_above
  kept_above-told safe cursor hints [] h = refl
  kept_above-told safe cursor hints ((rel, rev) ∷ rest) h =
      ground (arith, h, kept_above-told safe cursor hints rest h)

  compacted_since-last :
      (cursor : ℕ) (earlier : List CompactionSnapshot) (latest : Option CompactionSnapshot)
      (last : CompactionSnapshot)
      → last.safe_cursor ≤ cursor
      → compacted_since cursor latest (earlier ++ last ∷ []) ≡ compacted_since cursor latest earlier
  unfolding compacted_since
  compacted_since-last cursor [] latest last h = ground (arith, h)
  compacted_since-last cursor (s ∷ rest) latest last h = compacted_since-last cursor rest _ last h

  compacted_since-some :
      (cursor : ℕ) (rest : List CompactionSnapshot) (found : CompactionSnapshot)
      → compacted_since cursor (some found) rest ≢ none
  unfolding compacted_since
  compacted_since-some cursor [] found e = ground (arith, e)
  compacted_since-some cursor (s ∷ rest) found e =
      elim (Bool-cases (s.compacted_tombstones == 0 || leb s.safe_cursor cursor)) [
        | inl t ↦ compacted_since-some cursor rest found (ground (arith, t, e))
        | inr t ↦ elim (Bool-cases (ltb found.safe_cursor s.safe_cursor)) [
          | inl u ↦ compacted_since-some cursor rest s (ground (arith, t, u, e))
          | inr u ↦ compacted_since-some cursor rest found (ground (arith, t, u, e))
        ]
      ]

  safe-peer :
      (policy : CompactionPolicy) (states : Map ℕ) (s : Folder codec) (peer : String)
      → In peer policy.peer_ids
      → (compaction_plan codec policy states s).safe_cursor ≤ state_cursor states peer
  unfolding compaction_plan safe_of
  safe-peer policy states s peer i =
      let least = least_cursor states policy.peer_ids s.cursor in
      omega (
        arith,
        retained_safe-low s.cursor policy.retain_last_cursors least,
        least_cursor-peer states policy.peer_ids s.cursor peer i,
      )

  -- A compaction takes nothing from the peers of its policy: at the cursor of each of them the folder
  -- has the same changes as before, and the same compaction, or none, that the peer would have to be
  -- refused for.
  pub compact_folder-told :
      (policy : CompactionPolicy) (states : Map ℕ) (s : Folder codec) (peer : String)
      → In peer policy.peer_ids
      → let after = compact_folder codec policy states s in
        let cursor = state_cursor states peer in
        (all_changes codec after cursor ≡ all_changes codec s cursor)
        × (compacted_since cursor none after.compactions
            ≡ compacted_since cursor none s.compactions)
  unfolding compact_folder compacted_to all_changes compaction_snapshot
  compact_folder-told policy states s peer i =
      let safe = (compaction_plan codec policy states s).safe_cursor in
      let cursor = state_cursor states peer in
      let below = safe-peer policy states s peer i in
      let both : (all_changes codec (compacted_to codec safe s) cursor ≡ all_changes codec s cursor)
          × (compacted_since cursor none (compacted_to codec safe s).compactions
              ≡ compacted_since cursor none s.compactions) =
        (
          ap
              (λ (told : List (FolderChange codec)).
                sort_stable (before codec)
                  (revision_changes codec cursor s.rename_hints s.files s.revisions ++ told))
              (kept_above-told safe cursor s.rename_hints s.tombstones below),
          compacted_since-last cursor s.compactions none (compaction_snapshot codec safe s) below,
        ) in
      elim (Bool-cases (ltb 0 (compaction_snapshot codec safe s).compacted_tombstones)) [
        | inl t ↦ rw t both
        | inr t ↦ rw t (refl, refl)
      ]

  compacted_since-hit :
      (cursor : ℕ) (earlier : List CompactionSnapshot) (latest : Option CompactionSnapshot)
      (last : CompactionSnapshot)
      → 0 < last.compacted_tombstones
      → cursor < last.safe_cursor
      → compacted_since cursor latest (earlier ++ last ∷ []) ≢ none
  unfolding compacted_since
  compacted_since-hit cursor [] none last p h e = ground (arith, p, h, e)
  compacted_since-hit cursor [] (some found) last p h e =
      compacted_since-some cursor (last ∷ []) found e
  compacted_since-hit cursor (s ∷ rest) latest last p h e =
      compacted_since-hit cursor rest _ last p h e

  refused_unless :
      (o : Option CompactionSnapshot) (message : FolderChanges codec)
      → o ≢ none
      → unless_compacted codec o message ≡ none
  refused_unless none message n = elim (n refl) [ ]
  refused_unless (some snapshot) message n = refl

  -- After a compaction that took a tombstone, a peer that is behind the safe cursor is refused,
  -- whatever the limit.
  compact_folder-refused :
      (policy : CompactionPolicy) (states : Map ℕ) (s : Folder codec) (cursor max_changes : ℕ)
      → 0 < length (up_to (compaction_plan codec policy states s).safe_cursor s.tombstones)
      → cursor < (compaction_plan codec policy states s).safe_cursor
      → changes_since_limit codec (compact_folder codec policy states s) cursor max_changes ≡ none
  unfolding compact_folder compacted_to compaction_snapshot changes_since_limit
  compact_folder-refused policy states s cursor max_changes p h =
      let safe = (compaction_plan codec policy states s).safe_cursor in
      let taken : ltb 0 (compaction_snapshot codec safe s).compacted_tombstones ≡ true =
        ground (arith, p) in
      rw taken (
        refused_unless _ _
          (compacted_since-hit cursor s.compactions none (compaction_snapshot codec safe s) p h))
