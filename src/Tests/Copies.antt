-- ===== src/Tests/Copies.antt =====
-- The Badger store, and the copies of a folder that peers keep, at concrete inputs.
use file_sync_engine.Prelude.{
  ℕ, ◌≡◌, ◌≢◌, refl, Bool, true, false, Option, none, some, List, [], ◌∷◌, arith, str_eq, inl,
  if◌then◌else◌,
}
use file_sync_engine.Prelude.Map.{Map, lookup, insert, erase}
use file_sync_engine.Prelude.Sort.{sort_stable}
use file_sync_engine.Prelude.Text.{str_lt}
use file_sync_engine.Metadata.{Folder, save_manifest, delete_manifest}
use file_sync_engine.Metadata.Changes.{
  FolderChanges, FolderSummary, compacted_since, all_changes, changes_since_limit,
}
use file_sync_engine.Metadata.Peer.{PeerFolder, apply_peer_folder_changes}
use file_sync_engine.Metadata.Mirror.{Mirrors}
use file_sync_engine.Metadata.WellFormed.{FolderUpdate, saving, deleting, moving}
use file_sync_engine.Metadata.Compaction.{CompactionPolicy, state_cursor, compact_folder}
use file_sync_engine.Metadata.Compaction.Told.{compact_folder-told}
use file_sync_engine.Metadata.Refresh.{replace_peer_folder}
use file_sync_engine.Metadata.Refresh.Mirrored.{HasRevisions, replace_peer_folder-Mirrors}
use file_sync_engine.Metadata.Changes.{folder_summary, or_zero}
use file_sync_engine.Metadata.Asked.{save_peer_folder_state, save_peer_folder_state-refused}
use file_sync_engine.Metadata.Changes.{summary_items}
use file_sync_engine.Badger.{BadgerFolder, badger_save}
use file_sync_engine.Badger.Agree.{Agrees, json_run, badger_run, badger_run-Agrees}
use file_sync_engine.Badger.Index.{IsIndexed, badger_changed-IsIndexed}
use file_sync_engine.Tests.Metadata.{
  paths_of, codec, folder, peer, empty_folder, empty_peer, is_none, folder-IsFolder, distinct,
}

abbrev badger_folder : BadgerFolder codec
badger_folder = record {
  manifests = λ p. none;
  revisions = λ p. none;
  history = λ p r. none;
  tombstones = λ p. none;
  rename_hints = λ p. none;
  cursor = none;
  block_index = λ p. [];
}

folders-Agree : Agrees codec empty_folder badger_folder
unfolding lookup
folders-Agree = record {
  files = λ p. refl;
  revisions = λ p. refl;
  history = λ p r. refl;
  tombstones = λ p. refl;
  rename_hints = λ p. refl;
  cursor = refl;
}

abbrev updates : List (FolderUpdate codec)
updates = saving "a" 7 ∷ moving "a" "b" 8 ∷ deleting "b" ∷ moving "" "c" 3 ∷ []

badger_run-Agrees_example :
    Agrees codec
      (json_run codec updates empty_folder)
      (badger_run codec "docs" updates badger_folder)
badger_run-Agrees_example = badger_run-Agrees codec updates empty_folder badger_folder folders-Agree

folder-IsIndexed : IsIndexed codec badger_folder
folder-IsIndexed = record { at_path = λ p. refl }

badger_changed-IsIndexed_example : IsIndexed codec (badger_save codec "a" 7 badger_folder)
badger_changed-IsIndexed_example =
    badger_changed-IsIndexed codec "docs" (saving "a" 7) badger_folder
      (badger_save codec "a" 7 badger_folder) folder-IsIndexed tt refl

abbrev policy : CompactionPolicy
policy = record { peer_ids = "node" ∷ []; retain_last_cursors = 0 }

abbrev states : Map ℕ
states = ("node", 2) ∷ []

abbrev removed : Folder codec
removed = delete_manifest codec "a" folder

compact_folder-told_example :
    (all_changes codec (compact_folder codec policy states removed) (state_cursor states "node")
      ≡ all_changes codec removed (state_cursor states "node"))
    × (compacted_since
          (state_cursor states "node")
          none
          (compact_folder codec policy states removed).compactions
        ≡ compacted_since (state_cursor states "node") none removed.compactions)
compact_folder-told_example = compact_folder-told codec policy states removed "node" (inl refl)

-- A peer that has the tombstone which the compaction took refuses the next changes: its state hash
-- still has the tombstone.
abbrev peer_after : PeerFolder codec
peer_after = record peer { files = []; revisions = []; tombstones = ("a", 2) ∷ []; cursor = 2 }

abbrev refused_after : Option (FolderChanges codec) → Bool
refused_after none = false
refused_after (some message) = is_none (apply_peer_folder_changes codec "node" message peer_after)

compacted_refused :
    refused_after (
      changes_since_limit codec
        (save_manifest codec "b" 5 (compact_folder codec policy states removed))
        2
        0)
    ≡ true
unfolding changes_since_limit apply_peer_folder_changes save_manifest delete_manifest compact_folder
    lookup insert erase sort_stable str_lt
compacted_refused = refl

not_compacted_taken :
    refused_after (changes_since_limit codec (save_manifest codec "b" 5 removed) 2 0) ≡ false
unfolding changes_since_limit apply_peer_folder_changes save_manifest delete_manifest lookup insert
    erase sort_stable str_lt
not_compacted_taken = refl

abbrev only_if : Bool → ℕ → Option ℕ
only_if test n = if test then some n else none

folder-HasRevisions : HasRevisions codec folder
unfolding lookup
folder-HasRevisions = record {
  files_once = (refl, tt);
  unrevised = λ p e. by_test (str_eq "a" p) e;
  revised = λ p n. positive (str_eq "a" p) n;
}
  where
    by_test : (test : Bool) → only_if test 7 ≡ none → only_if test 1 ≡ none
    by_test true e = ground (arith, e)
    by_test false e = refl

    positive : (test : Bool) → only_if test 7 ≢ none → or_zero (only_if test 1) ≢ 0
    positive true n e = omega (arith, e)
    positive false n e = n refl

replace_peer_folder-Mirrors_example :
    (after : PeerFolder codec) × (replace_peer_folder codec "node" "docs"
        (folder_summary codec folder)
        folder.files
        folder.revisions
        peer_after
      ≡ some after)
    × Mirrors codec folder after
replace_peer_folder-Mirrors_example =
    replace_peer_folder-Mirrors codec "node" folder peer_after (distinct "node" "" refl)
      (distinct "docs" "" refl) refl folder-HasRevisions

-- A full refresh from a folder that has a tombstone leaves a copy without it, which refuses the next
-- changes.
abbrev refused_by : Option (PeerFolder codec) → Option (FolderChanges codec) → Bool
refused_by none message = false
refused_by (some copy) none = false
refused_by (some copy) (some message) =
    is_none (apply_peer_folder_changes codec "node" message copy)

refreshed_refused :
    refused_by
      (replace_peer_folder codec "node" "docs"
        (folder_summary codec removed)
        removed.files
        removed.revisions
        peer)
      (changes_since_limit codec (save_manifest codec "b" 5 removed) 2 0)
    ≡ true
unfolding changes_since_limit apply_peer_folder_changes save_manifest delete_manifest lookup insert
    erase sort_stable str_lt replace_peer_folder folder_summary
refreshed_refused = refl

abbrev asked : FolderSummary
asked = record { folder_id = "docs"; cursor = 5; files = 9; tombstones = 0; state_hash = "x" }

asked_compaction : compacted_since 5 none [] ≡ none
unfolding compacted_since
asked_compaction = refl

copy_differs :
    paths_of (summary_items codec empty_peer.files empty_peer.revisions empty_peer.tombstones)
    ≢ paths_of (summary_items codec folder.files folder.revisions folder.tombstones)
unfolding summary_items sort_stable lookup
copy_differs = distinct "" "fa" refl

save_peer_folder_state-refused_example :
    (message : FolderChanges codec) × (changes_since_limit codec folder
        (save_peer_folder_state codec asked empty_peer).state.cursor
        0
      ≡ some message)
    × (apply_peer_folder_changes codec "node" message
          (save_peer_folder_state codec asked empty_peer)
        ≡ none)
save_peer_folder_state-refused_example =
    save_peer_folder_state-refused codec "node" folder asked empty_peer folder-IsFolder
      (omega arith) asked_compaction copy_differs
