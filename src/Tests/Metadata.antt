-- ===== src/Tests/Metadata.antt =====
-- The metadata of a folder at concrete inputs.
use file_sync_engine.Prelude.{
  ℕ, ◌+◌, ◌≡◌, ◌≢◌, refl, String, Bool, true, false, Option, none, some, List, [], ◌∷◌, arith,
  str_eq, eq_iff, ◌==◌,
}
use file_sync_engine.Prelude.Lists.{All}
use file_sync_engine.Prelude.Map.{lookup, insert, erase}
use file_sync_engine.Prelude.Sort.{sort_stable}
use file_sync_engine.Prelude.Text.{str_lt}
use file_sync_engine.Metadata.{Item, deleted, file, Codec, Folder, save_manifest, moved}
use file_sync_engine.Metadata.Changes.{
  FolderChanges, FolderSummary, compacted_since, all_changes, changes_since_limit,
}
use file_sync_engine.Metadata.Peer.{PeerFolder, apply_peer_folder_changes}
use file_sync_engine.Metadata.History.{Op, save, delete, run_ops, IsFolder}
use file_sync_engine.Metadata.Mirror.{Mirrors}
use file_sync_engine.Metadata.CatchUp.{catch_up}
use file_sync_engine.Metadata.WellFormed.{saving, changed-IsFolder}
use file_sync_engine.Metadata.Renames.{Skips, rename_lost}
use Prim.Native.String.{◌++◌ as cat}

-- The paths of a summary as its digest.
abbrev pub paths_of : List (Item ℕ) → String
paths_of [] = ""
paths_of (deleted p r ∷ rest) = cat "d" (cat p (paths_of rest))
paths_of (file p r m ∷ rest) = cat "f" (cat p (paths_of rest))

abbrev pub codec : Codec
codec = record {
  Content = ℕ;
  empty = 0;
  damaged = λ m. m == 0;
  blocks_of = λ m. record { size = m; hash = "h"; index = 0 } ∷ [];
  digest = paths_of;
}

abbrev pub folder : Folder codec
folder = record {
  folder_id = "docs";
  files = ("a", 7) ∷ [];
  revisions = ("a", 1) ∷ [];
  history = ("a", (1, 7) ∷ []) ∷ [];
  tombstones = [];
  rename_hints = [];
  cursor = 1;
  compactions = [];
}

pub folder-IsFolder : IsFolder codec folder
unfolding lookup
folder-IsFolder = record {
  files_once = (refl, tt);
  revisions_once = (refl, tt);
  tombstones_once = tt;
  revisions_known = λ p r e. ground (arith, e);
  tombstones_known = λ p r e. ground (arith, e);
  hints_known = tt;
}

abbrev pub no_summary : FolderSummary
no_summary = record { folder_id = "docs"; cursor = 1; files = 1; tombstones = 0; state_hash = "fa" }

abbrev pub peer : PeerFolder codec
peer = record {
  files = ("a", 7) ∷ [];
  revisions = ("a", 1) ∷ [];
  tombstones = [];
  rename_hints = [];
  cursor = 1;
  state = no_summary;
  checkpoint = none;
}

peer-Mirrors : Mirrors codec folder peer
unfolding lookup
peer-Mirrors = record {
  files_once = (refl, tt);
  revisions_once = (refl, tt);
  tombstones_once = tt;
  cursor = refl;
  views = λ p. refl;
}

abbrev ops : List (Op codec)
ops = delete "a" ∷ save "b" 5 ∷ []

pub distinct : (s t : String) → str_eq s t ≡ false → s ≢ t
distinct s t h e = ground (arith, h, eq_iff s t, e)

no_compaction : compacted_since 1 none [] ≡ none
unfolding compacted_since
no_compaction = refl

catch_up_example :
    (message : FolderChanges codec) × (changes_since_limit codec (run_ops codec ops folder) 1 0
      ≡ some message)
    × (after : PeerFolder codec) × (apply_peer_folder_changes codec "node" message peer
        ≡ some after)
    × Mirrors codec (run_ops codec ops folder) after
catch_up_example =
    catch_up codec "node" folder ops peer folder-IsFolder peer-Mirrors no_compaction
      (distinct "node" "" refl) (distinct "docs" "" refl) (omega arith)

changed-IsFolder_example : IsFolder codec (save_manifest codec "b" 5 folder)
changed-IsFolder_example =
    changed-IsFolder codec (saving "b" 5) folder (save_manifest codec "b" 5 folder) (omega arith)
      folder-IsFolder refl

rename_lost_example :
    (lookup "a" (save_manifest codec "c" 9 (moved codec "a" "c" 7 folder)).files ≡ none)
    × (lookup "a" (save_manifest codec "c" 9 (moved codec "a" "c" 7 folder)).tombstones
        ≡ some (1 + 1))
    × All
        (Skips codec "a")
        (all_changes codec (save_manifest codec "c" 9 (moved codec "a" "c" 7 folder)) 1)
rename_lost_example =
    rename_lost codec folder "a" "c" 7 9 folder-IsFolder (distinct "c" "a" refl)
      (distinct "a" "" refl) (omega arith)

-- The peer refuses the changes that a lost rename leaves: it keeps the old path.
abbrev after_rename : Folder codec
after_rename = save_manifest codec "c" 9 (moved codec "a" "c" 7 folder)

abbrev pub is_none : Option (PeerFolder codec) → Bool
is_none none = true
is_none (some after) = false

abbrev refused : Option (FolderChanges codec) → Bool
refused none = false
refused (some message) = is_none (apply_peer_folder_changes codec "node" message peer)

rename_refused : refused (changes_since_limit codec after_rename 1 0) ≡ true
unfolding changes_since_limit apply_peer_folder_changes save_manifest moved lookup insert erase
    sort_stable str_lt
rename_refused = refl

-- A page stops at a revision after which an older file changed again, and its state hash still has
-- the older version: the peer, which has nothing yet, refuses it.
abbrev pub empty_folder : Folder codec
empty_folder = record {
  folder_id = "docs";
  files = [];
  revisions = [];
  history = [];
  tombstones = [];
  rename_hints = [];
  cursor = 0;
  compactions = [];
}

abbrev edited : Folder codec
edited = run_ops codec (save "a" 3 ∷ save "b" 2 ∷ save "a" 1 ∷ []) empty_folder

abbrev pub empty_peer : PeerFolder codec
empty_peer = record {
  files = [];
  revisions = [];
  tombstones = [];
  rename_hints = [];
  cursor = 0;
  state = no_summary;
  checkpoint = none;
}

abbrev page_refused : ℕ → Option (FolderChanges codec) → Bool
page_refused limit none = false
page_refused limit (some message) =
    is_none (apply_peer_folder_changes codec "node" message empty_peer)

page_of_one : page_refused 1 (changes_since_limit codec edited 0 1) ≡ true
unfolding changes_since_limit apply_peer_folder_changes save_manifest lookup insert erase
    sort_stable str_lt
page_of_one = refl

page_of_all : page_refused 0 (changes_since_limit codec edited 0 0) ≡ false
unfolding changes_since_limit apply_peer_folder_changes save_manifest lookup insert erase
    sort_stable str_lt
page_of_all = refl
