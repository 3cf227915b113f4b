-- ===== src/FolderShare/Store/Delta.antt =====
-- A save keeps the stored journal's numbering valid, and tells new versions from old ones.
use file_sync_engine.Prelude.{◌≡◌, Option, arith}
use file_sync_engine.Prelude.Int.{ℤ, neg_part, ◌≤ℤ◌}
use file_sync_engine.Prelude.Lists.{All, All-map, length}
use file_sync_engine.Prelude.Map.{Map}
use file_sync_engine.FolderShare.Journal.{Entry}
use file_sync_engine.FolderShare.Store.{
  JournalFile, previous, index_entries, number_entries, save_journal,
}
use file_sync_engine.FolderShare.Store.Cursors.{
  HasRoom, Numbered, Bounded, number_entries-All, index_entries-found, sort_entries-All,
}

abbrev pub HasCursor : ℤ → Entry → Type 0
HasCursor last e = (neg_part e.cursor ≡ 0) × (e.cursor ≤ℤ last)

-- No cursor is negative, and none is above the journal's.
pub record IsValid (file : JournalFile) : Type 0 where
  pub natural : neg_part file.cursor ≡ 0
  pub entries : All (HasCursor file.cursor) file.entries

index-Bounded :
    (file : JournalFile) → IsValid file → Bounded (index_entries file.entries) file.cursor
index-Bounded file v p old h =
    (index_entries-found (HasCursor file.cursor) file.entries v.entries p old h).0

module _ (loaded : Option JournalFile) (m : Map Entry) (valid : IsValid (previous loaded))
    (room : HasRoom (previous loaded).cursor (length m)) where
  numbered :
      HasRoom
        (number_entries (index_entries (previous loaded).entries) (previous loaded).cursor m).cursor
        0
      × ((previous loaded).cursor
          ≤ℤ (number_entries
              (index_entries (previous loaded).entries)
              (previous loaded).cursor
              m).cursor)
      × All
          (Numbered
            (index_entries (previous loaded).entries)
            (previous loaded).cursor
            (number_entries
              (index_entries (previous loaded).entries)
              (previous loaded).cursor
              m).cursor)
          (number_entries
            (index_entries (previous loaded).entries)
            (previous loaded).cursor
            m).entries
  numbered =
      number_entries-All (index_entries (previous loaded).entries) (previous loaded).cursor
        (index-Bounded (previous loaded) valid) (previous loaded).cursor m (omega arith) room

  pub save_journal-cursor : (previous loaded).cursor ≤ℤ (save_journal loaded m).cursor
  unfolding save_journal
  save_journal-cursor = numbered.1

  pub save_journal-Numbered :
      All
        (Numbered
          (index_entries (previous loaded).entries)
          (previous loaded).cursor
          (save_journal loaded m).cursor)
        (save_journal loaded m).entries
  unfolding save_journal
  save_journal-Numbered = sort_entries-All _ _ numbered.2

  -- A save of any map keeps the numbering valid, while the cursor has room for its entries.
  pub save_journal-IsValid : IsValid (save_journal loaded m)
  unfolding save_journal
  save_journal-IsValid = record {
    natural = numbered.0.natural;
    entries = sort_entries-All _ _ (All-map (λ e n. (n.natural, n.bounded)) _ numbered.2);
  }
