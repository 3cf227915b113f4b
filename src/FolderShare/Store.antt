-- ===== src/FolderShare/Store.antt =====
-- internal/foldershare/sync.go and journal_state.go: the stored journal. Saving numbers the
-- entries that changed with the journal's cursor, and a peer that knows a cursor asks for the
-- entries above it. Reading and writing the file is the caller's; `none` is a journal that could
-- not be read.
pub mod Cursors
pub mod Delta
pub mod History
use mathlib.Core.List.{reverse}
use file_sync_engine.Prelude.{
  String, Bool, true, false, not, ◌||◌, Option, none, some, List, [], ◌∷◌, if◌then◌else◌, str_eq,
}
use file_sync_engine.Prelude.Int.{ℤ, pos, add64, leb_ℤ, ltb_ℤ, eqb_ℤ}
use file_sync_engine.Prelude.Lists.{keep}
use file_sync_engine.Prelude.Map.{Map, lookup, insert}
use file_sync_engine.Prelude.Sort.{insert_sorted}
use file_sync_engine.Prelude.Text.{str_lt}
use file_sync_engine.Paths.Guards.{safe_rel}
use file_sync_engine.FolderShare.Journal.{Entry}

pub record JournalFile : Type 0 where
  pub cursor : ℤ
  pub entries : List Entry

abbrev pub no_journal : JournalFile
no_journal = record { cursor = pos 0; entries = [] }

index_from : Map Entry → List Entry → Map Entry
index_from out [] = out
index_from out (entry ∷ rest) =
    index_from
      (if str_eq entry.path "" || not (safe_rel entry.path)
        then out
        else insert entry.path entry out)
      rest

-- A later entry for a path replaces an earlier one.
unfoldable pub index_entries : List Entry → Map Entry
unfolding index_from
index_entries = index_from []

abbrev bool_ne : Bool → Bool → Bool
bool_ne true b = not b
bool_ne false b = b

-- `changed`, without its `!ok`.
abbrev pub differs : Entry → Entry → Bool
differs old entry =
    not (eqb_ℤ old.revision entry.revision)
    || not (str_eq old.sha256 entry.sha256)
    || bool_ne old.deleted entry.deleted
    || not (eqb_ℤ old.size entry.size)

-- `changed || old.Cursor == 0`
abbrev pub needs_cursor : Option Entry → Entry → Bool
needs_cursor none entry = true
needs_cursor (some old) entry = differs old entry || eqb_ℤ old.cursor (pos 0)

abbrev pub cursor_of : Option Entry → ℤ
cursor_of none = pos 0
cursor_of (some old) = old.cursor

-- The cursor after an entry, and the cursor that the entry gets.
abbrev pub next_cursor : Map Entry → ℤ → Entry → ℤ
next_cursor prev cursor entry =
    if needs_cursor (lookup entry.path prev) entry then add64 cursor (pos 1) else cursor

abbrev pub stamp : Map Entry → ℤ → Entry → Entry
stamp prev cursor entry = record entry {
  cursor =
      if needs_cursor (lookup entry.path prev) entry
      then add64 cursor (pos 1)
      else cursor_of (lookup entry.path prev);
}

-- The loop of `saveJournal` over the journal's map.
unfoldable pub number_entries : Map Entry → ℤ → Map Entry → JournalFile
number_entries prev cursor [] = record { cursor = cursor; entries = [] }
number_entries prev cursor ((path, entry) ∷ rest) =
    let tail = number_entries prev (next_cursor prev cursor entry) rest in
    record { cursor = tail.cursor; entries = stamp prev cursor entry ∷ tail.entries }

-- `sortEntries`: each entry sinks to the left past the larger paths. The sorted part has its last
-- entry first.
abbrev later_path : Entry → Entry → Bool
later_path y x = str_lt x.path y.path

unfoldable pub sort_from : List Entry → List Entry → List Entry
sort_from sorted [] = sorted
sort_from sorted (entry ∷ rest) = sort_from (insert_sorted later_path entry sorted) rest

unfoldable pub sort_entries : List Entry → List Entry
unfolding sort_from
sort_entries entries = reverse (sort_from [] entries)

abbrev pub previous : Option JournalFile → JournalFile
previous none = no_journal
previous (some file) = file

-- The journal that `saveJournal` writes.
unfoldable pub save_journal : Option JournalFile → Map Entry → JournalFile
unfolding index_entries number_entries sort_entries
save_journal loaded by_path =
    let old = previous loaded in
    let numbered = number_entries (index_entries old.entries) old.cursor by_path in
    record { cursor = numbered.cursor; entries = sort_entries numbered.entries }

-- What `JournalDelta` answers: the entries, the cursor, and whether this is a delta.
pub record DeltaAnswer : Type 0 where
  pub entries : List Entry
  pub cursor : ℤ
  pub is_delta : Bool

unfoldable pub journal_delta : Option JournalFile → ℤ → DeltaAnswer
journal_delta none after = record { entries = []; cursor = pos 0; is_delta = false }
journal_delta (some stored) after =
    if leb_ℤ after (pos 0) || eqb_ℤ stored.cursor (pos 0)
    then record { entries = stored.entries; cursor = stored.cursor; is_delta = false }
    else record {
      entries = keep (λ entry. ltb_ℤ after entry.cursor) stored.entries;
      cursor = stored.cursor;
      is_delta = true;
    }
