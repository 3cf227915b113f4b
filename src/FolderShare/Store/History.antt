-- ===== src/FolderShare/Store/History.antt =====
-- Any number of saves between two requests: what a peer with an old cursor is not sent is what it
-- has already.
use file_sync_engine.Prelude.{
  ◌||◌, ◌∙◌, sym, ap, ◌⊎◌, inl, inr, some, List, [], ◌∷◌, arith, Bool-cases,
}
use file_sync_engine.Prelude.Int.{ℤ, pos, pos_part, neg_part, ◌≤ℤ◌, ltb_ℤ, leb_ℤ, eqb_ℤ}
use file_sync_engine.Prelude.Lists.{All, All-map, All-In, In, In-keep, keep, length}
use file_sync_engine.Prelude.Map.{Map, lookup}
use file_sync_engine.FolderShare.Journal.{Entry}
use file_sync_engine.FolderShare.Store.{JournalFile, index_entries, save_journal, journal_delta}
use file_sync_engine.FolderShare.Store.Cursors.{
  HasRoom, Kept, SameVersion-trans, index_entries-found,
}
use file_sync_engine.FolderShare.Store.Delta.{
  IsValid, save_journal-IsValid, save_journal-Numbered, save_journal-cursor,
}

-- The journal after a sequence of saves, each of some state of the map.
unfoldable pub save_all : JournalFile → List (Map Entry) → JournalFile
save_all file [] = file
save_all file (m ∷ ms) = save_all (save_journal (some file) m) ms

-- Each save has room for its entries.
abbrev pub AllRoom : JournalFile → List (Map Entry) → Type 0
AllRoom file [] = Unit
AllRoom file (m ∷ ms) = HasRoom file.cursor (length m) × AllRoom (save_journal (some file) m) ms

-- An entry at or below the cursor of `file` is the version that `file` holds.
abbrev pub Known : JournalFile → Entry → Type 0
Known file e = e.cursor ≤ℤ file.cursor → Kept (index_entries file.entries) e

Known-save_journal :
    (file : JournalFile) (m : Map Entry)
    → IsValid file
    → HasRoom file.cursor (length m)
    → (e : Entry) → Known (save_journal (some file) m) e
    → Known file e
Known-save_journal file m v room e later low =
    let up = save_journal-cursor (some file) m v room in
    let kept = later (omega arith) in
    let found =
      index_entries-found _ (save_journal (some file) m).entries
        (save_journal-Numbered (some file) m v room) e.path kept.old kept.stored in
    let first = found.0.kept (omega (arith, ap pos_part kept.cursor, ap neg_part kept.cursor)) in
    record {
      old = first.old;
      stored = ap (λ p. lookup p (index_entries file.entries)) (sym found.1) ∙ first.stored;
      same = SameVersion-trans first.same kept.same;
      cursor = first.cursor ∙ kept.cursor;
    }

save_journal-Known :
    (file : JournalFile) (m : Map Entry)
    → IsValid file
    → HasRoom file.cursor (length m)
    → All (Known file) (save_journal (some file) m).entries
save_journal-Known file m v room =
    All-map (λ e n. n.kept) _ (save_journal-Numbered (some file) m v room)

-- A journal knows its own entries when it is the one that a save wrote.
save_all-Known :
    (file : JournalFile) (m : Map Entry) (ms : List (Map Entry))
    → IsValid file
    → AllRoom file (m ∷ ms)
    → All (Known file) (save_all file (m ∷ ms)).entries
unfolding save_all
save_all-Known file m [] v r = save_journal-Known file m v r.0
save_all-Known file m (m' ∷ ms) v r = All-map (Known-save_journal file m v r.0) _ (
    save_all-Known (save_journal (some file) m) m' ms (save_journal-IsValid (some file) m v r.0)
      r.1)

keep_above :
    (after : ℤ) (entries : List Entry) (e : Entry)
    → In e entries
    → In e (keep (λ (x : Entry). ltb_ℤ after x.cursor) entries) ⊎ (e.cursor ≤ℤ after)
keep_above after entries e h = elim (Bool-cases (ltb_ℤ after e.cursor)) [
  | inl t ↦ inl (In-keep _ entries e h t)
  | inr f ↦ inr (ground arith)
]

sent_or_below :
    (stored : JournalFile) (after : ℤ) (e : Entry)
    → In e stored.entries
    → In e (journal_delta (some stored) after).entries ⊎ (e.cursor ≤ℤ after)
unfolding journal_delta
sent_or_below stored after e h =
    elim (Bool-cases (leb_ℤ after (pos 0) || eqb_ℤ stored.cursor (pos 0))) [
      | inl whole ↦ rw whole (inl h)
      | inr part ↦ rw part (keep_above after stored.entries e h)
    ]

-- From a journal with valid numbering, after one or more saves that do not exhaust the cursor:
-- every entry of the new journal is in the answer to a peer that holds the old journal's cursor,
-- or the old journal already held the same version of that path.
pub journal_delta_complete :
    (file : JournalFile) (m : Map Entry) (ms : List (Map Entry)) (e : Entry)
    → IsValid file
    → AllRoom file (m ∷ ms)
    → In e (save_all file (m ∷ ms)).entries
    → In e (journal_delta (some (save_all file (m ∷ ms))) file.cursor).entries
      ⊎ Kept (index_entries file.entries) e
journal_delta_complete file m ms e v r h =
    elim (sent_or_below (save_all file (m ∷ ms)) file.cursor e h) [
      | inl sent ↦ inl sent
      | inr low ↦ inr (All-In (Known file) _ e (save_all-Known file m ms v r) h low)
    ]
