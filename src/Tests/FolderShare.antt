-- ===== src/Tests/FolderShare.antt =====
-- The journal of a shared folder at concrete inputs: internal/foldershare.
use file_sync_engine.Prelude.{
  ℕ, String, ◌≡◌, ◌≢◌, refl, ap, Bool, true, false, Option, none, some, List, [], ◌∷◌, ◌⊎◌, inl,
  inr, arith, if◌then◌else◌,
}
use file_sync_engine.Prelude.Int.{pos, pos_part, ◌<ℤ◌, CanRise, add64}
use file_sync_engine.Prelude.Lists.{All-In-self, In}
use file_sync_engine.Prelude.Map.{Map, lookup, insert, Distinct}
use file_sync_engine.Paths.Guards.{safe_rel, safe_join}
use file_sync_engine.FolderShare.Journal.{Entry, Scanned, note_local_file}
use file_sync_engine.FolderShare.Scan.{absorb_seen}
use file_sync_engine.FolderShare.Scan.Absorb.{absorbed, lookup-absorb_seen}
use file_sync_engine.FolderShare.Scan.Stable.{
  absorb_seen-revision, absorb_seen-live_hash, live_hash, seen_hash, SameContent,
}
use file_sync_engine.FolderShare.Store.{JournalFile, save_journal, journal_delta, index_entries}
use file_sync_engine.FolderShare.Store.Cursors.{HasRoom, Kept}
use file_sync_engine.FolderShare.Store.Delta.{IsValid, save_journal-IsValid}
use file_sync_engine.FolderShare.Store.History.{save_all, journal_delta_complete}
use file_sync_engine.FolderShare.Transfer.{Effects, TransferJob, apply_remote}
use file_sync_engine.FolderShare.Transfer.Sound.{RisenAt, apply_remote-Risen}
use file_sync_engine.FolderShare.Transfer.Agree.{
  IsOrder, IsOffered, newer, apply_remote-newer, exchange_agrees, exchange_tie,
}

abbrev entry : String → ℕ → ℕ → Entry
entry sha revision cursor = record {
  path = "a.txt";
  sha256 = sha;
  size = pos 5;
  deleted = false;
  revision = pos revision;
  origin = "laptop";
  blocks = [];
  cursor = pos cursor;
}

abbrev old_entry : Entry
old_entry = entry "h1" 1 1

abbrev new_entry : Entry
new_entry = entry "h2" 2 1

abbrev rival_entry : Entry
rival_entry = entry "h3" 2 1

abbrev holds : Entry → Map Entry
holds e = ("a.txt", e) ∷ []

-- A peer and a disk on which every call but the batch succeeds.
abbrev effects : Effects
effects = record {
  remove = λ path. true;
  fetch_batch = λ jobs. none;
  hash_equals = λ body hash. true;
  write_small = λ job body. true;
  download = λ job. true;
  finish = λ jobs. jobs;
}

effects-IsOrder : IsOrder effects.finish
effects-IsOrder = record { sound = All-In-self; total = All-In-self }

name-safe_rel : safe_rel "a.txt" ≡ true
unfolding safe_rel
name-safe_rel = refl

name-safe_join : safe_join "/r" "a.txt" ≡ some "/r/a.txt"
unfolding safe_join
name-safe_join = refl

offered : (e : Entry) → e.path ≡ "a.txt" → IsOffered "/r" (e ∷ []) e
offered e p = record {
  listed = inl refl;
  once = ((λ _. refl), tt);
  safe = rw p name-safe_rel;
  target = "/r/a.txt";
  joined = rw p name-safe_join;
}

take_clean : (apply_remote effects "/r" (holds old_entry) (new_entry ∷ [])).failed ≡ false
unfolding apply_remote safe_join file_sync_engine.FolderShare.Transfer.plan_entry lookup
take_clean = refl

take_sent :
    lookup "a.txt" (apply_remote effects "/r" (holds old_entry) (new_entry ∷ [])).by_path
    ≡ some new_entry
unfolding apply_remote safe_join file_sync_engine.FolderShare.Transfer.plan_entry lookup insert
take_sent = refl

reply_clean : (apply_remote effects "/r" (holds new_entry) (new_entry ∷ [])).failed ≡ false
unfolding apply_remote safe_join file_sync_engine.FolderShare.Transfer.plan_entry lookup
reply_clean = refl

tie_clean : (apply_remote effects "/r" (holds new_entry) (rival_entry ∷ [])).failed ≡ false
unfolding apply_remote safe_join file_sync_engine.FolderShare.Transfer.plan_entry lookup
tie_clean = refl

tie_sent :
    lookup "a.txt" (apply_remote effects "/r" (holds new_entry) (rival_entry ∷ [])).by_path
    ≡ some new_entry
unfolding apply_remote safe_join file_sync_engine.FolderShare.Transfer.plan_entry lookup insert
tie_sent = refl

tie_reply_clean : (apply_remote effects "/r" (holds rival_entry) (new_entry ∷ [])).failed ≡ false
unfolding apply_remote safe_join file_sync_engine.FolderShare.Transfer.plan_entry lookup
tie_reply_clean = refl

lookup-holds : (e : Entry) → lookup "a.txt" (holds e) ≡ some e
unfolding lookup
lookup-holds e = refl

apply_remote-newer_example :
    lookup "a.txt" (apply_remote effects "/r" (holds old_entry) (new_entry ∷ [])).by_path
    ≡ newer (lookup "a.txt" (holds old_entry)) new_entry
apply_remote-newer_example =
    apply_remote-newer effects effects-IsOrder "/r" (holds old_entry) (new_entry ∷ []) new_entry
      (offered new_entry refl) take_clean

exchange_agrees_example :
    lookup "a.txt" (apply_remote effects "/r" (holds old_entry) (new_entry ∷ [])).by_path
    ≡ lookup "a.txt" (apply_remote effects "/r" (holds new_entry) (new_entry ∷ [])).by_path
exchange_agrees_example =
    exchange_agrees effects effects effects-IsOrder effects-IsOrder "/r" "/r" (holds old_entry)
      (holds new_entry) (new_entry ∷ []) (new_entry ∷ []) old_entry new_entry new_entry
      (offered new_entry refl) (offered new_entry refl) (lookup-holds old_entry)
      (lookup-holds new_entry) take_sent take_clean reply_clean
      (λ e. absurd (ground (arith, ap pos_part e)))

exchange_tie_example :
    (lookup "a.txt" (apply_remote effects "/r" (holds new_entry) (rival_entry ∷ [])).by_path
      ≡ some new_entry)
    × (lookup "a.txt" (apply_remote effects "/r" (holds rival_entry) (new_entry ∷ [])).by_path
        ≡ some rival_entry)
exchange_tie_example =
    exchange_tie effects effects effects-IsOrder effects-IsOrder "/r" "/r" (holds new_entry)
      (holds rival_entry) (rival_entry ∷ []) (new_entry ∷ []) new_entry rival_entry new_entry
      (offered rival_entry refl) (offered new_entry refl) (lookup-holds new_entry)
      (lookup-holds rival_entry) tie_sent tie_clean tie_reply_clean refl

apply_remote-Risen_example :
    RisenAt
      (holds old_entry)
      (new_entry ∷ [])
      (apply_remote effects "/r" (holds old_entry) (new_entry ∷ [])).by_path
      "a.txt"
apply_remote-Risen_example =
    apply_remote-Risen (holds old_entry) (new_entry ∷ []) effects "/r" "a.txt" All-In-self

abbrev journal : JournalFile
journal = record { cursor = pos 1; entries = old_entry ∷ [] }

journal-IsValid : IsValid journal
journal-IsValid = record { natural = refl; entries = ((refl, omega arith), tt) }

journal-HasRoom : HasRoom (pos 1) 1
journal-HasRoom = record { natural = refl; room = omega arith }

save_journal-IsValid_example : IsValid (save_journal (some journal) (holds new_entry))
save_journal-IsValid_example =
    save_journal-IsValid (some journal) (holds new_entry) journal-IsValid journal-HasRoom

saved_entry : In (entry "h2" 2 2) (save_all journal (holds new_entry ∷ [])).entries
unfolding save_all save_journal index_entries lookup safe_rel
    file_sync_engine.Prelude.Sort.insert_sorted insert add64
saved_entry = inl refl

journal_delta_complete_example :
    In
      (entry "h2" 2 2)
      (journal_delta (some (save_all journal (holds new_entry ∷ []))) (pos 1)).entries
    ⊎ Kept (index_entries (old_entry ∷ [])) (entry "h2" 2 2)
journal_delta_complete_example =
    journal_delta_complete journal (holds new_entry) [] (entry "h2" 2 2) journal-IsValid
      (journal-HasRoom, tt) saved_entry

abbrev found : Map Scanned
found = ("a.txt", record { sha = "h2"; size = pos 5; blocks = [] }) ∷ []

found-Distinct : Distinct found
unfolding lookup
found-Distinct = (refl, tt)

old-Distinct : Distinct (holds old_entry)
unfolding lookup
old-Distinct = (refl, tt)

lookup-absorb_seen_example :
    lookup "a.txt" (absorb_seen "laptop" found (holds old_entry))
    ≡ absorbed "a.txt" "laptop" (lookup "a.txt" found) (lookup "a.txt" (holds old_entry))
lookup-absorb_seen_example =
    lookup-absorb_seen "laptop" found (holds old_entry) "a.txt" found-Distinct old-Distinct

absorb_seen-live_hash_example :
    live_hash (lookup "a.txt" (absorb_seen "laptop" found (holds old_entry)))
    ≡ seen_hash (lookup "a.txt" found)
absorb_seen-live_hash_example =
    absorb_seen-live_hash "laptop" found (holds old_entry) "a.txt" found-Distinct old-Distinct

scanned_entry :
    lookup "a.txt" (absorb_seen "laptop" found (holds old_entry)) ≡ some (entry "h2" 2 0)
unfolding absorb_seen lookup note_local_file insert add64
scanned_entry = refl

one-CanRise : CanRise (pos 1)
one-CanRise = record {
  int64 = record { upper = omega arith; lower = omega arith };
  below = omega arith;
}

absorb_seen-revision_example :
    SameContent old_entry (entry "h2" 2 0) × (pos 1 ≡ pos 2)
    ⊎ ¬ SameContent old_entry (entry "h2" 2 0) × (pos 1 <ℤ pos 2)
absorb_seen-revision_example =
    absorb_seen-revision "laptop" found (holds old_entry) "a.txt" found-Distinct old-Distinct
      old_entry (entry "h2" 2 0) one-CanRise (lookup-holds old_entry) scanned_entry
