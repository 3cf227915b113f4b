-- ===== src/Scheduler.antt =====
-- internal/scheduler/scheduler.go: when a folder is scanned. A time is its nanoseconds since 1970.
pub mod Rest
use file_sync_engine.Prelude.{
  ℕ, ◌+◌, String, Bool, true, false, ◌&&◌, ◌||◌, Option, none, some, List, [], ◌∷◌, leb, str_eq,
  if◌then◌else◌,
}
use file_sync_engine.Prelude.Int.{ℤ, positive_or}
use file_sync_engine.Prelude.Map.{Map, lookup, insert}
use file_sync_engine.Prelude.Sort.{sort_stable}
use file_sync_engine.Prelude.Text.{str_lt}

-- A zero time is 0.
pub record FolderState : Type 0 where
  pub last_scan : ℕ
  pub last_event : ℕ
  pub is_pending : Bool

pub record Scheduler : Type 0 where
  pub event_debounce : ℕ
  pub fallback_interval : ℕ
  pub folders : Map FolderState

-- `New`, for the two durations of the options.
unfoldable pub new_scheduler : ℤ → ℤ → Scheduler
unfolding positive_or
new_scheduler debounce fallback = record {
  event_debounce = positive_or 500000000 debounce;
  fallback_interval = positive_or 60000000000 fallback;
  folders = [];
}

unfoldable pub add_folder : String → ℕ → Scheduler → Scheduler
add_folder id now s = elim (lookup id s.folders) [
  | none ↦ record s {
    folders = insert id (record { last_scan = now; last_event = 0; is_pending = false }) s.folders;
  }
  | some state ↦ s
]

-- `delete(s.folders, id)`
unfoldable pub without : String → Map FolderState → Map FolderState
without id [] = []
without id ((key, state) ∷ rest) =
    let others = without id rest in if str_eq key id then others else (key, state) ∷ others

unfoldable pub remove_folder : String → Scheduler → Scheduler
unfolding without
remove_folder id s = record s { folders = without id s.folders }

abbrev pub notified : ℕ → Option FolderState → FolderState
notified at none = record { last_scan = at; last_event = at; is_pending = true }
notified at (some state) = record state { last_event = at; is_pending = true }

unfoldable pub notify : String → ℕ → Scheduler → Scheduler
notify id at s = record s { folders = insert id (notified at (lookup id s.folders)) s.folders }

-- `eventDue || fallbackDue`
abbrev pub is_due : Scheduler → ℕ → FolderState → Bool
is_due s now state =
    (state.is_pending && leb (state.last_event + s.event_debounce) now)
    || leb (state.last_scan + s.fallback_interval) now

unfoldable pub due_ids : Scheduler → ℕ → Map FolderState → List String
due_ids s now [] = []
due_ids s now ((id, state) ∷ folders) =
    let rest = due_ids s now folders in if is_due s now state then id ∷ rest else rest

abbrev pub scanned_at : ℕ → FolderState → FolderState
scanned_at now state = record state { last_scan = now; is_pending = false }

-- One round of the second loop of `Due`, with what the map has for the id.
abbrev pub put_scanned : ℕ → String → Option FolderState → Map FolderState → Map FolderState
put_scanned now id none folders = folders
put_scanned now id (some state) folders = insert id (scanned_at now state) folders

-- The second loop of `Due`, over the ids that it returns.
unfoldable pub mark_scanned : ℕ → List String → Map FolderState → Map FolderState
mark_scanned now [] folders = folders
mark_scanned now (id ∷ ids) folders =
    mark_scanned now ids (put_scanned now id (lookup id folders) folders)

abbrev pub ids_of : Scheduler → ℕ → List String
ids_of s now = sort_stable str_lt (due_ids s now s.folders)

-- What `Due` returns, and the scheduler after it.
unfoldable pub due : Scheduler → ℕ → List String × Scheduler
unfolding due_ids mark_scanned
due s now = (ids_of s now, record s { folders = mark_scanned now (ids_of s now) s.folders })
