-- ===== src/Scheduler/Rest.antt =====
-- A folder that was due is not due again at once.
use file_sync_engine.Prelude.{
  ℕ, ◌<◌, ◌≡◌, refl, sym, ap, ◌∙◌, String, Bool, true, false, ◌||◌, Option, none, some, List, [],
  ◌∷◌, arith, str_eq, eq_iff, if◌then◌else◌, Bool-cases, inl, inr,
}
use text.Mathlib.TextPositions.{eq_refl}
use file_sync_engine.Prelude.Map.{Map, lookup, lookup-insert, insert-Distinct, Distinct}
use file_sync_engine.Prelude.Sort.{sort_stable, insert_sorted}
use file_sync_engine.Prelude.Text.{str_lt}
use file_sync_engine.Scheduler.{
  FolderState, Scheduler, is_due, due_ids, scanned_at, put_scanned, mark_scanned, ids_of, due,
}

-- The id stands in the list.
has : String → List String → Bool
has id [] = false
has id (x ∷ ids) = str_eq x id || has id ids

has-insert_sorted :
    (id x : String) (ids : List String) → has id (insert_sorted str_lt x ids) ≡ has id (x ∷ ids)
unfolding has insert_sorted
has-insert_sorted id x [] = refl
has-insert_sorted id x (y ∷ ids) = ground (arith, has-insert_sorted id x ids)

has-sort_stable : (id : String) (ids : List String) → has id (sort_stable str_lt ids) ≡ has id ids
unfolding has sort_stable
has-sort_stable id [] = refl
has-sort_stable id (x ∷ ids) =
    has-insert_sorted id x (sort_stable str_lt ids) ∙ ground (arith, has-sort_stable id ids)

abbrev pub due_at : Scheduler → ℕ → Option FolderState → Bool
due_at s now none = false
due_at s now (some state) = is_due s now state

has-due_ids :
    (s : Scheduler) (now : ℕ) (folders : Map FolderState) (id : String)
    → Distinct folders
    → has id (due_ids s now folders) ≡ due_at s now (lookup id folders)
unfolding has due_ids lookup
has-due_ids s now [] id d = refl
has-due_ids s now ((key, state) ∷ folders) id d =
    ground (arith, has-due_ids s now folders id d.1, eq_iff key id, d.0)

abbrev pub scan_one : ℕ → Bool → Option FolderState → Option FolderState
scan_one now b none = none
scan_one now b (some state) = if b then some (scanned_at now state) else some state

scan_one-false : (now : ℕ) (o : Option FolderState) → scan_one now false o ≡ o
scan_one-false now none = refl
scan_one-false now (some state) = refl

scan_one_twice :
    (now : ℕ) (b c : Bool) (o : Option FolderState)
    → scan_one now b (scan_one now c o) ≡ scan_one now (c || b) o
scan_one_twice now b c none = refl
scan_one_twice now b true (some state) = ground arith
scan_one_twice now b false (some state) = refl

same_key :
    (id asked : String) (folders : Map FolderState)
    → str_eq id asked ≡ true
    → lookup id folders ≡ lookup asked folders
same_key id asked folders hit = ap (λ k. lookup k folders) ((eq_iff id asked).0 hit)

lookup-put_scanned :
    (now : ℕ) (id asked : String) (folders : Map FolderState) (o found : Option FolderState)
    → lookup id folders ≡ o
    → lookup asked folders ≡ found
    → lookup asked (put_scanned now id o folders) ≡ scan_one now (str_eq id asked) found
lookup-put_scanned now id asked folders none none e f = f
lookup-put_scanned now id asked folders none (some state) e f =
    ground (arith, same_key id asked folders, e, f)
lookup-put_scanned now id asked folders (some old) found e f = elim (Bool-cases (str_eq id asked)) [
  | inl hit ↦
      let same = sym f ∙ sym (same_key id asked folders hit) ∙ e in
      rw (lookup-insert id asked (scanned_at now old) folders, same, hit) refl
  | inr miss ↦
      rw (lookup-insert id asked (scanned_at now old) folders, miss)
        (f ∙ sym (scan_one-false now found))
]

lookup-mark_scanned :
    (now : ℕ) (ids : List String) (folders : Map FolderState) (asked : String)
    → lookup asked (mark_scanned now ids folders)
      ≡ scan_one now (has asked ids) (lookup asked folders)
unfolding has mark_scanned
lookup-mark_scanned now [] folders asked = sym (scan_one-false now (lookup asked folders))
lookup-mark_scanned now (id ∷ ids) folders asked =
    lookup-mark_scanned now ids (put_scanned now id (lookup id folders) folders) asked
    ∙ ap (scan_one now (has asked ids)) (
        lookup-put_scanned now id asked folders (lookup id folders) (lookup asked folders) refl
          refl)
    ∙ scan_one_twice now (has asked ids) (str_eq id asked) (lookup asked folders)

put_scanned-Distinct :
    (now : ℕ) (id : String) (o : Option FolderState) (folders : Map FolderState)
    → Distinct folders
    → Distinct (put_scanned now id o folders)
put_scanned-Distinct now id none folders d = d
put_scanned-Distinct now id (some state) folders d =
    insert-Distinct id (scanned_at now state) folders d

mark_scanned-Distinct :
    (now : ℕ) (ids : List String) (folders : Map FolderState)
    → Distinct folders
    → Distinct (mark_scanned now ids folders)
unfolding mark_scanned
mark_scanned-Distinct now [] folders d = d
mark_scanned-Distinct now (id ∷ ids) folders d =
    mark_scanned-Distinct now ids _ (put_scanned-Distinct now id (lookup id folders) folders d)

-- A list in which nothing stands is empty.
empty_of : (ids : List String) → ((id : String) → has id ids ≡ false) → ids ≡ []
unfolding has
empty_of [] none_there = refl
empty_of (id ∷ ids) none_there = absurd (ground (arith, none_there id, eq_refl id))

module _ (s : Scheduler) (now : ℕ) (once : Distinct s.folders) where
  -- What `Due` leaves of a folder: a folder that is due was scanned now and waits for no event,
  -- and any other folder is as it was.
  pub lookup-due :
      (id : String)
      → lookup id ((due s now).1).folders
        ≡ scan_one now (due_at s now (lookup id s.folders)) (lookup id s.folders)
  unfolding due
  lookup-due id =
      lookup-mark_scanned now (ids_of s now) s.folders id
      ∙ ap (λ b. scan_one now b (lookup id s.folders))
          (has-sort_stable id (due_ids s now s.folders) ∙ has-due_ids s now s.folders id once)

  due-Distinct : Distinct ((due s now).1).folders
  unfolding due
  due-Distinct = mark_scanned-Distinct now (ids_of s now) s.folders once

  due_once :
      (o : Option FolderState)
      → 0 < s.fallback_interval
      → due_at s now (scan_one now (due_at s now o) o) ≡ false
  due_once none p = refl
  due_once (some state) p = ground arith

  same_settings : (o : Option FolderState) → due_at ((due s now).1) now o ≡ due_at s now o
  unfolding due
  same_settings none = refl
  same_settings (some state) = refl

  -- A second call of `Due` at the same time returns no folder, for a positive fallback interval.
  pub due_again : 0 < s.fallback_interval → (due ((due s now).1) now).0 ≡ []
  unfolding due
  due_again positive = empty_of _ (λ id.
      has-sort_stable id (due_ids ((due s now).1) now ((due s now).1).folders)
      ∙ has-due_ids ((due s now).1) now ((due s now).1).folders id due-Distinct
      ∙ same_settings _
      ∙ ap (due_at s now) (lookup-due id)
      ∙ due_once (lookup id s.folders) positive)
