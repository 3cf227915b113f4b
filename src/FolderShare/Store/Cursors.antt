-- ===== src/FolderShare/Store/Cursors.antt =====
-- The numbering of `saveJournal`: what each stored entry's cursor says.
use file_sync_engine.Prelude.{
  ℕ, suc, ◌+◌, ◌<◌, ◌^◌, String, ◌≡◌, refl, true, false, not, ◌||◌, Option, none, some, List, [],
  ◌∷◌, arith, if◌then◌else◌, str_eq, eq_iff, Bool-cases, inl, inr, ◌∙◌, subst, ap, sym,
}
use file_sync_engine.Prelude.Int.{
  ℤ, pos, pos_part, neg_part, ◌≤ℤ◌, ◌<ℤ◌, add64, succ64-eq, +ℤ_parts, eqb_ℤ_iff,
}
use file_sync_engine.Prelude.Lists.{All, All-reverse, length}
use file_sync_engine.Prelude.Map.{Map, lookup, insert, lookup-insert}
use file_sync_engine.Prelude.Sort.{insert_sorted, insert_sorted-All}
use file_sync_engine.Paths.Guards.{safe_rel}
use file_sync_engine.FolderShare.Journal.{Entry}
use file_sync_engine.FolderShare.Store.{
  index_from, index_entries, differs, needs_cursor, cursor_of, next_cursor, stamp, number_entries,
  sort_from, sort_entries, later_path,
}

-- A journal cursor that is not negative and can grow by `k` without wrapping.
pub record HasRoom (cursor : ℤ) (k : ℕ) : Type 0 where
  pub natural : neg_part cursor ≡ 0
  pub room : pos_part cursor + k < 2 ^ 63

step_up :
    (c : ℤ) (k : ℕ)
    → HasRoom c (suc k)
    → (neg_part (add64 c (pos 1)) ≡ 0) × (pos_part (add64 c (pos 1)) ≡ pos_part c + 1)
step_up c k h =
    rw
      (succ64-eq c (record {
        int64 = record { upper = omega arith; lower = omega arith };
        below = omega arith;
      }))
      (grind (arith, +ℤ_parts c (pos 1)))

-- What a peer would see of a path is the same in both entries.
pub record SameVersion (old entry : Entry) : Type 0 where
  pub revision : old.revision ≡ entry.revision
  pub sha256 : old.sha256 ≡ entry.sha256
  pub deleted : old.deleted ≡ entry.deleted
  pub size : old.size ≡ entry.size

pub SameVersion-refl : (e : Entry) → SameVersion e e
SameVersion-refl e = record { revision = refl; sha256 = refl; deleted = refl; size = refl }

pub SameVersion-trans : {a b c : Entry} → SameVersion a b → SameVersion b c → SameVersion a c
SameVersion-trans h k = record {
  revision = h.revision ∙ k.revision;
  sha256 = h.sha256 ∙ k.sha256;
  deleted = h.deleted ∙ k.deleted;
  size = h.size ∙ k.size;
}

same_of_differs : (old entry : Entry) → differs old entry ≡ false → SameVersion old entry
same_of_differs old entry h = record {
  revision = ground (arith, eqb_ℤ_iff old.revision entry.revision);
  sha256 = ground (arith, eq_iff old.sha256 entry.sha256);
  deleted = ground arith;
  size = ground (arith, eqb_ℤ_iff old.size entry.size);
}

-- The journal `prev` holds the same version of the entry, under the same cursor.
pub record Kept (prev : Map Entry) (e : Entry) : Type 0 where
  pub old : Entry
  pub stored : lookup e.path prev ≡ some old
  pub same : SameVersion old e
  pub cursor : old.cursor ≡ e.cursor

-- What an entry's cursor says, for a save that began at `first` and ended at `last`.
pub record Numbered (prev : Map Entry) (first last : ℤ) (e : Entry) : Type 0 where
  pub natural : neg_part e.cursor ≡ 0
  pub bounded : e.cursor ≤ℤ last
  pub kept : e.cursor ≤ℤ first → Kept prev e
  pub fresh : first <ℤ e.cursor → needs_cursor (lookup e.path prev) e ≡ true

abbrev pub Bounded : Map Entry → ℤ → Type 0
Bounded prev first =
    (p : String) (old : Entry)
    → lookup p prev ≡ some old
    → (neg_part old.cursor ≡ 0) × (old.cursor ≤ℤ first)

needs_cursor-cursor :
    (o : Option Entry) (e : Entry) (c : ℤ)
    → needs_cursor o (record e { cursor = c }) ≡ needs_cursor o e
needs_cursor-cursor none e c = refl
needs_cursor-cursor (some old) e c = refl

module _ (prev : Map Entry) (first : ℤ) (bounded : Bounded prev first) where
  stamp_old :
      (cursor last : ℤ) (e : Entry) (o : Option Entry)
      → lookup e.path prev ≡ o
      → needs_cursor o e ≡ false
      → first ≤ℤ last
      → Numbered prev first last (record e { cursor = cursor_of o })
  stamp_old cursor last e none q n l = cc
  stamp_old cursor last e (some old) q n l = record {
    natural = (bounded e.path old q).0;
    bounded = omega (arith, bounded e.path old q);
    kept = λ _. record {
      old = old;
      stored = q;
      same =
          let s = same_of_differs old e (ground arith) in
          record { revision = s.revision; sha256 = s.sha256; deleted = s.deleted; size = s.size };
      cursor = refl;
    };
    fresh = λ h. absurd (omega (arith, bounded e.path old q));
  }

  stamp_new :
      (cursor last : ℤ) (k : ℕ) (e : Entry)
      → needs_cursor (lookup e.path prev) e ≡ true
      → first ≤ℤ cursor
      → HasRoom cursor (suc k)
      → add64 cursor (pos 1) ≤ℤ last
      → Numbered prev first last (record e { cursor = add64 cursor (pos 1) })
  stamp_new cursor last k e n f h l = record {
    natural = (step_up cursor k h).0;
    bounded = l;
    kept = λ low. absurd (omega (arith, step_up cursor k h, h.natural));
    fresh = λ _. needs_cursor-cursor (lookup e.path prev) e _ ∙ n;
  }

  stamp-Numbered :
      (cursor last : ℤ) (k : ℕ) (e : Entry)
      → first ≤ℤ cursor
      → first ≤ℤ last
      → HasRoom cursor (suc k)
      → next_cursor prev cursor e ≤ℤ last
      → Numbered prev first last (stamp prev cursor e)
  stamp-Numbered cursor last k e f fl h l =
      elim (Bool-cases (needs_cursor (lookup e.path prev) e)) [
        | inl n ↦ rw n (stamp_new cursor last k e n f h (rw n at l))
        | inr n ↦ rw n (stamp_old cursor last e (lookup e.path prev) refl n fl)
      ]

  step-HasRoom :
      (cursor : ℤ) (k : ℕ) (e : Entry)
      → HasRoom cursor (suc k)
      → HasRoom (next_cursor prev cursor e) k × (cursor ≤ℤ next_cursor prev cursor e)
  step-HasRoom cursor k e h = elim (Bool-cases (needs_cursor (lookup e.path prev) e)) [
    | inl n ↦ rw n (
      record {
        natural = omega (arith, step_up cursor k h);
        room = omega (arith, step_up cursor k h);
      },
      omega (arith, step_up cursor k h),
    )
    | inr n ↦ rw n (record { natural = h.natural; room = omega arith }, omega arith)
  ]

  -- Every entry of the numbered journal, for a loop that starts at `cursor`.
  pub number_entries-All :
      (cursor : ℤ) (m : Map Entry)
      → first ≤ℤ cursor
      → HasRoom cursor (length m)
      → HasRoom (number_entries prev cursor m).cursor 0
        × (cursor ≤ℤ (number_entries prev cursor m).cursor)
        × All
            (Numbered prev first (number_entries prev cursor m).cursor)
            (number_entries prev cursor m).entries
  unfolding number_entries
  number_entries-All cursor [] f h = (h, omega arith, tt)
  number_entries-All cursor ((p, e) ∷ m) f h =
      let (room, up) = step-HasRoom cursor (length m) e h in
      let (end, over, rest) = number_entries-All (next_cursor prev cursor e) m (omega arith) room in
      (end, omega arith, (stamp-Numbered cursor _ (length m) e f (omega arith) h over, rest))

-- The index of a journal holds entries of the journal, each under its own path.
module _ (P : Entry → Type 0) where
  abbrev pub Indexed : Map Entry → Type 0
  Indexed out = (q : String) (o : Entry) → lookup q out ≡ some o → P o × (o.path ≡ q)

  put-Indexed : (e : Entry) (out : Map Entry) → P e → Indexed out → Indexed (insert e.path e out)
  put-Indexed e out pe given q o h = elim (Bool-cases (str_eq e.path q)) [
    | inl hit ↦
        let same : e ≡ o = ground (arith, lookup-insert e.path q e out) in
        (subst P same pe, ap (λ (x : Entry). x.path) (sym same) ∙ (eq_iff e.path q).0 hit)
    | inr miss ↦ given q o (ground (arith, lookup-insert e.path q e out))
  ]

  index_from-Indexed :
      (entries : List Entry) (out : Map Entry)
      → All P entries
      → Indexed out
      → Indexed (index_from out entries)
  unfolding index_from
  index_from-Indexed [] out ps given = given
  index_from-Indexed (e ∷ entries) out ps given =
      index_from-Indexed entries
        (if str_eq e.path "" || not (safe_rel e.path) then out else insert e.path e out) ps.1
        (elim (Bool-cases (str_eq e.path "" || not (safe_rel e.path))) [
          | inl skip ↦ rw skip given
          | inr put ↦ rw put (put-Indexed e out ps.0 given)
        ])

  pub index_entries-found : (entries : List Entry) → All P entries → Indexed (index_entries entries)
  unfolding index_entries lookup
  index_entries-found entries ps = index_from-Indexed entries [] ps (λ q o h. cc)

sort_from-All :
    (P : Entry → Type 0) (sorted entries : List Entry)
    → All P sorted
    → All P entries
    → All P (sort_from sorted entries)
unfolding sort_from
sort_from-All P sorted [] s e = s
sort_from-All P sorted (x ∷ entries) s e =
    sort_from-All P (insert_sorted later_path x sorted) entries
      (insert_sorted-All _ P x sorted e.0 s) e.1

pub sort_entries-All :
    (P : Entry → Type 0) (entries : List Entry) → All P entries → All P (sort_entries entries)
unfolding sort_entries
sort_entries-All P entries h = All-reverse P _ (sort_from-All P [] entries tt h)
