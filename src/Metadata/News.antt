-- ===== src/Metadata/News.antt =====
-- What the changes since a cursor are, where no rename is newer than the cursor: the saves and
-- deletes after it, each path once.
use file_sync_engine.Prelude.{
  ℕ, ◌≤◌, ◌<◌, ◌≡◌, refl, ap, sym, ◌∙◌, subst, String, false, ◌||◌, leb, Option, none, some, List,
  [], ◌∷◌, ◌++◌, arith, str_eq, eq_iff, if_rule, Bool-cases, inl, inr,
}
use mathlib.Core.Path.{ap₂}
use file_sync_engine.Prelude.Lists.{All, All-map, All-append, In}
use file_sync_engine.Prelude.Map.{Map, lookup, Distinct}
use file_sync_engine.Prelude.Sort.{sort_stable-All, sort_stable-In}
use file_sync_engine.Metadata.{Codec, RenameHint, Folder}
use file_sync_engine.Metadata.Changes.{
  FolderChange, upsert_of, removal, hint_to, renamed_at, is_renamed, manifest_of, move_or_upsert,
  revision_change, revision_changes, tombstone_changes, before, all_changes,
}

module _ {V : Type 0} where
  -- Each entry of a map in which every key stands once is read under its key.
  pub Distinct-reads :
      (m : Map V) → Distinct m → All (λ (e : String × V). lookup e.0 m ≡ some e.1) m
  unfolding lookup
  Distinct-reads [] d = tt
  Distinct-reads ((k, v) ∷ m) d = (
    ground (arith, eq_iff k k),
    All-map
        (λ (e : String × V) h.
          ground (arith, h, d.0, eq_iff k e.0, ap (λ (q : String). lookup q m)))
        m (Distinct-reads m d.1),
  )

abbrev pub Old : ℕ → Map RenameHint → Type 0
Old cursor hints = All (λ (h : String × RenameHint). h.1.revision ≤ cursor) hints

pub hint_to-none :
    (cursor : ℕ) (hints : Map RenameHint) (to : String) (rev : ℕ)
    → Old cursor hints
    → cursor < rev
    → hint_to hints to rev ≡ none
unfolding hint_to
hint_to-none cursor [] to rev o l = refl
hint_to-none cursor ((from, hint) ∷ hints) to rev o l =
    ground (arith, o.0, l, hint_to-none cursor hints to rev o.1 l)

is_renamed-false :
    (cursor : ℕ) (hints : Map RenameHint) (rel : String) (rev : ℕ)
    → Old cursor hints
    → cursor < rev
    → is_renamed hints rel rev ≡ false
unfolding is_renamed lookup
is_renamed-false cursor [] rel rev o l = refl
is_renamed-false cursor ((from, hint) ∷ hints) rel rev o l =
    let rest = is_renamed-false cursor hints rel rev o.1 l in
    if_rule (λ (h : Option RenameHint). renamed_at rev h ≡ false) (str_eq from rel) _ _
      (λ same. ground (arith, o.0, l)) (λ other. rest)

module _ (codec : Codec) where
  open codec use {Content}

  -- A change after `cursor` that tells what the folder has.
  pub data IsNews (cursor : ℕ) (s : Folder codec) : FolderChange codec → Type 0 where
    put :
        (p : String) (r : ℕ)
        → lookup p s.revisions ≡ some r
        → cursor < r
        → IsNews cursor s (upsert_of codec p r (manifest_of codec s.files p))
    gone :
        (p : String) (r : ℕ)
        → lookup p s.tombstones ≡ some r
        → cursor < r
        → IsNews cursor s (removal codec p r)

  fresh_change :
      (cursor : ℕ) (s : Folder codec) (p : String) (r : ℕ)
      → Old cursor s.rename_hints
      → cursor < r
      → revision_change codec s.rename_hints s.files p r
        ≡ upsert_of codec p r (manifest_of codec s.files p)
  unfolding revision_change
  fresh_change cursor s p r o l =
      ap (λ h. move_or_upsert codec h p r (manifest_of codec s.files p))
        (hint_to-none cursor s.rename_hints p r o l)

  revision_changes-IsNews :
      (cursor : ℕ) (s : Folder codec) (m : Map ℕ)
      → Old cursor s.rename_hints
      → All (λ (e : String × ℕ). lookup e.0 s.revisions ≡ some e.1) m
      → All (IsNews cursor s) (revision_changes codec cursor s.rename_hints s.files m)
  unfolding revision_changes
  revision_changes-IsNews cursor s [] o h = tt
  revision_changes-IsNews cursor s ((p, r) ∷ m) o h =
      let rest = revision_changes-IsNews cursor s m o h.1 in
      elim (Bool-cases (leb r cursor)) [
        | inl e ↦ rw e rest
        | inr e ↦ rw e (
          subst (IsNews cursor s) (sym (fresh_change cursor s p r o (ground (arith, e))))
              (put p r h.0 (ground (arith, e))),
          rest,
        )
      ]

  tombstone_changes-IsNews :
      (cursor : ℕ) (s : Folder codec) (m : Map ℕ)
      → Old cursor s.rename_hints
      → All (λ (e : String × ℕ). lookup e.0 s.tombstones ≡ some e.1) m
      → All (IsNews cursor s) (tombstone_changes codec cursor s.rename_hints m)
  unfolding tombstone_changes
  tombstone_changes-IsNews cursor s [] o h = tt
  tombstone_changes-IsNews cursor s ((p, r) ∷ m) o h =
      let rest = tombstone_changes-IsNews cursor s m o h.1 in
      elim (Bool-cases (leb r cursor)) [
        | inl e ↦ rw e rest
        | inr e ↦ rw e (
            rw (is_renamed-false cursor s.rename_hints p r o (ground (arith, e)))
              (gone p r h.0 (ground (arith, e)), rest))
      ]

  In-left : (c : FolderChange codec) (xs ys : List (FolderChange codec)) → In c xs → In c (xs ++ ys)
  In-left c [] ys h = elim h [ ]
  In-left c (x ∷ xs) ys (inl e) = inl e
  In-left c (x ∷ xs) ys (inr h) = inr (In-left c xs ys h)

  In-right :
      (c : FolderChange codec) (xs ys : List (FolderChange codec)) → In c ys → In c (xs ++ ys)
  In-right c [] ys h = h
  In-right c (x ∷ xs) ys h = inr (In-right c xs ys h)

  revision_changes-In :
      (cursor : ℕ) (s : Folder codec) (m : Map ℕ) (p : String) (r : ℕ)
      → Old cursor s.rename_hints
      → lookup p m ≡ some r
      → cursor < r
      → In
          (upsert_of codec p r (manifest_of codec s.files p))
          (revision_changes codec cursor s.rename_hints s.files m)
  unfolding revision_changes lookup
  revision_changes-In cursor s [] p r o h l = absurd (ground (arith, h))
  revision_changes-In cursor s ((q, t) ∷ m) p r o h l = elim (Bool-cases (str_eq q p)) [
    | inl e ↦
        let key = (eq_iff q p).0 e in
        let rev : t ≡ r = ground (arith, h, e) in
        let here =
          ap₂ (λ (i : String) (n : ℕ). upsert_of codec i n (manifest_of codec s.files i)) (sym key)
            (sym rev)
          ∙ sym (fresh_change cursor s q t o (omega (arith, rev, l))) in
        let newer : leb t cursor ≡ false = ground (arith, rev, l) in rw newer (inl here)
    | inr e ↦
        let rest = revision_changes-In cursor s m p r o (ground (arith, h, e)) l in
        elim (Bool-cases (leb t cursor)) [ inl k ↦ rw k rest | inr k ↦ rw k (inr rest) ]
  ]

  tombstone_changes-In :
      (cursor : ℕ) (s : Folder codec) (m : Map ℕ) (p : String) (r : ℕ)
      → Old cursor s.rename_hints
      → lookup p m ≡ some r
      → cursor < r
      → In (removal codec p r) (tombstone_changes codec cursor s.rename_hints m)
  unfolding tombstone_changes lookup
  tombstone_changes-In cursor s [] p r o h l = absurd (ground (arith, h))
  tombstone_changes-In cursor s ((q, t) ∷ m) p r o h l = elim (Bool-cases (str_eq q p)) [
    | inl e ↦
        let key = (eq_iff q p).0 e in
        let rev : t ≡ r = ground (arith, h, e) in
        let here = ap₂ (λ (i : String) (n : ℕ). removal codec i n) (sym key) (sym rev) in
        let told : (leb t cursor || is_renamed s.rename_hints q t) ≡ false =
          ground
            (arith, rev, l, is_renamed-false cursor s.rename_hints q t o (omega (arith, rev, l))) in
        rw told (inl here)
    | inr e ↦
        let rest = tombstone_changes-In cursor s m p r o (ground (arith, h, e)) l in
        elim (Bool-cases (leb t cursor || is_renamed s.rename_hints q t)) [
          | inl k ↦ rw k rest
          | inr k ↦ rw k (inr rest)
        ]
  ]

  pub all_changes-IsNews :
      (cursor : ℕ) (s : Folder codec)
      → Old cursor s.rename_hints
      → Distinct s.revisions
      → Distinct s.tombstones
      → All (IsNews cursor s) (all_changes codec s cursor)
  unfolding all_changes
  all_changes-IsNews cursor s o d e = sort_stable-All (before codec) (IsNews cursor s) _ (
      All-append (IsNews cursor s) _ _
        (revision_changes-IsNews cursor s s.revisions o (Distinct-reads s.revisions d))
        (tombstone_changes-IsNews cursor s s.tombstones o (Distinct-reads s.tombstones e)))

  pub all_changes-saved :
      (cursor : ℕ) (s : Folder codec) (p : String) (r : ℕ)
      → Old cursor s.rename_hints
      → lookup p s.revisions ≡ some r
      → cursor < r
      → In (upsert_of codec p r (manifest_of codec s.files p)) (all_changes codec s cursor)
  unfolding all_changes
  all_changes-saved cursor s p r o h l =
      sort_stable-In (before codec) _ _
        (In-left _ _ _ (revision_changes-In cursor s s.revisions p r o h l))

  pub all_changes-deleted :
      (cursor : ℕ) (s : Folder codec) (p : String) (r : ℕ)
      → Old cursor s.rename_hints
      → lookup p s.tombstones ≡ some r
      → cursor < r
      → In (removal codec p r) (all_changes codec s cursor)
  unfolding all_changes
  all_changes-deleted cursor s p r o h l =
      sort_stable-In (before codec) _ _
        (In-right _ _ _ (tombstone_changes-In cursor s s.tombstones p r o h l))
