-- ===== src/Metadata/View.antt =====
-- What a peer folder reads at a path while changes are applied.
use file_sync_engine.Prelude.{
  ℕ, ◌≤◌, ◌≡◌, refl, ap, sym, ◌∙◌, String, true, false, ◌||◌, leb, ltb, Option, none, some, List,
  [], ◌∷◌, arith, str_eq, if◌then◌else◌, Bool-cases, if_rule, inl, inr,
}
use file_sync_engine.Prelude.Lists.{All, In}
use file_sync_engine.Prelude.Map.{
  Map, lookup, Distinct, lookup-insert, lookup-erase, insert-Distinct, erase-Distinct,
}
use file_sync_engine.Metadata.{Codec, Folder}
use file_sync_engine.Metadata.Changes.{
  upsert_change, delete_change, move_change, FolderChange, upsert_of, removal, manifest_of,
}
use file_sync_engine.Metadata.Peer.{
  PeerFolder, put_file, drop_file, clear_tombstone, apply_kind, apply_changes,
}
use file_sync_engine.Metadata.News.{IsNews, put, gone}

module _ (codec : Codec) where
  open codec use {Content}

  pub record View : Type 0 where
    pub file : Option Content
    pub revision : Option ℕ
    pub deleted_at : Option ℕ

  abbrev pub read : String → Map Content → Map ℕ → Map ℕ → View
  read p files revisions tombstones = record {
    file = lookup p files;
    revision = lookup p revisions;
    deleted_at = lookup p tombstones;
  }

  abbrev pub view : String → PeerFolder codec → View
  view p peer = read p peer.files peer.revisions peer.tombstones

  -- What a save or a delete leaves at its path.
  abbrev pub effect : FolderChange codec → View
  effect c = elim c.kind as (λ k. View) [
    | upsert_change ↦ record { file = c.manifest; revision = some c.revision; deleted_at = none }
    | delete_change ↦ record { file = none; revision = none; deleted_at = some c.revision }
    | move_change ↦ record { file = c.manifest; revision = some c.revision; deleted_at = none }
  ]

  abbrev pub view_after : String → View → List (FolderChange codec) → View
  view_after p v [] = v
  view_after p v (c ∷ changes) = view_after p (if str_eq c.path p then effect c else v) changes

  pub view_eq :
      (p : String) (files files' : Map Content) (revs revs' tombs tombs' : Map ℕ)
      → lookup p files ≡ lookup p files'
      → lookup p revs ≡ lookup p revs'
      → lookup p tombs ≡ lookup p tombs'
      → read p files revs tombs ≡ read p files' revs' tombs'
  view_eq p files files' revs revs' tombs tombs' f r t = ground (arith, f, r, t)

  view-put :
      (p q : String) (r : ℕ) (m : Content) (peer : PeerFolder codec)
      → view p (clear_tombstone codec q (put_file codec q r m peer))
        ≡ (if str_eq q p then effect (upsert_of codec q r m) else view p peer)
  unfolding put_file clear_tombstone
  view-put p q r m peer = elim (Bool-cases (str_eq q p)) [
    | inl e ↦ ground (
      arith,
      lookup-insert q p m peer.files,
      lookup-insert q p r peer.revisions,
      lookup-erase q p peer.tombstones,
      e,
    )
    | inr e ↦ ground (
      arith,
      lookup-insert q p m peer.files,
      lookup-insert q p r peer.revisions,
      lookup-erase q p peer.tombstones,
      e,
    )
  ]

  view-drop :
      (p q : String) (r : ℕ) (peer : PeerFolder codec)
      → view p (drop_file codec q r peer)
        ≡ (if str_eq q p then effect (removal codec q r) else view p peer)
  unfolding drop_file
  view-drop p q r peer = elim (Bool-cases (str_eq q p)) [
    | inl e ↦ ground (
      arith,
      lookup-erase q p peer.files,
      lookup-erase q p peer.revisions,
      lookup-insert q p r peer.tombstones,
      e,
    )
    | inr e ↦ ground (
      arith,
      lookup-erase q p peer.files,
      lookup-erase q p peer.revisions,
      lookup-insert q p r peer.tombstones,
      e,
    )
  ]

  pub after-none :
      (p : String) (v : View) (changes : List (FolderChange codec))
      → All (λ c. str_eq c.path p ≡ false) changes
      → view_after p v changes ≡ v
  after-none p v [] h = refl
  after-none p v (c ∷ changes) h =
      ap (λ b. view_after p (if b then effect c else v) changes) h.0 ∙ after-none p v changes h.1

  -- Changes that leave `w` where they are about the path.
  abbrev pub Leaves : String → View → List (FolderChange codec) → Type 0
  Leaves p w changes = All (λ c. str_eq c.path p ≡ true → effect c ≡ w) changes

  after-same :
      (p : String) (w : View) (changes : List (FolderChange codec))
      → Leaves p w changes
      → view_after p w changes ≡ w
  after-same p w [] h = refl
  after-same p w (c ∷ changes) h =
      ap (λ (v : View). view_after p v changes)
        (if_rule (λ (v : View). v ≡ w) (str_eq c.path p) (effect c) w h.0 (λ e. refl))
      ∙ after-same p w changes h.1

  pub after-one :
      (p : String) (v w : View) (c : FolderChange codec) (changes : List (FolderChange codec))
      → Leaves p w changes
      → In c changes
      → str_eq c.path p ≡ true
      → view_after p v changes ≡ w
  after-one p v w c [] h i e = elim i [ ]
  after-one p v w c (d ∷ changes) h (inl s) e =
      let here : str_eq d.path p ≡ true =
        ap (λ (x : FolderChange codec). str_eq x.path p) (sym s) ∙ e in
      ap (λ b. view_after p (if b then effect d else v) changes) here
      ∙ ap (λ (u : View). view_after p u changes) (h.0 here)
      ∙ after-same p w changes h.1
  after-one p v w c (d ∷ changes) h (inr i) e =
      after-one p (if str_eq d.path p then effect d else v) w c changes h.1 i e

  -- What the loop over the changes made of a peer folder.
  pub record Applied (from to : ℕ) (changes : List (FolderChange codec)) (peer : PeerFolder codec)
      : Type 0 where
    pub after : PeerFolder codec
    pub done : apply_changes codec from to changes peer ≡ some after
    pub files_once : Distinct after.files
    pub revisions_once : Distinct after.revisions
    pub tombstones_once : Distinct after.tombstones
    pub cursor : after.cursor ≡ peer.cursor
    pub views : (p : String) → view p after ≡ view_after p (view p peer) changes

  first-Applied :
      (from to : ℕ) (c : FolderChange codec) (changes : List (FolderChange codec))
      (peer next : PeerFolder codec)
      → (leb c.revision from || ltb to c.revision) ≡ false
      → apply_kind codec c.kind c peer ≡ some next
      → next.cursor ≡ peer.cursor
      → ((p : String) → view p next ≡ (if str_eq c.path p then effect c else view p peer))
      → Applied from to changes next
      → Applied from to (c ∷ changes) peer
  unfolding apply_changes
  first-Applied from to c changes peer next range kind cursor views h = record {
    after = h.after;
    done = rw range (rw kind h.done);
    files_once = h.files_once;
    revisions_once = h.revisions_once;
    tombstones_once = h.tombstones_once;
    cursor = h.cursor ∙ cursor;
    views = λ p. h.views p ∙ ap (λ (v : View). view_after p v changes) (views p);
  }

  -- News in the range of the message are applied, all of them.
  pub apply_changes-Applied :
      (from to : ℕ) (s : Folder codec) (changes : List (FolderChange codec))
      (peer : PeerFolder codec)
      → All (IsNews codec from s) changes
      → ((p : String) (r : ℕ) → lookup p s.revisions ≡ some r → r ≤ to)
      → ((p : String) (r : ℕ) → lookup p s.tombstones ≡ some r → r ≤ to)
      → Distinct peer.files
      → Distinct peer.revisions
      → Distinct peer.tombstones
      → Applied from to changes peer
  unfolding apply_changes apply_kind put_file drop_file clear_tombstone
  apply_changes-Applied from to s [] peer n b t x y z = record {
    after = peer;
    done = refl;
    files_once = x;
    revisions_once = y;
    tombstones_once = z;
    cursor = refl;
    views = λ p. refl;
  }
  apply_changes-Applied from to s (c ∷ changes) peer n b t x y z =
      step c n.0 (λ next. apply_changes-Applied from to s changes next n.1 b t)
    where
      step :
          (c : FolderChange codec)
          → IsNews codec from s c
          → ((next : PeerFolder codec)
              → Distinct next.files
              → Distinct next.revisions
              → Distinct next.tombstones
              → Applied from to changes next)
          → Applied from to (c ∷ changes) peer
      step c (put q r h l) rest =
          let m = manifest_of codec s.files q in
          let next = clear_tombstone codec q (put_file codec q r m peer) in
          first-Applied from to c changes peer next (ground (arith, l, b q r h)) refl refl
            (λ p. view-put p q r m peer)
            (rest next (insert-Distinct q m peer.files x) (insert-Distinct q r peer.revisions y)
              (erase-Distinct q peer.tombstones z))
      step c (gone q r h l) rest =
          let next = drop_file codec q r peer in
          first-Applied from to c changes peer next (ground (arith, l, t q r h)) refl refl
            (λ p. view-drop p q r peer)
            (rest next (erase-Distinct q peer.files x) (erase-Distinct q peer.revisions y)
              (insert-Distinct q r peer.tombstones z))
