-- ===== src/Badger/Index.antt =====
-- The block index of the Badger store: the blocks of the manifests that are not damaged.
use file_sync_engine.Prelude.{
  ◌≡◌, refl, ap, sym, subst, ◌∙◌, String, Bool, true, false, Option, none, some, List, [], ◌∷◌,
  ◌++◌, arith, str_eq, eq_iff, if◌then◌else◌, Bool-cases, inl, inr,
}
use mathlib.Core.List.{append-nil}
use file_sync_engine.Prelude.Lists.{All, All-map, All-In-self, In}
use file_sync_engine.Metadata.{Codec, IndexedBlock}
use file_sync_engine.Metadata.WellFormed.{FolderUpdate, saving, deleting, moving}
use file_sync_engine.Badger.{
  BadgerFolder, set_key, delete_key, same_block_key, has_key, delete_blocks, blocks_at,
  delete_manifest_records, set_manifest, index_blocks, badger_save, badger_delete, badger_moved,
  badger_move,
}
use file_sync_engine.Badger.Agree.{badger_changed}

has_key-In : (b : IndexedBlock) (blocks : List IndexedBlock) → In b blocks → has_key b blocks ≡ true
has_key-In b [] i = elim i [ ]
has_key-In b (c ∷ blocks) (inl e) = ground (arith, ap (same_block_key b) e, eq_iff b.hash b.hash)
has_key-In b (c ∷ blocks) (inr i) = ground (arith, has_key-In b blocks i)

delete_blocks-All :
    (gone blocks : List IndexedBlock)
    → All (λ b. has_key b gone ≡ true) blocks
    → delete_blocks gone blocks ≡ []
unfolding delete_blocks
delete_blocks-All gone [] h = refl
delete_blocks-All gone (b ∷ blocks) h = rw h.0 (delete_blocks-All gone blocks h.1)

delete_blocks_self : (blocks : List IndexedBlock) → delete_blocks blocks blocks ≡ []
delete_blocks_self blocks =
    delete_blocks-All blocks blocks
      (All-map (λ b i. has_key-In b blocks i) blocks (All-In-self blocks))

delete_blocks-nil : (gone : List IndexedBlock) → delete_blocks gone [] ≡ []
unfolding delete_blocks
delete_blocks-nil gone = refl

In-left : (b : IndexedBlock) (xs ys : List IndexedBlock) → In b xs → In b (xs ++ ys)
In-left b [] ys i = elim i [ ]
In-left b (x ∷ xs) ys (inl e) = inl e
In-left b (x ∷ xs) ys (inr i) = inr (In-left b xs ys i)

module _ (codec : Codec) where
  open codec use {Content, damaged, blocks_of}

  -- The blocks that a manifest offers.
  abbrev pub offered : Option Content → List IndexedBlock
  offered none = []
  offered (some m) = if damaged m then [] else blocks_of m

  -- The index of every path has the blocks that its manifest offers, and no others.
  pub record IsIndexed (b : BadgerFolder codec) : Type 0 where
    pub at_path : (p : String) → b.block_index p ≡ offered (b.manifests p)

  delete-offered : (o : Option Content) → delete_blocks (blocks_at codec o) (offered o) ≡ []
  delete-offered none = delete_blocks-nil []
  delete-offered (some m) = by_test (damaged m)
    where
      by_test : (test : Bool) → delete_blocks (blocks_of m) (if test then [] else blocks_of m) ≡ []
      by_test true = delete_blocks-nil (blocks_of m)
      by_test false = delete_blocks_self (blocks_of m)

  records-IsIndexed :
      (path : String) (b : BadgerFolder codec)
      → IsIndexed b
      → IsIndexed (delete_manifest_records codec path b)
  unfolding delete_manifest_records delete_key
  records-IsIndexed path b h = record {
    at_path = λ p. elim (Bool-cases (str_eq path p)) [
      | inl e ↦ rw e (
          ap (λ (q : String). delete_blocks (blocks_at codec (b.manifests path)) (b.block_index q))
            (sym ((eq_iff path p).0 e))
          ∙ ap (delete_blocks (blocks_at codec (b.manifests path))) (h.at_path path)
          ∙ delete-offered (b.manifests path))
      | inr e ↦ rw e (h.at_path p)
    ];
  }

  -- A manifest is set and its blocks are added where the path had none.
  added_blocks :
      (path p : String) (m : Content) (blocks : List IndexedBlock)
      (manifests : String → Option Content) (block_index : String → List IndexedBlock)
      → block_index path ≡ []
      → blocks ≡ offered (some m)
      → block_index p ≡ offered (manifests p)
      → (if str_eq path p then blocks ++ block_index p else block_index p)
        ≡ offered (set_key path m manifests p)
  unfolding set_key
  added_blocks path p m blocks manifests block_index n k h = elim (Bool-cases (str_eq path p)) [
    | inl e ↦
        let none_there : block_index p ≡ [] = ap block_index (sym ((eq_iff path p).0 e)) ∙ n in
        let result : (blocks ++ block_index p) ≡ offered (some m) =
          ap (λ (r : List IndexedBlock). blocks ++ r) none_there ∙ append-nil blocks ∙ k in
        rw e result
    | inr e ↦ rw e h
  ]

  emptied :
      (path : String) (b : BadgerFolder codec)
      → IsIndexed b
      → (delete_manifest_records codec path b).block_index path ≡ []
  unfolding delete_manifest_records
  emptied path b h =
      let same : str_eq path path ≡ true = (eq_iff path path).1 refl in
      rw same (
        ap (delete_blocks (blocks_at codec (b.manifests path))) (h.at_path path)
        ∙ delete-offered (b.manifests path))

  save-IsIndexed :
      (path : String) (m : Content) (b : BadgerFolder codec)
      → IsIndexed b
      → IsIndexed (badger_save codec path m b)
  unfolding badger_save set_manifest index_blocks
  save-IsIndexed path m b h =
      let gone = delete_manifest_records codec path b in
      let kept = records-IsIndexed path b h in
      record {
        at_path = λ p.
            added_blocks path p m (if damaged m then [] else blocks_of m) gone.manifests
              gone.block_index (emptied path b h) refl (kept.at_path p);
      }

  delete-IsIndexed :
      (path : String) (b : BadgerFolder codec)
      → IsIndexed b
      → IsIndexed (badger_delete codec path b)
  unfolding badger_delete
  delete-IsIndexed path b h =
      let kept = records-IsIndexed path b h in record { at_path = λ p. kept.at_path p }

  moved-IsIndexed :
      (from to : String) (m : Content) (b : BadgerFolder codec)
      → damaged m ≡ false
      → IsIndexed b
      → IsIndexed (badger_moved codec from to m b)
  unfolding badger_moved set_manifest index_blocks
  moved-IsIndexed from to m b d h =
      let first = records-IsIndexed from b h in
      let gone = delete_manifest_records codec to (delete_manifest_records codec from b) in
      let kept = records-IsIndexed to (delete_manifest_records codec from b) first in
      let sound : blocks_of m ≡ offered (some m) = rw d refl in
      record {
        at_path = λ p.
            added_blocks to p m (blocks_of m) gone.manifests gone.block_index
              (emptied to (delete_manifest_records codec from b) first) sound (kept.at_path p);
      }

  -- Updates that do not move a damaged manifest.
  abbrev pub MovesSound : FolderUpdate codec → Type 0
  MovesSound (saving p m) = Unit
  MovesSound (deleting p) = Unit
  MovesSound (moving p q m) = damaged m ≡ false

  -- The block index stays exact: where the index has under each path the blocks of its manifest,
  -- and none of a damaged one, it has them after every update that is not refused. Condition: the
  -- update does not move a damaged manifest.
  pub badger_changed-IsIndexed :
      (id : String) (update : FolderUpdate codec) (b after : BadgerFolder codec)
      → IsIndexed b
      → MovesSound update
      → badger_changed codec id update b ≡ some after
      → IsIndexed after
  unfolding badger_move
  badger_changed-IsIndexed id (saving p m) b after h s e =
      subst IsIndexed (ground (arith, e)) (save-IsIndexed p m b h)
  badger_changed-IsIndexed id (deleting p) b after h s e =
      subst IsIndexed (ground (arith, e)) (delete-IsIndexed p b h)
  badger_changed-IsIndexed id (moving p q m) b after h s e =
      subst IsIndexed (ground (arith, e)) (moved-IsIndexed p q m b s h)

  -- A moved manifest that is damaged is advertised: the index of its new path has all its blocks.
  pub moved_damaged :
      (from to : String) (m : Content) (b : BadgerFolder codec) (block : IndexedBlock)
      → In block (blocks_of m)
      → In block ((badger_moved codec from to m b).block_index to)
  unfolding badger_moved index_blocks
  moved_damaged from to m b block i =
      let same : str_eq to to ≡ true = (eq_iff to to).1 refl in
      rw same (In-left block (blocks_of m) _ i)
