-- ===== src/Metadata/Renames.antt =====
-- A rename whose target is changed again before the peer asks.
use file_sync_engine.Prelude.{
  ℕ, ◌+◌, ◌≤◌, ◌<◌, ◌≡◌, ◌≢◌, ◌^◌, refl, ap, sym, subst, ◌∙◌, String, true, ◌||◌, leb, Option, none,
  some, [], ◌∷◌, arith, str_eq, eq_iff, Bool-cases, if_rule, inl, inr, ◌⊎◌,
}
use file_sync_engine.Prelude.Lists.{All, All-map, All-append}
use file_sync_engine.Prelude.Map.{Map, lookup, insert, erase, lookup-insert, lookup-erase}
use file_sync_engine.Prelude.Sort.{sort_stable-All}
use file_sync_engine.Metadata.{Codec, RenameHint, Folder, revision_after, save_manifest, moved}
use file_sync_engine.Metadata.Changes.{
  FolderChange, renamed_at, is_renamed, move_or_upsert, manifest_of, revision_change,
  revision_changes, tombstone_changes, before, all_changes,
}
use file_sync_engine.Metadata.History.{IsFolder, revision_after_id}
use file_sync_engine.Metadata.WellFormed.{save_manifest-IsFolder, moved-IsFolder}
use file_sync_engine.Metadata.News.{Distinct-reads, Old, hint_to-none}

module _ (codec : Codec) where
  open codec use {Content}

  -- A change that is not about the path.
  abbrev pub Skips : String → FolderChange codec → Type 0
  Skips p c = (c.path ≢ p) × (c.from_path ≢ p)

  revision_changes-Skips :
      (cursor : ℕ) (hints : Map RenameHint) (files : Map Content) (p q : String) (m : Map ℕ)
      → q ≢ p
      → p ≢ ""
      → Old (cursor + 1) hints
      → All (λ (e : String × ℕ). (e.1 ≤ cursor) ⊎ ((e.0 ≡ q) × (cursor + 1 < e.1))) m
      → All (Skips p) (revision_changes codec cursor hints files m)
  unfolding revision_changes revision_change
  revision_changes-Skips cursor hints files p q [] n z h k = tt
  revision_changes-Skips cursor hints files p q ((rel, rev) ∷ m) n z h k =
      let rest = revision_changes-Skips cursor hints files p q m n z h k.1 in
      if_rule (All (Skips p)) (leb rev cursor) _ _ (λ old. rest)
        (λ newer. elim k.0 [
          | inl old ↦ absurd (ground (arith, newer, old))
          | inr new ↦ (
            subst
                (λ (o : Option RenameHint).
                  Skips p (move_or_upsert codec o rel rev (manifest_of codec files rel)))
                (sym (hint_to-none (cursor + 1) hints rel rev h new.1))
                ((λ e. n (sym new.0 ∙ e)), (λ e. z (sym e))),
            rest,
          )
        ])

  tombstone_changes-none :
      (cursor : ℕ) (hints : Map RenameHint) (m : Map ℕ)
      → All (λ (e : String × ℕ). (e.1 ≤ cursor) ⊎ (is_renamed hints e.0 e.1 ≡ true)) m
      → tombstone_changes codec cursor hints m ≡ []
  unfolding tombstone_changes
  tombstone_changes-none cursor hints [] k = refl
  tombstone_changes-none cursor hints ((rel, rev) ∷ m) k =
      let hidden : (leb rev cursor || is_renamed hints rel rev) ≡ true = elim k.0 [
        | inl old ↦ ground (arith, old)
        | inr renamed ↦ ground (arith, renamed)
      ] in
      rw hidden (tombstone_changes-none cursor hints m k.1)

  newest_revision :
      (s : Folder codec) (p q : String) (r1 r2 : ℕ) (e : String × ℕ)
      → IsFolder codec s
      → s.cursor + 1 < r2
      → lookup e.0 (insert q r2 (insert q r1 (erase p s.revisions))) ≡ some e.1
      → (e.1 ≤ s.cursor) ⊎ ((e.0 ≡ q) × (s.cursor + 1 < e.1))
  newest_revision s p q r1 r2 e w l h = elim (Bool-cases (str_eq q e.0)) [
    | inl k ↦ inr (
      sym ((eq_iff q e.0).0 k),
      ground (arith, h, l, k, lookup-insert q e.0 r2 (insert q r1 (erase p s.revisions))),
    )
    | inr k ↦ inl (
        w.revisions_known e.0 e.1 (
          ground (
            arith,
            h,
            k,
            lookup-insert q e.0 r2 (insert q r1 (erase p s.revisions)),
            lookup-insert q e.0 r1 (erase p s.revisions),
            lookup-erase p e.0 s.revisions,
          )))
  ]

  renamed_tombstone :
      (s : Folder codec) (p q : String) (r : ℕ) (hint : RenameHint) (e : String × ℕ)
      → IsFolder codec s
      → hint.revision ≡ r
      → lookup e.0 (erase q (insert p r s.tombstones)) ≡ some e.1
      → (e.1 ≤ s.cursor) ⊎ (is_renamed (insert p hint s.rename_hints) e.0 e.1 ≡ true)
  unfolding is_renamed
  renamed_tombstone s p q r hint e w l h = elim (Bool-cases (str_eq p e.0)) [
    | inl k ↦
        let rev : r ≡ e.1 = ground (
          arith,
          h,
          k,
          lookup-erase q e.0 (insert p r s.tombstones),
          lookup-insert p e.0 r s.tombstones,
        ) in
        let found : lookup e.0 (insert p hint s.rename_hints) ≡ some hint =
          ground (arith, k, lookup-insert p e.0 hint s.rename_hints) in
        inr (ap (renamed_at e.1) found ∙ ground (arith, rev, l))
    | inr k ↦ inl (
        w.tombstones_known e.0 e.1 (
          ground (
            arith,
            h,
            k,
            lookup-erase q e.0 (insert p r s.tombstones),
            lookup-insert p e.0 r s.tombstones,
          )))
  ]

  -- A rename is lost where its target is saved again before the peer asks: a folder that is well
  -- formed has `p` renamed to `q`, and `q` saved once more. Then `p` is a tombstone above the
  -- peer's cursor and no file, but no change since that cursor is about `p`. Conditions: `p` is not
  -- empty and is not `q`, and the revisions stay below 2^64.
  pub rename_lost :
      (s : Folder codec) (p q : String) (m m2 : Content)
      → IsFolder codec s
      → q ≢ p
      → p ≢ ""
      → s.cursor + 2 < 2 ^ 64
      → let new = save_manifest codec q m2 (moved codec p q m s) in
        (lookup p new.files ≡ none)
        × (lookup p new.tombstones ≡ some (s.cursor + 1))
        × All (Skips p) (all_changes codec new s.cursor)
  unfolding save_manifest moved all_changes
  rename_lost s p q m m2 w n z b =
      let mid = moved codec p q m s in
      let new = save_manifest codec q m2 mid in
      let r1 = revision_after s.cursor in
      let r2 = revision_after r1 in
      let first : r1 ≡ s.cursor + 1 = revision_after_id codec s.cursor (omega (arith, b)) in
      let second : r2 ≡ s.cursor + 2 =
        omega (arith, first, revision_after_id codec r1 (omega (arith, b, first))) in
      let at_mid = moved-IsFolder codec p q m s (omega (arith, b)) w in
      let at_new = save_manifest-IsFolder codec q m2 mid (omega (arith, b, first)) at_mid in
      let hints : Old (s.cursor + 1) new.rename_hints =
        subst (λ (r : ℕ). Old r new.rename_hints) first at_mid.hints_known in
      let by_rev =
        All-map
          (λ (e : String × ℕ) (h : lookup e.0 new.revisions ≡ some e.1).
            newest_revision s p q r1 r2 e w (omega (arith, second)) h)
          new.revisions (Distinct-reads new.revisions at_new.revisions_once) in
      let by_tomb =
        All-map
          (λ (e : String × ℕ) (h : lookup e.0 new.tombstones ≡ some e.1).
            renamed_tombstone s p q r1 (record { from_path = p; to_path = q; revision = r1 }) e w
              refl h)
          new.tombstones (Distinct-reads new.tombstones at_new.tombstones_once) in
      (
        ground (
          arith,
          lookup-insert q p m2 (insert q m (erase p s.files)),
          lookup-insert q p m (erase p s.files),
          lookup-erase p p s.files,
          eq_iff q p,
          eq_iff p p,
          n,
        ),
        ground (
          arith,
          lookup-erase q p (insert p r1 s.tombstones),
          lookup-insert p p r1 s.tombstones,
          eq_iff q p,
          eq_iff p p,
          n,
          first,
        ),
        sort_stable-All (before codec) (Skips p) _ (
            All-append (Skips p) _ _
              (revision_changes-Skips s.cursor new.rename_hints new.files p q new.revisions n z
                hints by_rev)
              (subst (All (Skips p))
                (sym (tombstone_changes-none s.cursor new.rename_hints new.tombstones by_tomb))
                tt)),
      )
