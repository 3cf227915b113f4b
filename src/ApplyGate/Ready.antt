-- ===== src/ApplyGate/Ready.antt =====
-- When a delete that waits is ready.
use file_sync_engine.Prelude.{
  ◌≤◌, ◌≡◌, ◌↔◌, refl, ap, sym, ◌∙◌, String, true, ◌&&◌, Option, none, some, List, [], ◌∷◌, arith,
  str_eq, eq_iff, if◌then◌else◌, Bool-cases, if_rule, inl, inr, ◌⊎◌,
}
use file_sync_engine.Prelude.Lists.{All, All-map, In, All-In}
use file_sync_engine.Prelude.Map.{Map, lookup, insert, lookup-insert}
use file_sync_engine.Prelude.Sort.{sort_stable, sort_stable-In, sort_stable-All}
use file_sync_engine.Prelude.Text.{str_lt}
use file_sync_engine.Block.Manifest.{Hasher}
use file_sync_engine.Metadata.Changes.{FolderSummary}
use file_sync_engine.ApplyGate.{
  SkippedDelete, or_nil, values, updated, lookup_in, insert_in, PendingWrite, Gate, pending_write,
  mark_pending_write_committed, metadata_prerequisites_met, is_committed, required_writes_committed,
  is_ready, ready_among, ready_skipped_deletes,
}

-- A value in a folder's map is read under its key.
pub lookup_in-insert_in :
    {V : Type 0} (folder asked_folder path asked : String) (v : V) (m : Map (Map V))
    → lookup_in asked_folder asked (insert_in folder path v m) ≡ (
        if str_eq folder asked_folder && str_eq path asked
        then some v
        else lookup_in asked_folder asked m)
unfolding lookup_in insert_in
lookup_in-insert_in {V} folder asked_folder path asked v m =
    let inner = insert path v (or_nil (lookup folder m)) in
    let outer = lookup-insert folder asked_folder inner m in
    elim (Bool-cases (str_eq folder asked_folder)) [
      | inl e ↦
          let found : lookup asked_folder (insert folder inner m) ≡ some inner =
            outer ∙ rw e refl in
          let result : lookup asked (or_nil (lookup asked_folder (insert folder inner m))) ≡ (
              if str_eq path asked then some v else lookup asked (or_nil (lookup asked_folder m))) =
            ap (λ (o : Option (Map V)). lookup asked (or_nil o)) found
            ∙ lookup-insert path asked v (or_nil (lookup folder m))
            ∙ ap
                (λ (f : String).
                  if str_eq path asked then some v else lookup asked (or_nil (lookup f m)))
                ((eq_iff folder asked_folder).0 e) in
          rw e result
      | inr e ↦
          let found : lookup asked_folder (insert folder inner m) ≡ lookup asked_folder m =
            outer ∙ rw e refl in
          let result : lookup asked (or_nil (lookup asked_folder (insert folder inner m)))
              ≡ lookup asked (or_nil (lookup asked_folder m)) =
            ap (λ (o : Option (Map V)). lookup asked (or_nil o)) found in
          rw e result
    ]

module _ (h : Hasher) where
  -- The write is pending and committed.
  abbrev pub IsCommitted : Map (PendingWrite h) → String → Type 0
  IsCommitted writes path =
      (w : PendingWrite h) × (lookup path writes ≡ some w) × (w.committed ≡ true)

  is_committed_iff :
      (o : Option (PendingWrite h))
      → (is_committed h o ≡ true) ↔ ((w : PendingWrite h) × (o ≡ some w) × (w.committed ≡ true))
  is_committed_iff none = (λ e. ground (arith, e), λ c. ground (arith, c.1))
  is_committed_iff (some w) = (λ e. (w, refl, e), λ c. ground (arith, c.1, c.2))

  required_iff :
      (writes : Map (PendingWrite h)) (required : List String)
      → (required_writes_committed h writes required ≡ true) ↔ All (IsCommitted writes) required
  unfolding required_writes_committed
  required_iff writes [] = (λ e. tt, λ a. refl)
  required_iff writes (path ∷ required) =
      let rest = required_iff writes required in
      let here = is_committed_iff (lookup path writes) in
      (
        (λ e. (here.0 (ground (arith, e)), rest.0 (ground (arith, e)))),
        (λ a. ground (arith, here.1 a.0, rest.1 a.1)),
      )

  -- What a delete waits for.
  pub record IsReady (current : FolderSummary) (writes : Map (PendingWrite h)) (d : SkippedDelete)
      : Type 0 where
    pub cursor_reached : d.required_metadata_cursor ≤ current.cursor
    pub state_reached :
        (d.required_metadata_state_hash ≡ "")
        ⊎ (d.required_metadata_state_hash ≡ current.state_hash)
    pub writes_done : All (IsCommitted writes) d.required_writes

  is_ready_iff :
      (current : FolderSummary) (writes : Map (PendingWrite h)) (d : SkippedDelete)
      → (is_ready h current writes d ≡ true) ↔ IsReady current writes d
  unfolding is_ready metadata_prerequisites_met
  is_ready_iff current writes d =
      let writes_iff = required_iff writes d.required_writes in
      let empty_iff = eq_iff d.required_metadata_state_hash "" in
      let hash_iff = eq_iff current.state_hash d.required_metadata_state_hash in
      (
        (λ e. record {
          cursor_reached = ground (arith, e);
          state_reached = elim (Bool-cases (str_eq d.required_metadata_state_hash "")) [
            | inl k ↦ inl (empty_iff.0 k)
            | inr k ↦ inr (sym (hash_iff.0 (ground (arith, e, k))))
          ];
          writes_done = writes_iff.0 (ground (arith, e));
        }),
        (λ r. elim r.state_reached [
          | inl k ↦ ground (arith, r.cursor_reached, empty_iff.1 k, writes_iff.1 r.writes_done)
          | inr k ↦ ground (arith, r.cursor_reached, hash_iff.1 (sym k), writes_iff.1 r.writes_done)
        ]),
      )

  ready_among_sound :
      (current : FolderSummary) (writes : Map (PendingWrite h)) (m : Map SkippedDelete)
      → All
          (λ (d : SkippedDelete). In d (values m) × IsReady current writes d)
          (ready_among h current writes m)
  unfolding ready_among values
  ready_among_sound current writes [] = tt
  ready_among_sound current writes ((key, d) ∷ m) =
      let rest =
        All-map
          (λ (e : SkippedDelete) (r : In e (values m) × IsReady current writes e). (inr r.0, r.1))
          (ready_among h current writes m) (ready_among_sound current writes m) in
      if_rule (All (λ (e : SkippedDelete). In e (d ∷ values m) × IsReady current writes e))
        (is_ready h current writes d) _ _
        (λ t. ((inl refl, (is_ready_iff current writes d).0 t), rest)) (λ f. rest)

  ready_among_complete :
      (current : FolderSummary) (writes : Map (PendingWrite h)) (m : Map SkippedDelete)
      (d : SkippedDelete)
      → In d (values m)
      → IsReady current writes d
      → In d (ready_among h current writes m)
  unfolding ready_among values
  ready_among_complete current writes [] d i r = elim i [ ]
  ready_among_complete current writes ((key, e) ∷ m) d (inl s) r =
      let good : is_ready h current writes e ≡ true =
        ap (is_ready h current writes) (sym s) ∙ (is_ready_iff current writes d).1 r in
      rw good (inl s)
  ready_among_complete current writes ((key, e) ∷ m) d (inr i) r =
      let rest = ready_among_complete current writes m d i r in
      if_rule (In d) (is_ready h current writes e) _ _ (λ t. inr rest) (λ f. rest)

  -- The deletes that are ready are exactly the deletes kept for the folder whose cursor is reached,
  -- whose state hash is empty or the current one, and of whose required writes each is pending and
  -- committed.
  pub ready_skipped_deletes-IsReady :
      (folder : String) (current : FolderSummary) (g : Gate h) (d : SkippedDelete)
      → In d (ready_skipped_deletes h folder current g) ↔ (
          In d (values (or_nil (lookup folder g.skipped_deletes)))
          × IsReady current (or_nil (lookup folder g.pending_writes)) d)
  unfolding ready_skipped_deletes
  ready_skipped_deletes-IsReady folder current g d =
      let writes = or_nil (lookup folder g.pending_writes) in
      let kept = or_nil (lookup folder g.skipped_deletes) in
      let before = (λ (a b : SkippedDelete). str_lt a.path b.path) in
      let found = ready_among h current writes kept in
      (
        (λ i.
            All-In (λ (e : SkippedDelete). In e (values kept) × IsReady current writes e)
              (sort_stable before found) d
              (sort_stable-All before
                (λ (e : SkippedDelete). In e (values kept) × IsReady current writes e) found
                (ready_among_sound current writes kept))
              i),
        (λ r. sort_stable-In before found d (ready_among_complete current writes kept d r.0 r.1)),
      )

  -- A write that is marked stays as it was but is committed, and every other write is untouched.
  -- Condition: the write is pending.
  pub mark_pending_write_committed-reads :
      (folder path other_folder other : String) (w : PendingWrite h) (g : Gate h)
      → pending_write h folder path g ≡ some w
      → (after : Gate h) × (mark_pending_write_committed h folder path g ≡ some after)
        × (pending_write h other_folder other after ≡ (
            if str_eq folder other_folder && str_eq path other
            then some (record w { committed = true })
            else pending_write h other_folder other g))
  unfolding mark_pending_write_committed updated pending_write
  mark_pending_write_committed-reads folder path other_folder other w g e =
      let done = record w { committed = true } in
      (
        record g { pending_writes = insert_in folder path done g.pending_writes },
        rw e refl,
        lookup_in-insert_in folder other_folder path other done g.pending_writes,
      )
