-- ===== src/Block/ContentDelta.antt =====
-- internal/block/manifest.go: `PlanContentDelta`, which looks for the target's blocks in any file.
-- The key of a block is its hash alone.
use file_sync_engine.Prelude.{
  ℕ, String, ◌≡◌, ◌↔◌, refl, ap, sym, ◌∙◌, ◌⊎◌, Option, none, some, List, [], ◌∷◌, arith,
  if◌then◌else◌, inl, inr,
}
use file_sync_engine.Prelude.Lists.{In}
use file_sync_engine.Block.Manifest.{Hasher, Block, Manifest}

module _ (h : Hasher) where
  open h use {same}

  pub record Reuse : Type 0 where
    pub target_index : ℕ
    pub source_path : String
    pub source_index : ℕ

  pub record DeltaPlan : Type 0 where
    pub needed : List (Block h)
    pub reused : List Reuse

  -- The first block of a file with the hash, for the target's index.
  unfoldable pub reuse_in : String → List (Block h) → Block h → Option Reuse
  reuse_in path [] want = none
  reuse_in path (b ∷ blocks) want =
      let rest = reuse_in path blocks want in
      if same b.hash want.hash
      then some (record { target_index = want.index; source_path = path; source_index = b.index })
      else rest

  unfoldable pub first_reuse : Option Reuse → Option Reuse → Option Reuse
  first_reuse none rest = rest
  first_reuse (some found) rest = some found

  -- `available[blockKey(want)]`: the first file that has such a block.
  unfoldable pub find_reuse : List (Manifest h) → Block h → Option Reuse
  unfolding reuse_in first_reuse
  find_reuse [] want = none
  find_reuse (m ∷ sources) want =
      first_reuse (reuse_in m.path m.blocks want) (find_reuse sources want)

  unfoldable pub add_want : Block h → Option Reuse → DeltaPlan → DeltaPlan
  add_want want none plan = record plan { needed = want ∷ plan.needed }
  add_want want (some reuse) plan = record plan { reused = reuse ∷ plan.reused }

  unfoldable pub plan_content_delta : List (Manifest h) → List (Block h) → DeltaPlan
  unfolding find_reuse add_want
  plan_content_delta sources [] = record { needed = []; reused = [] }
  plan_content_delta sources (want ∷ target) =
      add_want want (find_reuse sources want) (plan_content_delta sources target)

  In-add_want :
      (w want : Block h) (o : Option Reuse) (plan : DeltaPlan)
      → In w (add_want want o plan).needed ↔ ((w ≡ want) × (o ≡ none)) ⊎ In w plan.needed
  unfolding add_want
  In-add_want w want none plan = (
    (λ i. elim i [ inl e ↦ inl (e, refl) | inr t ↦ inr t ]),
    (λ i. elim i [ inl e ↦ inl e.0 | inr t ↦ inr t ]),
  )
  In-add_want w want (some reuse) plan =
      ((λ i. inr i), (λ i. elim i [ inl e ↦ absurd (ground (arith, e.1)) | inr t ↦ t ]))

  -- A block is fetched exactly when the target lists it and no source file has a block with its
  -- hash.
  pub plan_content_delta-exact :
      (sources : List (Manifest h)) (target : List (Block h)) (w : Block h)
      → In w (plan_content_delta sources target).needed
        ↔ (In w target × (find_reuse sources w ≡ none))
  unfolding plan_content_delta
  plan_content_delta-exact sources [] w = ((λ e. elim e [ ]), (λ p. elim p.0 [ ]))
  plan_content_delta-exact sources (want ∷ target) w =
      let rest = plan_content_delta-exact sources target w in
      let step = In-add_want w want (find_reuse sources want) (plan_content_delta sources target) in
      (
        (λ i. elim (step.0 i) [
          | inl p ↦ (inl p.0, ap (find_reuse sources) p.0 ∙ p.1)
          | inr i ↦ (inr (rest.0 i).0, (rest.0 i).1)
        ]),
        (λ p. step.1 (elim p.0 [
          | inl e ↦ inl (e, ap (find_reuse sources) (sym e) ∙ p.1)
          | inr i ↦ inr (rest.1 (i, p.1))
        ])),
      )
