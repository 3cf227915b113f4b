-- ===== src/Block/Manifest/Delta.antt =====
-- What `PlanDelta` plans, against the two manifests it reads.
use file_sync_engine.Prelude.{
  ℕ, ◌≡◌, ◌≢◌, ◌↔◌, ◌⊎◌, refl, true, Option, none, some, List, [], ◌∷◌, inl, inr, arith, Bool-cases,
  Option-cases, sym, subst,
}
use file_sync_engine.Prelude.Lists.{In, All}
use file_sync_engine.Block.Manifest.{Hasher, Block, or_else, block_at, holds, plan_delta}

module _ (h : Hasher) where
  -- The block is the last one of a list with an index.
  abbrev pub LastAt : ℕ → Block h → List (Block h) → Type 0
  LastAt i have [] = ⊥
  LastAt i have (b ∷ blocks) =
      ((have ≡ b) × (b.index ≡ i) × All (λ (c : Block h). c.index ≢ i) blocks)
      ⊎ LastAt i have blocks

  -- The last block of the base with the wanted index has the wanted size and hash.
  abbrev pub IsHeld : List (Block h) → Block h → Type 0
  IsHeld base want =
      (have : Block h) × LastAt want.index have base
      × (have.size ≡ want.size)
      × (have.hash ≡ want.hash)

  block_at-none :
      (i : ℕ) (blocks : List (Block h))
      → block_at h i blocks ≡ none
      → All (λ (c : Block h). c.index ≢ i) blocks
  unfolding block_at or_else
  block_at-none i [] e = tt
  block_at-none i (b ∷ blocks) e = elim (Option-cases (block_at h i blocks)) [
    | inl n ↦ (ground (arith, n, e), block_at-none i blocks n)
    | inr (c, s) ↦ absurd (ground (arith, s, e))
  ]

  block_at-LastAt :
      (i : ℕ) (blocks : List (Block h)) (have : Block h)
      → block_at h i blocks ≡ some have
      → LastAt i have blocks
  unfolding block_at or_else
  block_at-LastAt i [] have e = absurd (ground (arith, e))
  block_at-LastAt i (b ∷ blocks) have e = elim (Option-cases (block_at h i blocks)) [
    | inl n ↦ inl (ground (arith, n, e), ground (arith, n, e), block_at-none i blocks n)
    | inr (c, s) ↦ inr (block_at-LastAt i blocks have (ground (arith, s, e)))
  ]

  none-block_at :
      (i : ℕ) (blocks : List (Block h))
      → All (λ (c : Block h). c.index ≢ i) blocks
      → block_at h i blocks ≡ none
  unfolding block_at or_else
  none-block_at i [] a = refl
  none-block_at i (b ∷ blocks) a = ground (arith, none-block_at i blocks a.1, a.0)

  LastAt-block_at :
      (i : ℕ) (blocks : List (Block h)) (have : Block h)
      → LastAt i have blocks
      → block_at h i blocks ≡ some have
  unfolding block_at or_else
  LastAt-block_at i [] have l = elim l [ ]
  LastAt-block_at i (b ∷ blocks) have (inl l) = ground (arith, none-block_at i blocks l.2, l.0, l.1)
  LastAt-block_at i (b ∷ blocks) have (inr l) = ground (arith, LastAt-block_at i blocks have l)

  -- The test of the plan, with a block that was looked up.
  holds-same :
      (o : Option (Block h)) (want : Block h)
      → holds h o want ≡ true
      → (have : Block h) × (o ≡ some have) × (have.size ≡ want.size) × (have.hash ≡ want.hash)
  holds-same none want e = absurd (ground (arith, e))
  holds-same (some have) want e =
      (have, refl, ground (arith, e), (h.same_iff have.hash want.hash).0 (ground (arith, e)))

  held :
      (base : List (Block h)) (want : Block h)
      → holds h (block_at h want.index base) want ≡ true
      → IsHeld base want
  held base want e =
      let (have, found, size, hash) = holds-same (block_at h want.index base) want e in
      (have, block_at-LastAt want.index base have found, size, hash)

  held_back :
      (base : List (Block h)) (want : Block h)
      → IsHeld base want
      → holds h (block_at h want.index base) want ≡ true
  held_back base want (have, last, size, hash) =
      rw (LastAt-block_at want.index base have last)
        (ground (arith, size, (h.same_iff have.hash want.hash).1 hash))

  -- A block is planned exactly when the target lists it and the base does not hold it: the last
  -- block of the base with its index, if there is one, has another size or another hash.
  pub plan_delta-exact :
      (base target : List (Block h)) (want : Block h)
      → In want (plan_delta h base target) ↔ (In want target × ¬ IsHeld base want)
  unfolding plan_delta
  plan_delta-exact base [] want = ((λ e. elim e [ ]), (λ p. elim p.0 [ ]))
  plan_delta-exact base (t ∷ target) want =
      let rest = plan_delta-exact base target want in
      elim (Bool-cases (holds h (block_at h t.index base) t)) [
        | inl known ↦ rw known (
          (λ w. (inr (rest.0 w).0, (rest.0 w).1)),
          (λ p. elim p.0 [
            | inl e ↦ absurd (p.1 (subst (IsHeld base) (sym e) (held base t known)))
            | inr i ↦ rest.1 (i, p.1)
          ]),
        )
        | inr free ↦ rw free (
          (λ w. elim w [
            | inl e ↦ (
              inl e,
              (λ k. absurd (ground (arith, free, held_back base t (subst (IsHeld base) e k)))),
            )
            | inr i ↦ (inr (rest.0 i).0, (rest.0 i).1)
          ]),
          (λ p. elim p.0 [ inl e ↦ inl e | inr i ↦ inr (rest.1 (i, p.1)) ]),
        )
      ]
