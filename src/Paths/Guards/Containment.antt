-- ===== src/Paths/Guards/Containment.antt =====
-- A relative path that passes `safeRel` names something strictly below the folder.
use mathlib.Core.List.{reverse, reverse-append}
use text.Mathlib.TextLemmas.{append_assoc as text_assoc}
use file_sync_engine.Prelude.{
  String, ◌≡◌, ◌≢◌, refl, true, false, ◌⊎◌, inl, inr, List, [], ◌∷◌, ◌++◌, arith, eq_iff, ap, subst,
  ◌∙◌,
}
use file_sync_engine.Prelude.Lists.{All, All-reverse}
use file_sync_engine.Prelude.Text.{has_prefix, has_prefix-cat}
use file_sync_engine.Paths.Lexical.{
  is_abs, join, clean_step, clean_stack, clean_segments, clean, segments, render,
}
use file_sync_engine.Paths.Guards.{safe_rel}

-- A stack of `Clean` in which nothing but ".." lies below a "..".
abbrev Settled : List String → Type 0
Settled [] = Unit {0}
Settled (s ∷ below) = (s ≢ "..") × Settled below ⊎ (s ≡ "..") × All (λ t. t ≡ "..") below

Settled-ups : (l : List String) → All (λ t. t ≡ "..") l → Settled l
Settled-ups [] h = tt
Settled-ups (s ∷ l) h = inr h

clean_step-Settled :
    (seg : String) (stack : List String) → Settled stack → Settled (clean_step false seg stack)
unfolding clean_step
clean_step-Settled seg [] h = ground (arith, eq_iff seg "..")
clean_step-Settled seg (top ∷ below) (inl h) = ground (arith, eq_iff seg "..", eq_iff top "..")
clean_step-Settled seg (top ∷ below) (inr h) = ground (arith, eq_iff seg "..", eq_iff top "..")

clean_stack-Settled :
    (stack segs : List String) → Settled stack → Settled (clean_stack false stack segs)
unfolding clean_stack
clean_stack-Settled stack [] h = h
clean_stack-Settled stack (seg ∷ segs) h =
    clean_stack-Settled (clean_step false seg stack) segs (clean_step-Settled seg stack h)

-- A settled stack has no ".." at all, or one at its bottom.
ups_last :
    (s : String) (l : List String)
    → s ≡ ".."
    → All (λ t. t ≡ "..") l
    → (above : List String) × (s ∷ l ≡ above ++ ".." ∷ [])
ups_last s [] e h = ([], ground arith)
ups_last s (t ∷ l) e h = let (above, q) = ups_last t l h.0 h.1 in (s ∷ above, ground arith)

Settled-cases :
    (l : List String)
    → Settled l
    → All (λ t. t ≢ "..") l ⊎ ((above : List String) × (l ≡ above ++ ".." ∷ []))
Settled-cases [] h = inl tt
Settled-cases (s ∷ l) (inr h) = inr (ups_last s l h.0 h.1)
Settled-cases (s ∷ l) (inl h) = elim (Settled-cases l h.1) [
  | inl p ↦ inl (h.0, p)
  | inr (above, q) ↦ inr (s ∷ above, ground arith)
]

module _ (p : String) (safe : safe_rel p ≡ true) where
  pub safe_rel-relative : is_abs p ≡ false
  unfolding safe_rel
  safe_rel-relative = ground arith

  clean_relative : clean p ≡ render false (clean_segments p)
  unfolding clean
  clean_relative = rw safe_rel-relative refl

  not_alone : clean p ≡ ".." → ⊥
  unfolding safe_rel
  not_alone e = ground (arith, eq_iff (clean p) "..")

  not_below : has_prefix (clean p) "../" ≡ true → ⊥
  unfolding safe_rel
  not_below e = ground arith

  not_here : clean p ≡ "." → ⊥
  unfolding safe_rel
  not_here e = ground (arith, eq_iff (clean p) ".")

  not_up : (rest : List String) → clean_segments p ≡ ".." ∷ rest → ⊥
  unfolding render join
  not_up [] e = not_alone (clean_relative ∙ ap (render false) e)
  not_up (s ∷ rest) e = not_below (
      rw (clean_relative, e)
        (subst (λ t. has_prefix t "../" ≡ true) (text_assoc ".." "/" (join (s ∷ rest)))
          (has_prefix-cat "../" (join (s ∷ rest)))))

  not_nothing : clean_segments p ≢ []
  unfolding render
  not_nothing e = not_here (clean_relative ∙ ap (render false) e)

  -- The cleaned path of a name that `safeRel` accepts has one segment at least, and none of its
  -- segments goes up.
  pub safe_rel-contained : All (λ s. s ≢ "..") (clean_segments p) × (clean_segments p ≢ [])
  unfolding clean_segments
  safe_rel-contained = (
    elim (Settled-cases stack (clean_stack-Settled [] (segments p) tt)) [
      | inl h ↦ rw safe_rel-relative (All-reverse _ stack h)
      | inr (above, q) ↦ absurd (
          not_up (reverse above)
            (rw safe_rel-relative (ap reverse q ∙ reverse-append above (".." ∷ []))))
    ],
    not_nothing,
  )
    where
      stack : List String
      stack = clean_stack false [] (segments p)
