-- ===== src/Prelude/Text.antt =====
-- Texts: the order of Go's `<` on strings, a lexicographic order of code points (which is that of
-- the UTF-8 bytes), and the tests of the package `strings` that the source uses.
use Prim.Native.Char.{code}
use Prim.Native.String.{String, [], ◌∷◌, ◌++◌ as cat}
use mathlib.Core.Path.{◌≡◌, refl, ap₂}
use mathlib.Core.Bool.{Bool, true, false, ◌&&◌, ◌||◌}
use native.Mathlib.Omega.{arith}
use text.Mathlib.TextEquality.{Char-path}
use text.Mathlib.TextLemmas.{cons-append}
use file_sync_engine.Prelude.Tests.{ltb, ◌==◌, if◌then◌else◌}

-- a < b on strings.
unfoldable pub str_lt : String → String → Bool
str_lt [] [] = false
str_lt [] (d ∷ t) = true
str_lt (c ∷ s) [] = false
str_lt (c ∷ s) (d ∷ t) =
    let rest = str_lt s t in
    if ltb (code c) (code d) then true else if ltb (code d) (code c) then false else rest

pub str_lt_irrefl : (s : String) → str_lt s s ≡ false
unfolding str_lt
str_lt_irrefl [] = refl
str_lt_irrefl (c ∷ s) = ground (arith, str_lt_irrefl s)

pub str_lt_trans : (s t u : String) → str_lt s t ≡ true → str_lt t u ≡ true → str_lt s u ≡ true
unfolding str_lt
str_lt_trans [] [] u h k = ground arith
str_lt_trans [] (d ∷ t) [] h k = ground arith
str_lt_trans [] (d ∷ t) (e ∷ u) h k = refl
str_lt_trans (c ∷ s) [] u h k = ground arith
str_lt_trans (c ∷ s) (d ∷ t) [] h k = ground arith
str_lt_trans (c ∷ s) (d ∷ t) (e ∷ u) h k = ground (arith, str_lt_trans s t u)

pub str_lt_total : (s t : String) → str_lt s t ≡ false → str_lt t s ≡ false → s ≡ t
unfolding str_lt
str_lt_total [] [] h k = refl
str_lt_total [] (d ∷ t) h k = ground arith
str_lt_total (c ∷ s) [] h k = ground arith
str_lt_total (c ∷ s) (d ∷ t) h k =
    ap₂ ◌∷◌ (Char-path c d (ground arith)) (str_lt_total s t (ground arith) (ground arith))

-- strings.HasPrefix(s, prefix)
unfoldable pub has_prefix : String → String → Bool
has_prefix s [] = true
has_prefix [] (d ∷ t) = false
has_prefix (c ∷ s) (d ∷ t) = (code c == code d) && has_prefix s t

-- strings.Contains(s, part)
unfoldable pub contains : String → String → Bool
unfolding has_prefix
contains [] part = has_prefix [] part
contains (c ∷ s) part = has_prefix (c ∷ s) part || contains s part

pub has_prefix-cat : (t s : String) → has_prefix (cat t s) t ≡ true
unfolding has_prefix
has_prefix-cat [] s = refl
has_prefix-cat (d ∷ t) s = rw cons-append (ground (arith, has_prefix-cat t s))

pub str_lt_asym : (s t : String) → str_lt s t ≡ true → str_lt t s ≡ false
str_lt_asym s t h = ground (arith, str_lt_trans s t s, str_lt_irrefl s)
