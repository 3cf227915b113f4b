-- ===== src/Paths/Lexical.antt =====
-- path/filepath on Unix, as the source uses it: IsAbs, Clean, Join and Rel, over the segments
-- between slashes.
use Prim.Native.Char.{code}
use Prim.Native.String.{◌++◌ as cat}
use mathlib.Core.List.{reverse}
use mathlib.Core.Option
use file_sync_engine.Prelude.{
  String, Bool, true, false, not, ◌||◌, Option, none, some, List, [], ◌∷◌, ◌==◌, if◌then◌else◌,
  str_eq,
}

abbrev bool_eq : Bool → Bool → Bool
bool_eq true b = b
bool_eq false b = not b

-- Splits at every slash: "a//b" has the segments "a", "" and "b".
unfoldable pub split_from : String → String → List String
split_from seg String.[] = seg ∷ []
split_from seg (String.◌∷◌ c rest) =
    let next = split_from "" rest in
    let more = split_from (cat seg (String.◌∷◌ c String.[])) rest in
    if code c == b'/' then seg ∷ next else more

unfoldable pub segments : String → List String
unfolding split_from
segments = split_from ""

-- The segments with one slash between each two.
unfoldable pub join : List String → String
join [] = ""
join (s ∷ []) = s
join (s ∷ t ∷ rest) = cat s (cat "/" (join (t ∷ rest)))

unfoldable pub is_abs : String → Bool
is_abs String.[] = false
is_abs (String.◌∷◌ c rest) = code c == b'/'

-- ".." at the bottom of the stack: dropped under a root, and otherwise kept.
climb : Bool → List String → List String
climb rooted [] = if rooted then [] else ".." ∷ []
climb rooted (top ∷ below) = if str_eq top ".." then ".." ∷ top ∷ below else below

-- One segment of the loop in `Clean`. The stack has its top first.
unfoldable pub clean_step : Bool → String → List String → List String
unfolding climb
clean_step rooted seg stack =
    if str_eq seg "" || str_eq seg "."
    then stack
    else if str_eq seg ".."
    then climb rooted stack
    else seg ∷ stack

unfoldable pub clean_stack : Bool → List String → List String → List String
clean_stack rooted stack [] = stack
clean_stack rooted stack (seg ∷ rest) = clean_stack rooted (clean_step rooted seg stack) rest

-- The segments of `filepath.Clean(p)`, its slash at the front left out.
unfoldable pub clean_segments : String → List String
unfolding clean_stack clean_step segments is_abs
clean_segments p = reverse (clean_stack (is_abs p) [] (segments p))

unfoldable pub render : Bool → List String → String
render true segs = cat "/" (join segs)
render false [] = "."
render false (s ∷ rest) = join (s ∷ rest)

unfoldable pub clean : String → String
unfolding clean_segments render join
clean p = render (is_abs p) (clean_segments p)

-- filepath.Join(a, b): an empty element is left out.
unfoldable pub join_path : String → String → String
unfolding clean
join_path a b =
    if str_eq a ""
    then (if str_eq b "" then "" else clean b)
    else if str_eq b ""
    then clean a
    else clean (cat a (cat "/" b))

-- One ".." for each segment of the first list.
unfoldable pub ups : List String → List String → List String
ups [] rest = rest
ups (x ∷ xs) rest = ".." ∷ ups xs rest

-- The walk of `Rel` past the common elements: what is left of the base becomes "..".
unfoldable pub rel_segments : List String → List String → Option (List String)
unfolding ups
rel_segments [] target = some target
rel_segments (b ∷ base) [] = if str_eq b ".." then none else some (ups (b ∷ base) [])
rel_segments (b ∷ base) (t ∷ target) =
    let deeper = rel_segments base target in
    if str_eq b t
    then deeper
    else if str_eq b ".."
    then none
    else some (ups (b ∷ base) (t ∷ target))

-- filepath.Rel(base, target), for a target that `Join` gives.
unfoldable pub rel_path : String → String → Option String
unfolding rel_segments clean join clean_segments
rel_path base target =
    if str_eq (clean base) (clean target)
    then some "."
    else if not (bool_eq (is_abs base) (is_abs target))
    then none
    else Option.map join (rel_segments (clean_segments base) (clean_segments target))
