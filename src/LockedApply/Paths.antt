-- ===== src/LockedApply/Paths.antt =====
-- internal/lockedapply/cache.go: the paths of the file, of its cache and of the conflict copies.
use Prim.Native.Char.{code}
use Prim.Native.String.{◌++◌ as cat}
use file_sync_engine.Prelude.{
  ℕ, zero, suc, ◌/◌, ◌%◌, String, not, ◌&&◌, ◌||◌, Option, none, some, List, [], ◌∷◌, ltb, ◌==◌,
  str_eq, if◌then◌else◌,
}
use file_sync_engine.Prelude.Text.{has_prefix}
use file_sync_engine.Paths.Lexical.{is_abs, clean, clean_segments, join_path, render}

-- filepath.Abs(p), in the current directory.
unfoldable pub abs_path : String → String → String
unfolding is_abs clean join_path
abs_path cwd p = if is_abs p then clean p else join_path cwd p

unfoldable pub inside_root : String → String → Option String
unfolding has_prefix
inside_root root joined =
    if not (str_eq joined root) && not (has_prefix joined (cat root "/")) then none else some joined

unfoldable pub safe_root_path : String → String → String → Option String
unfolding is_abs clean has_prefix abs_path inside_root join_path
safe_root_path cwd root rel =
    if str_eq root "" || str_eq rel "" || is_abs rel
    then none
    else if str_eq (clean rel) "." || str_eq (clean rel) ".." || has_prefix (clean rel) "../"
    then none
    else inside_root (abs_path cwd root) (abs_path cwd (join_path (abs_path cwd root) (clean rel)))

-- The last element of a list of segments, "" of none, and what comes before.
unfoldable pub last_segment : List String → String
last_segment [] = ""
last_segment (s ∷ []) = s
last_segment (s ∷ t ∷ rest) = last_segment (t ∷ rest)

unfoldable pub parents : List String → List String
parents [] = []
parents (s ∷ []) = []
parents (s ∷ t ∷ rest) = s ∷ parents (t ∷ rest)

-- filepath.Base and filepath.Dir, for a clean path below the root.
unfoldable pub base_name : String → String
unfolding last_segment clean_segments
base_name p = last_segment (clean_segments p)

unfoldable pub dir_name : String → String
unfolding parents clean_segments render is_abs
dir_name p = render (is_abs p) (parents (clean_segments p))

-- A name without filepath.Ext, and filepath.Ext of it: the text from the last dot on.
unfoldable pub split_ext : String → String × String
split_ext String.[] = ("", "")
split_ext (String.◌∷◌ c rest) =
    let deeper = split_ext rest in
    if not (str_eq deeper.1 "")
    then (String.◌∷◌ c deeper.0, deeper.1)
    else if code c == b'.'
    then ("", String.◌∷◌ c rest)
    else (String.◌∷◌ c rest, "")

-- The element at an index.
abbrev nth_text : ℕ → List String → String
nth_text i [] = ""
nth_text zero (s ∷ rest) = s
nth_text (suc i) (s ∷ rest) = nth_text i rest

unfoldable pub digit : ℕ → String
digit n = nth_text (n % 10) ("0" ∷ "1" ∷ "2" ∷ "3" ∷ "4" ∷ "5" ∷ "6" ∷ "7" ∷ "8" ∷ "9" ∷ [])

-- The last digits of a number, as many as the fuel.
unfoldable pub digits : ℕ → ℕ → String
unfolding digit
digits zero n = ""
digits (suc fuel) n = cat (digits fuel (n / 10)) (digit n)

-- How many digits a number has beyond the first; the fuel is the number, which has fewer.
unfoldable pub more_digits : ℕ → ℕ → ℕ
more_digits zero n = 0
more_digits (suc fuel) n = let rest = more_digits fuel (n / 10) in if ltb n 10 then 0 else suc rest

-- "%d" and "%06d".
unfoldable pub decimal : ℕ → String
unfolding digits more_digits
decimal n = digits (suc (more_digits n n)) n

unfoldable pub decimal6 : ℕ → String
unfolding digits decimal more_digits
decimal6 n = if ltb (more_digits n n) 6 then digits 6 n else decimal n

unfoldable pub block_path : String → ℕ → String
unfolding join_path decimal6
block_path cache index = join_path cache (cat "block-" (decimal6 index))

-- `name_digest` is the first 8 bytes of the SHA-256 of a text, in hexadecimal.
unfoldable pub cache_dir : (String → String) → String → String → String
unfolding base_name join_path clean
cache_dir name_digest root rel =
    let base =
      if str_eq (clean rel) "." || str_eq (base_name rel) "" then "pending" else base_name rel in
    join_path (join_path (join_path root ".sync") "locked-apply")
      (cat base (cat "-" (name_digest rel)))

-- The candidate of `nextConflictPath` with index `i`.
unfoldable pub conflict_candidate : String → String → ℕ → String
unfolding dir_name base_name split_ext decimal join_path
conflict_candidate final suffix i =
    let parts = split_ext (base_name final) in
    let numbered = if i == 0 then suffix else cat suffix (cat "-" (decimal i)) in
    join_path (dir_name final) (cat parts.0 (cat numbered parts.1))
