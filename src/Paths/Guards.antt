-- ===== src/Paths/Guards.antt =====
-- internal/foldershare/sync.go: `safeRel` and `safeJoin`, which decide what a peer may
-- name. `filepath.ToSlash` and `filepath.FromSlash` change nothing on Unix.
pub mod Containment
use Prim.Native.Char.{code}
use Prim.Native.String
use file_sync_engine.Prelude.{
  String, Bool, true, false, not, ◌&&◌, ◌||◌, Option, none, some, ◌==◌, leb, if◌then◌else◌, str_eq,
}
use file_sync_engine.Prelude.Text.{has_prefix}
use file_sync_engine.Paths.Lexical.{is_abs, clean, join_path, rel_path}

-- strings.Contains(s, "\\")
unfoldable pub has_backslash : String → Bool
has_backslash String.[] = false
has_backslash (String.◌∷◌ c rest) = code c == 92 || has_backslash rest

unfoldable pub safe_rel : String → Bool
unfolding has_backslash clean has_prefix is_abs
safe_rel rel =
    if str_eq rel "" || is_abs rel || has_backslash rel
    then false
    else not (str_eq (clean rel) "..")
      && not (has_prefix (clean rel) "../")
      && not (str_eq (clean rel) ".")

join_checked : String → Option String → Option String
join_checked target none = none
join_checked target (some rel_back) = if has_prefix rel_back ".." then none else some target

unfoldable pub safe_join : String → String → Option String
unfolding safe_rel join_checked join_path rel_path
safe_join root rel =
    if not (safe_rel rel)
    then none
    else join_checked (join_path root rel) (rel_path root (join_path root rel))
