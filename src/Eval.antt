-- ===== src/Eval.antt =====
-- packages/eval-fixtures/src/compare.ts: `parseDiff` and `compareSnapshot`, on texts as their codes. A path that is
-- an array index or the name of a property of every object is left out: there JavaScript's objects keep another order
-- or find the inherited property.
pub mod Compare
pub mod Same
mod Tests
pub mod Accepts
use mergecrew.Base.{
  ℕ, ◌+◌, ◌*◌, Option, none, some, List, [], ◌∷◌, ◌++◌, Bool, true, false, not, ◌&&◌, ◌||◌, ◌==◌,
  leb, ltb, if◌then◌else◌, or_else, any, find, map, keep, count_of, length, get_or_else, Text,
  codes, same_text, take, drop, is_line_end, is_space, is_empty, trim,
}
use mergecrew.Patch.{split_lines}

-- An entry of `DiffByFile`, with its key.
pub record FileDiff : Type 0 where
  pub path : Text
  pub added : List Text
  pub removed : List Text

abbrev starts : Text → Text → Bool
starts prefix s = same_text (take (length prefix) s) prefix

-- `FENCE_RE`
abbrev is_fence : Text → Bool
is_fence s = same_text s (codes "```") || same_text s (codes "```diff")

abbrev prepend : ℕ → Option Text → Option Text
prepend c none = none
prepend c (some p) = some (c ∷ p)

-- `FILE_HEADER_RE` on a line that starts with three signs and a blank. `(.+?)\s*$`: the shortest text that blanks alone follow.
unfoldable pub lazy_path : Text → Option Text
lazy_path [] = none
lazy_path (c ∷ s) =
    let longer = lazy_path s in
    if is_line_end c then none else (if is_empty (trim s) then some (c ∷ []) else prepend c longer)

-- `(?:[ab]\/)?` is taken, or else left.
abbrev path_at : Text → Option Text
path_at s =
    or_else (if starts (codes "a/") s || starts (codes "b/") s then lazy_path (drop 2 s) else none)
      (lazy_path s)

-- `\s+` takes all blanks, or else one less.
unfoldable pub after_blanks : Text → Option Text
after_blanks [] = none
after_blanks (c ∷ s) =
    let more = after_blanks s in if is_space c then or_else more (path_at s) else none

abbrev header_path : Text → Option Text
header_path line = after_blanks (drop 3 line)

-- `out[path] ??= { added: [], removed: [] }`
unfoldable pub open_file : Text → List FileDiff → List FileDiff
open_file path files =
    if any (λ f. same_text f.path path) files
    then files
    else files ++ record { path = path; added = []; removed = [] } ∷ []

abbrev pub update_file : (FileDiff → FileDiff) → Text → List FileDiff → List FileDiff
update_file change path [] = []
update_file change path (f ∷ files) =
    let rest = update_file change path files in
    if same_text f.path path then change f ∷ files else f ∷ rest

unfoldable pub push_added : Text → FileDiff → FileDiff
push_added l f = record f { added = f.added ++ l ∷ [] }

unfoldable pub push_removed : Text → FileDiff → FileDiff
push_removed l f = record f { removed = f.removed ++ l ∷ [] }

-- What the loop keeps; `inFence` is never read.
pub record Scan : Type 0 where
  pub files : List FileDiff
  pub current : Option Text

abbrev enter_file : Option Text → Scan → Scan
enter_file none k = k
enter_file (some path) k =
    if same_text path (codes "/dev/null")
    then k
    else record { files = open_file path k.files; current = some path }

abbrev scan_change : Option Text → Text → Scan → Scan
scan_change none line k = k
scan_change (some path) [] k = k
scan_change (some path) (c ∷ s) k =
    if c == 43
    then record k { files = update_file (push_added s) path k.files }
    else (if c == 45 then record k { files = update_file (push_removed s) path k.files } else k)

abbrev enter_source : Option Text → Text → Scan → Scan
enter_source none line k = enter_file (header_path line) k
enter_source (some path) line k = k

unfoldable pub scan_line : Text → Scan → Scan
scan_line line k =
    if is_fence (trim line)
    then k
    else (if starts (codes "+++ ") line
        then enter_file (header_path line) k
        else (if starts (codes "--- ") line
            then enter_source k.current line k
            else (if starts (codes "diff --git") line
                then record k { current = none }
                else (if starts (codes "@@") line then k else scan_change k.current line k))))

unfoldable pub scan_lines : List Text → Scan → Scan
scan_lines [] k = k
scan_lines (l ∷ ls) k = scan_lines ls (scan_line l k)

unfoldable pub parse_diff : Text → List FileDiff
parse_diff raw = (scan_lines (split_lines raw) (record { files = []; current = none })).files
