-- ===== src/Patch.antt =====
-- packages/adapters-vcs/src/parse-patch.ts: `parseUnifiedPatch`, on a text as its codes. `trim` is JavaScript's.
pub mod Numbers
mod Tests
use mergecrew.Base.{
  ℕ, ◌+◌, ◌*◌, ◌-◌, Option, none, some, List, [], ◌∷◌, ◌++◌, Bool, true, false, not, ◌&&◌, ◌||◌,
  ◌==◌, leb, if◌then◌else◌, all, get_or_else, Text, codes, same_text, take, is_digit, is_line_end,
}

pub data LineType : Type 0 where
  add del context : LineType

pub record DiffLine : Type 0 where
  pub type : LineType
  pub old_line : Option ℕ
  pub new_line : Option ℕ
  pub content : Text

pub record DiffHunk : Type 0 where
  pub old_start : ℕ
  pub old_lines : ℕ
  pub new_start : ℕ
  pub new_lines : ℕ
  pub header : Text
  pub lines : List DiffLine

-- `patch.split('\n')`
abbrev prepend : ℕ → List Text → List Text
prepend c [] = (c ∷ []) ∷ []
prepend c (l ∷ ls) = (c ∷ l) ∷ ls

unfoldable pub split_lines : Text → List Text
split_lines [] = [] ∷ []
split_lines (c ∷ s) = let rest = split_lines s in if c == 10 then [] ∷ rest else prepend c rest

-- The expression of a hunk's header, part by part: each part gives what it reads and the rest of the line.
abbrev expect : Text → Text → Option Text
expect [] s = some s
expect (c ∷ cs) [] = none
expect (c ∷ cs) (d ∷ s) = if c == d then expect cs s else none

-- `\d+` and its number: the number so far, and whether a digit was read.
unfoldable pub digits : ℕ → Bool → Text → Option (ℕ × Text)
digits n seen [] = if seen then some (n, []) else none
digits n seen (c ∷ s) =
    let more = digits (n * 10 + (c - 48)) true s in
    if is_digit c then more else (if seen then some (n, c ∷ s) else none)

-- `(?:,(\d+))?`
abbrev count_read : Text → Option (ℕ × Text) → Option ℕ × Text
count_read s none = (none, s)
count_read s (some (n, rest)) = (some n, rest)

abbrev optional_count : Text → Option ℕ × Text
optional_count [] = (none, [])
optional_count (c ∷ s) = if c == 44 then count_read (c ∷ s) (digits 0 false s) else (none, c ∷ s)

pub record HunkHeader : Type 0 where
  pub old_start : ℕ
  pub old_count : Option ℕ
  pub new_start : ℕ
  pub new_count : Option ℕ
  pub heading : Text

-- `(.*)$`: a dot is no end of a line.
abbrev heading_read : ℕ → Option ℕ → ℕ → Option ℕ → Option Text → Option HunkHeader
heading_read a b c d none = none
heading_read a b c d (some s) =
    if all (λ x. not (is_line_end x)) s
    then some (record { old_start = a; old_count = b; new_start = c; new_count = d; heading = s })
    else none

abbrev new_read : ℕ → Option ℕ → Option (ℕ × Text) → Option HunkHeader
new_read a b none = none
new_read a b (some (c, s)) =
    let (d, rest) = optional_count s in heading_read a b c d (expect (codes " @@") rest)

abbrev plus_read : ℕ → Option ℕ → Option Text → Option HunkHeader
plus_read a b none = none
plus_read a b (some s) = new_read a b (digits 0 false s)

abbrev old_read : Option (ℕ × Text) → Option HunkHeader
old_read none = none
old_read (some (a, s)) =
    let (b, rest) = optional_count s in plus_read a b (expect (codes " +") rest)

abbrev start_read : Option Text → Option HunkHeader
start_read none = none
start_read (some s) = old_read (digits 0 false s)

-- `HUNK_HEADER_RE.exec(line)`
unfoldable pub hunk_header : Text → Option HunkHeader
unfolding digits
hunk_header line = start_read (expect (codes "@@ -") line)

-- The hunk that is read, and the numbers of its next lines.
pub record Cursor : Type 0 where
  pub hunk : DiffHunk
  pub old : ℕ
  pub new : ℕ

abbrev is_marker : Text → Bool
is_marker line = same_text (take 12 line) (codes "\\ No newline")

unfoldable pub push_entry : DiffLine → ℕ → ℕ → Cursor → Cursor
push_entry entry old new k = record k {
  hunk = record (k.hunk) { lines = k.hunk.lines ++ entry ∷ [] };
  old = old;
  new = new;
}

abbrev pub context_entry : Text → Cursor → DiffLine
context_entry s k = record {
  type = context;
  old_line = some k.old;
  new_line = some k.new;
  content = s;
}

unfoldable pub read_entry : Text → Cursor → Cursor
unfolding push_entry
read_entry [] k = push_entry (context_entry [] k) (k.old + 1) (k.new + 1) k
read_entry (c ∷ s) k =
    if c == 43
    then push_entry (record { type = add; old_line = none; new_line = some k.new; content = s })
        k.old (k.new + 1) k
    else if c == 45
    then push_entry (record { type = del; old_line = some k.old; new_line = none; content = s })
        (k.old + 1) k.new k
    else if c == 32
    then push_entry (context_entry s k) (k.old + 1) (k.new + 1) k
    else push_entry (context_entry (c ∷ s) k) (k.old + 1) (k.new + 1) k

abbrev pub finished : Option Cursor → List DiffHunk
finished none = []
finished (some k) = k.hunk ∷ []

module _ (trim : Text → Text) where
  abbrev pub open_hunk : HunkHeader → Cursor
  open_hunk m = record {
    hunk = record {
      old_start = m.old_start;
      old_lines = get_or_else m.old_count 1;
      new_start = m.new_start;
      new_lines = get_or_else m.new_count 1;
      header = trim m.heading;
      lines = [];
    };
    old = m.old_start;
    new = m.new_start;
  }

  abbrev pub read_body : Text → Option Cursor → Option Cursor
  read_body line none = none
  read_body line (some k) = if is_marker line then some k else some (read_entry line k)

  abbrev read_line :
      Text → (Option Cursor → List DiffHunk) → Option Cursor → Option HunkHeader → List DiffHunk
  read_line line later current none = later (read_body line current)
  read_line line later current (some m) = finished current ++ later (some (open_hunk m))

  -- The rest of the lines, with the hunk that is open.
  unfoldable pub read_lines : List Text → Option Cursor → List DiffHunk
  unfolding read_entry hunk_header
  read_lines [] current = finished current
  read_lines (line ∷ lines) current = read_line line (read_lines lines) current (hunk_header line)

  unfoldable pub parse_unified_patch : Option Text → List DiffHunk
  unfolding read_lines split_lines
  parse_unified_patch none = []
  parse_unified_patch (some []) = []
  parse_unified_patch (some (c ∷ s)) = read_lines (split_lines (c ∷ s)) none
