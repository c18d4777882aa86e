-- ===== src/Patch/Numbers.antt =====
-- The numbers of a hunk's lines.
use mergecrew.Base.{
  ℕ, ◌+◌, ◌==◌, Option, none, some, List, [], ◌∷◌, ◌++◌, Bool, true, false, ◌≡◌, refl,
  if◌then◌else◌, All, Bool-cases, Option-cases, inl, inr, Text, subst, ap,
}
use mergecrew.Patch.{
  LineType, add, del, DiffLine, DiffHunk, Cursor, hunk_header, push_entry, context_entry,
  read_entry, finished, open_hunk, is_marker, read_body, read_lines, split_lines,
  parse_unified_patch,
}

-- Whether a line stands in the text before the change, and in the text after it.
abbrev pub is_old : LineType → Bool
is_old add = false
is_old _ = true

abbrev pub is_new : LineType → Bool
is_new del = false
is_new _ = true

abbrev pub number_if : Bool → ℕ → Option ℕ
number_if b n = if b then some n else none

abbrev pub next_if : Bool → ℕ → ℕ
next_if b n = if b then n + 1 else n

-- From two numbers on, each line has the next number of each text in which it stands, and none of the other; the last two are
-- the numbers that follow.
abbrev pub IsNumbered : ℕ → ℕ → List DiffLine → ℕ → ℕ → Type 0
IsNumbered old new [] old' new' = (old' ≡ old) × (new' ≡ new)
IsNumbered old new (l ∷ ls) old' new' =
    (l.old_line ≡ number_if (is_old l.type) old)
    × (l.new_line ≡ number_if (is_new l.type) new)
    × IsNumbered (next_if (is_old l.type) old) (next_if (is_new l.type) new) ls old' new'

IsNumbered-append :
    (old new : ℕ) (ls : List DiffLine) (old' new' : ℕ) (l : DiffLine)
    → IsNumbered old new ls old' new'
    → l.old_line ≡ number_if (is_old l.type) old'
    → l.new_line ≡ number_if (is_new l.type) new'
    → IsNumbered old new
        (ls ++ (l ∷ []))
        (next_if (is_old l.type) old')
        (next_if (is_new l.type) new')
IsNumbered-append old new [] old' new' l (a, b) p q = (
  subst (λ x. l.old_line ≡ number_if (is_old l.type) x) a p,
  subst (λ x. l.new_line ≡ number_if (is_new l.type) x) b q,
  (ap (next_if (is_old l.type)) a, ap (next_if (is_new l.type)) b),
)
IsNumbered-append old new (x ∷ ls) old' new' l (a, b, h) p q = (
  a,
  b,
  IsNumbered-append (next_if (is_old x.type) old) (next_if (is_new x.type) new) ls old' new' l h p
      q,
)

-- The hunk's lines so far are numbered, up to the cursor's numbers.
abbrev IsUpTo : Cursor → Type 0
IsUpTo k = IsNumbered k.hunk.old_start k.hunk.new_start k.hunk.lines k.old k.new

read_entry-IsUpTo : (line : Text) (k : Cursor) → IsUpTo k → IsUpTo (read_entry line k)
unfolding read_entry push_entry
read_entry-IsUpTo [] k h = IsNumbered-append _ _ k.hunk.lines k.old k.new _ h refl refl
read_entry-IsUpTo (c ∷ s) k h =
    let append = λ (l : DiffLine).
      IsNumbered-append k.hunk.old_start k.hunk.new_start k.hunk.lines k.old k.new l h in
    elim (Bool-cases (c == 43)) [
      | inl q ↦ rw q (
          append (record { type = add; old_line = none; new_line = some k.new; content = s }) refl
            refl)
      | inr q ↦ elim (Bool-cases (c == 45)) [
        | inl r ↦
            rw (q, r)
              (append (record { type = del; old_line = some k.old; new_line = none; content = s })
                refl refl)
        | inr r ↦ elim (Bool-cases (c == 32)) [
          | inl t ↦ rw (q, r, t) (append (context_entry s k) refl refl)
          | inr t ↦ rw (q, r, t) (append (context_entry (c ∷ s) k) refl refl)
        ]
      ]
    ]

abbrev IsOpenUpTo : Option Cursor → Type 0
IsOpenUpTo none = Unit
IsOpenUpTo (some k) = IsUpTo k

-- A hunk whose lines are numbered from its starts.
abbrev pub IsCounted : DiffHunk → Type 0
IsCounted h = (old : ℕ) × (new : ℕ) × IsNumbered h.old_start h.new_start h.lines old new

finished-IsCounted : (o : Option Cursor) → IsOpenUpTo o → All IsCounted (finished o)
finished-IsCounted none h = tt
finished-IsCounted (some k) h = ((k.old, k.new, h), tt)

All-join {ℓ} :
    {A : Type 0} (P : A → Type ℓ) (xs ys : List A) → All P xs → All P ys → All P (xs ++ ys)
All-join P [] ys h k = k
All-join P (x ∷ xs) ys (p, h) k = (p, All-join P xs ys h k)

module _ (trim : Text → Text) where
  read_body-IsOpenUpTo :
      (line : Text) (o : Option Cursor) → IsOpenUpTo o → IsOpenUpTo (read_body trim line o)
  read_body-IsOpenUpTo line none h = tt
  read_body-IsOpenUpTo line (some k) h = elim (Bool-cases (is_marker line)) [
    | inl q ↦ rw q h
    | inr q ↦ rw q (read_entry-IsUpTo line k h)
  ]

  read_lines-IsCounted :
      (lines : List Text) (o : Option Cursor)
      → IsOpenUpTo o
      → All IsCounted (read_lines trim lines o)
  unfolding read_lines
  read_lines-IsCounted [] o h = finished-IsCounted o h
  read_lines-IsCounted (line ∷ lines) o h = elim (Option-cases (hunk_header line)) [
    | inl q ↦
        rw q (read_lines-IsCounted lines (read_body trim line o) (read_body-IsOpenUpTo line o h))
    | inr (m, q) ↦ rw q (
        All-join IsCounted (finished o) _ (finished-IsCounted o h)
          (read_lines-IsCounted lines (some (open_hunk trim m)) (refl, refl)))
  ]

  -- Whatever the patch, in each of its hunks the lines are numbered one after the other from the hunk's starts: each line
  -- has the next number of each text in which it stands, and none of the other.
  pub parse_unified_patch-IsCounted :
      (patch : Option Text) → All IsCounted (parse_unified_patch trim patch)
  unfolding parse_unified_patch
  parse_unified_patch-IsCounted none = tt
  parse_unified_patch-IsCounted (some []) = tt
  parse_unified_patch-IsCounted (some (c ∷ s)) = read_lines-IsCounted (split_lines (c ∷ s)) none tt
