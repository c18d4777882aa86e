-- ===== src/Dns/Pointers.antt =====
-- Compression pointers: chains of them that end, and one that does not.
use mergecrew.Base.{
  ℕ, zero, suc, ◌+◌, ◌≤◌, ◌<◌, true, false, ◌==◌, ltb, leb, List, [], ◌∷◌, ◌++◌, length, ◌≡◌, ◌≢◌,
  refl, ◌∙◌, inl, inr, Text, at, take, drop, ap, ◌⊎◌, arith,
}
use mergecrew.Dns.{
  Parsed, ok, malformed, stack_overflow, ◌>>=◌, read_u16, is_pointer, pointer_at, with_head,
  read_labels, read_name, read_question, read_questions, parse_query, DnsParseError, ascii,
}

-- From the offset the labels and pointers of the buffer come to an end, or leave it, after `n` pointers at most.
pub data Ends (buf : Text) : ℕ → ℕ → Type 0 where
  past : {n off : ℕ} → length buf ≤ off → Ends buf n off
  root : {n off : ℕ} → at buf off ≡ 0 → Ends buf n off
  label :
      {n off : ℕ}
      → at buf off ≢ 0
      → is_pointer (at buf off) ≡ false
      → Ends buf n (off + 1 + at buf off)
      → Ends buf n off
  pointer :
      {n off : ℕ}
      → is_pointer (at buf off) ≡ true
      → Ends buf n (pointer_at buf off)
      → Ends buf (suc n) off

bind-within {ℓ κ} :
    {A : Type ℓ} {B : Type κ} (r : Parsed A) (f : A → Parsed B)
    → r ≢ stack_overflow
    → ((a : A) → f a ≢ stack_overflow)
    → (r >>= f) ≢ stack_overflow
unfolding ◌>>=◌
bind-within (ok a) f h k = k a
bind-within (malformed e) f h k = λ q. cc
bind-within stack_overflow f h k = absurd (h refl)

-- A result of the parser's own.
abbrev pub Answered {ℓ} : {A : Type ℓ} → Parsed A → Type ℓ
Answered {A} r = ((a : A) × (r ≡ ok a)) ⊎ ((e : DnsParseError) × (r ≡ malformed e))

answered {ℓ} : {A : Type ℓ} (r : Parsed A) → r ≢ stack_overflow → Answered r
answered (ok a) h = inl (a, refl)
answered (malformed e) h = inr (e, refl)
answered stack_overflow h = absurd (h refl)

-- What the reader does with the answer of a pointer.
abbrev after_pointer : List Text → ℕ → Text × ℕ → Parsed (Text × ℕ)
after_pointer parts off found = ok (with_head parts (found.0), off + 2)

labels-within :
    (inner : ℕ → Parsed (Text × ℕ)) (buf : Text) (n rounds : ℕ) (off : ℕ) (parts : List Text)
    → ((m : ℕ) (p : ℕ) → suc m ≡ n → Ends buf m p → inner p ≢ stack_overflow)
    → Ends buf n off
    → read_labels inner rounds buf off parts ≢ stack_overflow
unfolding read_labels
labels-within inner buf n zero off parts k e = λ q. cc
labels-within inner buf n (suc rounds) off parts k (past p) = λ q. ground arith
labels-within inner buf n (suc rounds) off parts k (root p) = λ q. ground arith
labels-within inner buf n (suc rounds) off parts k (label nonzero plain more) =
    let parts' = parts ++ (ascii (take (at buf off) (drop (off + 1) buf)) ∷ []) in
    let later = labels-within inner buf n rounds (off + 1 + at buf off) parts' k more in
    λ q. ground (arith, later)
labels-within inner buf (suc n) (suc rounds) off parts k (pointer is more) =
    let target = pointer_at buf off in
    let later =
      bind-within (inner target) (after_pointer parts off) (k n target refl more)
        (λ found e. cc e) in
    λ q. ground (arith, later)

name-within :
    (buf : Text) (n frames off : ℕ)
    → n < frames
    → Ends buf n off
    → read_name frames buf off ≢ stack_overflow
unfolding read_name
name-within buf n zero off lt e = absurd (omega arith)
name-within buf n (suc frames) off lt e =
    labels-within (read_name frames buf) buf n 100 off []
      (λ m p q more. name-within buf m frames p (omega arith) more) e

-- Where the labels and pointers from an offset end after at most `n` pointers, `n + 1` frames of the stack are enough:
-- the reader gives a name or an error of its own.
pub read_name_total :
    (buf : Text) (n frames off : ℕ)
    → n < frames
    → Ends buf n off
    → Answered (read_name frames buf off)
read_name_total buf n frames off lt e =
    answered (read_name frames buf off) (name-within buf n frames off lt e)

pointer-nonzero : (b : ℕ) → is_pointer b ≡ true → (b == 0) ≡ false
pointer-nonzero zero h = cc
pointer-nonzero (suc b) h = ground arith

read_labels-pointer :
    (inner : ℕ → Parsed (Text × ℕ)) (rounds : ℕ) (buf : Text) (off : ℕ) (parts : List Text)
    → off + 2 ≤ length buf
    → is_pointer (at buf off) ≡ true
    → read_labels inner (suc rounds) buf off parts
      ≡ (inner (pointer_at buf off) >>= after_pointer parts off)
unfolding read_labels
read_labels-pointer inner rounds buf off parts fits is =
    let some_byte = pointer-nonzero (at buf off) is in
    let inside : leb (length buf) off ≡ false = ground arith in
    let room : ltb (length buf) (off + 2) ≡ false = ground arith in
    rw (inside, some_byte, is, room) refl

-- A pointer to itself is followed without end.
pub self_pointer :
    (buf : Text) (off : ℕ)
    → off + 2 ≤ length buf
    → is_pointer (at buf off) ≡ true
    → pointer_at buf off ≡ off
    → (frames : ℕ) → read_name frames buf off ≡ stack_overflow
unfolding read_name ◌>>=◌
self_pointer buf off fits is self zero = refl
self_pointer buf off fits is self (suc frames) =
    let inner : read_name frames buf (pointer_at buf off) ≡ stack_overflow =
      ap (read_name frames buf) self ∙ self_pointer buf off fits is self frames in
    read_labels-pointer (read_name frames buf) 99 buf off [] fits is
    ∙ ap (λ r. r >>= after_pointer [] off) inner

questions-loop :
    (buf : Text) (off frames qd : ℕ)
    → qd ≢ 0
    → read_name frames buf off ≡ stack_overflow
    → read_questions frames qd buf off ≡ stack_overflow
unfolding read_questions read_question ◌>>=◌
questions-loop buf off frames zero h e = absurd (h refl)
questions-loop buf off frames (suc qd) h e = rw e refl

-- A query whose first name is a compression pointer to itself overflows the stack, however large it is: the reader's
-- bound of a hundred rounds starts again in each call.
pub parse_query-loop :
    (buf : Text)
    → 14 ≤ length buf
    → read_u16 buf 4 ≢ 0
    → is_pointer (at buf 12) ≡ true
    → pointer_at buf 12 ≡ 12
    → (frames : ℕ) → parse_query frames buf ≡ stack_overflow
unfolding parse_query ◌>>=◌
parse_query-loop buf fits some_question is self frames =
    let looped = self_pointer buf 12 fits is self frames in
    let questions = questions-loop buf 12 frames (read_u16 buf 4) some_question looped in
    let long : ltb (length buf) 12 ≡ false = ground arith in rw (long, questions) refl
