-- ===== src/Dns.antt =====
-- apps/runner-dns/src/dns-message.ts. A buffer is a list of bytes, numbers below 256; a read of two bytes is big-endian.
-- `readName` calls itself for each compression pointer; the frames that the stack has for it are an argument, and
-- without one the call is the engine's error.
pub mod Bytes
pub mod Encode
pub mod RoundTrip
pub mod Pointers
pub mod Server
mod Tests
use mergecrew.Base.{
  ℕ, zero, suc, ◌+◌, ◌*◌, ◌/◌, ◌%◌, Bool, if◌then◌else◌, ◌==◌, ltb, leb, Option, none, some, List,
  [], ◌∷◌, ◌++◌, map, length, Text, lower, drop, take, at,
}

pub record DnsQuestion : Type 0 where
  pub name : Text
  pub type : ℕ
  pub class : ℕ

pub record ParsedQuery : Type 0 where
  pub id : ℕ
  pub questions : List DnsQuestion

-- `DnsParseError` by its messages.
pub data DnsParseError : Type 0 where
  truncated_header truncated_question name_overran pointer_truncated label_overran : DnsParseError
  decompression_loop : DnsParseError

pub data Parsed {ℓ} (A : Type ℓ) : Type ℓ where
  ok : A → Parsed A
  malformed : DnsParseError → Parsed A
  stack_overflow : Parsed A

infixl 20 ◌>>=◌
unfoldable pub ◌>>=◌ {ℓ κ} : {A : Type ℓ} {B : Type κ} → Parsed A → (A → Parsed B) → Parsed B
ok a >>= f = f a
malformed e >>= f = malformed e
stack_overflow >>= f = stack_overflow

unfoldable pub read_u16 : Text → ℕ → ℕ
read_u16 buf off = at buf off * 256 + at buf (off + 1)

-- `parts.join('.')`.
unfoldable pub join : List Text → Text
join [] = []
join (p ∷ []) = p
join (p ∷ q ∷ ps) = p ++ (46 ∷ join (q ∷ ps))

-- `toString('ascii')` clears the high bit of each byte.
abbrev pub ascii : Text → Text
ascii bytes = map (λ b. b % 128) bytes

-- What a pointer gives: the labels read so far, then the name that it leads to.
unfoldable pub with_head : List Text → Text → Text
with_head parts inner = elim (join parts) [
  | [] ↦ lower inner
  | c ∷ s ↦ lower ((c ∷ s) ++ (46 ∷ inner))
]

-- `(len & 0xc0) === 0xc0`, and the fourteen bits of a pointer.
abbrev pub is_pointer : ℕ → Bool
is_pointer len = (len / 64) == 3

abbrev pub pointer_at : Text → ℕ → ℕ
pointer_at buf off = (at buf off % 64) * 256 + at buf (off + 1)

-- The loop of `readName`, `rounds` more times; `inner` is its call of itself.
unfoldable pub read_labels : (ℕ → Parsed (Text × ℕ)) → ℕ → Text → ℕ → List Text → Parsed (Text × ℕ)
read_labels inner zero buf off parts = malformed decompression_loop
read_labels inner (suc rounds) buf off parts =
    let len = at buf off in
    let label = ascii (take len (drop (off + 1) buf)) in
    let rest = read_labels inner rounds buf (off + 1 + len) (parts ++ (label ∷ [])) in
    if leb (length buf) off
    then malformed name_overran
    else if len == 0
    then ok (lower (join parts), off + 1)
    else if is_pointer len
    then (if ltb (length buf) (off + 2)
        then malformed pointer_truncated
        else (inner (pointer_at buf off) >>= λ found. ok (with_head parts (found.0), off + 2)))
    else if ltb (length buf) (off + 1 + len)
    then malformed label_overran
    else rest

-- `readName` where the stack has that many frames left for it.
unfoldable pub read_name : ℕ → Text → ℕ → Parsed (Text × ℕ)
read_name zero buf off = stack_overflow
read_name (suc frames) buf off = read_labels (read_name frames buf) 100 buf off []

-- The body of the loop over the questions.
unfoldable pub read_question : ℕ → Text → ℕ → Parsed (DnsQuestion × ℕ)
read_question frames buf off = read_name frames buf off >>= λ found.
    let next = found.1 in
    if ltb (length buf) (next + 4)
    then malformed truncated_question
    else ok (
      record { name = found.0; type = read_u16 buf next; class = read_u16 buf (next + 2) },
      next + 4,
    )

unfoldable pub read_questions : ℕ → ℕ → Text → ℕ → Parsed (List DnsQuestion)
read_questions frames zero buf off = ok []
read_questions frames (suc qd) buf off = read_question frames buf off >>= λ read.
    (read_questions frames qd buf (read.1) >>= λ rest. ok (read.0 ∷ rest))

unfoldable pub parse_query : ℕ → Text → Parsed ParsedQuery
parse_query frames buf =
    if ltb (length buf) 12
    then malformed truncated_header
    else (read_questions frames (read_u16 buf 4) buf 12 >>= λ questions.
        ok (record { id = read_u16 buf 0; questions = questions }))

-- A write past the end throws, which is `none`.
unfoldable pub write_u8 : ℕ → ℕ → Text → Option Text
write_u8 v n [] = none
write_u8 v zero (b ∷ bs) = some (v ∷ bs)
write_u8 v (suc n) (b ∷ bs) = elim (write_u8 v n bs) [ none ↦ none | some cs ↦ some (b ∷ cs) ]

abbrev pub and_then : Option Text → (Text → Option Text) → Option Text
and_then none f = none
and_then (some bs) f = f bs

abbrev pub write_u16 : ℕ → ℕ → Text → Option Text
write_u16 v n bs = and_then (write_u8 (v / 256) n bs) (write_u8 (v % 256) (n + 1))

unfoldable pub build_nxdomain : Text → Option Text
build_nxdomain query = and_then (write_u8 129 2 query) (λ a.
    and_then (write_u8 131 3 a)
      (λ b. and_then (write_u16 0 6 b) (λ c. and_then (write_u16 0 8 c) (write_u16 0 10))))
