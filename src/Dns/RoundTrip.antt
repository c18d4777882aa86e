-- ===== src/Dns/RoundTrip.antt =====
-- What a client writes without compression, the parser reads back.
use mergecrew.Base.{
  ℕ, zero, suc, ◌+◌, ◌/◌, ◌%◌, ◌≤◌, ◌<◌, List, [], ◌∷◌, ◌++◌, length, map, ◌≡◌, refl, ap, ◌∙◌, All,
  Text, lower, drop, take, at, arith,
}
use mathlib.Core.List.{append-nil, append_assoc}
use mergecrew.Dns.{
  Parsed, ok, ◌>>=◌, read_u16, join, ascii, read_labels, read_name, read_question, read_questions,
  parse_query,
}
use mergecrew.Dns.Bytes.{
  StandsAt, moved, at-stands, lt-stands, next-stands, skip-stands, take-stands, u16,
  read_u16-stands, u16-stands,
}
use mergecrew.Dns.Encode.{
  encode_name, Asked, encode_questions, Header, encode_query, IsLabel, IsAsked, question_of,
  query_of,
}

ascii_id : (l : Text) → All (λ c. c < 128) l → ascii l ≡ l
ascii_id [] h = refl
ascii_id (c ∷ l) (lt, h) = ground (arith, ascii_id l h)

-- One more label of the loop.
read_labels-label :
    (inner : ℕ → Parsed (Text × ℕ)) (rounds : ℕ) (buf : Text) (off : ℕ) (parts : List Text)
    (l s : Text)
    → IsLabel l
    → StandsAt buf off (length l ∷ (l ++ s))
    → off + 1 + length l < length buf
    → read_labels inner (suc rounds) buf off parts
      ≡ read_labels inner rounds buf (off + 1 + length l) (parts ++ (l ∷ []))
unfolding read_labels
read_labels-label inner rounds buf off parts l s (pos, small, plain) h fits =
    let len : at buf off ≡ length l = at-stands buf off (length l) (l ++ s) h in
    let cut : take (length l) (drop (off + 1) buf) ≡ l =
      take-stands l buf (off + 1) s (next-stands buf off (length l) (l ++ s) h) in
    rw (len, cut, ascii_id l plain) (ground arith)

read_labels-end :
    (inner : ℕ → Parsed (Text × ℕ)) (rounds : ℕ) (buf : Text) (off : ℕ) (parts : List Text)
    (s : Text)
    → StandsAt buf off (0 ∷ s)
    → read_labels inner (suc rounds) buf off parts ≡ ok (lower (join parts), off + 1)
unfolding read_labels
read_labels-end inner rounds buf off parts s h =
    ground (arith, at-stands buf off 0 s h, lt-stands buf off 0 s h)

-- An encoded name begins with a byte.
name-head : (ls : List Text) (rest : Text) → (c : ℕ) × (s : Text) × (encode_name ls rest ≡ c ∷ s)
unfolding encode_name
name-head [] rest = (0, rest, refl)
name-head (l ∷ ls) rest = (length l, l ++ encode_name ls rest, refl)

name-nonempty :
    (buf : Text) (off : ℕ) (ls : List Text) (rest : Text)
    → StandsAt buf off (encode_name ls rest)
    → off < length buf
name-nonempty buf off ls rest h = let (c, s, e) = name-head ls rest in lt-stands buf off c s (h ∙ e)

-- Where the reader stops, and the name that it gives.
abbrev ReadsTo : Parsed (Text × ℕ) → Text → Text → Text → Type 0
ReadsTo result buf name rest = (next : ℕ) × (result ≡ ok (name, next)) × StandsAt buf next rest

labels-read :
    (inner : ℕ → Parsed (Text × ℕ)) (ls : List Text) (rounds : ℕ) (buf : Text) (off : ℕ)
    (parts : List Text) (rest : Text)
    → All IsLabel ls
    → length ls < rounds
    → StandsAt buf off (encode_name ls rest)
    → ReadsTo (read_labels inner rounds buf off parts) buf (lower (join (parts ++ ls))) rest
unfolding encode_name
labels-read inner ls zero buf off parts rest hs enough h = absurd (omega arith)
labels-read inner [] (suc rounds) buf off parts rest hs enough h = (
  off + 1,
  rw (append-nil parts) (read_labels-end inner rounds buf off parts rest h),
  next-stands buf off 0 rest h,
)
labels-read inner (l ∷ ls) (suc rounds) buf off parts rest (is, hs) enough h =
    let more = encode_name ls rest in
    let after : StandsAt buf (off + 1 + length l) more =
      skip-stands l buf (off + 1) more (next-stands buf off (length l) (l ++ more) h) in
    let (next, e, stands) =
      labels-read inner ls rounds buf (off + 1 + length l) (parts ++ (l ∷ [])) rest hs (omega arith)
        after in
    let step =
      read_labels-label inner rounds buf off parts l more is h
        (name-nonempty buf (off + 1 + length l) ls rest after) in
    (
      next,
      step ∙ e ∙ ap (λ ps. ok (lower (join ps), next)) (append_assoc parts (l ∷ []) ls),
      stands,
    )

u16-fits :
    (buf : Text) (off v w : ℕ) (s : Text)
    → StandsAt buf off (u16 v (u16 w s))
    → off + 4 ≤ length buf
u16-fits buf off v w s h =
    let second = u16-stands buf off v (u16 w s) h in
    let third = next-stands buf (off + 2) (w / 256) ((w % 256) ∷ s) second in
    omega (arith, lt-stands buf (off + 2 + 1) (w % 256) s third)

question-read :
    (frames : ℕ) (q : Asked) (buf : Text) (off : ℕ) (rest : Text)
    → IsAsked q
    → StandsAt buf off (encode_questions (q ∷ []) rest)
    → (next : ℕ) × (read_question (suc frames) buf off ≡ ok (question_of q, next))
      × StandsAt buf next rest
unfolding read_question read_name encode_questions ◌>>=◌
question-read frames q buf off rest (hs, few) h =
    let fields = u16 (q.qtype) (u16 (q.qclass) rest) in
    let (next, e, stands) =
      labels-read (read_name frames buf) (q.labels) 100 buf off [] fields hs few h in
    let fits = u16-fits buf next (q.qtype) (q.qclass) rest stands in
    let after = u16-stands buf next (q.qtype) (u16 (q.qclass) rest) stands in
    let kind = read_u16-stands buf next (q.qtype) (u16 (q.qclass) rest) stands in
    let cls = read_u16-stands buf (next + 2) (q.qclass) rest after in
    (
      next + 4,
      rw (e, kind, cls) (ground arith),
      moved buf (next + 2 + 2) (next + 4) rest (omega arith)
          (u16-stands buf (next + 2) (q.qclass) rest after),
    )

questions-read :
    (frames : ℕ) (qs : List Asked) (buf : Text) (off : ℕ) (rest : Text)
    → All IsAsked qs
    → StandsAt buf off (encode_questions qs rest)
    → read_questions (suc frames) (length qs) buf off ≡ ok (map question_of qs)
unfolding read_questions encode_questions ◌>>=◌
questions-read frames [] buf off rest hs h = refl
questions-read frames (q ∷ qs) buf off rest (is, hs) h =
    let (next, e, stands) = question-read frames q buf off (encode_questions qs rest) is h in
    rw (e, questions-read frames qs buf next rest hs stands) refl

parse_query-stands :
    (frames : ℕ) (qs : List Asked) (buf rest : Text)
    → All IsAsked qs
    → 12 ≤ length buf
    → read_u16 buf 4 ≡ length qs
    → StandsAt buf 12 (encode_questions qs rest)
    → parse_query (suc frames) buf ≡ ok (query_of (read_u16 buf 0) qs)
unfolding parse_query ◌>>=◌
parse_query-stands frames qs buf rest hs long count h =
    rw (count, questions-read frames qs buf 12 rest hs h) (ground arith)

-- The parser reads a query that is written without compression back, whatever follows it, if its names have at most
-- ninety-nine labels, of one to sixty-three ASCII characters: the id, and each question with its name in lower case. One
-- frame of the stack is enough.
pub parse_query-encode :
    (frames id : ℕ) (header : Header) (qs : List Asked) (rest : Text)
    → All IsAsked qs
    → parse_query (suc frames) (encode_query id header qs rest) ≡ ok (query_of id qs)
unfolding encode_query drop read_u16 at
parse_query-encode frames id header qs rest hs =
    let buf = encode_query id header qs rest in
    let read : read_u16 buf 0 ≡ id = omega arith in
    parse_query-stands frames qs buf rest hs (omega arith) (omega arith) refl
    ∙ ap (λ n. ok (query_of n qs)) read
