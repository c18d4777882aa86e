-- ===== src/Dns/Encode.antt =====
-- How RFC 1035 writes a query without compression: what a client sends.
use mergecrew.Base.{ℕ, ◌<◌, List, [], ◌∷◌, ◌++◌, length, map, All, Text, lower}
use mergecrew.Dns.{DnsQuestion, ParsedQuery, join}
use mergecrew.Dns.Bytes.{u16}

-- The labels of a name, each after its length, a zero, and then the rest.
unfoldable pub encode_name : List Text → Text → Text
encode_name [] rest = 0 ∷ rest
encode_name (l ∷ ls) rest = length l ∷ (l ++ encode_name ls rest)

pub record Asked : Type 0 where
  pub labels : List Text
  pub qtype : ℕ
  pub qclass : ℕ

unfoldable pub encode_questions : List Asked → Text → Text
encode_questions [] rest = rest
encode_questions (q ∷ qs) rest =
    encode_name (q.labels) (u16 (q.qtype) (u16 (q.qclass) (encode_questions qs rest)))

-- The two bytes of flags, and the counts of the other three sections.
pub record Header : Type 0 where
  pub flags_high : ℕ
  pub flags_low : ℕ
  pub answers : ℕ
  pub authorities : ℕ
  pub additionals : ℕ

unfoldable pub encode_query : ℕ → Header → List Asked → Text → Text
encode_query id h qs rest = u16 id (
    h.flags_high
    ∷ h.flags_low
    ∷ u16 (length qs)
        (u16 (h.answers) (u16 (h.authorities) (u16 (h.additionals) (encode_questions qs rest)))))

-- A label has one to sixty-three ASCII characters, and a name at most ninety-nine labels.
abbrev pub IsLabel : Text → Type 0
IsLabel l = (0 < length l) × (length l < 64) × All (λ c. c < 128) l

abbrev pub IsAsked : Asked → Type 0
IsAsked q = All IsLabel (q.labels) × (length (q.labels) < 100)

-- What the parser is to read.
abbrev pub question_of : Asked → DnsQuestion
question_of q = record { name = lower (join (q.labels)); type = q.qtype; class = q.qclass }

abbrev pub query_of : ℕ → List Asked → ParsedQuery
query_of id qs = record { id = id; questions = map question_of qs }
