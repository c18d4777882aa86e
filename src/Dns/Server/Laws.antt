-- ===== src/Dns/Server/Laws.antt =====
-- What the resolver forwards, and what it answers itself.
use mergecrew.Base.{
  ℕ, suc, ◌≤◌, true, if◌then◌else◌, ltb, some, List, [], ◌∷◌, ◌≡◌, ◌≢◌, refl, inl, inr, All, length,
  Text, lower, arith, Bool-cases,
}
use mergecrew.Egress.Resolver.{is_host_allowed}
use mergecrew.Dns.{
  DnsQuestion, ParsedQuery, Parsed, ok, malformed, stack_overflow, join, parse_query, write_u8,
  build_nxdomain,
}
use mergecrew.Dns.Encode.{Asked, Header, encode_query, IsAsked}
use mergecrew.Dns.RoundTrip.{parse_query-encode}
use mergecrew.Dns.Server.{
  Reaction, crashed, replied, forwarded, answer_first, answer_parsed, on_message,
}

-- The response's flags and counts.
abbrev pub nxdomain_header : Header
nxdomain_header = record {
  flags_high = 129;
  flags_low = 131;
  answers = 0;
  authorities = 0;
  additionals = 0;
}

build_nxdomain-encode :
    (id : ℕ) (header : Header) (qs : List Asked) (rest : Text)
    → build_nxdomain (encode_query id header qs rest)
      ≡ some (encode_query id nxdomain_header qs rest)
unfolding build_nxdomain write_u8 encode_query
build_nxdomain-encode id header qs rest = refl

-- A query as clients write it is forwarded as it is if its first name is allowed; otherwise the answer is the same query
-- with the flags of a response that says the name does not exist and with no records.
pub on_message-encode :
    (frames id : ℕ) (allowlist : List Text) (header : Header) (q : Asked) (qs : List Asked)
    (rest : Text)
    → All IsAsked (q ∷ qs)
    → on_message (suc frames) allowlist (encode_query id header (q ∷ qs) rest) ≡ (
        if is_host_allowed (lower (join (q.labels))) allowlist
        then forwarded (encode_query id header (q ∷ qs) rest)
        else replied (encode_query id nxdomain_header (q ∷ qs) rest))
unfolding on_message answer_parsed answer_first
on_message-encode frames id allowlist header q qs rest hs =
    rw
      (
        parse_query-encode frames id header (q ∷ qs) rest hs,
        build_nxdomain-encode id header (q ∷ qs) rest,
      )
      (ground arith)

build_nxdomain-total :
    (msg : Text) → 12 ≤ length msg → (reply : Text) × (build_nxdomain msg ≡ some reply)
unfolding build_nxdomain write_u8
build_nxdomain-total (a ∷ b ∷ c ∷ d ∷ e ∷ f ∷ g ∷ h ∷ i ∷ j ∷ k ∷ l ∷ s) long = (_, refl)
build_nxdomain-total s long = absurd (omega arith)

parse_query-long :
    (frames : ℕ) (msg : Text) {parsed : ParsedQuery}
    → parse_query frames msg ≡ ok parsed
    → 12 ≤ length msg
unfolding parse_query
parse_query-long frames msg e = elim (Bool-cases (ltb (length msg) 12)) [
  | inl q ↦ cc (rw q at e)
  | inr q ↦ ground arith
]

-- What is forwarded, if anything: the message itself, whose first name is allowed.
abbrev pub IsAllowedQuery : ℕ → List Text → Text → Type 0
IsAllowedQuery frames allowlist msg =
    (id : ℕ) × (q : DnsQuestion) × (qs : List DnsQuestion) × (parse_query frames msg
      ≡ ok (record { id = id; questions = q ∷ qs }))
    × (is_host_allowed (q.name) allowlist ≡ true)

-- What a reaction must be if it forwards anything.
abbrev pub IsSafe : ℕ → List Text → Text → Reaction → Type 0
IsSafe frames allowlist msg reaction =
    (reaction ≢ crashed)
    × ((sent : Text)
        → reaction ≡ forwarded sent
        → (sent ≡ msg) × IsAllowedQuery frames allowlist msg)

first-IsSafe :
    (frames : ℕ) (allowlist : List Text) (msg : Text) (id : ℕ) (qs : List DnsQuestion)
    → parse_query frames msg ≡ ok (record { id = id; questions = qs })
    → IsSafe frames allowlist msg (answer_first allowlist msg qs)
unfolding answer_first
first-IsSafe frames allowlist msg id [] h = (λ p. cc, λ sent p. cc)
first-IsSafe frames allowlist msg id (q ∷ qs) h =
    let (reply, built) = build_nxdomain-total msg (parse_query-long frames msg h) in
    elim (Bool-cases (is_host_allowed (q.name) allowlist)) [
      | inl y ↦ rw y ((λ p. cc), (λ sent p. (cc, (id, q, qs, h, y))))
      | inr n ↦ rw (n, built) ((λ p. cc), (λ sent p. cc))
    ]

parsed-IsSafe :
    (frames : ℕ) (allowlist : List Text) (msg : Text) (r : Parsed ParsedQuery)
    → parse_query frames msg ≡ r
    → IsSafe frames allowlist msg (answer_parsed allowlist msg r)
unfolding answer_parsed
parsed-IsSafe frames allowlist msg (malformed e) h = (λ p. cc, λ sent p. cc)
parsed-IsSafe frames allowlist msg stack_overflow h = (λ p. cc, λ sent p. cc)
parsed-IsSafe frames allowlist msg (ok parsed) h =
    first-IsSafe frames allowlist msg (parsed.id) (parsed.questions) h

-- Whatever bytes arrive, the handler does not fail, and if it forwards anything, it forwards the message as it came, and
-- the message is a query whose first name is allowed.
pub on_message-safe :
    (frames : ℕ) (allowlist : List Text) (msg : Text)
    → (on_message frames allowlist msg ≢ crashed)
      × ((sent : Text)
          → on_message frames allowlist msg ≡ forwarded sent
          → (sent ≡ msg) × IsAllowedQuery frames allowlist msg)
unfolding on_message
on_message-safe frames allowlist msg =
    parsed-IsSafe frames allowlist msg (parse_query frames msg) refl
