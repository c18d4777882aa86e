-- ===== src/Dns/Server.antt =====
-- apps/runner-dns/src/main.ts: what the resolver does with one datagram. The upstream's answer is passed on as it is and
-- is not modelled.
pub mod Laws
use mergecrew.Base.{ℕ, not, if◌then◌else◌, Option, none, some, List, [], ◌∷◌, Text}
use mergecrew.Egress.Resolver.{is_host_allowed}
use mergecrew.Dns.{
  DnsQuestion, ParsedQuery, Parsed, ok, malformed, stack_overflow, parse_query, build_nxdomain,
}

-- Nothing is sent for a query that is malformed or asks nothing; `crashed` is an exception of the handler.
pub data Reaction : Type 0 where
  malformed_query no_question crashed : Reaction
  replied forwarded : Text → Reaction

abbrev pub reply_with : Option Text → Reaction
reply_with none = crashed
reply_with (some reply) = replied reply

unfoldable pub answer_first : List Text → Text → List DnsQuestion → Reaction
answer_first allowlist msg [] = no_question
answer_first allowlist msg (q ∷ qs) =
    if not (is_host_allowed (q.name) allowlist)
    then reply_with (build_nxdomain msg)
    else forwarded msg

-- The `try` catches the parser's errors and the engine's alike.
unfoldable pub answer_parsed : List Text → Text → Parsed ParsedQuery → Reaction
answer_parsed allowlist msg (malformed e) = malformed_query
answer_parsed allowlist msg stack_overflow = malformed_query
answer_parsed allowlist msg (ok parsed) = answer_first allowlist msg (parsed.questions)

unfoldable pub on_message : ℕ → List Text → Text → Reaction
on_message frames allowlist msg = answer_parsed allowlist msg (parse_query frames msg)
