-- ===== src/Dns/Tests.antt =====
-- The resolver on concrete messages.
use mergecrew.Base.{[], ◌∷◌, ◌≡◌, ◌≢◌, refl, Text, codes, lower, take, drop, at, arith, same_text}
use mergecrew.Egress.{
  begins, then_atoms, private_hosts, is_private, starts_with, ends_with, pattern_fits,
}
use mergecrew.Egress.Resolver.{is_host_allowed, listed, strip_dot}
use mergecrew.Dns.{
  ok, malformed, stack_overflow, ◌>>=◌, read_u16, join, with_head, read_labels, read_name,
  read_question, read_questions, parse_query, label_overran,
}
use mergecrew.Dns.Encode.{Asked, Header, encode_query, query_of}
use mergecrew.Dns.RoundTrip.{parse_query-encode}
use mergecrew.Dns.Pointers.{Ends, root, label, pointer, Answered, read_name_total, parse_query-loop}
use mergecrew.Dns.Server.{forwarded, on_message, answer_parsed, answer_first}
use mergecrew.Dns.Server.Laws.{IsSafe, on_message-safe}

abbrev asked : Asked
asked = record { labels = codes "API" ∷ codes "io" ∷ []; qtype = 28; qclass = 1 }

abbrev header : Header
header = record { flags_high = 1; flags_low = 0; answers = 0; authorities = 0; additionals = 1 }

-- Two questions, of which the second one's name ends in a pointer to the first one.
abbrev compressed : Text
compressed =
    7 ∷ 9 ∷ 1 ∷ 0 ∷ 0 ∷ 2 ∷ 0 ∷ 0 ∷ 0 ∷ 0 ∷ 0 ∷ 0 ∷ 2 ∷ 73 ∷ 79 ∷ 0 ∷ 0 ∷ 1 ∷ 0 ∷ 1 ∷ 1 ∷ 97 ∷ 192
    ∷ 12 ∷ 0 ∷ 28 ∷ 0 ∷ 1 ∷ []

parsed :
    parse_query 2 compressed
    ≡ ok (record {
      id = 1801;
      questions =
          record { name = codes "io"; type = 1; class = 1 }
          ∷ record { name = codes "a.io"; type = 28; class = 1 }
          ∷ [];
    })
unfolding parse_query read_questions read_question read_name read_labels read_u16 join with_head
    lower take drop at ◌>>=◌
parsed = refl

truncated : parse_query 2 (take 14 compressed) ≡ malformed label_overran
unfolding parse_query read_questions read_question read_name read_labels read_u16 join lower take
    drop at ◌>>=◌
truncated = refl

parse_query-encode_example :
    parse_query 1 (encode_query 5 header (asked ∷ []) (0 ∷ 41 ∷ [])) ≡ ok (query_of 5 (asked ∷ []))
parse_query-encode_example = parse_query-encode 0 5 header (asked ∷ []) (0 ∷ 41 ∷ []) (omega arith)

ends : Ends compressed 1 20
unfolding at
ends = label (λ e. omega arith) refl (pointer refl (label (λ e. omega arith) refl (root refl)))

read_name_total_example : Answered (read_name 2 compressed 20)
read_name_total_example = read_name_total compressed 1 2 20 (omega arith) ends

-- The name of the only question is a pointer to itself.
abbrev looping : Text
looping = 0 ∷ 0 ∷ 1 ∷ 0 ∷ 0 ∷ 1 ∷ 0 ∷ 0 ∷ 0 ∷ 0 ∷ 0 ∷ 0 ∷ 192 ∷ 12 ∷ []

looping-asks : read_u16 looping 4 ≢ 0
unfolding read_u16 at
looping-asks = λ e. omega arith

parse_query-loop_example : parse_query 10000 looping ≡ stack_overflow
unfolding at
parse_query-loop_example = parse_query-loop looping (omega arith) looping-asks refl refl 10000

on_message-safe_example :
    IsSafe 2 (codes "io" ∷ []) compressed (on_message 2 (codes "io" ∷ []) compressed)
on_message-safe_example = on_message-safe 2 (codes "io" ∷ []) compressed

-- The second name is not allowed, and yet the message is forwarded.
second_unchecked : on_message 2 (codes "io" ∷ []) compressed ≡ forwarded compressed
unfolding on_message answer_parsed answer_first parse_query read_questions read_question read_name
    read_labels read_u16 join with_head lower take drop at ◌>>=◌ is_host_allowed listed strip_dot
    is_private begins private_hosts then_atoms starts_with ends_with pattern_fits same_text
second_unchecked = refl
