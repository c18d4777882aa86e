-- ===== src/Egress/Tests.antt =====
-- The allowlists on concrete hosts.
use mergecrew.Base.{
  ℕ, suc, true, false, Option, none, some, List, [], ◌∷◌, ◌≡◌, refl, Text, codes, lower, map,
  same_text, drop, is_space, trim_end, trim_start,
}
use mergecrew.Egress.{
  begins, then_atoms, private_hosts, is_private, starts_with, ends_with, pattern_fits,
}
use mergecrew.Egress.Resolver
use mergecrew.Egress.Proxy
use mergecrew.Egress.Skill
use mergecrew.Egress.Connect.Safe.{IsSafe, handle_connect-IsSafe}
use mergecrew.Egress.Settings.{split_commas, parse_allowlist_env}
use mergecrew.Egress.Connect.{
  skip_blanks, span, parse_connect_target, bad_request, connects, handle_connect,
}
use mergecrew.Egress.Skill.{
  EgressEvent, EgressRecordCtx, safe_emit, assert_egress_allowed, record_and_assert_egress,
}
use mergecrew.Egress.Agree.{is_host_allowed_agree}

abbrev patterns : List Text
patterns = codes "github.com" ∷ codes "*.npmjs.org" ∷ []

privates :
    (is_private (codes "127.0.0.1") ≡ true)
    × (is_private (codes "LocalHost") ≡ true)
    × (is_private (codes "172.20.0.1") ≡ true)
    × (is_private (codes "172.32.0.1") ≡ false)
    × (is_private (codes "fd0a:1::") ≡ true)
    × (is_private (codes "100.1.1.1") ≡ false)
unfolding is_private begins private_hosts then_atoms
privates = (refl, refl, refl, refl, refl, refl)

layers :
    (Skill.is_host_allowed (codes "a.npmjs.org") (some patterns) ≡ true)
    × (Skill.is_host_allowed (codes "npmjs.org") (some patterns) ≡ false)
    × (Skill.is_host_allowed (codes "a.b") none ≡ true)
    × (Resolver.is_host_allowed (codes "GitHub.com.") patterns ≡ true)
    × (Proxy.is_host_allowed (codes "GitHub.com.") patterns ≡ false)
    × (Skill.is_host_allowed (codes "github.com") (some (codes "GitHub.com" ∷ [])) ≡ false)
    × (Proxy.is_host_allowed (codes "github.com") (codes "GitHub.com" ∷ []) ≡ true)
unfolding is_private begins private_hosts then_atoms starts_with ends_with pattern_fits same_text
    drop lower Skill.is_host_allowed Skill.listed Resolver.is_host_allowed Resolver.listed
    Resolver.strip_dot Proxy.is_host_allowed Proxy.listed
layers = (refl, refl, refl, refl, refl, refl, refl)

is_host_allowed_agree_example :
    (Resolver.is_host_allowed (codes "GitHub.com.") patterns
      ≡ Skill.is_host_allowed
          (Resolver.strip_dot (lower (codes "GitHub.com.")))
          (some (map lower patterns)))
    × (Proxy.is_host_allowed (codes "GitHub.com.") patterns
        ≡ Skill.is_host_allowed (lower (codes "GitHub.com.")) (some (map lower patterns)))
is_host_allowed_agree_example = is_host_allowed_agree (codes "GitHub.com.") patterns

-- A URL is its host's name, unless it is empty.
abbrev hostname : Text → Option Text
hostname [] = none
hostname (c ∷ s) = some (c ∷ s)

-- The handler counts the events, and throws.
abbrev counting : EgressRecordCtx ℕ
counting = record { egress_allowlist = some patterns; emit = some (λ event n. (suc n, true)) }

allowlist_parsed : parse_allowlist_env (some (codes " github.com ,, *.npmjs.org")) ≡ patterns
unfolding parse_allowlist_env split_commas is_space trim_end trim_start
allowlist_parsed = refl

connect_read :
    handle_connect patterns (codes "CONNECT github.com:443 HTTP/1.1")
    ≡ connects (record { host = codes "github.com"; port = 443 })
unfolding handle_connect parse_connect_target span skip_blanks is_space Proxy.is_host_allowed
    Proxy.listed lower begins private_hosts then_atoms is_private same_text starts_with ends_with
    pattern_fits drop
connect_read = refl

-- No port.
connect_refused : handle_connect patterns (codes "CONNECT github.com:0 HTTP/1.1") ≡ bad_request
unfolding handle_connect parse_connect_target span skip_blanks is_space
connect_refused = refl

handle_connect-IsSafe_example :
    IsSafe patterns (handle_connect patterns (codes "CONNECT github.com:443 HTTP/1.1"))
handle_connect-IsSafe_example =
    handle_connect-IsSafe patterns (codes "CONNECT github.com:443 HTTP/1.1")
