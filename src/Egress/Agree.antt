-- ===== src/Egress/Agree.antt =====
-- The three layers compared: each of the two services decides as the skill layer does on normalized input.
use mergecrew.Base.{List, [], ◌∷◌, ◌≡◌, refl, map, some, Text, lower, arith}
use mergecrew.Egress.Resolver
use mergecrew.Egress.Proxy
use mergecrew.Egress.Skill

resolver_listed : (h : Text) (ps : List Text) → Resolver.listed h ps ≡ Skill.listed h (map lower ps)
unfolding Resolver.listed Skill.listed
resolver_listed h [] = refl
resolver_listed h (p ∷ ps) = ground (arith, resolver_listed h ps)

proxy_listed : (h : Text) (ps : List Text) → Proxy.listed h ps ≡ Skill.listed h (map lower ps)
unfolding Proxy.listed Skill.listed
proxy_listed h [] = refl
proxy_listed h (p ∷ ps) = ground (arith, proxy_listed h ps)

resolver_agrees :
    (host : Text) (ps : List Text)
    → Resolver.is_host_allowed host ps
      ≡ Skill.is_host_allowed (Resolver.strip_dot (lower host)) (some (map lower ps))
unfolding Resolver.is_host_allowed Skill.is_host_allowed
resolver_agrees host [] = ground arith
resolver_agrees host (p ∷ ps) =
    ground (arith, resolver_listed (Resolver.strip_dot (lower host)) (p ∷ ps))

proxy_agrees :
    (host : Text) (ps : List Text)
    → Proxy.is_host_allowed host ps ≡ Skill.is_host_allowed (lower host) (some (map lower ps))
unfolding Proxy.is_host_allowed Skill.is_host_allowed
proxy_agrees host [] = ground arith
proxy_agrees host (p ∷ ps) = ground (arith, proxy_listed (lower host) (p ∷ ps))

-- The resolver decides on a host as the skill layer does on the host in lower case without a dot at its end, under the
-- patterns in lower case; the proxy decides as the skill layer does on the host in lower case, under the same patterns.
pub is_host_allowed_agree :
    (host : Text) (patterns : List Text)
    → (Resolver.is_host_allowed host patterns
        ≡ Skill.is_host_allowed (Resolver.strip_dot (lower host)) (some (map lower patterns)))
      × (Proxy.is_host_allowed host patterns
          ≡ Skill.is_host_allowed (lower host) (some (map lower patterns)))
is_host_allowed_agree host patterns = (resolver_agrees host patterns, proxy_agrees host patterns)
