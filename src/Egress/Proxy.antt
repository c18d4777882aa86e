-- ===== src/Egress/Proxy.antt =====
-- apps/runner-egress-proxy/src/allowlist.ts.
use mergecrew.Base.{Bool, true, false, if◌then◌else◌, List, [], ◌∷◌, Text, lower}
use mergecrew.Egress.{is_private, pattern_fits}

-- The loop over the allowlist.
unfoldable pub listed : Text → List Text → Bool
listed host [] = false
listed host (raw ∷ rest) = if pattern_fits (lower raw) host then true else listed host rest

unfoldable pub is_host_allowed : Text → List Text → Bool
is_host_allowed host [] = false
is_host_allowed host (p ∷ ps) =
    let lowered = lower host in if is_private lowered then false else listed lowered (p ∷ ps)
