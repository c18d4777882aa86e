-- ===== src/Egress/Connect/Safe.antt =====
-- What handleConnect of apps/runner-egress-proxy/src/main.ts connects to.
use mergecrew.Base.{
  ◌≤◌, ◌≡◌, inl, inr, Option, none, some, true, ◌&&◌, ◌||◌, ltb, lt→ltb, ◌==◌, List, [], ◌∷◌, Text,
  codes, is_digit, Bool-cases, or-eq-false, arith,
}
use mergecrew.Egress.Proxy.{is_host_allowed}
use mergecrew.Egress.Connect.{
  Target, target_of, number_from, version_read, blanks, is_port, port_read, host_read, target_read,
  method_read, span, is_host_char, expect, parse_connect_target, Decision, connects, decide,
  handle_connect,
}

-- The target, if there is one, has a port of sixteen bits that is not 0.
abbrev pub IsInRange : Option Target → Type 0
IsInRange none = Unit
IsInRange (some t) = (1 ≤ t.port) × (t.port ≤ 65535)

target_of-IsInRange : (host digits : Text) → IsInRange (target_of host digits)
target_of-IsInRange host digits =
    let port = number_from 0 digits in
    elim (Bool-cases (ltb port 1 || ltb 65535 port)) [
      | inl q ↦ rw q tt
      | inr q ↦ rw q (
          ground
            (arith, or-eq-false (ltb port 1) (ltb 65535 port) q, lt→ltb port 1, lt→ltb 65535 port))
    ]

port_read-IsInRange : (host : Text) (read : Text × Text) → IsInRange (port_read host read)
port_read-IsInRange host (digits, rest) =
    elim (Bool-cases (is_port digits && version_read (blanks rest))) [
      | inl q ↦ rw q (target_of-IsInRange host digits)
      | inr q ↦ rw q tt
    ]

host_read-IsInRange : (read : Text × Text) → IsInRange (host_read read)
host_read-IsInRange ([], rest) = tt
host_read-IsInRange (c ∷ host, []) = tt
host_read-IsInRange (c ∷ host, d ∷ rest) = elim (Bool-cases (d == 58)) [
  | inl q ↦ rw q (port_read-IsInRange (c ∷ host) (span is_digit rest))
  | inr q ↦ rw q tt
]

target_read-IsInRange : (s : Option Text) → IsInRange (target_read s)
target_read-IsInRange none = tt
target_read-IsInRange (some s) = host_read-IsInRange (span is_host_char s)

method_read-IsInRange : (s : Option Text) → IsInRange (method_read s)
method_read-IsInRange none = tt
method_read-IsInRange (some s) = target_read-IsInRange (blanks s)

-- A connection goes to an allowed host, at a port that there is.
abbrev pub IsSafe : List Text → Decision → Type 0
IsSafe allowlist (connects t) = (is_host_allowed t.host allowlist ≡ true) × IsInRange (some t)
IsSafe allowlist _ = Unit

decide-IsSafe :
    (allowlist : List Text) (target : Option Target)
    → IsInRange target
    → IsSafe allowlist (decide allowlist target)
decide-IsSafe allowlist none h = tt
decide-IsSafe allowlist (some t) h = elim (Bool-cases (is_host_allowed t.host allowlist)) [
  | inl q ↦ rw q (q, h)
  | inr q ↦ rw q tt
]

-- Whatever the line, a connection goes to an allowed host, at a port from 1 to 65535.
pub handle_connect-IsSafe :
    (allowlist : List Text) (line : Text) → IsSafe allowlist (handle_connect allowlist line)
unfolding handle_connect parse_connect_target
handle_connect-IsSafe allowlist line =
    decide-IsSafe allowlist (parse_connect_target line)
      (method_read-IsInRange (expect (codes "connect") line))
