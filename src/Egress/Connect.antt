-- ===== src/Egress/Connect.antt =====
-- `parseConnectTarget` of apps/runner-egress-proxy/src/allowlist.ts, and what handleConnect of main.ts decides before
-- any byte is passed on.
pub mod Safe
use mergecrew.Base.{
  ℕ, ◌+◌, ◌-◌, ◌*◌, ◌≤◌, ◌≡◌, refl, inl, inr, Option, none, some, Bool, true, false, not, ◌&&◌,
  ◌||◌, if◌then◌else◌, leb, ◌==◌, List, [], ◌∷◌, Text, codes, to_lower, is_digit, is_word, is_space,
  Bool-cases, Option-cases, or-eq-false, arith, ltb, lt→ltb, ltb→lt,
}
use mergecrew.Egress.Proxy.{is_host_allowed}

-- A text of small letters, in either case.
abbrev pub expect : Text → Text → Option Text
expect [] s = some s
expect (c ∷ cs) [] = none
expect (c ∷ cs) (d ∷ s) = if c == to_lower d then expect cs s else none

-- `\s*`, and `\s+`.
unfoldable pub skip_blanks : Text → Text
skip_blanks [] = []
skip_blanks (c ∷ s) = if is_space c then skip_blanks s else c ∷ s

abbrev pub blanks : Text → Option Text
blanks [] = none
blanks (c ∷ s) = if is_space c then some (skip_blanks s) else none

abbrev cons_part : ℕ → Text × Text → Text × Text
cons_part c (p, rest) = (c ∷ p, rest)

-- The longest part of which each character passes, and the rest.
unfoldable pub span : (ℕ → Bool) → Text → Text × Text
span p [] = ([], [])
span p (c ∷ s) = let more = span p s in if p c then cons_part c more else ([], c ∷ s)

abbrev pub is_host_char : ℕ → Bool
is_host_char c = not (c == 58 || is_space c)

abbrev pub number_from : ℕ → Text → ℕ
number_from n [] = n
number_from n (c ∷ s) = number_from (n * 10 + (c - 48)) s

pub record Target : Type 0 where
  pub host : Text
  pub port : ℕ

-- `[01]\b`
abbrev version_ends : Option Text → Bool
version_ends none = false
version_ends (some []) = false
version_ends (some (c ∷ [])) = c == 48 || c == 49
version_ends (some (c ∷ d ∷ s)) = (c == 48 || c == 49) && not (is_word d)

abbrev pub version_read : Option Text → Bool
version_read none = false
version_read (some s) = version_ends (expect (codes "http/1.") s)

abbrev pub target_of : Text → Text → Option Target
target_of host digits =
    let port = number_from 0 digits in
    if ltb port 1 || ltb 65535 port then none else some (record { host = host; port = port })

-- One to five digits.
abbrev pub is_port : Text → Bool
is_port [] = false
is_port (a ∷ b ∷ c ∷ d ∷ e ∷ f ∷ s) = false
is_port _ = true

abbrev pub port_read : Text → Text × Text → Option Target
port_read host (digits, rest) =
    if is_port digits && version_read (blanks rest) then target_of host digits else none

abbrev pub host_read : Text × Text → Option Target
host_read ([], rest) = none
host_read (c ∷ host, []) = none
host_read (c ∷ host, d ∷ rest) = if d == 58 then port_read (c ∷ host) (span is_digit rest) else none

abbrev pub target_read : Option Text → Option Target
target_read none = none
target_read (some s) = host_read (span is_host_char s)

abbrev pub method_read : Option Text → Option Target
method_read none = none
method_read (some s) = target_read (blanks s)

unfoldable pub parse_connect_target : Text → Option Target
parse_connect_target line = method_read (expect (codes "connect") line)

pub data Decision : Type 0 where
  bad_request forbidden : Decision
  connects : Target → Decision

abbrev pub decide : List Text → Option Target → Decision
decide allowlist none = bad_request
decide allowlist (some target) =
    if is_host_allowed target.host allowlist then connects target else forbidden

unfoldable pub handle_connect : List Text → Text → Decision
handle_connect allowlist line = decide allowlist (parse_connect_target line)
