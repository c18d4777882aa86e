-- ===== src/Dns/Bytes.antt =====
-- Reads at an offset, from what stands there.
use mergecrew.Base.{
  ℕ, zero, suc, ◌+◌, ◌/◌, ◌%◌, ◌<◌, [], ◌∷◌, ◌++◌, length, ◌≡◌, ap, ◌∙◌, Text, drop, take, at,
  take-append, arith,
}
use mergecrew.Dns.{read_u16}

-- The bytes `s` stand in the buffer from the offset to its end.
abbrev pub StandsAt : Text → ℕ → Text → Type 0
StandsAt buf off s = drop off buf ≡ s

pub at-stands : (buf : Text) (n c : ℕ) (s : Text) → StandsAt buf n (c ∷ s) → at buf n ≡ c
unfolding drop at
at-stands [] zero c s h = cc
at-stands [] (suc n) c s h = cc
at-stands (b ∷ bs) zero c s h = cc
at-stands (b ∷ bs) (suc n) c s h = at-stands bs n c s h

pub lt-stands : (buf : Text) (n c : ℕ) (s : Text) → StandsAt buf n (c ∷ s) → n < length buf
unfolding drop
lt-stands [] zero c s h = cc
lt-stands [] (suc n) c s h = cc
lt-stands (b ∷ bs) zero c s h = omega arith
lt-stands (b ∷ bs) (suc n) c s h = omega (arith, lt-stands bs n c s h)

next-suc : (buf : Text) (n c : ℕ) (s : Text) → StandsAt buf n (c ∷ s) → StandsAt buf (suc n) s
unfolding drop
next-suc [] zero c s h = cc
next-suc [] (suc n) c s h = cc
next-suc (b ∷ bs) zero c s h = cc
next-suc (b ∷ bs) (suc n) c s h = next-suc bs n c s h

pub moved : (buf : Text) (n m : ℕ) (s : Text) → m ≡ n → StandsAt buf n s → StandsAt buf m s
moved buf n m s e h = ap (λ k. drop k buf) e ∙ h

pub next-stands :
    (buf : Text) (n c : ℕ) (s : Text) → StandsAt buf n (c ∷ s) → StandsAt buf (n + 1) s
next-stands buf n c s h = moved buf (suc n) (n + 1) s (omega arith) (next-suc buf n c s h)

pub skip-stands :
    (l buf : Text) (n : ℕ) (s : Text) → StandsAt buf n (l ++ s) → StandsAt buf (n + length l) s
skip-stands [] buf n s h = moved buf n (n + 0) s (omega arith) h
skip-stands (c ∷ l) buf n s h =
    moved buf (n + 1 + length l) (n + suc (length l)) s (omega arith)
      (skip-stands l buf (n + 1) s (next-stands buf n c (l ++ s) h))

pub take-stands :
    (l buf : Text) (n : ℕ) (s : Text) → StandsAt buf n (l ++ s) → take (length l) (drop n buf) ≡ l
take-stands l buf n s h = rw h (take-append l s)

-- The two bytes of a number, and then the rest.
abbrev pub u16 : ℕ → Text → Text
u16 n s = (n / 256) ∷ (n % 256) ∷ s

pub read_u16-stands :
    (buf : Text) (n v : ℕ) (s : Text) → StandsAt buf n (u16 v s) → read_u16 buf n ≡ v
unfolding read_u16
read_u16-stands buf n v s h =
    let after = next-stands buf n (v / 256) ((v % 256) ∷ s) h in
    rw (at-stands buf n (v / 256) ((v % 256) ∷ s) h, at-stands buf (n + 1) (v % 256) s after)
      (omega arith)

pub u16-stands :
    (buf : Text) (n v : ℕ) (s : Text) → StandsAt buf n (u16 v s) → StandsAt buf (n + 2) s
u16-stands buf n v s h =
    moved buf (n + 1 + 1) (n + 2) s (omega arith)
      (next-stands buf (n + 1) (v % 256) s (next-stands buf n (v / 256) ((v % 256) ∷ s) h))
