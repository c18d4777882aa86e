-- ===== src/Orchestrator/Sweeper/Threshold.antt =====
-- How long a step must be silent before it is dispatched again.
use mergecrew.Base.{ℕ, zero, suc, ◌-◌, ◌*◌, ◌^◌, ◌≤◌, min, ◌≡◌, ap, ◌∙◌, arith}
use mergecrew.Orchestrator.Sweeper.{SweeperConfig, stale_threshold_for}

power-pos : (n : ℕ) → 1 ≤ 2 ^ n
power-pos zero = omega arith
power-pos (suc n) = omega (arith, power-pos n)

scaled : (b c : ℕ) → 1 ≤ c → b ≤ b * c
scaled b zero h = absurd (omega arith)
scaled b (suc c) h = omega arith

twice : (b c : ℕ) → b * (2 * c) ≡ 2 * (b * c)
twice b c = grind arith

doubled : (b n : ℕ) → b * 2 ^ suc n ≡ 2 * (b * 2 ^ n)
doubled b n =
    let power : 2 ^ suc n ≡ 2 * 2 ^ n = omega arith in ap (λ t. b * t) power ∙ twice b (2 ^ n)

-- The threshold of the next attempt is twice the one before, up to an hour; and where the base is an hour at most, no
-- threshold is below the base or above an hour.
pub stale_threshold_for-doubles :
    (cfg : SweeperConfig) (attempt : ℕ)
    → cfg.stale_after_ms ≤ 3600000
    → (stale_threshold_for cfg (suc (suc attempt))
        ≡ min (2 * stale_threshold_for cfg (suc attempt)) 3600000)
      × (cfg.stale_after_ms ≤ stale_threshold_for cfg attempt)
      × (stale_threshold_for cfg attempt ≤ 3600000)
unfolding stale_threshold_for
stale_threshold_for-doubles cfg attempt h = (
  let once : suc attempt - 1 ≡ attempt = omega arith in
      let again : suc (suc attempt) - 1 ≡ suc attempt = omega arith in
      rw (once, again, doubled (cfg.stale_after_ms) attempt) (omega arith),
  omega (arith, scaled (cfg.stale_after_ms) (2 ^ (attempt - 1)) (power-pos (attempt - 1))),
  omega arith,
)
