-- ===== src/Manager/Backoff/Growth.antt =====
-- How the restart delay grows.
use winunitd.Common.{ℕ, zero, suc, ◌*◌, ◌^◌, ◌≤◌, ◌≡◌, ap, arith, ◌∙◌, sym}
use native.Mathlib.Nat.{pow-suc, mul_assoc}
use winunitd.Common.Int.{pos}
use winunitd.Manager.Backoff.{smaller, doubled, capped_restart_delay}

power_suc : (base n : ℕ) → base * 2 ^ suc n ≡ (base * 2 ^ n) * 2
power_suc base n = ap (λ x. base * x) (pow-suc 2 n) ∙ sym (mul_assoc base (2 ^ n) 2)

power_double : (base n : ℕ) → (base * 2) * 2 ^ n ≡ base * 2 ^ suc n
power_double base zero = omega arith
power_double base (suc n) =
    omega (arith, power_suc (base * 2) n, power_double base n, power_suc base (suc n))

power_grows : (base n : ℕ) → base ≤ base * 2 ^ n
power_grows base zero = omega arith
power_grows base (suc n) = omega (arith, power_grows base n, power_suc base n)

doubled_power : (base cap attempt : ℕ) → doubled base cap attempt ≡ smaller (base * 2 ^ attempt) cap
unfolding doubled
doubled_power base cap zero = ground arith
doubled_power base cap (suc attempt) = ground (
  arith,
  doubled_power (base * 2) cap attempt,
  power_double base attempt,
  power_suc base attempt,
  power_grows base attempt,
)

-- Of a positive delay and a positive cap, the delay after some attempts is the delay doubled as
-- many times, or the cap where that is less.
pub capped_restart_delay-doubles :
    (base cap attempt : ℕ)
    → 1 ≤ base
    → 1 ≤ cap
    → capped_restart_delay (pos base) (pos cap) attempt ≡ pos (smaller (base * 2 ^ attempt) cap)
unfolding capped_restart_delay
capped_restart_delay-doubles base cap attempt b c =
    ground (arith, ap pos (doubled_power base cap attempt))
