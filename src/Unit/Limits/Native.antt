-- ===== src/Unit/Limits/Native.antt =====
-- The weights and quotas that are accepted, as the job object takes them.
use winunitd.Common.{
  ℕ, ◌-◌, ◌*◌, ◌≤◌, ◌<◌, ◌&&◌, Option, none, some, ◌≡◌, arith, ◌⊎◌, inl, inr, Bool-cases,
  Option-cases, leb,
}
use winunitd.Common.Decimal.{atoi}
use winunitd.Common.Int.{ℤ, pos, negsuc}
use winunitd.Common.Text.{Text, trim_space}
use winunitd.Unit.Limits.{
  from_one, before_percent, parse_cpu_weight, parse_cpu_quota, windows_cpu_weight, windows_cpu_rate,
}

from_one-bounds :
    (bound : ℕ) (o : Option ℤ) (n : ℕ) → from_one bound o ≡ some n → (1 ≤ n) × (n ≤ bound)
from_one-bounds bound none n h = cc
from_one-bounds bound (some (negsuc k)) n h = cc
from_one-bounds bound (some (pos k)) n h = elim (Bool-cases (leb 1 k && leb k bound)) [
  | inl e ↦ let same : some k ≡ some n = (rw e at h) in let k_n : k ≡ n = cc in ground arith
  | inr e ↦ let no : none ≡ some n = (rw e at h) in cc
]

-- Of a CPU weight that is accepted, the job object gets the 1111ths, rounded up, and 9 at most.
weight_in_job :
    (s : Text) (w : ℕ)
    → parse_cpu_weight s ≡ some w
    → (1 ≤ windows_cpu_weight w)
      × (windows_cpu_weight w ≤ 9)
      × ((windows_cpu_weight w - 1) * 1111 < w)
      × ((w ≤ windows_cpu_weight w * 1111) ⊎ (windows_cpu_weight w ≡ 9))
unfolding parse_cpu_weight windows_cpu_weight
weight_in_job s w h = let b = from_one-bounds 10000 (atoi (trim_space s)) w h in ground arith

-- Of a CPU quota that is accepted, the job object gets a rate of hundredths of a percent, from one
-- percent to all.
quota_in_job :
    (s : Text) (q : ℕ)
    → parse_cpu_quota s ≡ some q
    → (windows_cpu_rate q ≡ q * 100) × (100 ≤ windows_cpu_rate q) × (windows_cpu_rate q ≤ 10000)
unfolding parse_cpu_quota windows_cpu_rate
quota_in_job s q h = elim (Option-cases (before_percent (trim_space s))) [
  | inl e ↦ let no : none ≡ some q = (rw (parse_cpu_quota, e) at h) in cc
  | inr (num, e) ↦
      let b = from_one-bounds 100 (atoi (trim_space num)) q (rw (parse_cpu_quota, e) at h) in
      (omega arith, omega arith, omega arith)
]
