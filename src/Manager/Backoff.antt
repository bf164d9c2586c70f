-- ===== src/Manager/Backoff.antt =====
-- internal/manager/restart_backoff.go: the capped delay of a restart, in nanoseconds. A duration is
-- signed and has 64 bits. The code doubles a delay only if it is at most half the cap, so the
-- doubling is written without a wrap-around.
pub mod Growth
use winunitd.Common.{ℕ, zero, suc, ◌*◌, ◌/◌, ◌||◌, true, false, if◌then◌else◌, leb, ltb}
use winunitd.Common.Int.{ℤ, pos, pos_part, leb_ℤ}

-- `min`.
abbrev pub smaller : ℕ → ℕ → ℕ
smaller a b = if leb a b then a else b

-- The loop, of a positive delay and cap.
unfoldable pub doubled : (base cap attempt : ℕ) → ℕ
doubled base cap zero = smaller base cap
doubled base cap (suc attempt) =
    let more = doubled (base * 2) cap attempt in
    if ltb base cap then (if ltb (cap / 2) base then cap else more) else smaller base cap

unfoldable pub capped_restart_delay : (base cap : ℤ) → (attempt : ℕ) → ℤ
capped_restart_delay base cap attempt =
    if leb_ℤ base (pos 0) || leb_ℤ cap (pos 0)
    then base
    else pos (doubled (pos_part base) (pos_part cap) attempt)
