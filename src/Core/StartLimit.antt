-- ===== src/Core/StartLimit.antt =====
-- internal/core/startlimit.go: how often a unit may be started. A `time.Time` is a count of
-- nanoseconds from its origin, and a `time.Duration` or an `int` is an integer.
pub mod Rate
use winunitd.Common.{
  ℕ, suc, ◌+◌, Bool, ◌||◌, List, [], ◌∷◌, ◌++◌, if◌then◌else◌, leb, filter, count,
}
use winunitd.Common.Int.{ℤ, pos, back, leb_ℤ}

unfoldable pub start_limit_disabled : ℤ → ℤ → Bool
start_limit_disabled interval burst = leb_ℤ burst (pos 0) || leb_ℤ interval (pos 0)

-- `!t.Before(cutoff)`.
unfoldable pub in_window : ℕ → ℤ → ℕ → Bool
in_window now interval t = leb (back now interval) t

unfoldable pub count_starts_in_window : List ℕ → ℕ → ℤ → ℕ
unfolding in_window
count_starts_in_window starts now interval = count (in_window now interval) starts

unfoldable pub start_limit_hit : List ℕ → ℕ → ℤ → ℤ → Bool
unfolding start_limit_disabled count_starts_in_window
start_limit_hit starts now interval burst =
    if start_limit_disabled interval burst
    then Bool.false
    else leb_ℤ burst (pos (count_starts_in_window starts now interval))

unfoldable pub record_start : List ℕ → ℕ → ℤ → ℤ → List ℕ
unfolding start_limit_disabled in_window filter
record_start starts now interval burst =
    if start_limit_disabled interval burst
    then []
    else filter (in_window now interval) starts ++ now ∷ []

unfoldable pub starts_in_window : List ℕ → ℕ → ℤ → ℕ
unfolding count_starts_in_window
starts_in_window starts now interval =
    if leb_ℤ interval (pos 0) then 0 else count_starts_in_window starts now interval
