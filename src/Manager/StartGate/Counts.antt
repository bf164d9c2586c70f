-- ===== src/Manager/StartGate/Counts.antt =====
-- Starts counted in windows, with a start limit that is on.
use winunitd.Common.{ℕ, ◌+◌, ◌≤◌, true, false, List, [], ◌∷◌, filter, count, ◌≡◌, arith}
use winunitd.Common.Int.{ℤ, pos, pos_part, leb_ℤ}
use winunitd.Core.StartLimit.{start_limit_disabled, in_window, start_limit_hit, record_start}
use winunitd.Core.StartLimit.Rate.{count-append, count-filter}

module _ (interval burst : ℤ) (on : start_limit_disabled interval burst ≡ false) where
  in_window_mono :
      (now later t : ℕ)
      → now ≤ later
      → in_window later interval t ≡ true
      → in_window now interval t ≡ true
  unfolding in_window
  in_window_mono now later t h k = ground arith

  -- A later window holds no more.
  pub count_later :
      (now later : ℕ) (ts : List ℕ)
      → now ≤ later
      → count (in_window later interval) ts ≤ count (in_window now interval) ts
  count_later now later [] h = omega arith
  count_later now later (t ∷ ts) h =
      ground (arith, count_later now later ts h, in_window_mono now later t h)

  -- Recording a start keeps what any later window counts.
  pub count-record_start :
      (starts : List ℕ) (now later : ℕ)
      → now ≤ later
      → count (in_window later interval) (record_start starts now interval burst)
        ≡ count (in_window later interval) (now ∷ starts)
  unfolding record_start
  count-record_start starts now later h = rw on (
      omega (
        arith,
        count-append (in_window later interval) (filter (in_window now interval) starts) (now ∷ []),
        count-filter (in_window later interval) (in_window now interval) starts
            (λ x. in_window_mono now later x h),
      ))

  pub room_left :
      (starts : List ℕ) (now : ℕ)
      → start_limit_hit starts now interval burst ≡ false
      → count (in_window now interval) starts + 1 ≤ pos_part burst
  unfolding start_limit_hit
  room_left starts now h = ground arith

  pub room_alone : 1 ≤ pos_part burst
  unfolding start_limit_disabled
  room_alone = ground arith

  pub positive : leb_ℤ interval (pos 0) ≡ false
  unfolding start_limit_disabled
  positive = ground arith
