-- ===== src/Core/StartLimit/Rate.antt =====
-- The start limit over recorded starts.
use winunitd.Common.{
  ℕ, ◌+◌, Bool, true, false, List, [], ◌∷◌, ◌++◌, filter, count, ◌≡◌, refl, arith,
}
use winunitd.Common.Int.{ℤ, pos, leb_ℤ}
use winunitd.Core.StartLimit.{start_limit_disabled, in_window, record_start, starts_in_window}

pub count-append : (p : ℕ → Bool) (xs ys : List ℕ) → count p (xs ++ ys) ≡ count p xs + count p ys
count-append p [] ys = omega arith
count-append p (x ∷ xs) ys = omega (arith, count-append p xs ys)

-- Entries that a coarser test drops do not count for a finer one.
pub count-filter :
    (p q : ℕ → Bool) (xs : List ℕ)
    → ((x : ℕ) → p x ≡ true → q x ≡ true)
    → count p (filter q xs) ≡ count p xs
unfolding filter
count-filter p q [] h = refl
count-filter p q (x ∷ xs) h = ground (arith, h x, count-filter p q xs h)

pub in_window_now :
    (now : ℕ) (interval : ℤ) → leb_ℤ interval (pos 0) ≡ false → in_window now interval now ≡ true
unfolding in_window
in_window_now now interval h = ground arith

-- Where the limit is on, a recorded start adds one to the count of its window, and nothing else
-- changes the count.
pub starts_in_window-record_start :
    (starts : List ℕ) (now : ℕ) (interval burst : ℤ)
    → start_limit_disabled interval burst ≡ false
    → starts_in_window (record_start starts now interval burst) now interval
      ≡ starts_in_window starts now interval + 1
unfolding starts_in_window record_start
starts_in_window-record_start starts now interval burst h =
    let w = in_window now interval in
    ground (
      arith,
      count-append w (filter w starts) (now ∷ []),
      count-filter w w starts (λ x e. e),
      in_window_now now interval,
    )
