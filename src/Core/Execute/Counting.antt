-- ===== src/Core/Execute/Counting.antt =====
-- Counts over lists of names: what a release, a delivery and a launch do to them.
use winunitd.Common.{
  ◌+◌, ◌-◌, ◌≤◌, Bool, true, false, not, List, [], ◌∷◌, ◌≡◌, refl, ap, arith, if◌then◌else◌, count,
  length,
}
use winunitd.Common.Text.{Text, text_eq, text_eq_iff}
use winunitd.Core.Names.{contains_name}
use winunitd.Core.Execute.{put, remove_one}

-- A list with no element that fails a test.
pub passed :
    (p : Text → Bool) (xs : List Text) (x : Text)
    → count (λ d. not (p d)) xs ≡ 0
    → contains_name xs x ≡ true
    → p x ≡ true
unfolding contains_name
passed p [] x h m = ground arith
passed p (y ∷ xs) x h m = ground (arith, passed p xs x, text_eq_iff y x, ap p)

pub count_of_contains :
    (xs : List Text) (n : Text) → contains_name xs n ≡ true → 1 ≤ count (λ s. text_eq s n) xs
unfolding contains_name
count_of_contains [] n h = ground arith
count_of_contains (y ∷ ys) n h = ground (arith, count_of_contains ys n)

pub count_none :
    (xs : List Text) (n : Text) → count (λ s. text_eq s n) xs ≡ 0 → contains_name xs n ≡ false
unfolding contains_name
count_none [] n h = refl
count_none (y ∷ ys) n h = ground (arith, count_none ys n)

pub count_some :
    (xs : List Text) (n : Text) → count (λ s. text_eq s n) xs ≡ 1 → contains_name xs n ≡ true
unfolding contains_name
count_some [] n h = ground arith
count_some (y ∷ ys) n h = ground (arith, count_some ys n)

-- What a release takes off the number of those that are still to be released.
pub count-put :
    (p : Text → Bool) (n : Text) (xs : List Text)
    → p n ≡ false
    → count (λ d. not (put p n true d)) xs + count (λ s. text_eq s n) xs ≡ count (λ d. not (p d)) xs
count-put p n [] h = omega arith
count-put p n (x ∷ xs) h =
    ground (arith, count-put p n xs h, text_eq_iff n x, text_eq_iff x n, ap p)

pub count-remove_one :
    (xs : List Text) (n x : Text)
    → count (λ s. text_eq s x) (remove_one xs n)
      ≡ count (λ s. text_eq s x) xs - (if text_eq n x then 1 else 0)
unfolding remove_one
count-remove_one [] n x = omega arith
count-remove_one (y ∷ ys) n x =
    ground (arith, count-remove_one ys n x, text_eq_iff y n, text_eq_iff n x, text_eq_iff y x)

pub length-remove_one :
    (xs : List Text) (n : Text)
    → contains_name xs n ≡ true
    → length (remove_one xs n) + 1 ≡ length xs
unfolding remove_one contains_name
length-remove_one [] n h = ground arith
length-remove_one (y ∷ ys) n h = ground (arith, length-remove_one ys n)
