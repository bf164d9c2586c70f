-- ===== src/Core/Restart/Reason.antt =====
-- The reasons that status shows.
use winunitd.Common.{
  ℕ, zero, suc, ◌+◌, ◌*◌, ◌/◌, ◌%◌, ◌^◌, ◌<◌, false, some, [], ◌∷◌, ◌++◌, ◌≡◌, refl, ap, arith, leb,
  ◌==◌, if◌then◌else◌, All, Bool-cases, inl, inr, ◌∙◌, lt→ltb,
}
use mathlib.Core.List.{append_assoc, append-nil}
use winunitd.Common.Decimal.{div_ten}
use winunitd.Common.Text.{Text, text_eq, has_prefix, trim_space, trim_left, trim_right, is_space}
use winunitd.Core.Restart.{
  parse_digits, parse_uint32, cut_prefix, exit_status, signal_equivalent_exit_status, status_reason,
  reason_signal_equivalent,
}

-- A digit's byte.
digit : ℕ → ℕ
digit d = b'0' + d % 10

-- The decimal digits of a number, on fuel for its length, as `%d` prints it in an exit status.
decimal_on : ℕ → ℕ → Text
decimal_on zero n = []
decimal_on (suc f) n =
    let more = decimal_on f (n / 10) ++ digit n ∷ [] in if n / 10 == 0 then digit n ∷ [] else more

-- Ten digits are enough for a `uint32`.
pub decimal : ℕ → Text
decimal = decimal_on 10

step_digit :
    (acc n : ℕ) (rest : Text)
    → parse_digits acc (digit n ∷ rest) ≡ parse_digits (acc * 10 + n % 10) rest
unfolding parse_digits digit
step_digit acc n rest = ground arith

-- Reading back the digits of a number.
parse_digits-decimal_on :
    (f n : ℕ) (rest : Text)
    → n < 10 ^ f
    → parse_digits 0 (decimal_on f n ++ rest) ≡ parse_digits n rest
unfolding decimal_on
parse_digits-decimal_on zero n rest h = let e : n ≡ 0 = omega arith in rw e
parse_digits-decimal_on (suc f) n rest h = elim (Bool-cases (n / 10 == 0)) [
  | inl one ↦ rw one (step_digit 0 n rest ∙ ap (λ k. parse_digits k rest) (ground arith))
  | inr more ↦
      rw (more, append_assoc (decimal_on f (n / 10)) (digit n ∷ []) rest)
        (parse_digits-decimal_on f (n / 10) (digit n ∷ rest) (div_ten f n h)
          ∙ (step_digit (n / 10) n rest ∙ ap (λ k. parse_digits k rest) (omega arith)))
]

abbrev IsSolid : Text → Type 0
IsSolid = All (λ c. is_space c ≡ false)

trim_left-IsSolid : (s : Text) → IsSolid s → trim_left s ≡ s
unfolding trim_left
trim_left-IsSolid [] h = refl
trim_left-IsSolid (c ∷ s) h = ground arith

trim_right-IsSolid : (s : Text) → IsSolid s → trim_right s ≡ s
unfolding trim_right
trim_right-IsSolid [] h = refl
trim_right-IsSolid (c ∷ s) h = ground (arith, trim_right-IsSolid s h.1)

trim_space-IsSolid : (s : Text) → IsSolid s → trim_space s ≡ s
unfolding trim_space
trim_space-IsSolid s h = rw (trim_left-IsSolid s h) (trim_right-IsSolid s h)

IsSolid-append : (s t : Text) → IsSolid s → IsSolid t → IsSolid (s ++ t)
IsSolid-append [] t h k = k
IsSolid-append (c ∷ s) t h k = (h.0, IsSolid-append s t h.1 k)

digit_solid : (n : ℕ) → is_space (digit n) ≡ false
unfolding is_space digit
digit_solid n = ground arith

decimal_on-IsSolid : (f n : ℕ) → IsSolid (decimal_on f n)
unfolding decimal_on
decimal_on-IsSolid zero n = tt
decimal_on-IsSolid (suc f) n = elim (Bool-cases (n / 10 == 0)) [
  | inl one ↦ rw one (digit_solid n, tt)
  | inr more ↦ rw more (
      IsSolid-append (decimal_on f (n / 10)) (digit n ∷ []) (decimal_on-IsSolid f (n / 10))
        (digit_solid n, tt))
]

decimal_on_ne_nil : (f n : ℕ) → text_eq (decimal_on (suc f) n) [] ≡ false
unfolding decimal_on text_eq
decimal_on_ne_nil f n = elim (Bool-cases (n / 10 == 0)) [
  | inl one ↦ rw one
  | inr more ↦ rw more (snoc_ne_nil (decimal_on f (n / 10)))
]
  where
    snoc_ne_nil : (s : Text) → text_eq (s ++ digit n ∷ []) [] ≡ false
    snoc_ne_nil [] = refl
    snoc_ne_nil (c ∷ s) = refl

parse_uint32_of_digits :
    (s : Text) (n : ℕ)
    → text_eq s [] ≡ false
    → parse_digits 0 s ≡ some n
    → n < 2 ^ 32
    → parse_uint32 s ≡ some n
unfolding parse_uint32 text_eq
parse_uint32_of_digits [] n h e b = cc
parse_uint32_of_digits (c ∷ s) n h e b = rw (e, lt→ltb n (2 ^ 32) b, parse_uint32)

parse_uint32-decimal : (n : ℕ) → n < 2 ^ 32 → parse_uint32 (decimal n) ≡ some n
unfolding decimal
parse_uint32-decimal n h =
    parse_uint32_of_digits (decimal_on 10 n) n (decimal_on_ne_nil 9 n)
      (rw (← append-nil (decimal_on 10 n))
        (parse_digits-decimal_on 10 n [] (omega arith) ∙ (unfold parse_digits in refl)))
      h

cut_prefix-append : (p s : Text) → cut_prefix (p ++ s) p ≡ some s
unfolding cut_prefix
cut_prefix-append [] [] = refl
cut_prefix-append [] (c ∷ s) = refl
cut_prefix-append (c ∷ p) s = ground (arith, cut_prefix-append p s)

-- An error `exit status N` with a 32-bit N is taken for an NTSTATUS error exactly from 0xC0000000
-- on.
signal_equivalent_exit_status-decimal :
    (n : ℕ)
    → n < 2 ^ 32
    → signal_equivalent_exit_status (exit_status ++ decimal n) ≡ leb 0xC0000000 n
unfolding signal_equivalent_exit_status
signal_equivalent_exit_status-decimal n h = rw (
  cut_prefix-append exit_status (decimal n),
  trim_space-IsSolid (decimal n) (unfold decimal in decimal_on-IsSolid 10 n),
  parse_uint32-decimal n h,
  signal_equivalent_exit_status,
)

-- The status reason of a main process that ended with the 32-bit exit code N: `signal-equivalent`
-- from 0xC0000000 on, and none below.
pub status_reason-exit_status :
    (n : ℕ)
    → n < 2 ^ 32
    → status_reason (exit_status ++ decimal n)
      ≡ (if leb 0xC0000000 n then reason_signal_equivalent else [])
unfolding status_reason text_eq has_prefix
status_reason-exit_status n h = rw (signal_equivalent_exit_status-decimal n h)
