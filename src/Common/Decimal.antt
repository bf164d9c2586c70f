-- ===== src/Common/Decimal.antt =====
-- Decimal numbers: `strconv.ParseUint`, `strconv.Atoi` and `strconv.FormatInt`.
use mathlib.Core.List.{append_assoc, append-nil}
use native.Mathlib.Nat.{pow-succ'}
use winunitd.Common.Tests.{ltb, leb, ◌==◌, if◌then◌else◌, Bool-cases, lt→ltb}
use winunitd.Common.Text.{Text}
use winunitd.Common.Int.{ℤ, pos, negsuc}
use Prim.Native.Nat.{ℕ, zero, suc, ◌+◌, ◌-◌, ◌*◌, ◌/◌, ◌%◌, ◌^◌, ◌≤◌, ◌<◌}
use mathlib.Core.Path.{◌≡◌, refl, sym, ap, ◌∙◌}
use mathlib.Core.Logic.{inl, inr}
use mathlib.Core.Bool.{Bool, true, false, ◌&&◌}
use mathlib.Core.Option.{Option, none, some}
use mathlib.Core.List.{[], ◌∷◌, ◌++◌}
use native.Mathlib.Omega.{arith}

unfoldable pub is_digit : ℕ → Bool
is_digit c = leb b'0' c && leb c b'9'

unfoldable pub all_digits : Text → Bool
unfolding is_digit
all_digits [] = true
all_digits (c ∷ s) = is_digit c && all_digits s

-- The value of decimal digits.
unfoldable pub digits_value : ℕ → Text → ℕ
digits_value acc [] = acc
digits_value acc (c ∷ s) = digits_value (acc * 10 + (c - b'0')) s

-- `strconv.ParseUint(s, 10, bits)`, where `limit` is 2 ^ bits.
unfoldable pub parse_uint : ℕ → Text → Option ℕ
parse_uint limit [] = none
parse_uint limit (c ∷ s) =
    let n = digits_value 0 (c ∷ s) in if all_digits (c ∷ s) && ltb n limit then some n else none

-- `strconv.Atoi` for a 64-bit int, and `strconv.ParseInt(s, 10, 64)`.
unfoldable pub atoi : Text → Option ℤ
unfolding parse_uint
atoi [] = none
atoi (c ∷ s) =
    if c == b'-'
    then elim (parse_uint (2 ^ 63 + 1) s) [
      | none ↦ none
      | some n ↦ elim n [ zero ↦ some (pos 0) | suc m ↦ some (negsuc m) ]
    ]
    else elim (parse_uint (2 ^ 63) (if c == b'+' then s else c ∷ s)) [
      | none ↦ none
      | some n ↦ some (pos n)
    ]

-- A digit's byte.
abbrev pub digit : ℕ → ℕ
digit d = b'0' + d % 10

decimal_on : ℕ → ℕ → Text
decimal_on zero n = []
decimal_on (suc f) n =
    let more = decimal_on f (n / 10) ++ digit n ∷ [] in if n / 10 == 0 then digit n ∷ [] else more

-- Twenty digits are enough for 64 bits.
unfoldable pub decimal : ℕ → Text
unfolding decimal_on
decimal n = decimal_on 20 n

pub div_ten : (f n : ℕ) → n < 10 ^ suc f → n / 10 < 10 ^ f
div_ten f n h = let e : 10 ^ suc f ≡ 10 * 10 ^ f = pow-succ' 10 f in omega arith

digits_value-decimal_on :
    (f n : ℕ) (rest : Text)
    → n < 10 ^ f
    → digits_value 0 (decimal_on f n ++ rest) ≡ digits_value n rest
unfolding decimal_on digits_value
digits_value-decimal_on zero n rest h = let e : n ≡ 0 = omega arith in rw e refl
digits_value-decimal_on (suc f) n rest h = elim (Bool-cases (n / 10 == 0)) [
  | inl one ↦ rw one (ap (λ k. digits_value k rest) (ground arith))
  | inr more ↦
      rw (more, append_assoc (decimal_on f (n / 10)) (digit n ∷ []) rest)
        (digits_value-decimal_on f (n / 10) (digit n ∷ rest) (div_ten f n h)
          ∙ ap (λ k. digits_value k rest) (omega arith))
]

pub all_digits-append :
    (s t : Text) → all_digits s ≡ true → all_digits t ≡ true → all_digits (s ++ t) ≡ true
unfolding all_digits
all_digits-append [] t h k = k
all_digits-append (c ∷ s) t h k = ground (arith, all_digits-append s t)

all_digits-decimal_on : (f n : ℕ) → all_digits (decimal_on f n) ≡ true
unfolding decimal_on all_digits
all_digits-decimal_on zero n = refl
all_digits-decimal_on (suc f) n = elim (Bool-cases (n / 10 == 0)) [
  | inl one ↦ rw one (ground arith)
  | inr more ↦ rw more (
      all_digits-append (decimal_on f (n / 10)) (digit n ∷ []) (all_digits-decimal_on f (n / 10))
        (ground arith))
]

decimal_on_cons : (f n : ℕ) → (c : ℕ) × (s : Text) × (decimal_on (suc f) n ≡ c ∷ s)
unfolding decimal_on
decimal_on_cons zero n = elim (Bool-cases (n / 10 == 0)) [
  | inl one ↦ (digit n, [], rw one refl)
  | inr more ↦ (digit n, [], rw more refl)
]
decimal_on_cons (suc f) n = elim (Bool-cases (n / 10 == 0)) [
  | inl one ↦ (digit n, [], rw one refl)
  | inr more ↦
      let (c, s, e) = decimal_on_cons f (n / 10) in
      (c, s ++ digit n ∷ [], rw more (ap (λ t. t ++ digit n ∷ []) e))
]

pub all_digits-decimal : (n : ℕ) → all_digits (decimal n) ≡ true
unfolding decimal
all_digits-decimal n = all_digits-decimal_on 20 n

pub decimal_cons : (n : ℕ) → (c : ℕ) × (s : Text) × (decimal n ≡ c ∷ s)
unfolding decimal
decimal_cons n = decimal_on_cons 19 n

pub digits_value-decimal : (n : ℕ) → n < 10 ^ 20 → digits_value 0 (decimal n) ≡ n
unfolding decimal digits_value
digits_value-decimal n h =
    ap (digits_value 0) (sym_append (decimal_on 20 n)) ∙ digits_value-decimal_on 20 n [] h
  where
    sym_append : (s : Text) → s ≡ s ++ []
    sym_append s = rw append-nil refl

parse_uint_of :
    (limit : ℕ) (s : Text) (c : ℕ) (t : Text)
    → s ≡ c ∷ t
    → all_digits s ≡ true
    → digits_value 0 s < limit
    → parse_uint limit s ≡ some (digits_value 0 s)
unfolding parse_uint digits_value
parse_uint_of limit s c t e a h =
    rw (e, parse_uint, (rw e at a), lt→ltb (digits_value 0 (c ∷ t)) limit (rw e at h)) refl

-- What is printed is read back.
pub parse_uint-decimal :
    (limit n : ℕ) → n < limit → n < 10 ^ 20 → parse_uint limit (decimal n) ≡ some n
parse_uint-decimal limit n h b =
    let (c, t, e) = decimal_cons n in
    let v = digits_value-decimal n b in
    parse_uint_of limit (decimal n) c t e (all_digits-decimal n) (omega arith) ∙ ap some v

-- What is printed of a number that is too large is refused.
pub parse_uint-decimal_large :
    (limit n : ℕ) → limit ≤ n → n < 10 ^ 20 → parse_uint limit (decimal n) ≡ none
unfolding parse_uint
parse_uint-decimal_large limit n h b =
    let (c, t, e) = decimal_cons n in
    let v : digits_value 0 (c ∷ t) ≡ n = ap (digits_value 0) (sym e) ∙ digits_value-decimal n b in
    let high : ltb (digits_value 0 (c ∷ t)) limit ≡ false = ground arith in
    let a : all_digits (c ∷ t) ≡ true = (rw e at (all_digits-decimal n)) in
    ap (parse_uint limit) e ∙ rw (a, high) refl
