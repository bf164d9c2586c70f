-- ===== src/Unit/Limits/Memory.antt =====
-- Memory limits written as a number and a suffix.
use winunitd.Common.{
  ℕ, ◌*◌, ◌^◌, ◌≤◌, ◌<◌, true, false, ◌&&◌, Option, none, some, [], ◌∷◌, ◌++◌, map, ◌≡◌, refl, sym,
  ap, ◌∙◌, arith, inl, inr, Bool-cases, if◌then◌else◌, ltb, ◌==◌,
}
use winunitd.Common.Decimal.{
  is_digit, all_digits, parse_uint, decimal, all_digits-decimal, decimal_cons, parse_uint-decimal,
  parse_uint-decimal_large,
}
use winunitd.Common.Strings.{IsSolid, trim_space_solid}
use winunitd.Common.Text.{Text, bytes, is_space, trim_left, trim_right, trim_space, text_eq}
use winunitd.Unit.Limits.{
  upper, span_digits, factor, scaled, scaled_by, memory_of, parse_memory_max,
}

pub data Suffix : Type 0 where
  single kilo mega giga : Suffix

abbrev pub letter : Suffix → Text
letter single = []
letter kilo = bytes "K"
letter mega = bytes "M"
letter giga = bytes "G"

abbrev pub multiple : Suffix → ℕ
multiple single = 1
multiple kilo = 1024
multiple mega = 1048576
multiple giga = 1073741824

-- A number that fits in 64 bits, and is not 0.
abbrev pub bounded : ℕ → Option ℕ
bounded n = if ltb 0 n && ltb n (2 ^ 64) then some n else none

span_digits-append :
    (d : Text) (u : Suffix) → all_digits d ≡ true → span_digits (d ++ letter u) ≡ (d, letter u)
unfolding span_digits all_digits is_digit
span_digits-append [] single h = refl
span_digits-append [] kilo h = refl
span_digits-append [] mega h = refl
span_digits-append [] giga h = refl
span_digits-append (c ∷ d) u h =
    let one : is_digit c ≡ true = ground arith in
    rw (span_digits-append d u (ground arith), one) refl

scaled-bounded :
    (n : ℕ) (u : Suffix) → n < 2 ^ 64 → scaled n (multiple u) ≡ bounded (n * multiple u)
unfolding scaled
scaled-bounded n single h = ground arith
scaled-bounded n kilo h = ground arith
scaled-bounded n mega h = ground arith
scaled-bounded n giga h = ground arith

factor-letter : (u : Suffix) → factor (map upper (trim_space (letter u))) ≡ some (multiple u)
unfolding factor text_eq trim_space trim_left trim_right is_space
factor-letter single = refl
factor-letter kilo = refl
factor-letter mega = refl
factor-letter giga = refl

-- The number that was read, times the factor.
abbrev read_as : Option ℕ → Suffix → Option ℕ
read_as none u = none
read_as (some n) u = scaled_by n (some (multiple u))

memory_of-letter :
    (num : Text) (u : Suffix) (o : Option ℕ)
    → parse_uint (2 ^ 64) num ≡ o
    → memory_of (num, letter u) ≡ read_as o u
unfolding memory_of
memory_of-letter num u none h =
    ap
      (λ o. elim o [
        | none ↦ none
        | some n ↦ scaled_by n (factor (map upper (trim_space (letter u))))
      ])
      h
memory_of-letter num u (some n) h =
    ap
      (λ o. elim o [
        | none ↦ none
        | some n ↦ scaled_by n (factor (map upper (trim_space (letter u))))
      ])
      h
    ∙ ap (scaled_by n) (factor-letter u)

too_large : (n : ℕ) (u : Suffix) → 2 ^ 64 ≤ n → none ≡ bounded (n * multiple u)
too_large n single h = ground arith
too_large n kilo h = ground arith
too_large n mega h = ground arith
too_large n giga h = ground arith

memory_of-decimal :
    (n : ℕ) (u : Suffix) → n < 10 ^ 20 → memory_of (decimal n, letter u) ≡ bounded (n * multiple u)
memory_of-decimal n u b = elim (Bool-cases (ltb n (2 ^ 64))) [
  | inl e ↦
      let low : n < 2 ^ 64 = ground arith in
      memory_of-letter (decimal n) u (some n) (parse_uint-decimal (2 ^ 64) n low b)
      ∙ scaled-bounded n u low
  | inr e ↦
      let high : 2 ^ 64 ≤ n = ground arith in
      memory_of-letter (decimal n) u none (parse_uint-decimal_large (2 ^ 64) n high b)
      ∙ too_large n u high
]

IsSolid-digits : (d : Text) (u : Suffix) → all_digits d ≡ true → IsSolid (d ++ letter u)
unfolding all_digits is_digit is_space
IsSolid-digits [] single h = tt
IsSolid-digits [] kilo h = (refl, tt)
IsSolid-digits [] mega h = (refl, tt)
IsSolid-digits [] giga h = (refl, tt)
IsSolid-digits (c ∷ d) u h = (ground arith, IsSolid-digits d u (ground arith))

-- A number and a suffix, where the number starts with a digit.
memory_of_digits :
    (c : ℕ) (d : Text) (u : Suffix)
    → all_digits (c ∷ d) ≡ true
    → parse_memory_max (c ∷ d ++ letter u) ≡ memory_of (c ∷ d, letter u)
unfolding parse_memory_max all_digits is_digit
memory_of_digits c d u h =
    let plus : (c == b'+') ≡ false = ground arith in
    let minus : (c == b'-') ≡ false = ground arith in
    rw (trim_space_solid (c ∷ d ++ letter u) (IsSolid-digits (c ∷ d) u h), plus, minus)
      (ap memory_of (span_digits-append (c ∷ d) u h))

-- A number that has twenty digits at most, with a suffix, is read as the number times the factor of
-- the suffix where that is above 0 and fits in 64 bits, and is an error otherwise.
pub parse_memory_max-decimal :
    (n : ℕ) (u : Suffix)
    → n < 10 ^ 20
    → parse_memory_max (decimal n ++ letter u) ≡ bounded (n * multiple u)
parse_memory_max-decimal n u b =
    let (c, d, e) = decimal_cons n in
    ap (λ s. parse_memory_max (s ++ letter u)) e
    ∙ memory_of_digits c d u (rw e at (all_digits-decimal n))
    ∙ ap (λ s. memory_of (s, letter u)) (sym e)
    ∙ memory_of-decimal n u b
