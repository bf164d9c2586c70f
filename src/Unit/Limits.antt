-- ===== src/Unit/Limits.antt =====
-- internal/unit/resource.go: the values of the resource limits of a unit, and what becomes of them in
-- the job object (types.go). A value of the wrong form is none.
pub mod Native
pub mod Memory
use winunitd.Common.{
  ℕ, zero, suc, ◌+◌, ◌-◌, ◌*◌, ◌/◌, ◌%◌, ◌^◌, Bool, true, false, ◌&&◌, ◌||◌, Option, none, some, [],
  ◌∷◌, ◌++◌, map, if◌then◌else◌, ltb, leb, ◌==◌,
}
use winunitd.Common.Decimal.{is_digit, parse_uint, atoi}
use winunitd.Common.Int.{ℤ, pos, negsuc}
use winunitd.Common.Text.{Text, bytes, text_eq, trim_space, to_lower}

-- `strings.ToUpper` on a byte.
abbrev pub upper : ℕ → ℕ
upper c = if leb b'a' c && leb c b'z' then c - 32 else c

-- The digits at the start, and what stands behind them.
unfoldable pub span_digits : Text → Text × Text
unfolding is_digit
span_digits [] = ([], [])
span_digits (c ∷ s) =
    let (ds, rest) = span_digits s in if is_digit c then (c ∷ ds, rest) else ([], c ∷ s)

-- The factor of a suffix in upper case.
unfoldable pub factor : Text → Option ℕ
unfolding text_eq
factor suf =
    if text_eq suf []
    then some 1
    else if text_eq suf (bytes "K")
    then some 1024
    else if text_eq suf (bytes "M")
    then some (1024 * 1024)
    else if text_eq suf (bytes "G")
    then some (1024 * 1024 * 1024)
    else none

abbrev pub max_uint64 : ℕ
max_uint64 = 2 ^ 64 - 1

-- The tests behind the switch; the product of 64-bit integers wraps around.
unfoldable pub scaled : ℕ → ℕ → Option ℕ
scaled n mul =
    if n == 0
    then none
    else if ltb 1 mul && ltb (max_uint64 / mul) n
    then none
    else some ((n * mul) % 2 ^ 64)

abbrev pub scaled_by : ℕ → Option ℕ → Option ℕ
scaled_by n none = none
scaled_by n (some mul) = scaled n mul

-- Digits and the suffix behind them.
unfoldable pub memory_of : Text × Text → Option ℕ
unfolding trim_space factor scaled
memory_of (num, suf) = elim (parse_uint (2 ^ 64) num) [
  | none ↦ none
  | some n ↦ scaled_by n (factor (map upper (trim_space suf)))
]

abbrev pub unsigned : Text → Text
unsigned [] = []
unsigned (c ∷ s) = if c == b'+' then s else c ∷ s

abbrev pub starts_minus : Text → Bool
starts_minus [] = false
starts_minus (c ∷ s) = c == b'-'

-- `parseMemoryMax`; none is its error. A text without digits has no number.
unfoldable pub parse_memory_max : Text → Option ℕ
unfolding memory_of span_digits
parse_memory_max raw =
    let s = unsigned (trim_space raw) in if starts_minus s then none else memory_of (span_digits s)

-- A number from 1 to a bound.
abbrev pub from_one : ℕ → Option ℤ → Option ℕ
from_one bound (some (pos n)) = if leb 1 n && leb n bound then some n else none
from_one bound _ = none

unfoldable pub parse_process_limit : Text → Option ℕ
parse_process_limit s = from_one (2 ^ 32 - 1) (atoi (trim_space s))

unfoldable pub parse_cpu_weight : Text → Option ℕ
parse_cpu_weight s = from_one 10000 (atoi (trim_space s))

-- What stands before a percent sign at the end.
unfoldable pub before_percent : Text → Option Text
before_percent [] = none
before_percent (c ∷ []) = if c == b'%' then some [] else none
before_percent (c ∷ d ∷ s) = elim (before_percent (d ∷ s)) [ none ↦ none | some t ↦ some (c ∷ t) ]

unfoldable pub parse_cpu_quota : Text → Option ℕ
unfolding before_percent
parse_cpu_quota s = elim (before_percent (trim_space s)) [
  | none ↦ none
  | some num ↦ from_one 100 (atoi (trim_space num))
]

pub data PriorityClass : Type 0 where
  idle below_normal normal above_normal high : PriorityClass

unfoldable pub parse_priority_class : Text → Option PriorityClass
unfolding text_eq
parse_priority_class raw =
    let v = to_lower (trim_space raw) in
    if text_eq v (bytes "idle")
    then some idle
    else if text_eq v (bytes "below-normal")
    then some below_normal
    else if text_eq v (bytes "normal")
    then some normal
    else if text_eq v (bytes "above-normal")
    then some above_normal
    else if text_eq v (bytes "high")
    then some high
    else none

unfoldable pub windows_priority_class : PriorityClass → ℕ
windows_priority_class idle = 0x40
windows_priority_class below_normal = 0x4000
windows_priority_class normal = 0x20
windows_priority_class above_normal = 0x8000
windows_priority_class high = 0x80

pub data IoPriority : Type 0 where
  io_idle io_low io_normal io_high : IoPriority

unfoldable pub parse_io_priority : Text → Option IoPriority
unfolding text_eq
parse_io_priority raw =
    let v = to_lower (trim_space raw) in
    if text_eq v (bytes "idle")
    then some io_idle
    else if text_eq v (bytes "low")
    then some io_low
    else if text_eq v (bytes "normal")
    then some io_normal
    else if text_eq v (bytes "high")
    then some io_high
    else none

unfoldable pub windows_io_priority : IoPriority → ℕ
windows_io_priority io_idle = 0
windows_io_priority io_low = 1
windows_io_priority io_normal = 2
windows_io_priority io_high = 3

-- `WindowsCPUWeight`, whose sum of 32-bit integers wraps around.
unfoldable pub windows_cpu_weight : ℕ → ℕ
windows_cpu_weight n =
    let w = ((n + 1110) % 2 ^ 32) / 1111 in if ltb w 1 then 1 else if ltb 9 w then 9 else w

-- `WindowsCPURate`, in hundredths of a percent.
unfoldable pub windows_cpu_rate : ℕ → ℕ
windows_cpu_rate percent = (percent * 100) % 2 ^ 32
