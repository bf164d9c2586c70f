-- ===== src/Core/Restart.antt =====
-- internal/core/restart.go: which exits are followed by a restart, and the reason that status
-- shows for a stored error.
pub mod Policies
pub mod Reason
use winunitd.Common.{
  ℕ, ◌+◌, ◌-◌, ◌*◌, ◌^◌, Bool, true, false, ◌&&◌, ◌||◌, not, Option, none, some, List, [], ◌∷◌,
  ◌++◌, ◌==◌, ltb, leb, if◌then◌else◌,
}
use winunitd.Common.Text.{Text, bytes, text_eq, has_prefix, trim_space}

pub data ExitKind : Type 0 where
  exit_success exit_failure exit_abnormal exit_watchdog exit_resource_limit : ExitKind

-- The values of `unit.RestartPolicy`; a policy is the text of `Restart=`.
abbrev pub restart_no : Text
restart_no = bytes "no"

abbrev pub restart_always : Text
restart_always = bytes "always"

abbrev pub restart_on_failure : Text
restart_on_failure = bytes "on-failure"

abbrev pub restart_on_watchdog : Text
restart_on_watchdog = bytes "on-watchdog"

abbrev is_success : ExitKind → Bool
is_success exit_success = true
is_success _ = false

abbrev is_watchdog : ExitKind → Bool
is_watchdog exit_watchdog = true
is_watchdog _ = false

unfoldable pub should_restart : Text → ExitKind → Bool
unfolding text_eq
should_restart policy kind =
    if text_eq policy restart_always
    then true
    else if text_eq policy restart_on_failure
    then not (is_success kind)
    else if text_eq policy restart_on_watchdog
    then is_watchdog kind
    else false

abbrev pub reason_resource_limit : Text
reason_resource_limit = bytes "resource-limit"

abbrev pub reason_signal_equivalent : Text
reason_signal_equivalent = bytes "signal-equivalent"

abbrev pub reason_start_limit : Text
reason_start_limit = bytes "start-limit"

abbrev pub reason_configuration : Text
reason_configuration = bytes "configuration"

-- `strconv.ParseUint(s, 10, 32)`: decimal digits, at least one, and a value below 2 ^ 32.
unfoldable pub parse_digits : ℕ → Text → Option ℕ
parse_digits acc [] = some acc
parse_digits acc (c ∷ s) =
    let rest = parse_digits (acc * 10 + (c - b'0')) s in
    if leb b'0' c && leb c b'9' then rest else none

unfoldable pub parse_uint32 : Text → Option ℕ
parse_uint32 [] = none
parse_uint32 (c ∷ s) = elim (parse_digits 0 (c ∷ s)) [
  | none ↦ none
  | some n ↦ if ltb n (2 ^ 32) then some n else none
]

-- `s[len(prefix):]` behind `strings.HasPrefix(s, prefix)`.
unfoldable pub cut_prefix : Text → Text → Option Text
cut_prefix s [] = some s
cut_prefix [] (p ∷ ps) = none
cut_prefix (c ∷ s) (p ∷ ps) = if c == p then cut_prefix s ps else none

abbrev pub exit_status : Text
exit_status = bytes "exit status "

unfoldable pub signal_equivalent_exit_status : Text → Bool
signal_equivalent_exit_status err = elim (cut_prefix err exit_status) [
  | none ↦ false
  | some rest ↦ elim (parse_uint32 (trim_space rest)) [ none ↦ false | some n ↦ leb 0xC0000000 n ]
]

-- The reason alone, or followed by a colon or a space.
abbrev names_reason : Text → Text → Bool
names_reason err reason =
    text_eq err reason
    || (has_prefix err (reason ++ bytes ":") || has_prefix err (reason ++ bytes " "))

unfoldable pub status_reason : Text → Text
unfolding text_eq has_prefix
status_reason err =
    if text_eq err reason_resource_limit
    then reason_resource_limit
    else if names_reason err reason_signal_equivalent || signal_equivalent_exit_status err
    then reason_signal_equivalent
    else if text_eq err reason_start_limit
    then reason_start_limit
    else if names_reason err reason_configuration
    then reason_configuration
    else []
