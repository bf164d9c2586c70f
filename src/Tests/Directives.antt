-- ===== src/Tests/Directives.antt =====
-- Command lines, environments and resource limits.
use winunitd.Common.{
  true, false, map, ℕ, some, List, [], ◌∷◌, ◌++◌, ◌≡◌, ◌≢◌, refl, All, arith, Option,
}
use winunitd.Common.Decimal.{is_digit, decimal}
use winunitd.Common.Result.{ok}
use winunitd.Common.Strings.{only, Without, split}
use winunitd.Common.Text.{has_suffix, Text, bytes, trim_space, has_prefix}
use winunitd.Unit.Account.{notify, account, takes_user, finish_user, trim_prefix}
use winunitd.Unit.Account.Checked.{IsOrdinary, finish_user-IsOrdinary}
use winunitd.Unit.Command.{split_command, build_argv, is_json_array, quote}
use winunitd.Unit.Command.Quoted.{print_command, split_command-print_command}
use winunitd.Unit.Command.Whole.{element, build_argv-ways}
use winunitd.Unit.Environment.{EnvVar, parse_environment}
use winunitd.Unit.Environment.Assigned.{
  print_environment, IsQuotable, parse_environment-print_environment,
}
use winunitd.Unit.Limits.{parse_memory_max}
use winunitd.Unit.Limits.Memory.{giga, letter, parse_memory_max-decimal}

split_command-print_command_example :
    split_command (print_command (bytes "a b.exe") (bytes "-v" ∷ [] ∷ []))
    ≡ ok (bytes "a b.exe" ∷ bytes "-v" ∷ [] ∷ [])
split_command-print_command_example =
    split_command-print_command (bytes "a b.exe") (bytes "-v" ∷ [] ∷ [])
      ((refl, (refl, (refl, (refl, (refl, (refl, (refl, tt))))))), ((refl, (refl, tt)), (tt, tt)))

abbrev path_var : EnvVar
path_var = record { name = bytes "P"; value = bytes "a b" }

abbrev quoted_var : EnvVar
quoted_var = record { name = bytes "Q"; value = bytes "\"" }

abbrev some_vars : List (ℕ × EnvVar)
some_vars = (0x22, path_var) ∷ (0x27, quoted_var) ∷ []

p_ne_nil : ◌≢◌ {A = Text} (bytes "P") []
p_ne_nil h = cc

q_ne_nil : ◌≢◌ {A = Text} (bytes "Q") []
q_ne_nil h = cc

some_vars-IsQuotable : All IsQuotable some_vars
some_vars-IsQuotable = (
  (refl, (refl, (refl, (refl, (refl, (refl, tt))))), (refl, tt), p_ne_nil),
  ((refl, (refl, (refl, (refl, tt))), (refl, tt), q_ne_nil), tt),
)

parse_environment-print_environment_example :
    parse_environment (print_environment some_vars) ≡ ok (path_var ∷ quoted_var ∷ [])
parse_environment-print_environment_example =
    parse_environment-print_environment some_vars some_vars-IsQuotable

parse_memory_max-decimal_example : parse_memory_max (decimal 2 ++ letter giga) ≡ some 2147483648
parse_memory_max-decimal_example = parse_memory_max-decimal 2 giga (omega arith)

-- A JSON reader that knows arrays of strings without commas, brackets or escapes.
abbrev but_last : Text → Text
but_last [] = []
but_last (c ∷ []) = []
but_last (c ∷ (d ∷ s)) = c ∷ but_last (d ∷ s)

abbrev inside : Text → Text
inside [] = []
inside (_ ∷ s) = but_last s

unfoldable plain_elements : Text → Option (List Text)
unfolding split
plain_elements s = some (split 0x2C (inside s))

unfoldable plain_string : Text → Option Text
plain_string s = some (inside s)

abbrev closed_quote : Text → Text
closed_quote x = x ++ quote ∷ []

abbrev program : Text
program = bytes "my app"

array_is_read :
    plain_elements (trim_space (bytes " [\"my app\",\"-v\"] "))
    ≡ some (map (element closed_quote) (program ∷ bytes "-v" ∷ []))
unfolding plain_elements trim_space has_prefix
array_is_read = refl

strings_are_read :
    All (λ x. plain_string (element closed_quote x) ≡ some x) (program ∷ bytes "-v" ∷ [])
unfolding plain_string
strings_are_read = (refl, (refl, tt))

no_quotes : All (Without quote) (program ∷ bytes "-v" ∷ bytes "" ∷ bytes "x" ∷ [])
no_quotes = (
  (refl, (refl, (refl, (refl, (refl, (refl, tt)))))),
  ((refl, (refl, tt)), (tt, ((refl, tt), tt))),
)

line_is_printed :
    trim_space (bytes " \"my app\" -v \"\" x ")
    ≡ print_command program (bytes "-v" ∷ bytes "" ∷ bytes "x" ∷ [])
unfolding trim_space print_command
line_is_printed = refl

line_is_no_array : is_json_array (trim_space (bytes " \"my app\" -v \"\" x ")) ≡ false
unfolding trim_space is_json_array has_prefix
line_is_no_array = refl

name_is_trimmed : trim_space (bytes " my app ") ≡ program
unfolding trim_space
name_is_trimmed = refl

name_is_no_array : is_json_array (trim_space (bytes " my app ")) ≡ false
unfolding trim_space is_json_array has_prefix
name_is_no_array = refl

array_is_array : is_json_array (trim_space (bytes " [\"my app\",\"-v\"] ")) ≡ true
unfolding trim_space is_json_array has_prefix
array_is_array = refl

build_argv-ways_example :
    (build_argv plain_elements plain_string (bytes " \"my app\" -v \"\" x ") []
      ≡ ok (program ∷ bytes "-v" ∷ bytes "" ∷ bytes "x" ∷ []))
    × (build_argv plain_elements plain_string
          (bytes " my app ")
          (bytes "-v" ∷ bytes "" ∷ bytes "x" ∷ [])
        ≡ ok (program ∷ bytes "-v" ∷ bytes "" ∷ bytes "x" ∷ []))
    × (build_argv plain_elements plain_string
          (bytes " [\"my app\",\"-v\"] ")
          (bytes "" ∷ bytes "x" ∷ [])
        ≡ ok (program ∷ bytes "-v" ∷ bytes "" ∷ bytes "x" ∷ []))
build_argv-ways_example =
    build_argv-ways plain_elements plain_string closed_quote 0x6D (bytes "y app") (bytes "-v" ∷ [])
      (bytes "") (bytes "x" ∷ []) (bytes " \"my app\" -v \"\" x ") (bytes " my app ")
      (bytes " [\"my app\",\"-v\"] ") no_quotes line_is_printed line_is_no_array name_is_trimmed
      name_is_no_array array_is_array array_is_read strings_are_read

abbrev sid : Text
sid = bytes " s-1-5-21-7 "

sid_accepted : finish_user 2 notify sid ≡ account (bytes "S-1-5-21-7")
unfolding finish_user trim_space trim_prefix has_suffix only is_digit
sid_accepted = refl

finish_user-IsOrdinary_example :
    (◌≡◌ {A = ℕ} 2 2) × (takes_user notify ≡ true) × IsOrdinary (bytes "S-1-5-21-7")
finish_user-IsOrdinary_example =
    finish_user-IsOrdinary 2 notify sid (bytes "S-1-5-21-7") sid_accepted
