-- ===== src/Unit/Command.antt =====
-- internal/unit/exec.go: the command line of a service. `encoding/json` and `os.Stat` are not
-- modelled: what they answer is an argument.
pub mod Quoted
pub mod Whole
use winunitd.Common.{
  Bool, true, false, ◌&&◌, ◌||◌, not, Option, none, some, List, [], ◌∷◌, ◌++◌, if◌then◌else◌, ◌==◌,
  ℕ, ◌+◌,
}
use winunitd.Common.Result.{Result, ok, err, ◌>>=◌}
use winunitd.Common.Text.{Text, is_space, trim_space, has_prefix, bytes}

pub data CommandError : Type 0 where
  empty_command unterminated_quote bad_json empty_json : CommandError
  not_a_string : ℕ → CommandError

-- The loop of `splitCommand`: the arguments, the one that is being read, and where it is.
pub record Words : Type 0 where
  pub args : List Text
  pub cur : Text
  pub in_quote : Bool
  pub started : Bool

abbrev pub quote : ℕ
quote = 0x22

abbrev pub end_word : Words → Words
end_word w =
    if w.started then record w { args = w.args ++ w.cur ∷ []; cur = []; started = false } else w

unfoldable pub split_rune : Words → ℕ → Words
split_rune w c =
    if c == quote
    then record w { in_quote = not w.in_quote; started = true }
    else if is_space c && not w.in_quote
    then end_word w
    else record w { cur = w.cur ++ c ∷ []; started = true }

unfoldable pub split_runes : Words → Text → Words
split_runes w [] = w
split_runes w (c ∷ s) = split_runes (split_rune w c) s

abbrev pub some_args : List Text → Result CommandError (List Text)
some_args [] = err empty_command
some_args (a ∷ args) = ok (a ∷ args)

abbrev pub end_command : Words → Result CommandError (List Text)
end_command w = if w.in_quote then err unterminated_quote else some_args (end_word w).args

abbrev pub no_words : Words
no_words = record { args = []; cur = []; in_quote = false; started = false }

-- `splitCommand`.
unfoldable pub split_command : Text → Result CommandError (List Text)
unfolding split_runes
split_command s = end_command (split_runes no_words s)

-- The loop of `execStartHasUnquotedWhitespace`.
unfoldable pub unquoted_space : Bool → Text → Bool
unquoted_space in_quote [] = false
unquoted_space in_quote (c ∷ s) =
    let toggled = unquoted_space (not in_quote) s in
    let same = unquoted_space in_quote s in
    if c == quote then toggled else if is_space c && not in_quote then true else same

unfoldable pub exec_start_has_unquoted_whitespace : Text → Bool
unfolding unquoted_space
exec_start_has_unquoted_whitespace s = unquoted_space false s

unfoldable pub is_json_array : Text → Bool
is_json_array s = has_prefix (trim_space s) (bytes "[")

abbrev pub no_text : Text → Bool
no_text [] = true
no_text (_ ∷ _) = false

-- `execStartArgFootgun`. `stat` tells of a path that exists whether it is a directory.
unfoldable pub exec_start_arg_footgun : (stat : Text → Option Bool) → Text → Bool
unfolding exec_start_has_unquoted_whitespace is_json_array
exec_start_arg_footgun stat exec_raw =
    let raw = trim_space exec_raw in
    if no_text raw || is_json_array raw
    then false
    else if not (exec_start_has_unquoted_whitespace raw)
    then false
    else elim (stat raw) [ some false ↦ false | _ ↦ true ]

-- `if len(argv) == 0 || argv[0] == ""`.
abbrev pub program_first : List Text → Result CommandError (List Text)
program_first [] = err empty_command
program_first ([] ∷ args) = err empty_command
program_first ((c ∷ s) ∷ args) = ok ((c ∷ s) ∷ args)

abbrev pub no_extra : List Text → Bool
no_extra [] = true
no_extra (_ ∷ _) = false

-- What is read with `encoding/json`: the raw elements of an array, and the string of an element.
module _ (elements : Text → Option (List Text)) (string_of : Text → Option Text) where
  -- The loop of `parseJSONArgv`, with the number of the element.
  unfoldable pub json_strings : ℕ → List Text → Result CommandError (List Text)
  json_strings i [] = ok []
  json_strings i ([] ∷ items) = err (not_a_string i)
  json_strings i ((c ∷ s) ∷ items) = elim (c == quote) [
    | false ↦ err (not_a_string i)
    | true ↦ elim (string_of (c ∷ s)) [
      | none ↦ err (not_a_string i)
      | some str ↦ json_strings (i + 1) items >>= λ out. ok (str ∷ out)
    ]
  ]

  abbrev json_items : List Text → Result CommandError (List Text)
  json_items [] = err empty_json
  json_items (item ∷ items) = json_strings 0 (item ∷ items) >>= program_first

  unfoldable pub parse_json_argv : Text → Result CommandError (List Text)
  unfolding json_strings
  parse_json_argv s = elim (elements s) [ none ↦ err bad_json | some raw ↦ json_items raw ]

  -- The switch of `buildArgv`, of a trimmed text.
  unfoldable pub base_argv : Text → List Text → Result CommandError (List Text)
  unfolding parse_json_argv split_command is_json_array
  base_argv raw extra = if is_json_array raw then parse_json_argv raw else elim extra [
    | [] ↦ split_command raw
    | _ ∷ _ ↦ if no_text raw then err empty_command else ok (raw ∷ [])
  ]

  -- `buildArgv`.
  unfoldable pub build_argv : Text → List Text → Result CommandError (List Text)
  unfolding base_argv
  build_argv exec_raw extra =
      let raw = trim_space exec_raw in
      if no_text raw && no_extra extra
      then err empty_command
      else base_argv raw extra >>= program_first >>= λ argv. ok (argv ++ extra)
