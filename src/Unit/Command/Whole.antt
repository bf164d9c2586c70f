-- ===== src/Unit/Command/Whole.antt =====
-- Command lines without unquoted spaces, and the commands that are built.
use mathlib.Core.List.{append-nil}
use winunitd.Common.{
  ◌+◌, All, map, some, ℕ, true, false, ◌&&◌, not, Option, List, [], ◌∷◌, ◌++◌, ◌≡◌, refl, ap, sym,
  ◌∙◌, ◌==◌, Bool-cases, inl, inr, length,
}
use winunitd.Common.Result.{Result, ok, err}
use winunitd.Common.Text.{Text, is_space, trim_space, has_prefix}
use winunitd.Unit.Command.{
  CommandError, no_text, Words, quote, split_rune, split_runes, end_command, split_command,
  no_words, unquoted_space, exec_start_has_unquoted_whitespace, base_argv, build_argv, no_text,
  json_strings, parse_json_argv, is_json_array,
}
use winunitd.Unit.Command.Quoted.{print_command, split_command-print_command}
use winunitd.Common.Strings.{Without}

-- A byte that ends no word keeps the words.
step_keeps :
    (w : Words) (c : ℕ) (s : Text)
    → unquoted_space w.in_quote (c ∷ s) ≡ false
    → ((split_rune w c).args ≡ w.args) × (unquoted_space (split_rune w c).in_quote s ≡ false)
unfolding split_rune unquoted_space
step_keeps w c s h = elim (Bool-cases (c == quote)) [
  | inl e ↦ rw e (refl, rw e at h)
  | inr e ↦ elim (Bool-cases (is_space c && not w.in_quote)) [
    | inl k ↦ let no : true ≡ false = (rw (e, k) at h) in cc
    | inr k ↦ rw (e, k) (refl, rw (e, k) at h)
  ]
]

runes_keep :
    (w : Words) (s : Text) → unquoted_space w.in_quote s ≡ false → (split_runes w s).args ≡ w.args
unfolding split_runes
runes_keep w [] h = refl
runes_keep w (c ∷ s) h =
    let (same, later) = step_keeps w c s h in runes_keep (split_rune w c) s later ∙ same

abbrev args_count : Result CommandError (List Text) → ℕ
args_count (ok args) = length args
args_count (err e) = 1

one_word : (w : Words) → w.args ≡ [] → args_count (end_command w) ≡ 1
one_word w e = elim (Bool-cases w.in_quote) [
  | inl q ↦ rw q refl
  | inr q ↦ elim (Bool-cases w.started) [ inl b ↦ rw (q, b, e) refl | inr b ↦ rw (q, b, e) refl ]
]

-- A command line that has no space outside quotes gives one argument, where it gives any.
whole_command :
    (s : Text) (args : List Text)
    → exec_start_has_unquoted_whitespace s ≡ false
    → split_command s ≡ ok args
    → length args ≡ 1
unfolding exec_start_has_unquoted_whitespace split_command
whole_command s args h e =
    sym (ap args_count e) ∙ one_word (split_runes no_words s) (runes_keep no_words s h)

-- An element of a JSON array that is a string: a quote, and what follows it.
abbrev pub element : (Text → Text) → Text → Text
element rest x = quote ∷ rest x

json_strings-map :
    (elements : Text → Option (List Text)) (string_of : Text → Option Text) (rest : Text → Text)
    (i : ℕ) (xs : List Text)
    → All (λ x. string_of (element rest x) ≡ some x) xs
    → json_strings elements string_of i (map (element rest) xs) ≡ ok xs
unfolding json_strings
json_strings-map elements string_of rest i [] h = refl
json_strings-map elements string_of rest i (x ∷ xs) h =
    rw (h.0, json_strings-map elements string_of rest (i + 1) xs h.1) refl

some_text :
    (raw a : Text) (args : List Text) → split_command raw ≡ ok (a ∷ args) → no_text raw ≡ false
unfolding split_command split_runes
some_text [] a args h = cc
some_text (x ∷ raw) a args h = refl

array_text : (raw : Text) → is_json_array raw ≡ true → no_text raw ≡ false
unfolding is_json_array trim_space has_prefix
array_text [] h = cc
array_text (x ∷ raw) h = refl

module _ (elements : Text → Option (List Text)) (string_of : Text → Option Text) where
  build_argv-line :
      (line : Text) (c : ℕ) (s : Text) (args : List Text)
      → All (Without quote) ((c ∷ s) ∷ args)
      → trim_space line ≡ print_command (c ∷ s) args
      → is_json_array (trim_space line) ≡ false
      → build_argv elements string_of line [] ≡ ok ((c ∷ s) ∷ args)
  unfolding build_argv base_argv
  build_argv-line line c s args h l lj =
      let split_line : split_command (trim_space line) ≡ ok ((c ∷ s) ∷ args) =
        rw l (split_command-print_command (c ∷ s) args h) in
      rw (some_text (trim_space line) (c ∷ s) args split_line, lj, split_line, append-nil) refl

  build_argv-named :
      (named : Text) (c : ℕ) (s : Text) (args : List Text) (b : Text) (extra : List Text)
      → trim_space named ≡ c ∷ s
      → is_json_array (trim_space named) ≡ false
      → build_argv elements string_of named (args ++ b ∷ extra) ≡ ok ((c ∷ s) ∷ args ++ b ∷ extra)
  unfolding build_argv base_argv
  build_argv-named named c s [] b extra n nj = rw (n, rw n at nj) refl
  build_argv-named named c s (d ∷ args) b extra n nj = rw (n, rw n at nj) refl

  build_argv-json :
      (rest : Text → Text) (json : Text) (c : ℕ) (s : Text) (args : List Text) (b : Text)
      (extra : List Text)
      → is_json_array (trim_space json) ≡ true
      → elements (trim_space json) ≡ some (map (element rest) ((c ∷ s) ∷ args))
      → All (λ x. string_of (element rest x) ≡ some x) ((c ∷ s) ∷ args)
      → build_argv elements string_of json (b ∷ extra) ≡ ok ((c ∷ s) ∷ args ++ b ∷ extra)
  unfolding build_argv base_argv parse_json_argv
  build_argv-json rest json c s args b extra jj e d =
      let strings = json_strings-map elements string_of rest 0 ((c ∷ s) ∷ args) d in
      let array : parse_json_argv elements string_of (trim_space json) ≡ ok ((c ∷ s) ∷ args) =
        rw (parse_json_argv, e, strings) refl in
      rw (array_text (trim_space json) jj, jj, array) refl

-- The ways to write a command give the same arguments: a line with spaces between the arguments and
-- quotes where they are needed; the program alone, where the other arguments, of which there is one
-- at least, are given beside it; and a JSON array, which may give the first of them and have the
-- others beside it. The arguments have no quote, the name of the program is not empty, has no space
-- around it and, like the line, does not begin as a JSON array; blanks around the texts do not
-- matter. `elements` gives the elements of the array, and `string_of` decodes each of them.
pub build_argv-ways :
    (elements : Text → Option (List Text)) (string_of : Text → Option Text) (rest : Text → Text)
    (c : ℕ) (s : Text) (args : List Text) (b : Text) (extra : List Text) (line named json : Text)
    → All (Without quote) ((c ∷ s) ∷ args ++ b ∷ extra)
    → trim_space line ≡ print_command (c ∷ s) (args ++ b ∷ extra)
    → is_json_array (trim_space line) ≡ false
    → trim_space named ≡ c ∷ s
    → is_json_array (trim_space named) ≡ false
    → is_json_array (trim_space json) ≡ true
    → elements (trim_space json) ≡ some (map (element rest) ((c ∷ s) ∷ args))
    → All (λ x. string_of (element rest x) ≡ some x) ((c ∷ s) ∷ args)
    → (build_argv elements string_of line [] ≡ ok ((c ∷ s) ∷ args ++ b ∷ extra))
      × (build_argv elements string_of named (args ++ b ∷ extra) ≡ ok ((c ∷ s) ∷ args ++ b ∷ extra))
      × (build_argv elements string_of json (b ∷ extra) ≡ ok ((c ∷ s) ∷ args ++ b ∷ extra))
unfolding build_argv base_argv
build_argv-ways elements string_of rest c s args b extra line named json plain l lj n nj jj e d = (
  build_argv-line elements string_of line c s (args ++ b ∷ extra) plain l lj,
  build_argv-named elements string_of named c s args b extra n nj,
  build_argv-json elements string_of rest json c s args b extra jj e d,
)
