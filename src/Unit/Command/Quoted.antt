-- ===== src/Unit/Command/Quoted.antt =====
-- Command lines with arguments in quotes where these are needed.
use mathlib.Core.List.{append_assoc, append-nil}
use winunitd.Common.{
  ℕ, Bool, true, false, ◌&&◌, not, List, [], ◌∷◌, ◌++◌, ◌≡◌, refl, ap, ◌∙◌, arith, ◌==◌,
  if◌then◌else◌, Bool-cases, inl, inr, All,
}
use winunitd.Common.Result.{ok}
use winunitd.Common.Strings.{only, Without}
use winunitd.Common.Text.{Text, is_space}
use winunitd.Unit.Command.{
  Words, quote, split_rune, split_runes, some_args, end_command, split_command,
}

-- A byte that may stand in an argument without quotes.
abbrev pub is_bare : ℕ → Bool
is_bare c = not (c == quote) && not (is_space c)

abbrev pub needs_no_quote : Text → Bool
needs_no_quote [] = false
needs_no_quote (c ∷ s) = only is_bare (c ∷ s)

unfoldable pub print_arg : Text → Text
unfolding only
print_arg a = if needs_no_quote a then a else quote ∷ a ++ quote ∷ []

-- Arguments, with a space between them.
unfoldable pub print_command : Text → List Text → Text
unfolding print_arg
print_command a [] = print_arg a
print_command a (b ∷ bs) = print_arg a ++ (b' ' ∷ print_command b bs)

abbrev quoting : List Text → Text → Words
quoting args cur = record { args = args; cur = cur; in_quote = true; started = true }

abbrev word : List Text → Text → Words
word args cur = record { args = args; cur = cur; in_quote = false; started = true }

abbrev between : List Text → Words
between args = record { args = args; cur = []; in_quote = false; started = false }

step_quoting :
    (args : List Text) (cur : Text) (c : ℕ)
    → (c == quote) ≡ false
    → split_rune (quoting args cur) c ≡ quoting args (cur ++ c ∷ [])
unfolding split_rune
step_quoting args cur c h = elim (Bool-cases (is_space c)) [
  | inl e ↦ rw (h, e) refl
  | inr e ↦ rw (h, e) refl
]

in_quotes :
    (args : List Text) (cur a rest : Text)
    → Without quote a
    → split_runes (quoting args cur) (a ++ rest) ≡ split_runes (quoting args (cur ++ a)) rest
unfolding split_runes
in_quotes args cur [] rest h = rw append-nil refl
in_quotes args cur (c ∷ a) rest h =
    ap (λ w. split_runes w (a ++ rest)) (step_quoting args cur c h.0)
    ∙ in_quotes args (cur ++ c ∷ []) a rest h.1
    ∙ ap (λ t. split_runes (quoting args t) rest) (append_assoc cur (c ∷ []) a)

step_bare :
    (args : List Text) (cur : Text) (begun : Bool) (c : ℕ)
    → is_bare c ≡ true
    → split_rune (record { args = args; cur = cur; in_quote = false; started = begun }) c
      ≡ word args (cur ++ c ∷ [])
unfolding split_rune
step_bare args cur begun c h =
    let one : (c == quote) ≡ false = ground arith in
    let two : is_space c ≡ false = ground arith in rw (one, two) refl

in_bare :
    (args : List Text) (cur a rest : Text)
    → only is_bare a ≡ true
    → split_runes (word args cur) (a ++ rest) ≡ split_runes (word args (cur ++ a)) rest
unfolding split_runes only
in_bare args cur [] rest h = rw append-nil refl
in_bare args cur (c ∷ a) rest h =
    ap (λ w. split_runes w (a ++ rest)) (step_bare args cur true c (ground arith))
    ∙ in_bare args (cur ++ c ∷ []) a rest (ground arith)
    ∙ ap (λ t. split_runes (word args t) rest) (append_assoc cur (c ∷ []) a)

bare_word :
    (args : List Text) (a rest : Text)
    → needs_no_quote a ≡ true
    → split_runes (between args) (a ++ rest) ≡ split_runes (word args a) rest
unfolding split_runes only
bare_word args [] rest e = cc
bare_word args (c ∷ a) rest e =
    ap (λ w. split_runes w (a ++ rest)) (step_bare args [] false c (ground arith))
    ∙ in_bare args (c ∷ []) a rest (ground arith)

quoted_word :
    (args : List Text) (a rest : Text)
    → Without quote a
    → split_runes (between args) ((quote ∷ a ++ quote ∷ []) ++ rest)
      ≡ split_runes (word args a) rest
unfolding split_runes split_rune
quoted_word args a rest h =
    ap (split_runes (quoting args [])) (append_assoc a (quote ∷ []) rest)
    ∙ in_quotes args [] a (quote ∷ rest) h

-- An argument, in quotes or not, is a word that has not ended.
print_arg-word :
    (args : List Text) (a rest : Text)
    → Without quote a
    → split_runes (between args) (print_arg a ++ rest) ≡ split_runes (word args a) rest
unfolding print_arg
print_arg-word args a rest h = elim (Bool-cases (needs_no_quote a)) [
  | inl e ↦ rw e (bare_word args a rest e)
  | inr e ↦ rw e (quoted_word args a rest h)
]

some_args-append :
    (xs : List Text) (a : Text) (ys : List Text) → some_args (xs ++ a ∷ ys) ≡ ok (xs ++ a ∷ ys)
some_args-append [] a ys = refl
some_args-append (x ∷ xs) a ys = refl

ends :
    (args : List Text) (a : Text) (bs : List Text)
    → All (Without quote) (a ∷ bs)
    → end_command (split_runes (between args) (print_command a bs)) ≡ ok (args ++ a ∷ bs)
unfolding print_command split_runes split_rune is_space
ends args a [] h =
    ap (λ s. end_command (split_runes (between args) s)) (append_nil (print_arg a))
    ∙ ap end_command (print_arg-word args a [] h.0)
    ∙ some_args-append args a []
  where
    append_nil : (s : Text) → s ≡ s ++ []
    append_nil s = rw append-nil refl
ends args a (b ∷ bs) h =
    ap end_command (print_arg-word args a (b' ' ∷ print_command b bs) h.0)
    ∙ ends (args ++ a ∷ []) b bs h.1
    ∙ ap ok (append_assoc args (a ∷ []) (b ∷ bs))

-- Arguments without a quote, of which there is one at least, are read back from a line that has
-- them with spaces between, in quotes where they are empty or have spaces.
pub split_command-print_command :
    (a : Text) (bs : List Text)
    → All (Without quote) (a ∷ bs)
    → split_command (print_command a bs) ≡ ok (a ∷ bs)
unfolding split_command
split_command-print_command a bs h = ends [] a bs h
