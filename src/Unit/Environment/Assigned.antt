-- ===== src/Unit/Environment/Assigned.antt =====
-- Lines of assignments, each in quotes.
use mathlib.Core.List.{append_assoc, append-nil}
use winunitd.Common.{
  ℕ, true, false, ◌&&◌, not, some, List, [], ◌∷◌, ◌++◌, ◌≡◌, ◌≢◌, refl, ap, ◌∙◌, arith, ◌==◌, All,
}
use winunitd.Common.Result.{ok, ◌>>=◌}
use winunitd.Common.Strings.{Without, cut, cut-append}
use winunitd.Common.Text.{Text, is_space}
use winunitd.Unit.Environment.{
  EnvVar, Tokens, is_quote, token_rune, token_runes, end_tokens, split_env_tokens, assignment,
  assignments, parse_environment,
}

-- The token of a variable, and the token in quotes.
abbrev pub token : EnvVar → Text
token v = v.name ++ b'=' ∷ v.value

abbrev pub enclosed : ℕ → Text → Text
enclosed q s = q ∷ s ++ q ∷ []

-- Variables, each with its quote, with a space behind each.
abbrev pub print_environment : List (ℕ × EnvVar) → Text
print_environment [] = []
print_environment ((q, v) ∷ vs) = enclosed q (token v) ++ b' ' ∷ print_environment vs

-- A variable that can be written between two of the quote.
abbrev pub IsQuotable : ℕ × EnvVar → Type 0
IsQuotable (q, v) = (is_quote q ≡ true) × Without q (token v) × Without b'=' v.name × (v.name ≢ [])

abbrev reading : ℕ → List Text → Text → Tokens
reading q tokens cur = record {
  tokens = tokens;
  cur = cur;
  in_quote = true;
  quote = q;
  started = true;
}

abbrev between : List Text → Tokens
between tokens = record { tokens = tokens; cur = []; in_quote = false; quote = 0; started = false }

abbrev behind : List Text → Text → Tokens
behind tokens cur = record {
  tokens = tokens;
  cur = cur;
  in_quote = false;
  quote = 0;
  started = true;
}

step_reading :
    (q : ℕ) (tokens : List Text) (cur : Text) (c : ℕ)
    → (c == q) ≡ false
    → token_rune (reading q tokens cur) c ≡ reading q tokens (cur ++ c ∷ [])
unfolding token_rune
step_reading q tokens cur c h =
    let two : (is_quote c && not true) ≡ false = ground arith in
    let three : (is_space c && not true) ≡ false = ground arith in rw (two, h, three) refl

in_quotes :
    (q : ℕ) (tokens : List Text) (cur a rest : Text)
    → Without q a
    → token_runes (reading q tokens cur) (a ++ rest)
      ≡ token_runes (reading q tokens (cur ++ a)) rest
unfolding token_runes
in_quotes q tokens cur [] rest h = rw append-nil refl
in_quotes q tokens cur (c ∷ a) rest h =
    ap (λ t. token_runes t (a ++ rest)) (step_reading q tokens cur c h.0)
    ∙ in_quotes q tokens (cur ++ c ∷ []) a rest h.1
    ∙ ap (λ t. token_runes (reading q tokens t) rest) (append_assoc cur (c ∷ []) a)

opens :
    (q : ℕ) (tokens : List Text)
    → is_quote q ≡ true
    → token_rune (between tokens) q ≡ reading q tokens []
unfolding token_rune
opens q tokens h = rw h refl

closes :
    (q : ℕ) (tokens : List Text) (cur : Text)
    → token_rune (reading q tokens cur) q ≡ behind tokens cur
unfolding token_rune
closes q tokens cur =
    let one : (is_quote q && not true) ≡ false = ground arith in
    let two : (q == q) ≡ true = ground arith in rw (one, two) refl

spaces :
    (tokens : List Text) (a : Text) → token_rune (behind tokens a) b' ' ≡ between (tokens ++ a ∷ [])
unfolding token_rune is_space
spaces tokens a = refl

enclosed-token :
    (q : ℕ) (tokens : List Text) (a rest : Text)
    → is_quote q ≡ true
    → Without q a
    → token_runes (between tokens) (enclosed q a ++ b' ' ∷ rest)
      ≡ token_runes (between (tokens ++ a ∷ [])) rest
unfolding token_runes
enclosed-token q tokens a rest k h =
    ap (λ t. token_runes t ((a ++ q ∷ []) ++ b' ' ∷ rest)) (opens q tokens k)
    ∙ ap (token_runes (reading q tokens [])) (append_assoc a (q ∷ []) (b' ' ∷ rest))
    ∙ in_quotes q tokens [] a (q ∷ b' ' ∷ rest) h
    ∙ ap (λ t. token_runes (token_rune t b' ') rest) (closes q tokens a)
    ∙ ap (λ t. token_runes t rest) (spaces tokens a)

abbrev tokens_of : List (ℕ × EnvVar) → List Text
tokens_of [] = []
tokens_of ((q, v) ∷ vs) = token v ∷ tokens_of vs

-- The variables without their quotes.
abbrev pub variables : List (ℕ × EnvVar) → List EnvVar
variables [] = []
variables ((q, v) ∷ vs) = v ∷ variables vs

ends :
    (tokens : List Text) (vs : List (ℕ × EnvVar))
    → All IsQuotable vs
    → end_tokens (token_runes (between tokens) (print_environment vs)) ≡ ok (tokens ++ tokens_of vs)
unfolding token_runes
ends tokens [] h = rw append-nil refl
ends tokens ((q, v) ∷ vs) (h, hs) =
    ap end_tokens (enclosed-token q tokens (token v) (print_environment vs) h.0 h.1)
    ∙ ends (tokens ++ token v ∷ []) vs hs
    ∙ ap ok (append_assoc tokens (token v ∷ []) (tokens_of vs))

assignment-token :
    (v : EnvVar)
    → Without b'=' v.name
    → v.name ≢ []
    → assignment (token v) (cut b'=' (token v)) ≡ ok v
assignment-token v h n =
    ap (assignment (token v)) (cut-append b'=' v.name v.value h) ∙ named (token v) v.name v.value n
  where
    named :
        (tok name value : Text)
        → name ≢ []
        → assignment tok (name, some value) ≡ ok (record { name = name; value = value })
    named tok [] value n = elim (n refl) [ ]
    named tok (c ∷ name) value n = refl

assignments-tokens_of :
    (vs : List (ℕ × EnvVar)) → All IsQuotable vs → assignments (tokens_of vs) ≡ ok (variables vs)
unfolding assignments
assignments-tokens_of [] h = refl
assignments-tokens_of ((q, v) ∷ vs) (h, hs) =
    rw (assignment-token v h.2 h.3, assignments-tokens_of vs hs) refl

-- Variables with names that are not empty and have no equals sign are read back from a line in which
-- each stands in quotes, single or double, that do not occur in it.
pub parse_environment-print_environment :
    (vs : List (ℕ × EnvVar))
    → All IsQuotable vs
    → parse_environment (print_environment vs) ≡ ok (variables vs)
unfolding parse_environment split_env_tokens
parse_environment-print_environment vs h =
    ap (λ r. r >>= assignments) (ends [] vs h) ∙ assignments-tokens_of vs h
