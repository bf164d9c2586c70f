-- ===== src/Unit/Environment.antt =====
-- internal/unit/env.go: the assignments of Environment=.
pub mod Assigned
use winunitd.Common.{
  ℕ, Bool, true, false, ◌&&◌, ◌||◌, not, Option, none, some, List, [], ◌∷◌, ◌++◌, if◌then◌else◌,
  ◌==◌,
}
use winunitd.Common.Result.{Result, ok, err, ◌>>=◌}
use winunitd.Common.Strings.{cut}
use winunitd.Common.Text.{Text, is_space}

pub record EnvVar : Type 0 where
  pub name : Text
  pub value : Text

pub data EnvError : Type 0 where
  unterminated : EnvError
  invalid_assignment : Text → EnvError

-- The loop of `splitEnvTokens`: the tokens, the one that is being read, and where it is.
pub record Tokens : Type 0 where
  pub tokens : List Text
  pub cur : Text
  pub in_quote : Bool
  pub quote : ℕ
  pub started : Bool

abbrev pub is_quote : ℕ → Bool
is_quote c = c == 0x22 || c == 0x27

abbrev pub end_token : Tokens → Tokens
end_token t =
    if t.started then record t { tokens = t.tokens ++ t.cur ∷ []; cur = []; started = false } else t

unfoldable pub token_rune : Tokens → ℕ → Tokens
token_rune t c =
    if is_quote c && not t.in_quote
    then record t { in_quote = true; quote = c; started = true }
    else if t.in_quote && c == t.quote
    then record t { in_quote = false; quote = 0 }
    else if is_space c && not t.in_quote
    then end_token t
    else record t { cur = t.cur ++ c ∷ []; started = true }

unfoldable pub token_runes : Tokens → Text → Tokens
token_runes t [] = t
token_runes t (c ∷ s) = token_runes (token_rune t c) s

abbrev pub no_tokens : Tokens
no_tokens = record { tokens = []; cur = []; in_quote = false; quote = 0; started = false }

abbrev pub end_tokens : Tokens → Result EnvError (List Text)
end_tokens t = if t.in_quote then err unterminated else ok (end_token t).tokens

unfoldable pub split_env_tokens : Text → Result EnvError (List Text)
unfolding token_runes
split_env_tokens s = end_tokens (token_runes no_tokens s)

-- What `strings.Cut(tok, "=")` gives, as a variable.
abbrev pub assignment : Text → Text × Option Text → Result EnvError EnvVar
assignment tok (name, none) = err (invalid_assignment tok)
assignment tok ([], some value) = err (invalid_assignment tok)
assignment tok (c ∷ name, some value) = ok (record { name = c ∷ name; value = value })

unfoldable pub assignments : List Text → Result EnvError (List EnvVar)
assignments [] = ok []
assignments (tok ∷ toks) =
    assignment tok (cut b'=' tok) >>= λ v. assignments toks >>= λ vs. ok (v ∷ vs)

-- `parseEnvironment`.
unfoldable pub parse_environment : Text → Result EnvError (List EnvVar)
unfolding split_env_tokens assignments
parse_environment s = split_env_tokens s >>= assignments
