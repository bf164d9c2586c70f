-- ===== src/Journal/Fragments.antt =====
-- internal/journal/fragments.go: how the output of a process is cut into messages. The input is the
-- runes that the buffered reader gives, and a message is a list of runes.
pub mod Rejoined
use winunitd.Common.{
  ℕ, ◌+◌, ◌*◌, Bool, true, false, ◌||◌, not, List, [], ◌∷◌, ◌++◌, if◌then◌else◌, ltb, ◌==◌,
}

-- 64 << 10.
abbrev pub max_capture_fragment : ℕ
max_capture_fragment = 65536

-- What `emit` is told.
pub record Fragment : Type 0 where
  pub message : List ℕ
  pub continuation : Bool
  pub partial : Bool

-- `utf8.RuneLen`, of a rune.
abbrev pub rune_len : ℕ → ℕ
rune_len r = if ltb r 0x80 then 1 else if ltb r 0x800 then 2 else if ltb r 0x10000 then 3 else 4

-- The number of bytes of runes: `len(buf)`.
abbrev pub byte_len : List ℕ → ℕ
byte_len [] = 0
byte_len (r ∷ s) = rune_len r + byte_len s

-- `strings.TrimRight(s, "\r")`.
unfoldable pub trim_returns : List ℕ → List ℕ
trim_returns [] = []
trim_returns (c ∷ s) = elim (trim_returns s) [
  | [] ↦ if c == 13 then [] else c ∷ []
  | d ∷ t ↦ c ∷ d ∷ t
]

abbrev pub is_empty : List ℕ → Bool
is_empty [] = true
is_empty (_ ∷ _) = false

-- The message of a line, where there is one.
abbrev pub emit_line : List ℕ → Bool → List Fragment → List Fragment
emit_line msg continuation rest =
    if not (is_empty msg) || continuation
    then record { message = msg; continuation = continuation; partial = false } ∷ rest
    else rest

abbrev pub emit_rest : List ℕ → Bool → List Fragment
emit_rest buf continuation =
    if is_empty buf
    then []
    else record { message = buf; continuation = continuation; partial = true } ∷ []

-- The loop of `captureFragments`: what is emitted from here on.
unfoldable pub fragments_from : List ℕ → Bool → List ℕ → List Fragment
unfolding trim_returns
fragments_from buf continuation [] = emit_rest buf continuation
fragments_from buf continuation (ch ∷ s) = elim (ch == 10) [
  | true ↦ emit_line (trim_returns buf) continuation (fragments_from [] false s)
  | false ↦ elim (ltb max_capture_fragment (byte_len buf + rune_len ch)) [
    | true ↦
        record { message = buf; continuation = continuation; partial = true }
        ∷ fragments_from (ch ∷ []) true s
    | false ↦ fragments_from (buf ++ ch ∷ []) continuation s
  ]
]

unfoldable pub capture_fragments : List ℕ → List Fragment
unfolding fragments_from
capture_fragments s = fragments_from [] false s
