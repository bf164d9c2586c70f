-- ===== src/Unit/Name.antt =====
-- internal/unit/path.go: unit names, their kinds, and file paths. Texts are ASCII bytes.
pub mod Normal
use winunitd.Common.{
  ℕ, ◌+◌, ◌<◌, ◌≡◌, Bool, true, false, ◌&&◌, ◌||◌, Option, none, some, List, [], ◌∷◌, ◌++◌, ltb,
  leb, ◌==◌, if◌then◌else◌, length,
}
use winunitd.Common.Text.{
  Text, bytes, text_eq, to_lower, is_space, trim_left, trim_right, trim_space, has_suffix,
  has_prefix,
}

-- `type Kind` of types.go.
pub data Kind : Type 0 where
  service timer target registry event_log path_kind : Kind

-- What `KindFromName` reports for another name: the suffix from the last dot, or that there is none.
pub data KindResult : Type 0 where
  kind : Kind → KindResult
  unsupported : Text → KindResult
  no_suffix : KindResult

-- `strings.LastIndex(name, ".")`, as the text from there on.
from_last : (ℕ → Bool) → Text → Option Text
from_last p [] = none
from_last p (c ∷ s) = elim (from_last p s) [
  | some t ↦ some t
  | none ↦ if p c then some (c ∷ s) else none
]

unsupported_kind : Text → KindResult
unfolding from_last
unsupported_kind name = elim (from_last (λ c. c == b'.') name) [
  | some suffix ↦ unsupported suffix
  | none ↦ no_suffix
]

unfoldable pub kind_from_name : Text → KindResult
unfolding has_suffix to_lower unsupported_kind
kind_from_name name =
    let n = to_lower name in
    if has_suffix n (bytes ".service")
    then kind service
    else if has_suffix n (bytes ".timer")
    then kind timer
    else if has_suffix n (bytes ".target")
    then kind target
    else if has_suffix n (bytes ".registry")
    then kind registry
    else if has_suffix n (bytes ".eventlog")
    then kind event_log
    else if has_suffix n (bytes ".path")
    then kind path_kind
    else unsupported_kind name

-- `KindFromName` returned no error.
unfoldable pub has_kind : Text → Bool
unfolding kind_from_name
has_kind name = elim (kind_from_name name) [ kind _ ↦ true | _ ↦ false ]

qualified : Text → Text
unfolding has_kind
qualified [] = []
qualified (c ∷ s) = if has_kind (c ∷ s) then c ∷ s else (c ∷ s) ++ bytes ".service"

unfoldable pub normalize_name : Text → Text
unfolding to_lower trim_space qualified
normalize_name name = qualified (to_lower (trim_space name))

-- The outcomes of `CheckLinkName`.
pub data LinkCheck : Type 0 where
  valid empty_name dot_name control_character bad_character : LinkCheck

-- The characters of `/\:*?"<>|`.
contains_rune : Text → ℕ → Bool
contains_rune [] r = false
contains_rune (c ∷ s) r = c == r || contains_rune s r

abbrev forbidden : Text
forbidden = b'/' ∷ 0x5c ∷ b':' ∷ b'*' ∷ b'?' ∷ 0x22 ∷ b'<' ∷ b'>' ∷ b'|' ∷ []

-- The loop over the runes.
check_runes : Text → LinkCheck
unfolding contains_rune
check_runes [] = valid
check_runes (r ∷ s) =
    if ltb r 0x20 || r == 0x7f
    then control_character
    else if contains_rune forbidden r
    then bad_character
    else check_runes s

unfoldable pub check_link_name : Text → LinkCheck
unfolding text_eq check_runes
check_link_name name =
    if text_eq name []
    then empty_name
    else if text_eq name (bytes ".") || text_eq name (bytes "..")
    then dot_name
    else check_runes name

unfoldable pub is_slash : ℕ → Bool
is_slash b = b == 0x5c || b == b'/'

-- `strings.TrimRight(path, "/\\")`.
unfoldable pub trim_slashes : Text → Text
unfolding is_slash
trim_slashes [] = []
trim_slashes (c ∷ s) = elim (trim_slashes s) [
  | [] ↦ if is_slash c then [] else c ∷ []
  | d ∷ t ↦ c ∷ d ∷ t
]

-- `p[i+1:]` behind `strings.LastIndexAny(p, "/\\")`, or all of `p`.
unfoldable pub base : Text → Text
unfolding from_last is_slash
base p = elim (from_last is_slash p) [ some (c ∷ t) ↦ t | some [] ↦ p | none ↦ p ]

unfoldable pub unit_name_from_path : Text → Text
unfolding trim_slashes base
unit_name_from_path path = elim (trim_slashes path) [ [] ↦ path | c ∷ p ↦ base (c ∷ p) ]

is_drive_letter : ℕ → Bool
is_drive_letter b = leb b'A' b && leb b b'Z' || leb b'a' b && leb b b'z'

drive_abs : Text → Bool
unfolding is_drive_letter is_slash
drive_abs (a ∷ b ∷ c ∷ s) = is_drive_letter a && (b == b':' && is_slash c)
drive_abs _ = false

unfoldable pub windows_abs : Text → Bool
unfolding trim_space has_prefix drive_abs
windows_abs p =
    let t = trim_space p in
    if text_eq t []
    then false
    else if has_prefix t (0x5c ∷ 0x5c ∷ []) || has_prefix t (bytes "//")
    then ltb 2 (length t)
    else drive_abs t
