-- ===== src/Journal/Name.antt =====
-- internal/journal/name.go: the file of a unit's journal, and the name back from the file.
pub mod Coded
use winunitd.Common.{
  ℕ, ◌+◌, ◌-◌, ◌*◌, ◌/◌, ◌%◌, Bool, true, false, ◌&&◌, ◌||◌, Option, none, some, List, [], ◌∷◌,
  ◌++◌, if◌then◌else◌, leb, ltb, ◌==◌,
}
use winunitd.Common.Strings.{cut}
use winunitd.Common.Text.{Text, bytes, text_eq, to_lower, trim_space}

-- internal/journal/store.go: `canonicalUnit`.
unfoldable pub canonical_unit : Text → Text
unfolding to_lower trim_space
canonical_unit unit = to_lower (trim_space unit)

unfoldable pub safe_file_byte : ℕ → Bool
safe_file_byte c =
    (leb b'a' c && leb c b'z')
    || ((leb b'A' c && leb c b'Z')
        || ((leb b'0' c && leb c b'9') || (c == b'-' || (c == b'_' || (c == b'.' || c == b'@')))))

-- A digit of `%02X`.
abbrev pub hex_digit : ℕ → ℕ
hex_digit d = if ltb d 10 then b'0' + d else b'A' + (d - 10)

-- "%%%02X" of a byte.
abbrev pub percent : ℕ → Text
percent c = b'%' ∷ hex_digit (c / 16) ∷ hex_digit (c % 16) ∷ []

unfoldable pub encode_bytes : Text → Text
unfolding safe_file_byte
encode_bytes [] = []
encode_bytes (c ∷ s) = if safe_file_byte c then c ∷ encode_bytes s else percent c ++ encode_bytes s

-- "com" or "lpt" and a digit from 1.
abbrev is_port : Text → Bool
is_port (a ∷ b ∷ c ∷ d ∷ []) =
    (text_eq (a ∷ b ∷ c ∷ []) (bytes "com") || text_eq (a ∷ b ∷ c ∷ []) (bytes "lpt"))
    && (leb b'1' d && leb d b'9')
is_port _ = false

abbrev device_name : Text → Bool
device_name s =
    text_eq s (bytes "con")
    || (text_eq s (bytes "prn")
        || (text_eq s (bytes "aux") || (text_eq s (bytes "nul") || is_port s)))

unfoldable pub reserved_device_name : Text → Bool
unfolding text_eq to_lower
reserved_device_name stem = device_name (to_lower stem)

-- The loop of `encodeReservedFileName` over a dot or a space at the end: a replaced byte ends in a
-- hexadecimal digit, so it runs once at most.
unfoldable pub encode_last : Text → Text
encode_last [] = []
encode_last (c ∷ []) = if c == b'.' || c == b' ' then percent c else c ∷ []
encode_last (c ∷ d ∷ s) = c ∷ encode_last (d ∷ s)

-- The name with its first byte encoded where what stands before its first dot is a device.
unfoldable pub encode_device : Text → Text
unfolding reserved_device_name
encode_device [] = []
encode_device (c ∷ s) = if reserved_device_name (cut b'.' (c ∷ s)).0 then percent c ++ s else c ∷ s

unfoldable pub encode_reserved_file_name : Text → Text
encode_reserved_file_name name = encode_device (encode_last name)

abbrev pub unknown : Text
unknown = bytes "_unknown"

unfoldable pub file_stem : Text → Text
unfolding text_eq
file_stem name =
    if text_eq name [] || (text_eq name (bytes ".") || text_eq name (bytes ".."))
    then unknown
    else encode_reserved_file_name name

-- `unitFileName`, of a canonical name.
unfoldable pub file_of : Text → Text
file_of [] = unknown ++ bytes ".log"
file_of (c ∷ s) = file_stem (encode_bytes (c ∷ s)) ++ bytes ".log"

unfoldable pub unit_file_name : Text → Text
unit_file_name unit = file_of (canonical_unit unit)

-- `strconv.ParseUint` of one hexadecimal digit.
unfoldable pub hex_value : ℕ → Option ℕ
hex_value c =
    if leb b'0' c && leb c b'9'
    then some (c - b'0')
    else if leb b'A' c && leb c b'F'
    then some (c - b'A' + 10)
    else if leb b'a' c && leb c b'f'
    then some (c - b'a' + 10)
    else none

unfoldable pub hex_pair : Option ℕ → Option ℕ → Option ℕ
hex_pair (some a) (some b) = some (a * 16 + b)
hex_pair _ _ = none

-- The byte that `%` and two digits stand for.
unfoldable pub escape_value : ℕ → ℕ → ℕ → Option ℕ
unfolding hex_value hex_pair
escape_value c a b = if c == b'%' then hex_pair (hex_value a) (hex_value b) else none

-- The loop of `decodeUnitFileName`.
unfoldable pub decode_bytes : Text → Text
decode_bytes [] = []
decode_bytes (c ∷ []) = c ∷ []
decode_bytes (c ∷ a ∷ []) = c ∷ a ∷ []
decode_bytes (c ∷ a ∷ b ∷ s) = elim (escape_value c a b) [
  | some v ↦ v ∷ decode_bytes s
  | none ↦ c ∷ decode_bytes (a ∷ b ∷ s)
]

-- `strings.CutSuffix`.
unfoldable pub cut_suffix : Text → Text → Option Text
unfolding text_eq
cut_suffix suffix [] = if text_eq [] suffix then some [] else none
cut_suffix suffix (c ∷ s) =
    if text_eq (c ∷ s) suffix
    then some []
    else elim (cut_suffix suffix s) [ none ↦ none | some rest ↦ some (c ∷ rest) ]

unfoldable pub decode_unit_file_name : Text → Option Text
decode_unit_file_name filename = elim (cut_suffix (bytes ".log") filename) [
  | none ↦ none
  | some name ↦ if text_eq name unknown then some [] else some (decode_bytes name)
]
