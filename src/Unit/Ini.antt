-- ===== src/Unit/Ini.antt =====
-- internal/unit/ini.go: the lines of a unit file, its sections and its directives. An issue has its
-- line and what the text of its message says; the path and the severity, always an error, are left
-- out.
pub mod Printing
pub mod Lines
pub mod Scanning
pub mod RoundTrip
use winunitd.Common.{
  ℕ, ◌+◌, Bool, true, false, ◌&&◌, ◌||◌, Option, none, some, List, [], ◌∷◌, ◌++◌, if◌then◌else◌,
  ◌==◌,
}
use winunitd.Common.Strings.{cut, split, unix_lines, replace_crlf}
use winunitd.Common.Text.{Text, bytes, text_eq, is_space, trim_space, to_lower}

pub record IniEntry : Type 0 where
  pub key : Text
  pub value : Text
  pub line : ℕ

pub record IniSection : Type 0 where
  pub name : Text
  pub line : ℕ
  pub entries : List IniEntry

pub data Problem : Type 0 where
  malformed_header missing_equals : Text → Problem
  empty_section_name outside_section empty_directive continuation_at_end : Problem

pub record Issue : Type 0 where
  pub line : ℕ
  pub problem : Problem

pub record RawLine : Type 0 where
  pub line : ℕ
  pub text : Text

abbrev pub backslash : ℕ
backslash = 0x5c

-- A space and a backslash at the end.
unfoldable pub is_line_continuation : Text → Bool
is_line_continuation [] = false
is_line_continuation (c ∷ []) = false
is_line_continuation (c ∷ d ∷ []) = is_space c && d == backslash
is_line_continuation (c ∷ d ∷ e ∷ s) = is_line_continuation (d ∷ e ∷ s)

-- `strings.TrimSuffix` of the backslash at the end.
unfoldable pub drop_last : Text → Text
drop_last [] = []
drop_last (c ∷ []) = []
drop_last (c ∷ d ∷ s) = c ∷ drop_last (d ∷ s)

abbrev pub joined : RawLine → List RawLine × List Issue → List RawLine × List Issue
joined r (lines, issues) = (r ∷ lines, issues)

-- The text that starts in line `n` and has taken the lines up to `i`, and the lines behind.
unfoldable pub collect : (n i : ℕ) → Text → List Text → List RawLine × List Issue
unfolding drop_last
collect n i text [] = elim (is_line_continuation text) [
  | true ↦ (
    record { line = n; text = drop_last text } ∷ [],
    record { line = n; problem = continuation_at_end } ∷ [],
  )
  | false ↦ (record { line = n; text = text } ∷ [], [])
]
collect n i text (l ∷ ls) = elim (is_line_continuation text) [
  | true ↦ collect n (i + 1) (drop_last text ++ l) ls
  | false ↦ joined (record { line = n; text = text }) (collect (i + 1) (i + 1) l ls)
]

unfoldable pub join_continuations : List Text → List RawLine × List Issue
join_continuations [] = ([], [])
join_continuations (l ∷ ls) = collect 1 1 l ls

unfoldable pub split_lines : Text → List Text
split_lines s = split 10 (unix_lines s)

unfoldable pub strip_bom : Text → Text
strip_bom (a ∷ b ∷ c ∷ s) = if a == 0xEF && (b == 0xBB && c == 0xBF) then s else a ∷ b ∷ c ∷ s
strip_bom s = s

-- The sections so far, of which the last is `cur`, and the issues.
pub record Scan : Type 0 where
  pub sections : List IniSection
  pub issues : List Issue

abbrev pub report : Scan → ℕ → Problem → Scan
report p n why = record p { issues = p.issues ++ record { line = n; problem = why } ∷ [] }

-- `cur.entries = append(cur.entries, …)`, or none where `cur` is nil.
unfoldable pub add_entry : List IniSection → IniEntry → Option (List IniSection)
add_entry [] e = none
add_entry (s ∷ []) e = some (record s { entries = s.entries ++ e ∷ [] } ∷ [])
add_entry (s ∷ t ∷ ss) e = elim (add_entry (t ∷ ss) e) [ none ↦ none | some ts ↦ some (s ∷ ts) ]

-- What stands before a closing bracket at the end.
unfoldable pub closed_by_bracket : Text → Option Text
closed_by_bracket [] = none
closed_by_bracket (c ∷ []) = if c == b']' then some [] else none
closed_by_bracket (c ∷ d ∷ s) = elim (closed_by_bracket (d ∷ s)) [
  | none ↦ none
  | some inner ↦ some (c ∷ inner)
]

-- A line that starts a section: `rest` is behind the opening bracket.
unfoldable pub scan_header : Scan → ℕ → Text → Scan
unfolding closed_by_bracket text_eq
scan_header p n rest = elim (closed_by_bracket rest) [
  | none ↦ report p n (malformed_header (b'[' ∷ rest))
  | some inner ↦ if text_eq (trim_space inner) [] then report p n empty_section_name else record p {
    sections = p.sections ++ record { name = trim_space inner; line = n; entries = [] } ∷ [];
  }
]

-- The key and what stands behind the equals sign.
unfoldable pub scan_cut : Scan → ℕ → Text → Text × Option Text → Scan
unfolding add_entry text_eq
scan_cut p n trim (before, none) = report p n (missing_equals trim)
scan_cut p n trim (before, some after) =
    if text_eq (trim_space before) []
    then report p n empty_directive
    else elim (add_entry p.sections
        (record { key = trim_space before; value = trim_space after; line = n })) [
          | none ↦ p
          | some sections ↦ record p { sections = sections }
        ]

abbrev pub no_sections : List IniSection → Bool
no_sections [] = true
no_sections (_ ∷ _) = false

-- A line that is neither empty nor a comment nor the start of a section.
unfoldable pub scan_directive : Scan → RawLine → Text → Scan
scan_directive p r trim =
    if no_sections p.sections
    then report p r.line outside_section
    else scan_cut p r.line trim (cut b'=' r.text)

-- One line of the loop, with its trimmed text.
unfoldable pub scan_trimmed : Scan → RawLine → Text → Scan
scan_trimmed p r [] = p
scan_trimmed p r (c ∷ s) =
    if c == b'#' || c == b';'
    then p
    else if c == b'['
    then scan_header p r.line s
    else scan_directive p r (c ∷ s)

unfoldable pub scan_line : Scan → RawLine → Scan
scan_line p r = scan_trimmed p r (trim_space r.text)

unfoldable pub scan_lines : Scan → List RawLine → Scan
scan_lines p [] = p
scan_lines p (r ∷ rs) = scan_lines (scan_line p r) rs

abbrev pub start_scan : List Issue → Scan
start_scan issues = record { sections = []; issues = issues }

abbrev pub scan_joined : List RawLine × List Issue → Scan
scan_joined (lines, issues) = scan_lines (start_scan issues) lines

-- `parseINI`.
unfoldable pub parse_ini : Text → Scan
parse_ini src = scan_joined (join_continuations (split_lines (strip_bom src)))

-- Whether a text is one of some.
abbrev one_of : Text → List Text → Bool
one_of s [] = false
one_of s (t ∷ ts) = text_eq s t || one_of s ts

-- `parseBool`, of the lower-case text; none is its error.
unfoldable pub bool_of : Text → Option Bool
unfolding text_eq
bool_of s =
    if one_of s (bytes "1" ∷ bytes "yes" ∷ bytes "y" ∷ bytes "true" ∷ bytes "t" ∷ bytes "on" ∷ [])
    then some true
    else if one_of s
        (bytes "0" ∷ bytes "no" ∷ bytes "n" ∷ bytes "false" ∷ bytes "f" ∷ bytes "off" ∷ [])
    then some false
    else none

unfoldable pub parse_bool : Text → Option Bool
unfolding bool_of to_lower trim_space
parse_bool s = bool_of (to_lower (trim_space s))

abbrev keep_field : Text → List Text → List Text
keep_field [] fields = fields
keep_field (c ∷ cur) fields = (c ∷ cur) ∷ fields

-- `strings.Fields`, with the field that has been read so far.
unfoldable pub fields_from : Text → Text → List Text
unfolding is_space
fields_from cur [] = keep_field cur []
fields_from cur (c ∷ s) = elim (is_space c) [
  | true ↦ keep_field cur (fields_from [] s)
  | false ↦ fields_from (cur ++ c ∷ []) s
]

unfoldable pub parse_unit_names : Text → List Text
unfolding fields_from
parse_unit_names s = fields_from [] s
