-- ===== src/Unit/Ini/Printing.antt =====
-- How sections are written: a line for each header and each directive.
use winunitd.Common.{
  ℕ, ◌+◌, List, [], ◌∷◌, ◌++◌, map, ◌≡◌, ◌≢◌, true, false, All, length, ◌==◌, Bool, ◌&&◌, ◌||◌, not,
}
use winunitd.Common.Strings.{Without}
use winunitd.Common.Text.{Text, trim_space}
use winunitd.Unit.Ini.{IniEntry, IniSection, is_line_continuation}

abbrev pub header_line : Text → Text
header_line name = b'[' ∷ (name ++ b']' ∷ [])

abbrev pub entry_line : IniEntry → Text
entry_line e = e.key ++ (b'=' ∷ e.value)

abbrev pub section_lines : IniSection → List Text
section_lines s = header_line s.name ∷ map entry_line s.entries

abbrev pub file_lines : List IniSection → List Text
file_lines [] = []
file_lines (s ∷ ss) = section_lines s ++ file_lines ss

-- Each line with a line feed.
abbrev pub unlines : List Text → Text
unlines [] = []
unlines (l ∷ ls) = (l ++ 10 ∷ []) ++ unlines ls

unfoldable pub print_ini : List IniSection → Text
print_ini ss = unlines (file_lines ss)

-- The sections with the numbers of the lines that they are printed on, from line `i` on.
abbrev pub numbered_entries : ℕ → List IniEntry → List IniEntry
numbered_entries i [] = []
numbered_entries i (e ∷ es) = record e { line = i } ∷ numbered_entries (i + 1) es

abbrev pub numbered : ℕ → List IniSection → List IniSection
numbered i [] = []
numbered i (s ∷ ss) =
    record s { line = i; entries = numbered_entries (i + 1) s.entries }
    ∷ numbered (i + 1 + length s.entries) ss

-- A text on one line.
abbrev pub OneLine : Text → Type 0
OneLine s = Without 10 s × Without 13 s

-- The first byte of a directive's line tells it from a comment and a header.
abbrev pub starts_directive : Text → Bool
starts_directive [] = false
starts_directive (c ∷ s) = not (c == b'#' || c == b';') && not (c == b'[')

pub record IsPlainEntry (e : IniEntry) : Type 0 where
  pub one_line : OneLine (entry_line e)
  pub key_trimmed : trim_space e.key ≡ e.key
  pub key_starts : starts_directive e.key ≡ true
  pub key_whole : Without b'=' e.key
  pub value_trimmed : trim_space e.value ≡ e.value
  pub no_continuation : is_line_continuation (entry_line e) ≡ false

pub record IsPlainSection (s : IniSection) : Type 0 where
  pub one_line : OneLine (header_line s.name)
  pub name_trimmed : trim_space s.name ≡ s.name
  pub named : s.name ≢ []
  pub entries : All IsPlainEntry s.entries
