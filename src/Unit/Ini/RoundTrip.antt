-- ===== src/Unit/Ini/RoundTrip.antt =====
-- Sections printed and read.
use mathlib.Core.List.{append_assoc, append-nil}
use winunitd.Common.{
  ℕ, ◌+◌, false, List, [], ◌∷◌, ◌++◌, map, ◌≡◌, refl, ap, sym, ◌∙◌, arith, All, length,
}
use winunitd.Common.Text.{Text, trim_space, trim_left, trim_right}
use winunitd.Unit.Ini.{
  IniEntry, IniSection, Scan, scan_trimmed, scan_line, scan_lines, parse_ini, strip_bom,
  is_line_continuation, join_continuations, split_lines, scan_joined,
}
use winunitd.Unit.Ini.Printing.{
  header_line, entry_line, section_lines, file_lines, unlines, print_ini, numbered_entries,
  numbered, IsPlainEntry, IsPlainSection,
}
use winunitd.Unit.Ini.Lines.{
  IsWhole, raw_lines, with_last, split_lines-unlines, join_continuations-with_last,
}
use winunitd.Unit.Ini.Scanning.{
  bracket_no_continuation, bracket_no_mark, scan_line-header, scan_line-entry,
}

abbrev made : List IniSection → Scan
made ss = record { sections = ss; issues = [] }

abbrev with_entries : IniSection → List IniEntry → IniSection
with_entries s es = record s { entries = s.entries ++ es }

-- The lines of directives add to the section that is open.
scan_lines-entries :
    (ss : List IniSection) (s : IniSection) (n : ℕ) (es : List IniEntry) (more : List Text)
    → All IsPlainEntry es
    → scan_lines (made (ss ++ s ∷ [])) (raw_lines n (map entry_line es ++ more))
      ≡ scan_lines
          (made (ss ++ with_entries s (numbered_entries n es) ∷ []))
          (raw_lines (n + length es) more)
unfolding scan_lines
scan_lines-entries ss s n [] more h =
    ap (λ es. scan_lines (made (ss ++ record s { entries = es } ∷ [])) (raw_lines n more))
      (sym (append-nil s.entries))
    ∙ ap (λ k. scan_lines (made (ss ++ with_entries s [] ∷ [])) (raw_lines k more)) (omega arith)
scan_lines-entries ss s n (e ∷ es) more h =
    let e' = record e { line = n } in
    let s' = with_entries s (e' ∷ []) in
    ap (λ p. scan_lines p (raw_lines (n + 1) (map entry_line es ++ more)))
      (scan_line-entry (made (ss ++ s ∷ [])) ss s n e.key e.value e.line refl h.0)
    ∙ scan_lines-entries ss s' (n + 1) es more h.1
    ∙ ap
        (λ es'.
          scan_lines (made (ss ++ record s { entries = es' } ∷ []))
            (raw_lines (n + 1 + length es) more))
        (append_assoc s.entries (e' ∷ []) (numbered_entries (n + 1) es))
    ∙ ap
        (λ k.
          scan_lines (made (ss ++ with_entries s (e' ∷ numbered_entries (n + 1) es) ∷ []))
            (raw_lines k more))
        (omega arith)

scan_line-nil : (p : Scan) (n : ℕ) → scan_line p (record { line = n; text = [] }) ≡ p
unfolding scan_line scan_trimmed trim_space trim_left trim_right
scan_line-nil p n = refl

-- The lines of sections add the sections.
scan_lines-file :
    (ss done : List IniSection) (n : ℕ)
    → All IsPlainSection ss
    → scan_lines (made done) (raw_lines n (file_lines ss)) ≡ made (done ++ numbered n ss)
unfolding scan_lines
scan_lines-file [] done n h = rw (scan_line-nil, append-nil) refl
scan_lines-file (s ∷ ss) done n h =
    let s0 : IniSection = record { name = s.name; line = n; entries = [] } in
    let s1 = with_entries s0 (numbered_entries (n + 1) s.entries) in
    ap (λ p. scan_lines p (raw_lines (n + 1) (map entry_line s.entries ++ file_lines ss)))
      (scan_line-header (made done) n s.name h.0.name_trimmed h.0.named)
    ∙ scan_lines-entries done s0 (n + 1) s.entries (file_lines ss) h.0.entries
    ∙ scan_lines-file ss (done ++ s1 ∷ []) (n + 1 + length s.entries) h.1
    ∙ ap made (append_assoc done (s1 ∷ []) (numbered (n + 1 + length s.entries) ss))

-- Every printed line stands on its own.
header_whole : (name : Text) → is_line_continuation (header_line name) ≡ false
header_whole name = ends_in_bracket (b'[' ∷ name)
  where
    ends_in_bracket : (t : Text) → is_line_continuation (t ++ b']' ∷ []) ≡ false
    ends_in_bracket t = bracket_no_continuation t

entries-IsWhole : (es : List IniEntry) → All IsPlainEntry es → All IsWhole (map entry_line es)
entries-IsWhole [] h = tt
entries-IsWhole (e ∷ es) h = ((h.0.one_line, h.0.no_continuation), entries-IsWhole es h.1)

All-append : (xs ys : List Text) → All IsWhole xs → All IsWhole ys → All IsWhole (xs ++ ys)
All-append [] ys h k = k
All-append (x ∷ xs) ys h k = (h.0, All-append xs ys h.1 k)

file-IsWhole : (ss : List IniSection) → All IsPlainSection ss → All IsWhole (file_lines ss)
file-IsWhole [] h = tt
file-IsWhole (s ∷ ss) h =
    All-append (section_lines s) (file_lines ss)
      ((h.0.one_line, header_whole s.name), entries-IsWhole s.entries h.0.entries)
      (file-IsWhole ss h.1)

strip_bom-print_ini : (ss : List IniSection) → strip_bom (print_ini ss) ≡ print_ini ss
unfolding print_ini strip_bom
strip_bom-print_ini [] = refl
strip_bom-print_ini (s ∷ ss) =
    no_mark ((s.name ++ b']' ∷ []) ++ 10 ∷ []) (unlines (map entry_line s.entries ++ file_lines ss))
  where
    no_mark : (t u : Text) → strip_bom (b'[' ∷ (t ++ u)) ≡ b'[' ∷ (t ++ u)
    no_mark t u = bracket_no_mark (t ++ u)

split_lines-print_ini :
    (ss : List IniSection)
    → All IsWhole (file_lines ss)
    → split_lines (print_ini ss) ≡ with_last (file_lines ss)
unfolding print_ini
split_lines-print_ini ss h = split_lines-unlines (file_lines ss) h

-- Sections whose lines are plain are read back, without an issue, from what is printed of them:
-- with the same names, keys and values in the same order, and the numbers of the printed lines.
pub parse_ini-print_ini :
    (ss : List IniSection)
    → All IsPlainSection ss
    → parse_ini (print_ini ss) ≡ record { sections = numbered 1 ss; issues = [] }
unfolding parse_ini
parse_ini-print_ini ss h =
    let whole = file-IsWhole ss h in
    rw (strip_bom-print_ini ss) (
      ap (λ ls. scan_joined (join_continuations ls)) (split_lines-print_ini ss whole)
      ∙ ap scan_joined (join_continuations-with_last (file_lines ss) whole)
      ∙ scan_lines-file ss [] 1 h)
