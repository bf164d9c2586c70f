-- ===== src/Unit/Ini/Scanning.antt =====
-- A header line and a directive's line, scanned.
use winunitd.Common.{
  ℕ, true, false, some, List, [], ◌∷◌, ◌++◌, ◌≡◌, ◌≢◌, refl, ap, ◌∙◌, arith, if◌then◌else◌,
}
use winunitd.Common.Strings.{cut-append}
use winunitd.Common.Text.{Text, is_space, trim_space, trim_left, trim_right, text_eq}
use winunitd.Unit.Name.Normal.{starts_solid-trim_space}
use winunitd.Unit.Ini.{
  IniEntry, IniSection, RawLine, Scan, add_entry, closed_by_bracket, scan_header, scan_cut,
  scan_directive, scan_trimmed, scan_line, strip_bom, is_line_continuation, no_sections,
}
use winunitd.Unit.Ini.Printing.{header_line, entry_line, starts_directive, IsPlainEntry}

pub bracket_no_continuation : (t : Text) → is_line_continuation (t ++ b']' ∷ []) ≡ false
unfolding is_line_continuation
bracket_no_continuation [] = refl
bracket_no_continuation (c ∷ []) = ground arith
bracket_no_continuation (c ∷ d ∷ []) = ground arith
bracket_no_continuation (c ∷ d ∷ e ∷ t) = bracket_no_continuation (d ∷ e ∷ t)

pub bracket_no_mark : (t : Text) → strip_bom (b'[' ∷ t) ≡ b'[' ∷ t
unfolding strip_bom
bracket_no_mark [] = refl
bracket_no_mark (c ∷ []) = refl
bracket_no_mark (c ∷ d ∷ t) = refl

-- Trimming leaves a first byte that is no space where it is.
trim_space-solid : (c : ℕ) (s : Text) → is_space c ≡ false → trim_space (c ∷ s) ≡ c ∷ trim_right s
unfolding trim_space trim_left trim_right
trim_space-solid c s h = rw (h, trim_left) (keeps (trim_right s))
  where
    keeps :
        (t : Text)
        → ◌≡◌ {A = Text}
            (elim t [ [] ↦ if is_space c then [] else c ∷ [] | d ∷ r ↦ c ∷ d ∷ r ])
            (c ∷ t)
    keeps [] = rw h refl
    keeps (d ∷ r) = refl

trim_right-snoc : (s : Text) (c : ℕ) → is_space c ≡ false → trim_right (s ++ c ∷ []) ≡ s ++ c ∷ []
unfolding trim_right
trim_right-snoc [] c h = rw h refl
trim_right-snoc (d ∷ []) c h = rw (h, trim_right) refl
trim_right-snoc (d ∷ e ∷ s) c h = rw (trim_right-snoc (e ∷ s) c h, trim_right) refl

closed_by_bracket-snoc : (s : Text) → closed_by_bracket (s ++ b']' ∷ []) ≡ some s
unfolding closed_by_bracket
closed_by_bracket-snoc [] = refl
closed_by_bracket-snoc (d ∷ []) = refl
closed_by_bracket-snoc (d ∷ e ∷ s) = rw (closed_by_bracket-snoc (e ∷ s), closed_by_bracket) refl

-- The text that is trimmed starts with no space.
first_solid : (c : ℕ) (s : Text) → trim_space (c ∷ s) ≡ c ∷ s → is_space c ≡ false
first_solid c s h = ground (arith, rw h at (starts_solid-trim_space (c ∷ s)))

text_eq_nil : (s : Text) → s ≢ [] → text_eq s [] ≡ false
unfolding text_eq
text_eq_nil [] h = absurd (h refl)
text_eq_nil (c ∷ s) h = refl

pub scan_line-header :
    (p : Scan) (n : ℕ) (name : Text)
    → trim_space name ≡ name
    → name ≢ []
    → scan_line p (record { line = n; text = header_line name })
      ≡ record p { sections = p.sections ++ record { name = name; line = n; entries = [] } ∷ [] }
unfolding scan_line scan_trimmed scan_header
scan_line-header p n name t ne =
    rw
      (
        trim_space-solid b'[' (name ++ b']' ∷ []) (unfold is_space in refl),
        trim_right-snoc name b']' (unfold is_space in refl),
        closed_by_bracket-snoc name,
        t,
        text_eq_nil name ne,
        scan_trimmed,
        scan_header,
      )
      refl

add_entry-snoc :
    (ss : List IniSection) (s : IniSection) (e : IniEntry)
    → add_entry (ss ++ s ∷ []) e ≡ some (ss ++ record s { entries = s.entries ++ e ∷ [] } ∷ [])
unfolding add_entry
add_entry-snoc [] s e = refl
add_entry-snoc (t ∷ []) s e = refl
add_entry-snoc (t ∷ u ∷ ss) s e = rw (add_entry-snoc (u ∷ ss) s e, add_entry) refl

some_sections : (ss : List IniSection) (s : IniSection) → no_sections (ss ++ s ∷ []) ≡ false
some_sections [] s = refl
some_sections (t ∷ ss) s = refl

-- The line of a directive, of a key that is not empty.
scan_cut-entry :
    (p : Scan) (ss : List IniSection) (s : IniSection) (n : ℕ) (trim : Text) (e : IniEntry)
    → p.sections ≡ ss ++ s ∷ []
    → trim_space e.key ≡ e.key
    → e.key ≢ []
    → trim_space e.value ≡ e.value
    → scan_cut p n trim (e.key, some e.value) ≡ record p {
      sections = ss ++ record s { entries = s.entries ++ record e { line = n } ∷ [] } ∷ [];
    }
unfolding scan_cut
scan_cut-entry p ss s n trim e at_end k ne v =
    rw (k, text_eq_nil e.key ne, v, at_end, add_entry-snoc ss s (record e { line = n }), scan_cut)
      refl

scan_directive-entry :
    (p : Scan) (ss : List IniSection) (s : IniSection) (n : ℕ) (trim : Text) (e : IniEntry)
    → p.sections ≡ ss ++ s ∷ []
    → IsPlainEntry e
    → e.key ≢ []
    → scan_directive p (record { line = n; text = entry_line e }) trim ≡ record p {
      sections = ss ++ record s { entries = s.entries ++ record e { line = n } ∷ [] } ∷ [];
    }
unfolding scan_directive
scan_directive-entry p ss s n trim e at_end plain ne =
    let some_there : no_sections p.sections ≡ false = ap no_sections at_end ∙ some_sections ss s in
    rw (some_there, cut-append b'=' e.key e.value plain.key_whole)
      (scan_cut-entry p ss s n trim e at_end plain.key_trimmed ne plain.value_trimmed)

-- A trimmed text that is no comment and no header is a directive.
scan_trimmed-directive :
    (p : Scan) (r : RawLine) (c : ℕ) (s : Text)
    → starts_directive (c ∷ s) ≡ true
    → scan_trimmed p r (c ∷ s) ≡ scan_directive p r (c ∷ s)
unfolding scan_trimmed
scan_trimmed-directive p r c s h = ground arith

pub scan_line-entry :
    (p : Scan) (ss : List IniSection) (s : IniSection) (n : ℕ) (key value : Text) (old : ℕ)
    → p.sections ≡ ss ++ s ∷ []
    → IsPlainEntry (record { key = key; value = value; line = old })
    → scan_line p (record { line = n; text = key ++ (b'=' ∷ value) }) ≡ record p {
      sections =
          ss
          ++ record s { entries = s.entries ++ record { key = key; value = value; line = n } ∷ [] }
            ∷ [];
    }
unfolding scan_line
scan_line-entry p ss s n [] value old at_end plain = absurd (no_start plain.key_starts)
  where
    no_start : false ≡ true → ⊥
    no_start h = cc
scan_line-entry p ss s n (c ∷ k) value old at_end plain =
    let r : RawLine = record { line = n; text = (c ∷ k) ++ (b'=' ∷ value) } in
    let rest = trim_right (k ++ (b'=' ∷ value)) in
    ap (scan_trimmed p r)
      (trim_space-solid c (k ++ (b'=' ∷ value)) (first_solid c k plain.key_trimmed))
    ∙ scan_trimmed-directive p r c rest plain.key_starts
    ∙ scan_directive-entry p ss s n (c ∷ rest) (record { key = c ∷ k; value = value; line = old })
        at_end plain (cons_ne c k)
  where
    cons_ne : (d : ℕ) (t : Text) → ◌≢◌ {A = Text} (d ∷ t) []
    cons_ne d t h = cc
