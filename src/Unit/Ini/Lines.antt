-- ===== src/Unit/Ini/Lines.antt =====
-- Printed lines, and their numbers.
use mathlib.Core.List.{append_assoc}
use winunitd.Common.{ℕ, ◌+◌, false, List, [], ◌∷◌, ◌++◌, ◌≡◌, refl, ap, ◌∙◌, All}
use winunitd.Common.Strings.{Without, split, split-append, unix_lines-Without, Without-append}
use winunitd.Common.Text.{Text}
use winunitd.Unit.Ini.{
  RawLine, is_line_continuation, collect, join_continuations, split_lines, joined,
}
use winunitd.Unit.Ini.Printing.{OneLine, unlines}

-- A line that is complete in itself.
abbrev pub IsWhole : Text → Type 0
IsWhole l = OneLine l × (is_line_continuation l ≡ false)

abbrev pub raw_lines : ℕ → List Text → List RawLine
raw_lines i [] = record { line = i; text = [] } ∷ []
raw_lines i (l ∷ ls) = record { line = i; text = l } ∷ raw_lines (i + 1) ls

Without-unlines : (ls : List Text) → All IsWhole ls → Without 13 (unlines ls)
Without-unlines [] h = tt
Without-unlines (l ∷ ls) h =
    Without-append 13 (l ++ 10 ∷ []) (unlines ls) (Without-append 13 l (10 ∷ []) h.0.0.1 (refl, tt))
      (Without-unlines ls h.1)

abbrev pub with_last : List Text → List Text
with_last [] = [] ∷ []
with_last (l ∷ ls) = l ∷ with_last ls

split-unlines : (ls : List Text) → All IsWhole ls → split 10 (unlines ls) ≡ with_last ls
split-unlines [] h = unfold split in refl
split-unlines (l ∷ ls) h =
    ap (split 10) (append_assoc l (10 ∷ []) (unlines ls))
    ∙ split-append 10 l (unlines ls) h.0.0.0
    ∙ ap (λ r. l ∷ r) (split-unlines ls h.1)

pub split_lines-unlines :
    (ls : List Text) → All IsWhole ls → split_lines (unlines ls) ≡ with_last ls
unfolding split_lines
split_lines-unlines ls h =
    ap (split 10) (unix_lines-Without (unlines ls) (Without-unlines ls h)) ∙ split-unlines ls h

nil_continuation : is_line_continuation [] ≡ false
unfolding is_line_continuation
nil_continuation = refl

collect-with_last :
    (i : ℕ) (l : Text) (ls : List Text)
    → is_line_continuation l ≡ false
    → All IsWhole ls
    → collect i i l (with_last ls) ≡ (record { line = i; text = l } ∷ raw_lines (i + 1) ls, [])
unfolding collect
collect-with_last i l [] c h = rw (c, nil_continuation, collect) refl
collect-with_last i l (k ∷ ks) c h =
    rw (c, collect)
      (ap (joined (record { line = i; text = l })) (collect-with_last (i + 1) k ks h.0.1 h.1))

pub join_continuations-with_last :
    (ls : List Text) → All IsWhole ls → join_continuations (with_last ls) ≡ (raw_lines 1 ls, [])
unfolding join_continuations collect
join_continuations-with_last [] h = rw (nil_continuation, collect) refl
join_continuations-with_last (l ∷ ls) h = collect-with_last 1 l ls h.0.1 h.1
