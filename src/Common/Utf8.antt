-- ===== src/Common/Utf8.antt =====
-- Package `unicode/utf8`: valid texts, and texts cut to a valid start.
use Prim.Native.Nat.{ℕ, zero, suc}
use mathlib.Core.Bool.{Bool, true, false, ◌&&◌}
use mathlib.Core.List.{[], ◌∷◌}
use winunitd.Common.Tests.{ltb, leb, ◌==◌, if◌then◌else◌}
use winunitd.Common.Text.{Text}

-- `utf8.ValidString`, with so many continuation bytes to come, the next one between two bounds.
unfoldable pub valid_from : (more low high : ℕ) → Text → Bool
valid_from zero low high [] = true
valid_from (suc n) low high [] = false
valid_from (suc n) low high (c ∷ s) = leb low c && (leb c high && valid_from n 0x80 0xBF s)
valid_from zero low high (c ∷ s) =
    let ascii = valid_from 0 0x80 0xBF s in
    let two = valid_from 1 0x80 0xBF s in
    let three = valid_from 2 0x80 0xBF s in
    let three_high = valid_from 2 0xA0 0xBF s in
    let three_low = valid_from 2 0x80 0x9F s in
    let four = valid_from 3 0x80 0xBF s in
    let four_high = valid_from 3 0x90 0xBF s in
    let four_low = valid_from 3 0x80 0x8F s in
    if ltb c 0x80
    then ascii
    else if ltb c 0xC2
    then false
    else if ltb c 0xE0
    then two
    else if c == 0xE0
    then three_high
    else if c == 0xED
    then three_low
    else if ltb c 0xF0
    then three
    else if c == 0xF0
    then four_high
    else if ltb c 0xF4
    then four
    else if c == 0xF4
    then four_low
    else false

unfoldable pub valid_string : Text → Bool
unfolding valid_from
valid_string s = valid_from 0 0x80 0xBF s

unfoldable pub first_bytes : ℕ → Text → Text
first_bytes zero s = []
first_bytes (suc n) [] = []
first_bytes (suc n) (c ∷ s) = c ∷ first_bytes n s

-- The longest valid start of a text that has at most so many bytes: the loop that drops the last byte.
unfoldable pub cut_valid : ℕ → Text → Text
unfolding valid_string first_bytes
cut_valid zero s = []
cut_valid (suc n) s =
    let shorter = cut_valid n s in
    if valid_string (first_bytes (suc n) s) then first_bytes (suc n) s else shorter
