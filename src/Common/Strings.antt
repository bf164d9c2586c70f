-- ===== src/Common/Strings.antt =====
-- More of package `strings`: cutting and splitting at a byte, and texts made of some bytes only.
use winunitd.Common.Tests.{◌==◌, if◌then◌else◌}
use winunitd.Common.Lists.{All}
use winunitd.Common.Text.{Text, is_space, trim_left, trim_right, trim_space}
use Prim.Native.Nat.{ℕ}
use mathlib.Core.Path.{◌≡◌, refl, ap}
use mathlib.Core.Bool.{Bool, true, false, ◌&&◌}
use mathlib.Core.Option.{Option, none, some}
use mathlib.Core.List.{List, [], ◌∷◌, ◌++◌, map}
use native.Mathlib.Omega.{arith}

-- `strings.Cut(s, sep)`: what stands before the first `sep`, and what stands behind it.
unfoldable pub cut : ℕ → Text → Text × Option Text
cut sep [] = ([], none)
cut sep (c ∷ s) =
    let (before, after) = cut sep s in if c == sep then ([], some s) else (c ∷ before, after)

abbrev pub cons_head : ℕ → List Text → List Text
cons_head c [] = (c ∷ []) ∷ []
cons_head c (s ∷ ss) = (c ∷ s) ∷ ss

-- `strings.Split(s, sep)`.
unfoldable pub split : ℕ → Text → List Text
split sep [] = [] ∷ []
split sep (c ∷ s) = let rest = split sep s in if c == sep then [] ∷ rest else cons_head c rest

-- Whether every byte passes a test.
unfoldable pub only : (ℕ → Bool) → Text → Bool
only p [] = true
only p (c ∷ s) = p c && only p s

-- A byte does not occur.
abbrev pub Without : ℕ → Text → Type 0
Without sep = All (λ c. (c == sep) ≡ false)

pub cut-append : (sep : ℕ) (s t : Text) → Without sep s → cut sep (s ++ (sep ∷ t)) ≡ (s, some t)
unfolding cut
cut-append sep [] t h = ground arith
cut-append sep (c ∷ s) t h = rw (h.0, cut-append sep s t h.1) refl

pub split-append :
    (sep : ℕ) (s t : Text) → Without sep s → split sep (s ++ (sep ∷ t)) ≡ s ∷ split sep t
unfolding split
split-append sep [] t h = ground arith
split-append sep (c ∷ s) t h = rw (h.0, split-append sep s t h.1) refl

pub split-Without : (sep : ℕ) (s : Text) → Without sep s → split sep s ≡ s ∷ []
unfolding split
split-Without sep [] h = refl
split-Without sep (c ∷ s) h = rw (h.0, split-Without sep s h.1) refl

-- `strings.ReplaceAll(s, "\r\n", "\n")`.
unfoldable pub replace_crlf : Text → Text
replace_crlf [] = []
replace_crlf (c ∷ []) = c ∷ []
replace_crlf (c ∷ d ∷ s) = elim (c == 13 && d == 10) [
  | true ↦ 10 ∷ replace_crlf s
  | false ↦ c ∷ replace_crlf (d ∷ s)
]

-- `strings.ReplaceAll(s, "\r", "\n")` behind it.
unfoldable pub unix_lines : Text → Text
unfolding replace_crlf
unix_lines s = map (λ c. if c == 13 then 10 else c) (replace_crlf s)

replace_crlf-Without : (s : Text) → Without 13 s → replace_crlf s ≡ s
unfolding replace_crlf
replace_crlf-Without [] h = refl
replace_crlf-Without (c ∷ []) h = refl
replace_crlf-Without (c ∷ d ∷ s) h =
    rw (h.0, replace_crlf) (ap (λ t. c ∷ t) (replace_crlf-Without (d ∷ s) h.1))

map-Without : (s : Text) → Without 13 s → map (λ c. if c == 13 then 10 else c) s ≡ s
map-Without [] h = refl
map-Without (c ∷ s) h = rw (h.0, map-Without s h.1) refl

-- A text without a carriage return stays as it is.
pub unix_lines-Without : (s : Text) → Without 13 s → unix_lines s ≡ s
unfolding unix_lines
unix_lines-Without s h = rw (replace_crlf-Without s h) (map-Without s h)

pub Without-append : (sep : ℕ) (s t : Text) → Without sep s → Without sep t → Without sep (s ++ t)
Without-append sep [] t h k = k
Without-append sep (c ∷ s) t h k = (h.0, Without-append sep s t h.1 k)

-- A text without spaces is trimmed.
abbrev pub IsSolid : Text → Type 0
IsSolid = All (λ c. is_space c ≡ false)

trim_right_solid : (s : Text) → IsSolid s → trim_right s ≡ s
unfolding trim_right
trim_right_solid [] h = refl
trim_right_solid (c ∷ []) h = rw h.0 refl
trim_right_solid (c ∷ d ∷ s) h = rw (trim_right_solid (d ∷ s) h.1) refl

pub trim_space_solid : (s : Text) → IsSolid s → trim_space s ≡ s
unfolding trim_space trim_left
trim_space_solid [] h = refl
trim_space_solid (c ∷ s) h = rw h.0 (trim_right_solid (c ∷ s) h)
