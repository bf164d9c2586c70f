-- ===== src/Common/Text.antt =====
-- Go strings, as lists of bytes: equality, the order of `sort.Strings`, and the parts of package
-- `strings` that the program uses, over ASCII.
use Prim.Native.Char.{code}
use Prim.Native.String.{String}
use Prim.Native.Nat.{ℕ, ◌+◌}
use mathlib.Core.Path.{◌≡◌, refl}
use mathlib.Core.Logic.{◌↔◌, ◌⊎◌, inl, inr}
use mathlib.Core.Bool.{Bool, true, false, ◌&&◌, ◌||◌}
use mathlib.Core.List.{List, [], ◌∷◌, map}
use native.Mathlib.Omega.{arith}
use winunitd.Common.Tests.{ltb, leb, ◌==◌, if◌then◌else◌}
use winunitd.Common.Order.{
  Ordering, compare, then_by, Chain, flip, Chain-compare, Chain-then_by, flip-compare, flip-then_by,
}

abbrev pub Text : Type 0
Text = List ℕ

-- The bytes of a literal.
abbrev pub bytes : String → Text
bytes String.[] = []
bytes (String.◌∷◌ c s) = code c ∷ bytes s

unfoldable pub text_eq : Text → Text → Bool
text_eq [] [] = true
text_eq [] (y ∷ ys) = false
text_eq (x ∷ xs) [] = false
text_eq (x ∷ xs) (y ∷ ys) = x == y && text_eq xs ys

pub text_eq_refl : (s : Text) → text_eq s s ≡ true
unfolding text_eq
text_eq_refl [] = refl
text_eq_refl (x ∷ xs) = ground (arith, text_eq_refl xs)

pub eq_of_text_eq : (s t : Text) → text_eq s t ≡ true → s ≡ t
unfolding text_eq
eq_of_text_eq [] [] h = refl
eq_of_text_eq [] (y ∷ ys) h = cc
eq_of_text_eq (x ∷ xs) [] h = cc
eq_of_text_eq (x ∷ xs) (y ∷ ys) h = ground (arith, eq_of_text_eq xs ys)

pub text_eq_iff : (s t : Text) → (text_eq s t ≡ true) ↔ (s ≡ t)
text_eq_iff s t = (eq_of_text_eq s t, λ e. rw e (text_eq_refl t))

-- Byte by byte, as `<=` on Go strings.
unfoldable pub text_le : Text → Text → Bool
text_le [] ys = true
text_le (x ∷ xs) [] = false
text_le (x ∷ xs) (y ∷ ys) = ltb x y || (x == y && text_le xs ys)

pub text_le_total : (s t : Text) → (text_le s t ≡ true) ⊎ (text_le t s ≡ true)
unfolding text_le
text_le_total [] t = inl refl
text_le_total (x ∷ xs) [] = inr refl
text_le_total (x ∷ xs) (y ∷ ys) = ground (arith, text_le_total xs ys)

pub text_le_trans : (s t u : Text) → text_le s t ≡ true → text_le t u ≡ true → text_le s u ≡ true
unfolding text_le
text_le_trans [] t u h k = refl
text_le_trans (x ∷ xs) [] u h k = cc
text_le_trans (x ∷ xs) (y ∷ ys) [] h k = cc
text_le_trans (x ∷ xs) (y ∷ ys) (z ∷ zs) h k = ground (arith, text_le_trans xs ys zs)

-- `strings.ToLower` on a byte.
unfoldable pub lower : ℕ → ℕ
lower c = if leb b'A' c && leb c b'Z' then c + 32 else c

unfoldable pub to_lower : Text → Text
unfolding lower
to_lower = map lower

-- `unicode.IsSpace` below 128: tab, newline, vertical tab, form feed, carriage return, space.
unfoldable pub is_space : ℕ → Bool
is_space c = leb 9 c && leb c 13 || c == 32

unfoldable pub trim_left : Text → Text
unfolding is_space
trim_left [] = []
trim_left (c ∷ s) = if is_space c then trim_left s else c ∷ s

-- Drops the spaces at the end.
unfoldable pub trim_right : Text → Text
unfolding is_space
trim_right [] = []
trim_right (c ∷ s) = elim (trim_right s) [
  | [] ↦ if is_space c then [] else c ∷ []
  | d ∷ t ↦ c ∷ d ∷ t
]

unfoldable pub trim_space : Text → Text
unfolding trim_left trim_right
trim_space s = trim_right (trim_left s)

unfoldable pub has_suffix : Text → Text → Bool
unfolding text_eq
has_suffix [] suffix = text_eq [] suffix
has_suffix (c ∷ s) suffix = text_eq (c ∷ s) suffix || has_suffix s suffix

unfoldable pub has_prefix : Text → Text → Bool
has_prefix s [] = true
has_prefix [] (p ∷ ps) = false
has_prefix (c ∷ s) (p ∷ ps) = c == p && has_prefix s ps

-- `strings.Compare`.
unfoldable pub text_compare : Text → Text → Ordering
text_compare [] [] = Ordering.eq
text_compare [] (y ∷ ys) = Ordering.lt
text_compare (x ∷ xs) [] = Ordering.gt
text_compare (x ∷ xs) (y ∷ ys) = then_by (compare x y) (text_compare xs ys)

pub Chain-text_compare :
    (s t u : Text) → Chain (text_compare s t) (text_compare t u) (text_compare s u)
unfolding text_compare
Chain-text_compare [] [] u = refl
Chain-text_compare [] (y ∷ ys) [] = tt
Chain-text_compare [] (y ∷ ys) (z ∷ zs) = ground arith
Chain-text_compare (x ∷ xs) [] [] = refl
Chain-text_compare (x ∷ xs) [] (z ∷ zs) = tt
Chain-text_compare (x ∷ xs) (y ∷ ys) [] = ground arith
Chain-text_compare (x ∷ xs) (y ∷ ys) (z ∷ zs) =
    Chain-then_by (compare x y) (compare y z) (compare x z) (text_compare xs ys)
      (text_compare ys zs) (text_compare xs zs) (Chain-compare x y z) (Chain-text_compare xs ys zs)

pub flip-text_compare : (s t : Text) → flip (text_compare s t) ≡ text_compare t s
unfolding text_compare
flip-text_compare [] [] = refl
flip-text_compare [] (y ∷ ys) = refl
flip-text_compare (x ∷ xs) [] = refl
flip-text_compare (x ∷ xs) (y ∷ ys) = ground (
  arith,
  flip-compare x y,
  flip-text_compare xs ys,
  flip-then_by (compare x y) (text_compare xs ys),
)
