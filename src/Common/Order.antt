-- ===== src/Common/Order.antt =====
-- Three-way comparison: the results of a comparison chained, and the lexicographic order.
use Prim.Native.Nat.{ℕ, compare, Ordering}
use mathlib.Core.Path.{◌≡◌}
use native.Mathlib.Omega.{arith}
pub use Prim.Native.Nat.{compare, Ordering}

-- The comparison with the sides exchanged.
abbrev pub flip : Ordering → Ordering
flip Ordering.lt = Ordering.gt
flip Ordering.eq = Ordering.eq
flip Ordering.gt = Ordering.lt

-- The second comparison decides where the first finds no difference.
abbrev pub then_by : Ordering → Ordering → Ordering
then_by Ordering.eq o = o
then_by Ordering.lt o = Ordering.lt
then_by Ordering.gt o = Ordering.gt

-- What `x` against `y` and `y` against `z` say of `x` against `z`.
abbrev pub Chain : Ordering → Ordering → Ordering → Type 0
Chain Ordering.eq b c = c ≡ b
Chain Ordering.lt Ordering.gt c = Unit
Chain Ordering.lt b c = c ≡ Ordering.lt
Chain Ordering.gt Ordering.lt c = Unit
Chain Ordering.gt b c = c ≡ Ordering.gt

pub Chain-compare : (x y z : ℕ) → Chain (compare x y) (compare y z) (compare x z)
Chain-compare x y z = ground arith

pub flip-compare : (x y : ℕ) → flip (compare x y) ≡ compare y x
flip-compare x y = ground arith

pub Chain-then_by :
    (a b c a' b' c' : Ordering)
    → Chain a b c
    → Chain a' b' c'
    → Chain (then_by a a') (then_by b b') (then_by c c')
Chain-then_by a b c a' b' c' h k = ground arith

pub flip-then_by : (a b : Ordering) → flip (then_by a b) ≡ then_by (flip a) (flip b)
flip-then_by a b = ground arith
