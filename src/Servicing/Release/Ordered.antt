-- ===== src/Servicing/Release/Ordered.antt =====
-- The comparison of releases as an order.
use winunitd.Common.{ℕ, ◌≡◌, refl, ◌≢◌, Option, none, some, List, [], ◌∷◌, arith}
use winunitd.Common.Order.{
  Ordering, Chain, flip, Chain-compare, Chain-then_by, flip-compare, flip-then_by,
}
use winunitd.Common.Text.{Text, Chain-text_compare, flip-text_compare}
use winunitd.Servicing.Release.{
  Release, numeric_identifier, compare_identifiers, compare_prerelease, compare_lists, compare_pre,
  compare_releases,
}

Chain-compare_identifiers :
    (n m k : Option ℕ) (a b c : Text)
    → Chain
        (compare_identifiers n m a b)
        (compare_identifiers m k b c)
        (compare_identifiers n k a c)
unfolding compare_identifiers
Chain-compare_identifiers (some n) (some m) (some k) a b c = Chain-compare n m k
Chain-compare_identifiers (some n) (some m) none a b c = ground arith
Chain-compare_identifiers (some n) none (some k) a b c = tt
Chain-compare_identifiers (some n) none none a b c = ground arith
Chain-compare_identifiers none (some m) (some k) a b c = ground arith
Chain-compare_identifiers none (some m) none a b c = tt
Chain-compare_identifiers none none (some k) a b c = ground arith
Chain-compare_identifiers none none none a b c = Chain-text_compare a b c

flip-compare_identifiers :
    (n m : Option ℕ) (a b : Text) → flip (compare_identifiers n m a b) ≡ compare_identifiers m n b a
unfolding compare_identifiers
flip-compare_identifiers (some n) (some m) a b = flip-compare n m
flip-compare_identifiers (some n) none a b = refl
flip-compare_identifiers none (some m) a b = refl
flip-compare_identifiers none none a b = flip-text_compare a b

Chain-compare_prerelease :
    (a b c : Text)
    → Chain (compare_prerelease a b) (compare_prerelease b c) (compare_prerelease a c)
unfolding compare_prerelease
Chain-compare_prerelease a b c =
    Chain-compare_identifiers (numeric_identifier a) (numeric_identifier b) (numeric_identifier c) a
      b c

flip-compare_prerelease : (a b : Text) → flip (compare_prerelease a b) ≡ compare_prerelease b a
unfolding compare_prerelease
flip-compare_prerelease a b =
    flip-compare_identifiers (numeric_identifier a) (numeric_identifier b) a b

Chain-compare_lists :
    (a b c : List Text) → Chain (compare_lists a b) (compare_lists b c) (compare_lists a c)
unfolding compare_lists
Chain-compare_lists [] [] c = refl
Chain-compare_lists [] (y ∷ ys) [] = tt
Chain-compare_lists [] (y ∷ ys) (z ∷ zs) = ground arith
Chain-compare_lists (x ∷ xs) [] [] = refl
Chain-compare_lists (x ∷ xs) [] (z ∷ zs) = tt
Chain-compare_lists (x ∷ xs) (y ∷ ys) [] = ground arith
Chain-compare_lists (x ∷ xs) (y ∷ ys) (z ∷ zs) =
    Chain-then_by (compare_prerelease x y) (compare_prerelease y z) (compare_prerelease x z)
      (compare_lists xs ys) (compare_lists ys zs) (compare_lists xs zs)
      (Chain-compare_prerelease x y z) (Chain-compare_lists xs ys zs)

flip-compare_lists : (a b : List Text) → flip (compare_lists a b) ≡ compare_lists b a
unfolding compare_lists
flip-compare_lists [] [] = refl
flip-compare_lists [] (y ∷ ys) = refl
flip-compare_lists (x ∷ xs) [] = refl
flip-compare_lists (x ∷ xs) (y ∷ ys) = ground (
  arith,
  flip-compare_prerelease x y,
  flip-compare_lists xs ys,
  flip-then_by (compare_prerelease x y) (compare_lists xs ys),
)

Chain-compare_pre :
    (a b c : List Text) → Chain (compare_pre a b) (compare_pre b c) (compare_pre a c)
unfolding compare_pre
Chain-compare_pre [] [] c = refl
Chain-compare_pre [] (y ∷ ys) [] = tt
Chain-compare_pre [] (y ∷ ys) (z ∷ zs) = ground arith
Chain-compare_pre (x ∷ xs) [] [] = refl
Chain-compare_pre (x ∷ xs) [] (z ∷ zs) = tt
Chain-compare_pre (x ∷ xs) (y ∷ ys) [] = ground arith
Chain-compare_pre (x ∷ xs) (y ∷ ys) (z ∷ zs) = Chain-compare_lists (x ∷ xs) (y ∷ ys) (z ∷ zs)

flip-compare_pre : (a b : List Text) → flip (compare_pre a b) ≡ compare_pre b a
unfolding compare_pre
flip-compare_pre [] [] = refl
flip-compare_pre [] (y ∷ ys) = refl
flip-compare_pre (x ∷ xs) [] = refl
flip-compare_pre (x ∷ xs) (y ∷ ys) = flip-compare_lists (x ∷ xs) (y ∷ ys)

pub Chain-compare_releases :
    (a b c : Release) → Chain (compare_releases a b) (compare_releases b c) (compare_releases a c)
unfolding compare_releases
Chain-compare_releases a b c = Chain-then_by _ _ _ _ _ _ (Chain-compare a.major b.major c.major) (
    Chain-then_by _ _ _ _ _ _ (Chain-compare a.minor b.minor c.minor) (
      Chain-then_by _ _ _ _ _ _ (Chain-compare a.patch b.patch c.patch)
        (Chain-compare_pre a.pre b.pre c.pre)))

pub flip-compare_releases : (a b : Release) → flip (compare_releases a b) ≡ compare_releases b a
unfolding compare_releases
flip-compare_releases a b = ground (
  arith,
  flip-compare a.major b.major,
  flip-compare a.minor b.minor,
  flip-compare a.patch b.patch,
  flip-compare_pre a.pre b.pre,
)

at_most : (o p q : Ordering) → Chain o p q → o ≢ Ordering.gt → p ≢ Ordering.gt → q ≢ Ordering.gt
at_most o p q h a b = ground arith

-- `Compare` orders releases totally: exchanging the two flips the result, and what is not above a
-- second release that is not above a third is not above the third.
pub compare_releases_total :
    (a b c : Release)
    → (flip (compare_releases a b) ≡ compare_releases b a)
      × (compare_releases a b ≢ Ordering.gt
          → compare_releases b c ≢ Ordering.gt
          → compare_releases a c ≢ Ordering.gt)
compare_releases_total a b c = (
  flip-compare_releases a b,
  at_most (compare_releases a b) (compare_releases b c) (compare_releases a c)
      (Chain-compare_releases a b c),
)
