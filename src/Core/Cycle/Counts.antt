-- ===== src/Core/Cycle/Counts.antt =====
-- Counts of names that pass a test, and lists of names that all do.
use winunitd.Common.{
  ◌≤◌, ◌<◌, Bool, true, false, List, [], ◌∷◌, length, count, ◌≡◌, refl, arith, All, Bool-cases, inl,
  inr, ◌⊎◌,
}
use winunitd.Common.Text.{Text, text_eq, text_eq_iff, text_eq_refl}
use winunitd.Core.Names.{contains_name, sort_names}
use winunitd.Core.Names.Laws.{contains_name-sort_names}
use winunitd.Core.Cycle.{Color, white, gray, black}

-- A finer test counts less, and strictly less if it drops a member.
pub count_le :
    (p q : Text → Bool) (xs : List Text)
    → ((x : Text) → q x ≡ true → p x ≡ true)
    → count q xs ≤ count p xs
count_le p q [] h = omega arith
count_le p q (x ∷ xs) h = ground (arith, count_le p q xs h, h x)

pub count_lt :
    (p q : Text → Bool) (xs : List Text) (v : Text)
    → ((x : Text) → q x ≡ true → p x ≡ true)
    → contains_name xs v ≡ true
    → p v ≡ true
    → q v ≡ false
    → count q xs < count p xs
unfolding contains_name
count_lt p q [] v h m a b = cc
count_lt p q (x ∷ xs) v h m a b = elim (Bool-cases (text_eq x v)) [
  | inl e ↦
      let same : x ≡ v = (text_eq_iff x v).0 e in
      ground (arith, rw (← same) at a, rw (← same) at b, count_le p q xs h)
  | inr e ↦ ground (arith, count_lt p q xs v h (rw e at m) a b, h x)
]

pub count_le_length : (p : Text → Bool) (xs : List Text) → count p xs ≤ length xs
count_le_length p [] = omega arith
count_le_length p (x ∷ xs) = ground (arith, count_le_length p xs)

pub Color-cases : (c : Color) → (c ≡ white) ⊎ ((c ≡ gray) ⊎ (c ≡ black))
Color-cases white = inl refl
Color-cases gray = inr (inl refl)
Color-cases black = inr (inr refl)

pub All-contains :
    (P : Text → Type 0) (xs : List Text) → All P xs → (x : Text) → contains_name xs x ≡ true → P x
unfolding contains_name
All-contains P [] h x m = cc
All-contains P (y ∷ xs) h x m = elim (Bool-cases (text_eq y x)) [
  | inl e ↦ let same : y ≡ x = (text_eq_iff y x).0 e in rw (← same) h.0
  | inr e ↦ All-contains P xs h.1 x (rw e at m)
]

pub All_of_contains :
    (P : Text → Type 0) (xs : List Text) → ((x : Text) → contains_name xs x ≡ true → P x) → All P xs
unfolding contains_name
All_of_contains P [] h = tt
All_of_contains P (y ∷ xs) h =
    (h y (ground (arith, text_eq_refl y)), All_of_contains P xs (λ x m. h x (ground arith)))

pub contains_name-cons :
    (y : Text) (xs : List Text) (x : Text)
    → contains_name xs x ≡ true
    → contains_name (y ∷ xs) x ≡ true
unfolding contains_name
contains_name-cons y xs x h = ground arith

-- The sorted successors are successors.
pub All-members : (xs : List Text) → All (λ v. contains_name xs v ≡ true) (sort_names xs)
All-members xs =
    All_of_contains (λ v. contains_name xs v ≡ true) (sort_names xs)
      (λ x m. rw contains_name-sort_names at m)
