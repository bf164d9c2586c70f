-- ===== src/Journal/Statistics/Names.antt =====
-- Lists of names: those that stand once, out of another list, and without one.
use winunitd.Common.{
  suc, ◌≤◌, Bool, true, false, ◌&&◌, List, [], ◌∷◌, ◌≡◌, refl, sym, ap, ◌∙◌, arith, inl, inr, ◌⊎◌,
  if◌then◌else◌, length, Bool-cases,
}
use winunitd.Common.Text.{Text, text_eq, text_eq_iff, eq_of_text_eq}
use winunitd.Core.Names.{contains_name}
use winunitd.Journal.Statistics.{CaptureStats, has_stats, evict_name}
use winunitd.Journal.Statistics.Pinned.{has_stats-evict_name}

-- No name stands twice.
abbrev pub Distinct : List (Text × CaptureStats) → Type 0
Distinct [] = Unit
Distinct ((n, c) ∷ ds) = (has_stats n ds ≡ false) × Distinct ds

-- Without one occurrence of a name.
drop_name : Text → List Text → List Text
drop_name n [] = []
drop_name n (x ∷ xs) = let later = drop_name n xs in if text_eq x n then xs else x ∷ later

length-drop_name :
    (n : Text) (xs : List Text)
    → contains_name xs n ≡ true
    → suc (length (drop_name n xs)) ≡ length xs
unfolding drop_name contains_name
length-drop_name n [] h = cc
length-drop_name n (x ∷ xs) h = elim (Bool-cases (text_eq x n)) [
  | inl e ↦ rw e refl
  | inr e ↦ rw e (ap suc (length-drop_name n xs (rw e at h)))
]

contains_name-drop_name :
    (n m : Text) (xs : List Text)
    → text_eq n m ≡ false
    → contains_name xs m ≡ true
    → contains_name (drop_name n xs) m ≡ true
unfolding drop_name contains_name
contains_name-drop_name n m [] e h = h
contains_name-drop_name n m (x ∷ xs) e h = elim (Bool-cases (text_eq x n)) [
  | inl d ↦
      let same : text_eq x m ≡ false = ap (λ y. text_eq y m) (eq_of_text_eq x n d) ∙ e in
      rw d (rw same at h)
  | inr d ↦ elim (Bool-cases (text_eq x m)) [
    | inl c ↦ rw (d, c) refl
    | inr c ↦ rw (d, c) (contains_name-drop_name n m xs e (rw c at h))
  ]
]

pub text_eq_swap : (m n : Text) → text_eq m n ≡ false → text_eq n m ≡ false
text_eq_swap m n h = elim (Bool-cases (text_eq n m)) [
  | inl e ↦ let no : true ≡ false = sym ((text_eq_iff m n).1 (sym (eq_of_text_eq n m e))) ∙ h in cc
  | inr e ↦ e
]

abbrev pub all_in : List Text → List (Text × CaptureStats) → Bool
all_in names [] = true
all_in names ((n, c) ∷ ds) = contains_name names n && all_in names ds

all_in-drop_name :
    (n : Text) (names : List Text) (ds : List (Text × CaptureStats))
    → has_stats n ds ≡ false
    → all_in names ds ≡ true
    → all_in (drop_name n names) ds ≡ true
unfolding has_stats
all_in-drop_name n names [] e h = refl
all_in-drop_name n names ((m, c) ∷ ds) e h =
    let differs : text_eq m n ≡ false = ground arith in
    let absent : has_stats n ds ≡ false = ground arith in
    let here : contains_name names m ≡ true = ground arith in
    let rest : all_in names ds ≡ true = ground arith in
    let kept = contains_name-drop_name n m names (text_eq_swap m n differs) here in
    let later = all_in-drop_name n names ds absent rest in rw (kept, later) refl

-- Distinct names out of a list are no more than it has.
pub pigeonhole :
    (names : List Text) (ds : List (Text × CaptureStats))
    → Distinct ds
    → all_in names ds ≡ true
    → length ds ≤ length names
pigeonhole names [] d h = omega arith
pigeonhole names ((n, c) ∷ ds) d h =
    let here : contains_name names n ≡ true = ground arith in
    let rest : all_in names ds ≡ true = ground arith in
    omega (
      arith,
      length-drop_name n names here,
      pigeonhole (drop_name n names) ds d.1 (all_in-drop_name n names ds d.0 rest),
    )

-- What an eviction does to the length.
pub evicts_one :
    (names : List Text) (ds : List (Text × CaptureStats))
    → (all_in names ds ≡ true) ⊎ (suc (length (evict_name names ds)) ≡ length ds)
unfolding evict_name
evicts_one names [] = inl refl
evicts_one names ((n, c) ∷ ds) = elim (Bool-cases (contains_name names n)) [
  | inl e ↦ elim (evicts_one names ds) [
    | inl a ↦ inl (ground arith)
    | inr l ↦ inr (rw e (ap suc l))
  ]
  | inr e ↦ inr (rw e refl)
]

pub Distinct-evict_name :
    (names : List Text) (ds : List (Text × CaptureStats))
    → Distinct ds
    → Distinct (evict_name names ds)
unfolding evict_name
Distinct-evict_name names [] d = tt
Distinct-evict_name names ((n, c) ∷ ds) d = elim (Bool-cases (contains_name names n)) [
  | inl e ↦ rw e (has_stats-evict_name n names ds d.0, Distinct-evict_name names ds d.1)
  | inr e ↦ rw e d.1
]
