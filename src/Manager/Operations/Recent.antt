-- ===== src/Manager/Operations/Recent.antt =====
-- The last elements of a list, and operations looked up in lists.
use winunitd.Common.{
  ℕ, ◌≤◌, true, false, Option, none, some, List, [], ◌∷◌, ◌++◌, ◌≡◌, refl, ◌∙◌, arith, inl, inr,
  if◌then◌else◌, ltb, leb, ◌==◌, length, length-append, Bool-cases,
}
use winunitd.Manager.Operations.{Operation, find_operation, put_operation, delete_operation}

module _ {ℓ} {A : Type ℓ} where
  -- The last elements of a list, `n` at most.
  unfoldable pub last_of : ℕ → List A → List A
  last_of n [] = []
  last_of n (x ∷ xs) = let later = last_of n xs in if leb (length (x ∷ xs)) n then x ∷ xs else later

  -- Without the first element where there are more than `n`.
  abbrev pub without_first : ℕ → List A → List A
  without_first n [] = []
  without_first n (x ∷ xs) = if ltb n (length (x ∷ xs)) then xs else x ∷ xs

  last_of_short : (n : ℕ) (xs : List A) → length xs ≤ n → last_of n xs ≡ xs
  unfolding last_of
  last_of_short n [] h = refl
  last_of_short n (x ∷ xs) h = let e : leb (length (x ∷ xs)) n ≡ true = ground arith in rw e refl

  -- One element more at the end.
  pub last_of-append :
      (n : ℕ) (xs : List A) (y : A)
      → 1 ≤ n
      → last_of n (xs ++ y ∷ []) ≡ without_first n (last_of n xs ++ y ∷ [])
  unfolding last_of
  last_of-append n [] y h =
      let e : leb 1 n ≡ true = ground arith in
      let d : ltb n 1 ≡ false = ground arith in rw (e, d) refl
  last_of-append n (x ∷ xs) y h = elim (Bool-cases (leb (length (x ∷ xs)) n)) [
    | inl e ↦ elim (Bool-cases (leb (length (x ∷ xs ++ y ∷ [])) n)) [
      | inl d ↦
          let k : ltb n (length (x ∷ xs ++ y ∷ [])) ≡ false = ground arith in rw (e, d, k) refl
      | inr d ↦
          let k : ltb n (length (x ∷ xs ++ y ∷ [])) ≡ true = ground arith in
          let short : length (xs ++ y ∷ []) ≤ n = ground (arith, length-append xs (y ∷ [])) in
          rw (e, d, k) (last_of_short n (xs ++ y ∷ []) short)
    ]
    | inr e ↦
        let d : leb (length (x ∷ xs ++ y ∷ [])) n ≡ false =
          ground (arith, length-append xs (y ∷ [])) in
        rw (e, d) (last_of-append n xs y h)
  ]

  pub length-last_of : (n : ℕ) (xs : List A) → length (last_of n xs) ≤ n
  unfolding last_of
  length-last_of n [] = omega arith
  length-last_of n (x ∷ xs) = elim (Bool-cases (leb (length (x ∷ xs)) n)) [
    | inl e ↦ rw e (ground arith)
    | inr e ↦ rw e (length-last_of n xs)
  ]

abbrev pub or_else {ℓ} : {A : Type ℓ} → Option A → Option A → Option A
or_else none b = b
or_else (some a) b = some a

pub find-append :
    (k : ℕ) (xs ys : List (ℕ × Operation))
    → find_operation k (xs ++ ys) ≡ or_else (find_operation k xs) (find_operation k ys)
unfolding find_operation
find-append k [] ys = refl
find-append k ((j, op) ∷ xs) ys = elim (Bool-cases (j == k)) [
  | inl e ↦ rw e refl
  | inr e ↦ rw e (find-append k xs ys)
]

pub find-put :
    (k id : ℕ) (op : Operation) (ops : List (ℕ × Operation))
    → find_operation k (put_operation id op ops)
      ≡ (if id == k then some op else find_operation k ops)
unfolding find_operation put_operation
find-put k id op [] = refl
find-put k id op ((j, old) ∷ ops) = elim (Bool-cases (j == id)) [
  | inl e ↦ elim (Bool-cases (id == k)) [
    | inl d ↦ rw (e, d) refl
    | inr d ↦ let c : (j == k) ≡ false = ground arith in rw (e, d, c) refl
  ]
  | inr e ↦ elim (Bool-cases (j == k)) [
    | inl d ↦ let c : (id == k) ≡ false = ground arith in rw (e, d, c) refl
    | inr d ↦ rw (e, d) (find-put k id op ops)
  ]
]

pub find-delete :
    (k id : ℕ) (ops : List (ℕ × Operation))
    → find_operation k (delete_operation id ops) ≡ (if id == k then none else find_operation k ops)
unfolding find_operation delete_operation
find-delete k id [] = elim (Bool-cases (id == k)) [ inl e ↦ rw e refl | inr e ↦ rw e refl ]
find-delete k id ((j, old) ∷ ops) = elim (Bool-cases (j == id)) [
  | inl e ↦ elim (Bool-cases (id == k)) [
    | inl d ↦ rw e (find-delete k id ops ∙ rw d refl)
    | inr d ↦
        let c : (j == k) ≡ false = ground arith in rw e (find-delete k id ops ∙ rw (d, c) refl)
  ]
  | inr e ↦ elim (Bool-cases (j == k)) [
    | inl d ↦ let c : (id == k) ≡ false = ground arith in rw (e, d, c) refl
    | inr d ↦ rw (e, d) (find-delete k id ops)
  ]
]

-- What is not found is neither the first nor found behind it.
pub find_none :
    (id k : ℕ) (op : Operation) (ops : List (ℕ × Operation))
    → find_operation id ((k, op) ∷ ops) ≡ none
    → ((k == id) ≡ false) × (find_operation id ops ≡ none)
unfolding find_operation
find_none id k op ops h = elim (Bool-cases (k == id)) [
  | inl e ↦ let no : some op ≡ none = (rw e at h) in cc
  | inr e ↦ (e, rw e at h)
]

-- What is in no part of a list is in no end of it.
pub find-last_of :
    (k n : ℕ) (ops : List (ℕ × Operation))
    → find_operation k ops ≡ none
    → find_operation k (last_of n ops) ≡ none
unfolding find_operation last_of
find-last_of k n [] h = refl
find-last_of k n ((j, op) ∷ ops) h = elim (Bool-cases (leb (length ((j, op) ∷ ops)) n)) [
  | inl e ↦ rw e h
  | inr e ↦ rw e (find-last_of k n ops (find_none k j op ops h).1)
]

-- No number stands twice.
abbrev pub Distinct : List (ℕ × Operation) → Type 0
Distinct [] = Unit
Distinct ((k, op) ∷ ops) = (find_operation k ops ≡ none) × Distinct ops

pub Distinct-append :
    (ops : List (ℕ × Operation)) (id : ℕ) (op : Operation)
    → find_operation id ops ≡ none
    → Distinct ops
    → Distinct (ops ++ (id, op) ∷ [])
unfolding find_operation
Distinct-append [] id op h d = (refl, tt)
Distinct-append ((k, old) ∷ ops) id op h d =
    let (differs, later) = find_none id k old ops h in
    let swapped : (id == k) ≡ false = ground arith in
    (
      find-append k ops ((id, op) ∷ []) ∙ rw (d.0, swapped) refl,
      Distinct-append ops id op later d.1,
    )

pub Distinct-last_of :
    (n : ℕ) (ops : List (ℕ × Operation)) → Distinct ops → Distinct (last_of n ops)
unfolding last_of
Distinct-last_of n [] d = tt
Distinct-last_of n ((k, op) ∷ ops) d = elim (Bool-cases (leb (length ((k, op) ∷ ops)) n)) [
  | inl e ↦ rw e d
  | inr e ↦ rw e (Distinct-last_of n ops d.1)
]
