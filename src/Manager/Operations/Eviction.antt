-- ===== src/Manager/Operations/Eviction.antt =====
-- What the end of an operation does to the lists that it stands in.
use winunitd.Common.{
  ℕ, suc, Option, none, some, List, [], ◌∷◌, ◌++◌, ◌≡◌, refl, sym, ap, ◌∙◌, arith, inl, inr,
  if◌then◌else◌, ltb, ◌==◌, length, Bool-cases, ◌⊎◌,
}
use winunitd.Manager.Operations.{
  Operation, Operations, completed_operation_limit, find_operation, put_operation, delete_operation,
  evict_completed,
}
use winunitd.Manager.Operations.Recent.{
  without_first, or_else, find-append, find-put, find-delete, find_none, Distinct,
}

abbrev pub ids : List (ℕ × Operation) → List ℕ
ids [] = []
ids ((k, op) ∷ ops) = k ∷ ids ops

pub ids-append :
    (xs : List (ℕ × Operation)) (k : ℕ) (op : Operation)
    → ids (xs ++ (k, op) ∷ []) ≡ ids xs ++ k ∷ []
ids-append [] k op = refl
ids-append ((j, old) ∷ xs) k op = ap (λ r. j ∷ r) (ids-append xs k op)

length-ids : (xs : List (ℕ × Operation)) → length (ids xs) ≡ length xs
length-ids [] = refl
length-ids ((j, old) ∷ xs) = ap suc (length-ids xs)

abbrev pub Apart : List (ℕ × Operation) → List (ℕ × Operation) → Type 0
Apart xs ys = (k : ℕ) → (find_operation k xs ≡ none) ⊎ (find_operation k ys ≡ none)

-- Without the first of a window.
evicted :
    (us ops : List (ℕ × Operation)) (j k : ℕ) (op : Operation) (now : Option Operation)
    → now ≡ or_else (find_operation k us) (find_operation k ((j, op) ∷ ops))
    → Apart us ((j, op) ∷ ops)
    → find_operation j ops ≡ none
    → (if j == k then none else now) ≡ or_else (find_operation k us) (find_operation k ops)
unfolding find_operation
evicted us ops j k op now h a d = elim (Bool-cases (j == k)) [
  | inl e ↦ elim (a k) [
    | inl u ↦
        let same : j ≡ k = ground arith in
        let gone : find_operation k ops ≡ none = (rw same at d) in rw (e, u, gone) refl
    | inr w ↦ let no = (find_none k j op ops w).0 in cc
  ]
  | inr e ↦ rw e (rw e at h)
]

-- The eviction of the operation that is first in a window.
pub evict-found :
    (s : Operations) (under_way window : List (ℕ × Operation))
    → ((k : ℕ)
        → find_operation k s.operations
          ≡ or_else (find_operation k under_way) (find_operation k window))
    → Apart under_way window
    → Distinct window
    → (k : ℕ)
    → find_operation k (evict_completed s (ids window)).operations
      ≡ or_else
          (find_operation k under_way)
          (find_operation k (without_first completed_operation_limit window))
unfolding evict_completed
evict-found s us [] h a d k = h k
evict-found s us ((j, op) ∷ ops) h a d k =
    elim (Bool-cases (ltb completed_operation_limit (suc (length ops)))) [
      | inl e ↦
          rw (length-ids ops, e)
            (find-delete k j s.operations
              ∙ evicted us ops j k op (find_operation k s.operations) (h k) a d.0)
      | inr e ↦ rw (length-ids ops, e) (h k)
    ]

pub evict-completed :
    (s : Operations) (window : List (ℕ × Operation))
    → (evict_completed s (ids window)).completed
      ≡ ids (without_first completed_operation_limit window)
unfolding evict_completed
evict-completed s [] = refl
evict-completed s ((j, op) ∷ ops) =
    elim (Bool-cases (ltb completed_operation_limit (suc (length ops)))) [
      | inl e ↦ rw (length-ids ops, e) refl
      | inr e ↦ rw (length-ids ops, e) refl
    ]

pub evict-sequence : (s : Operations) (cs : List ℕ) → (evict_completed s cs).sequence ≡ s.sequence
unfolding evict_completed
evict-sequence s [] = refl
evict-sequence s (c ∷ cs) = elim (Bool-cases (ltb completed_operation_limit (length (c ∷ cs)))) [
  | inl e ↦ rw e refl
  | inr e ↦ rw e refl
]

or_else-none : (o : Option Operation) → or_else o none ≡ o
or_else-none none = refl
or_else-none (some op) = refl

none_of_some : (o : Option Operation) (op : Operation) → o ≡ some op → o ≡ none → ⊥
none_of_some o op h k = let no : some op ≡ none = sym h ∙ k in cc

find-last :
    (k id : ℕ) (new : Operation) (xs : List (ℕ × Operation))
    → find_operation k (xs ++ (id, new) ∷ [])
      ≡ or_else (find_operation k xs) (if id == k then some new else none)
unfolding find_operation
find-last k id new xs = find-append k xs ((id, new) ∷ [])

-- The operation moves from one list to the other.
pub Apart-moved :
    (us ys : List (ℕ × Operation)) (id : ℕ) (new : Operation)
    → Apart us ys
    → Apart (delete_operation id us) (ys ++ (id, new) ∷ [])
Apart-moved us ys id new a k = elim (Bool-cases (id == k)) [
  | inl e ↦ inl (find-delete k id us ∙ rw e refl)
  | inr e ↦ elim (a k) [
    | inl u ↦ inl (find-delete k id us ∙ rw e u)
    | inr y ↦ inr (find-last k id new ys ∙ rw (y, e) refl)
  ]
]

pub found-moved :
    (ops us ys : List (ℕ × Operation)) (id : ℕ) (new : Operation)
    → find_operation id ys ≡ none
    → ((k : ℕ) → find_operation k ops ≡ or_else (find_operation k us) (find_operation k ys))
    → (k : ℕ)
    → find_operation k (put_operation id new ops)
      ≡ or_else
          (find_operation k (delete_operation id us))
          (find_operation k (ys ++ (id, new) ∷ []))
found-moved ops us ys id new absent h k = elim (Bool-cases (id == k)) [
  | inl e ↦
      let same : id ≡ k = ground arith in
      let gone : find_operation k ys ≡ none = (rw same at absent) in
      rw (find-put k id new ops, find-delete k id us, find-last k id new ys, e, gone) refl
  | inr e ↦
      rw
        (
          find-put k id new ops,
          find-delete k id us,
          find-last k id new ys,
          e,
          or_else-none (find_operation k ys),
        )
        (h k)
]

-- What is under way is not over.
pub Apart-none :
    (us ys : List (ℕ × Operation)) (id : ℕ) (op : Operation)
    → Apart us ys
    → find_operation id us ≡ some op
    → find_operation id ys ≡ none
Apart-none us ys id op a h = elim (a id) [
  | inl u ↦ elim (none_of_some (find_operation id us) op h u) [ ]
  | inr y ↦ y
]

-- What is in neither list stays so when another operation moves.
pub none-moved :
    (us ys : List (ℕ × Operation)) (id k : ℕ) (op new : Operation)
    → find_operation id us ≡ some op
    → find_operation k us ≡ none
    → find_operation k ys ≡ none
    → (find_operation k (delete_operation id us) ≡ none)
      × (find_operation k (ys ++ (id, new) ∷ []) ≡ none)
none-moved us ys id k op new h u y = elim (Bool-cases (id == k)) [
  | inl c ↦
      let same : id ≡ k = ground arith in
      elim (none_of_some (find_operation k us) op (rw same at h) u) [ ]
  | inr c ↦ (find-delete k id us ∙ rw c u, find-last k id new ys ∙ rw (y, c) refl)
]
