-- ===== src/Journal/FairQueue/Totals.antt =====
-- A measure of the records, added up over the queues: what the steps of the queue do to it.
use winunitd.Common.{
  ℕ, ◌+◌, ◌-◌, Option, none, some, List, [], ◌∷◌, ◌++◌, ◌≡◌, refl, ap, arith, ◌==◌, Bool-cases, inl,
  inr,
}
use winunitd.Journal.FairQueue.{
  CaptureWrite, CapturePending, size, split_last, evict_last, push_work, take_turn,
}

abbrev pub sum_of : (CaptureWrite → ℕ) → List CaptureWrite → ℕ
sum_of f [] = 0
sum_of f (w ∷ ws) = f w + sum_of f ws

abbrev pub total : (CaptureWrite → ℕ) → List CapturePending → ℕ
total f [] = 0
total f (q ∷ qs) = sum_of f q.items + total f qs

pub sum_of-append :
    (f : CaptureWrite → ℕ) (xs ys : List CaptureWrite)
    → sum_of f (xs ++ ys) ≡ sum_of f xs + sum_of f ys
sum_of-append f [] ys = omega arith
sum_of-append f (x ∷ xs) ys = omega (arith, sum_of-append f xs ys)

total-append :
    (f : CaptureWrite → ℕ) (xs ys : List CapturePending)
    → total f (xs ++ ys) ≡ total f xs + total f ys
total-append f [] ys = omega arith
total-append f (x ∷ xs) ys = omega (arith, total-append f xs ys)

-- A list split at its end.
abbrev Splits : List CaptureWrite → Option (List CaptureWrite × CaptureWrite) → Type 0
Splits ws none = ws ≡ []
Splits ws (some (front, last)) = ws ≡ front ++ last ∷ []

split_last-Splits : (ws : List CaptureWrite) → Splits ws (split_last ws)
unfolding split_last
split_last-Splits [] = refl
split_last-Splits (w ∷ ws) = behind (split_last ws) (split_last-Splits ws)
  where
    behind :
        (o : Option (List CaptureWrite × CaptureWrite))
        → Splits ws o
        → Splits
            (w ∷ ws)
            (elim o [ none ↦ some ([], w) | some (front, last) ↦ some (w ∷ front, last) ])
    behind none h = ap (λ r. w ∷ r) h
    behind (some (front, last)) h = ap (λ r. w ∷ r) h

-- What an eviction takes out of a measure, and of the number of queued records.
abbrev pub Evicts :
    (CaptureWrite → ℕ) → List CapturePending → Option (List CapturePending × CaptureWrite) → Type 0
Evicts f qs none = Unit
Evicts f qs (some (rest, w)) = total f rest + f w ≡ total f qs

pub evict_last-Evicts :
    (f : CaptureWrite → ℕ) (g : ℕ) (qs : List CapturePending) → Evicts f qs (evict_last g qs)
unfolding evict_last
evict_last-Evicts f g [] = tt
evict_last-Evicts f g (q ∷ qs) = elim (Bool-cases (q.group == g)) [
  | inl e ↦ rw e (here (split_last q.items) (split_last-Splits q.items))
  | inr e ↦ rw e (later (evict_last g qs) (evict_last-Evicts f g qs))
]
  where
    here :
        (o : Option (List CaptureWrite × CaptureWrite))
        → Splits q.items o
        → Evicts f (q ∷ qs) (elim o [
          | none ↦ none
          | some (front, last) ↦
              some (record q { items = front; bytes = q.bytes - size last } ∷ qs, last)
        ])
    here none h = tt
    here (some (front, last)) h = omega (arith, ap (sum_of f) h, sum_of-append f front (last ∷ []))

    later :
        (o : Option (List CapturePending × CaptureWrite))
        → Evicts f qs o
        → Evicts f (q ∷ qs) (elim o [ none ↦ none | some (rest, last) ↦ some (q ∷ rest, last) ])
    later none h = tt
    later (some (rest, last)) h = omega (arith, h)

pub total-push_work :
    (f : CaptureWrite → ℕ) (w : CaptureWrite) (qs : List CapturePending)
    → total f (push_work w qs) ≡ total f qs + f w
unfolding push_work
total-push_work f w [] = omega arith
total-push_work f w (q ∷ qs) = elim (Bool-cases (q.group == w.group)) [
  | inl e ↦ rw e (omega (arith, sum_of-append f q.items (w ∷ [])))
  | inr e ↦ rw e (omega (arith, total-push_work f w qs))
]

-- What a turn takes out of a measure.
abbrev pub Turns :
    (CaptureWrite → ℕ) → List CapturePending → Option (CaptureWrite × List CapturePending) → Type 0
Turns f qs none = Unit
Turns f qs (some (w, rest)) = total f rest + f w ≡ total f qs

pub take_turn-Turns : (f : CaptureWrite → ℕ) (qs : List CapturePending) → Turns f qs (take_turn qs)
unfolding take_turn
take_turn-Turns f [] = tt
take_turn-Turns f (q ∷ qs) = turn q.items refl
  where
    turn :
        (items : List CaptureWrite)
        → items ≡ q.items
        → Turns f (q ∷ qs) (elim items [
          | [] ↦ none
          | w ∷ [] ↦ some (w, qs)
          | w ∷ v ∷ rest ↦
              some (w, qs ++ record q { items = v ∷ rest; bytes = q.bytes - size w } ∷ [])
        ])
    turn [] h = tt
    turn (w ∷ []) h = omega (arith, ap (sum_of f) h)
    turn (w ∷ v ∷ rest) h = omega (
      arith,
      ap (sum_of f) h,
      total-append f qs (record q { items = v ∷ rest; bytes = q.bytes - size w } ∷ []),
    )
