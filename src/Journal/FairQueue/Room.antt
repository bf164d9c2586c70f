-- ===== src/Journal/FairQueue/Room.antt =====
-- Making room: the counters and the losses, and the fuel.
use winunitd.Common.{
  ℕ, zero, suc, ◌+◌, ◌≤◌, ◌<◌, Bool, true, false, Option, none, some, List, [], ◌∷◌, ◌≡◌, refl, ◌∙◌,
  arith, if◌then◌else◌, ltb, ◌==◌, Bool-cases, Option-cases, inl, inr,
}
use winunitd.Journal.FairQueue.{
  CaptureWrite, CapturePending, CaptureQueue, size, capture_queue_bytes, capture_queue_records,
  invocation_queue_bytes, invocation_queue_records, drop_capture, release_capture, evict_last,
  evict, choose_victim, no_room, make_room,
}
use winunitd.Journal.FairQueue.Totals.{sum_of, total, sum_of-append, Evicts, evict_last-Evicts}

-- The record that the writer has taken and not finished.
abbrev pub flying : (CaptureWrite → ℕ) → Option CaptureWrite → ℕ
flying f none = 0
flying f (some w) = f w

abbrev pub one : CaptureWrite → ℕ
one w = 1

abbrev pub of_group : ℕ → (CaptureWrite → ℕ) → CaptureWrite → ℕ
of_group g f w = if w.group == g then f w else 0

-- The counters are true of what is queued and in the writer's hands, and within the limits.
pub record IsAccounted (s : CaptureQueue) (writing : Option CaptureWrite) : Type 0 where
  pub bytes : s.queued_bytes ≡ total size s.order + flying size writing
  pub records : s.queued_records ≡ total one s.order + flying one writing
  pub bytes_of :
      (g : ℕ) → s.group_bytes g ≡ total (of_group g size) s.order + flying (of_group g size) writing
  pub records_of :
      (g : ℕ) → s.group_records g ≡ total (of_group g one) s.order + flying (of_group g one) writing
  pub bytes_bound : s.queued_bytes ≤ capture_queue_bytes
  pub records_bound : s.queued_records ≤ capture_queue_records
  pub bytes_of_bound : (g : ℕ) → s.group_bytes g ≤ invocation_queue_bytes
  pub records_of_bound : (g : ℕ) → s.group_records g ≤ invocation_queue_records

-- A measure of the records that are queued or counted as lost.
abbrev pub known : (CaptureWrite → ℕ) → CaptureQueue → ℕ
known f s = sum_of f s.dropped + total f s.order

pub record Kept (writing : Option CaptureWrite) (s s' : CaptureQueue) : Type 0 where
  pub accounted : IsAccounted s writing → IsAccounted s' writing
  pub conserved : (f : CaptureWrite → ℕ) → known f s' ≡ known f s
  pub group_bytes_le : (g : ℕ) → s'.group_bytes g ≤ s.group_bytes g
  pub group_records_le : (g : ℕ) → s'.group_records g ≤ s.group_records g

Kept-refl : (writing : Option CaptureWrite) (s : CaptureQueue) → Kept writing s s
Kept-refl writing s = record {
  accounted = λ a. a;
  conserved = λ f. refl;
  group_bytes_le = λ g. omega arith;
  group_records_le = λ g. omega arith;
}

Kept-trans :
    (writing : Option CaptureWrite) (s t u : CaptureQueue)
    → Kept writing s t
    → Kept writing t u
    → Kept writing s u
Kept-trans writing s t u h k = record {
  accounted = λ a. k.accounted (h.accounted a);
  conserved = λ f. k.conserved f ∙ h.conserved f;
  group_bytes_le = λ g. omega (arith, h.group_bytes_le g, k.group_bytes_le g);
  group_records_le = λ g. omega (arith, h.group_records_le g, k.group_records_le g);
}

-- A record that leaves the order is counted as lost and released.
evicted-Kept :
    (writing : Option CaptureWrite) (s : CaptureQueue) (rest : List CapturePending)
    (w : CaptureWrite)
    → ((f : CaptureWrite → ℕ) → total f rest + f w ≡ total f s.order)
    → Kept writing s (release_capture (drop_capture (record s { order = rest }) w) w)
evicted-Kept writing s rest w h = record {
  accounted = λ a. record {
    bytes = omega (arith, a.bytes, h size);
    records = omega (arith, a.records, h one);
    bytes_of = λ g. ground (arith, a.bytes_of g, h (of_group g size));
    records_of = λ g. ground (arith, a.records_of g, h (of_group g one));
    bytes_bound = omega (arith, a.bytes_bound);
    records_bound = omega (arith, a.records_bound);
    bytes_of_bound = λ g. ground (arith, a.bytes_of_bound g);
    records_of_bound = λ g. ground (arith, a.records_of_bound g);
  };
  conserved = λ f. omega (arith, h f, sum_of-append f s.dropped (w ∷ []));
  group_bytes_le = λ g. ground arith;
  group_records_le = λ g. ground arith;
}

-- An eviction, where there is one, keeps all this and takes one queued record.
abbrev Evicted : Option CaptureWrite → CaptureQueue → Option CaptureQueue → Type 0
Evicted writing s none = Unit
Evicted writing s (some s') = Kept writing s s' × (total one s'.order + 1 ≡ total one s.order)

evict-Evicted :
    (writing : Option CaptureWrite) (s : CaptureQueue) (g : ℕ) → Evicted writing s (evict s g)
unfolding evict
evict-Evicted writing s g = taken (evict_last g s.order) (λ f. evict_last-Evicts f g s.order)
  where
    taken :
        (o : Option (List CapturePending × CaptureWrite))
        → ((f : CaptureWrite → ℕ) → Evicts f s.order o)
        → Evicted writing s (elim o [
          | none ↦ none
          | some (rest, w) ↦ some (release_capture (drop_capture (record s { order = rest }) w) w)
        ])
    taken none h = tt
    taken (some (rest, w)) h = (evicted-Kept writing s rest w h, h one)

-- What `make_room` promises, for a record of `n` bytes.
pub record Roomed (writing : Option CaptureWrite) (s : CaptureQueue) (n : ℕ)
    (r : Bool × CaptureQueue) : Type 0 where
  pub kept : Kept writing s r.1
  pub room : r.0 ≡ true → no_room r.1 n ≡ false

pub make_room-Roomed :
    (writing : Option CaptureWrite) (f : ℕ) (s : CaptureQueue) (group n : ℕ)
    → Roomed writing s n (make_room f s group n)
unfolding make_room
make_room-Roomed writing zero s group n = record { kept = Kept-refl writing s; room = λ h. cc }
make_room-Roomed writing (suc f) s group n = elim (Bool-cases (no_room s n)) [
  | inr free ↦ rw (free, make_room) (record { kept = Kept-refl writing s; room = λ h. free })
  | inl full ↦
      elim (Option-cases
        (choose_victim s group n (ltb capture_queue_bytes (s.queued_bytes + n)) none s.order)) [
          | inl nobody ↦
              rw (full, nobody, make_room) (record { kept = Kept-refl writing s; room = λ h. cc })
          | inr (v, found) ↦ elim (Option-cases (evict s v.group)) [
            | inl stuck ↦
                rw (full, found, stuck, make_room)
                  (record { kept = Kept-refl writing s; room = λ h. cc })
            | inr (less, went) ↦
                let one_less = rw went at (evict-Evicted writing s v.group) in
                let later = make_room-Roomed writing f less group n in
                rw (full, found, went, make_room)
                  (record {
                    kept =
                        Kept-trans writing s less (make_room f less group n).1 one_less.0
                          later.kept;
                    room = later.room;
                  })
          ]
        ]
]

-- One round more than there are queued records is enough.
pub make_room_ends :
    (f : ℕ) (s : CaptureQueue) (group n : ℕ)
    → total one s.order < f
    → make_room f s group n ≡ make_room (suc f) s group n
unfolding make_room
make_room_ends zero s group n h = elim h [ ]
make_room_ends (suc f) s group n h = elim (Bool-cases (no_room s n)) [
  | inr free ↦ rw (free, make_room) refl
  | inl full ↦
      elim (Option-cases
        (choose_victim s group n (ltb capture_queue_bytes (s.queued_bytes + n)) none s.order)) [
          | inl nobody ↦ rw (full, nobody, make_room) refl
          | inr (v, found) ↦ elim (Option-cases (evict s v.group)) [
            | inl stuck ↦ rw (full, found, stuck, make_room) refl
            | inr (less, went) ↦
                let one_less = rw went at (evict-Evicted none s v.group) in
                rw (full, found, went, make_room)
                  (make_room_ends f less group n (omega (arith, one_less.1, h)))
          ]
        ]
]
