-- ===== src/Journal/FairQueue.antt =====
-- internal/journal/fair_queue.go: the queue between the captures of output and the one writer.
-- `captureQueues` and `captureOrder` hold the same queues: they are one list here, in the order of
-- the turns, and the loop over the map takes them in that order. A group is a number. What the
-- counters of losses are told is the list `dropped`. Wake-ups of the writer are left out.
pub mod Totals
pub mod Room
pub mod Acts
pub mod Accounts
use winunitd.Common.{
  ℕ, zero, suc, ◌+◌, ◌-◌, ◌*◌, Bool, true, false, ◌&&◌, ◌||◌, not, Option, none, some, List, [],
  ◌∷◌, ◌++◌, if◌then◌else◌, ltb, leb, ◌==◌, length,
}
use winunitd.Common.Text.{Text}

abbrev pub max_queued_capture_groups : ℕ
max_queued_capture_groups = 2048

abbrev pub capture_queue_records : ℕ
capture_queue_records = 16384

abbrev pub invocation_queue_records : ℕ
invocation_queue_records = 12288

abbrev pub capture_queue_bytes : ℕ
capture_queue_bytes = 16777216

abbrev pub invocation_queue_bytes : ℕ
invocation_queue_bytes = 4194304

-- An entry to be written, with the group of its capture.
pub record CaptureWrite : Type 0 where
  pub unit : Text
  pub message : Text
  pub group : ℕ

pub record CapturePending : Type 0 where
  pub group : ℕ
  pub items : List CaptureWrite
  pub bytes : ℕ

-- The fields of `Store` that the queue uses, and the counters of each group.
pub record CaptureQueue : Type 0 where
  pub order : List CapturePending
  pub group_bytes : ℕ → ℕ
  pub group_records : ℕ → ℕ
  pub queued_bytes : ℕ
  pub queued_records : ℕ
  pub queue_closed : Bool
  pub dropped : List CaptureWrite

abbrev pub size : CaptureWrite → ℕ
size w = length w.message

abbrev pub update : (ℕ → ℕ) → ℕ → ℕ → ℕ → ℕ
update m g v x = if g == x then v else m x

abbrev pub drop_capture : CaptureQueue → CaptureWrite → CaptureQueue
drop_capture s w = record s { dropped = s.dropped ++ w ∷ [] }

abbrev pub release_capture : CaptureQueue → CaptureWrite → CaptureQueue
release_capture s w = record s {
  queued_bytes = s.queued_bytes - size w;
  queued_records = s.queued_records - 1;
  group_bytes = update s.group_bytes w.group (s.group_bytes w.group - size w);
  group_records = update s.group_records w.group (s.group_records w.group - 1);
}

-- Whether a queue may lose a record to one of `group` that has `n` bytes.
unfoldable pub is_victim : CaptureQueue → ℕ → ℕ → Bool → CapturePending → Bool
is_victim s group n byte_pressure q =
    not (q.group == group)
    && (ltb 1 (length q.items)
        && (if byte_pressure
            then ltb (s.group_bytes group + n) q.bytes
            else ltb (s.group_records group + 1) (length q.items)))

abbrev larger : Bool → CapturePending → Option CapturePending → Bool
larger byte_pressure q none = true
larger byte_pressure q (some v) =
    if byte_pressure then ltb v.bytes q.bytes else ltb (length v.items) (length q.items)

-- The loop over the queues: the first of the largest that may lose a record.
unfoldable pub choose_victim :
    CaptureQueue
    → ℕ
    → ℕ
    → Bool
    → Option CapturePending
    → List CapturePending
    → Option CapturePending
unfolding is_victim
choose_victim s group n bp best [] = best
choose_victim s group n bp best (q ∷ qs) =
    choose_victim s group n bp
      (if is_victim s group n bp q && larger bp q best then some q else best) qs

-- A list without its last element, and that element.
unfoldable pub split_last : List CaptureWrite → Option (List CaptureWrite × CaptureWrite)
split_last [] = none
split_last (w ∷ ws) = elim (split_last ws) [
  | none ↦ some ([], w)
  | some (front, last) ↦ some (w ∷ front, last)
]

abbrev shorten : CapturePending → List CaptureWrite → CaptureWrite → CapturePending
shorten q front last = record q { items = front; bytes = q.bytes - size last }

-- `victim.items.Remove(last)` on the queue of the group `g`.
unfoldable pub evict_last : ℕ → List CapturePending → Option (List CapturePending × CaptureWrite)
unfolding split_last
evict_last g [] = none
evict_last g (q ∷ qs) =
    let later = evict_last g qs in
    if q.group == g
    then elim (split_last q.items) [
      | none ↦ none
      | some (front, last) ↦ some (shorten q front last ∷ qs, last)
    ]
    else elim later [ none ↦ none | some (rest, last) ↦ some (q ∷ rest, last) ]

unfoldable pub evict : CaptureQueue → ℕ → Option CaptureQueue
evict s g = elim (evict_last g s.order) [
  | none ↦ none
  | some (rest, w) ↦ some (release_capture (drop_capture (record s { order = rest }) w) w)
]

abbrev pub no_room : CaptureQueue → ℕ → Bool
no_room s n =
    ltb capture_queue_bytes (s.queued_bytes + n) || leb capture_queue_records s.queued_records

-- `makeCaptureRoomLocked`: whether there is room at last, and the queue after the evictions.
unfoldable pub make_room : ℕ → CaptureQueue → ℕ → ℕ → Bool × CaptureQueue
make_room zero s group n = (false, s)
make_room (suc f) s group n = elim (no_room s n) [
  | false ↦ (true, s)
  | true ↦
      elim (choose_victim s group n (ltb capture_queue_bytes (s.queued_bytes + n)) none s.order) [
        | none ↦ (false, s)
        | some v ↦ elim (evict s v.group) [
          | none ↦ (false, s)
          | some less ↦ make_room f less group n
        ]
      ]
]

unfoldable pub has_queue : ℕ → List CapturePending → Bool
has_queue g [] = false
has_queue g (q ∷ qs) = q.group == g || has_queue g qs

-- `q.items.PushBack(work)`, with a new queue at the end of the order where there is none.
unfoldable pub push_work : CaptureWrite → List CapturePending → List CapturePending
push_work w [] = record { group = w.group; items = w ∷ []; bytes = size w } ∷ []
push_work w (q ∷ qs) =
    if q.group == w.group
    then record q { items = q.items ++ w ∷ []; bytes = q.bytes + size w } ∷ qs
    else q ∷ push_work w qs

abbrev pub refused : CaptureQueue → CaptureWrite → Bool
refused s w =
    s.queue_closed
    || (ltb capture_queue_bytes (size w)
        || (ltb invocation_queue_bytes (s.group_bytes w.group + size w)
            || (leb invocation_queue_records (s.group_records w.group)
                || (not (has_queue w.group s.order)
                    && leb max_queued_capture_groups (length s.order)))))

abbrev pub accept : CaptureQueue → CaptureWrite → CaptureQueue
accept s w = record s {
  order = push_work w s.order;
  queued_bytes = s.queued_bytes + size w;
  queued_records = s.queued_records + 1;
  group_bytes = update s.group_bytes w.group (s.group_bytes w.group + size w);
  group_records = update s.group_records w.group (s.group_records w.group + 1);
}

abbrev pub accept_if : Bool × CaptureQueue → CaptureWrite → CaptureQueue
accept_if (false, s) w = drop_capture s w
accept_if (true, s) w = accept s w

-- `enqueue`. Each round of `make_room` evicts one queued record.
unfoldable pub enqueue : CaptureQueue → CaptureWrite → CaptureQueue
enqueue s w = elim (refused s w) [
  | true ↦ drop_capture s w
  | false ↦ accept_if (make_room (s.queued_records + 1) s w.group (size w)) w
]

-- The turn of the queue at the front: its first record, and the order afterwards.
unfoldable pub take_turn : List CapturePending → Option (CaptureWrite × List CapturePending)
take_turn [] = none
take_turn (q ∷ qs) = elim q.items [
  | [] ↦ none
  | w ∷ [] ↦ some (w, qs)
  | w ∷ v ∷ rest ↦ some (w, qs ++ record q { items = v ∷ rest; bytes = q.bytes - size w } ∷ [])
]

-- `nextCapture` as far as it does not wait.
unfoldable pub next_capture : CaptureQueue → Option (CaptureWrite × CaptureQueue)
next_capture s = elim (take_turn s.order) [
  | none ↦ none
  | some (w, rest) ↦ some (w, record s { order = rest })
]

-- The end of a round of `writeCaptures`: the record was appended to the journal, or not.
unfoldable pub finish_write : CaptureQueue → CaptureWrite → Bool → CaptureQueue
finish_write s w failed = release_capture (if failed then drop_capture s w else s) w
