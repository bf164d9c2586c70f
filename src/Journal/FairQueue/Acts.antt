-- ===== src/Journal/FairQueue/Acts.antt =====
-- What captures and the writer do to the queue, and what an offer does to its counters.
use winunitd.Common.{
  ℕ, ◌+◌, ◌≤◌, ◌<◌, Bool, true, false, Option, none, some, List, [], ◌∷◌, ◌++◌, ◌≡◌, refl, ap, ◌∙◌,
  arith, if◌then◌else◌, Bool-cases, inl, inr,
}
use winunitd.Journal.FairQueue.{
  CaptureWrite, CaptureQueue, size, invocation_queue_bytes, invocation_queue_records, drop_capture,
  make_room, refused, accept, accept_if, enqueue, next_capture, finish_write, no_room,
}
use winunitd.Journal.FairQueue.Totals.{sum_of, sum_of-append, total-push_work}
use winunitd.Journal.FairQueue.Room.{
  flying, one, of_group, IsAccounted, known, Roomed, make_room-Roomed,
}

-- The queue with the writer, and what was offered and written so far.
pub record Capturing : Type 0 where
  pub queue : CaptureQueue
  pub writing : Option CaptureWrite
  pub offered : List CaptureWrite
  pub written : List CaptureWrite

pub data Act : Type 0 where
  offer : CaptureWrite → Act
  turn close : Act
  finish : Bool → Act

-- The writer takes a record only when it has none, and finishes only what it has.
abbrev pub taken : Capturing → Option (CaptureWrite × CaptureQueue) → Capturing
taken c none = c
taken c (some (w, s)) = record c { queue = s; writing = some w }

unfoldable pub act : Capturing → Option CaptureWrite → Act → Capturing
act c writing (offer w) = record c { queue = enqueue c.queue w; offered = c.offered ++ w ∷ [] }
act c none turn = taken c (next_capture c.queue)
act c (some w) turn = c
act c writing close = record c { queue = record c.queue { queue_closed = true } }
act c none (finish failed) = c
act c (some w) (finish failed) = record c {
  queue = finish_write c.queue w failed;
  writing = none;
  written = if failed then c.written else c.written ++ w ∷ [];
}

unfoldable pub acts : Capturing → List Act → Capturing
acts c [] = c
acts c (a ∷ rest) = acts (act c c.writing a) rest

pub record IsFaithful (c : Capturing) : Type 0 where
  pub accounted : IsAccounted c.queue c.writing
  pub conserved :
      (f : CaptureWrite → ℕ)
      → sum_of f c.offered ≡ known f c.queue + (sum_of f c.written + flying f c.writing)

-- A record for which there is room is counted in.
accept-IsAccounted :
    (writing : Option CaptureWrite) (s : CaptureQueue) (w : CaptureWrite)
    → IsAccounted s writing
    → no_room s (size w) ≡ false
    → s.group_bytes w.group + size w ≤ invocation_queue_bytes
    → s.group_records w.group < invocation_queue_records
    → IsAccounted (accept s w) writing
accept-IsAccounted writing s w a r b c = record {
  bytes = omega (arith, a.bytes, total-push_work size w s.order);
  records = omega (arith, a.records, total-push_work one w s.order);
  bytes_of = λ g.
      ground (arith, a.bytes_of g, total-push_work (of_group g size) w s.order, ap s.group_bytes);
  records_of = λ g.
      ground
        (arith, a.records_of g, total-push_work (of_group g one) w s.order, ap s.group_records);
  bytes_bound = ground arith;
  records_bound = ground arith;
  bytes_of_bound = λ g. ground (arith, a.bytes_of_bound g);
  records_of_bound = λ g. ground (arith, a.records_of_bound g);
}

-- A record was taken in or counted as lost.
pub record Offered (writing : Option CaptureWrite) (s s' : CaptureQueue) (w : CaptureWrite)
    : Type 0 where
  pub accounted : IsAccounted s' writing
  pub conserved : (f : CaptureWrite → ℕ) → known f s' ≡ known f s + f w

pub drop-IsAccounted :
    (writing : Option CaptureWrite) (s : CaptureQueue) (w : CaptureWrite)
    → IsAccounted s writing
    → IsAccounted (drop_capture s w) writing
drop-IsAccounted writing s w a = record {
  bytes = a.bytes;
  records = a.records;
  bytes_of = a.bytes_of;
  records_of = a.records_of;
  bytes_bound = a.bytes_bound;
  records_bound = a.records_bound;
  bytes_of_bound = a.bytes_of_bound;
  records_of_bound = a.records_of_bound;
}

drop-Offered :
    (writing : Option CaptureWrite) (s : CaptureQueue) (w : CaptureWrite)
    → IsAccounted s writing
    → Offered writing s (drop_capture s w) w
drop-Offered writing s w a = record {
  accounted = drop-IsAccounted writing s w a;
  conserved = λ f. omega (arith, sum_of-append f s.dropped (w ∷ []));
}

accept_if-Offered :
    (writing : Option CaptureWrite) (s : CaptureQueue) (w : CaptureWrite) (r : Bool × CaptureQueue)
    → IsAccounted s writing
    → Roomed writing s (size w) r
    → s.group_bytes w.group + size w ≤ invocation_queue_bytes
    → s.group_records w.group < invocation_queue_records
    → Offered writing s (accept_if r w) w
accept_if-Offered writing s w (false, t) a h b c =
    let d = drop-Offered writing t w (h.kept.accounted a) in
    record {
      accounted = d.accounted;
      conserved = λ f. d.conserved f ∙ ap (λ n. n + f w) (h.kept.conserved f);
    }
accept_if-Offered writing s w (true, t) a h b c = record {
  accounted =
      accept-IsAccounted writing t w (h.kept.accounted a) (h.room refl)
        (omega (arith, h.kept.group_bytes_le w.group, b))
        (omega (arith, h.kept.group_records_le w.group, c));
  conserved = λ f. omega (arith, h.kept.conserved f, total-push_work f w t.order);
}

pub enqueue-Offered :
    (writing : Option CaptureWrite) (s : CaptureQueue) (w : CaptureWrite)
    → IsAccounted s writing
    → Offered writing s (enqueue s w) w
unfolding enqueue
enqueue-Offered writing s w a = elim (Bool-cases (refused s w)) [
  | inl no_way ↦ rw (no_way, enqueue) (drop-Offered writing s w a)
  | inr fits ↦
      rw (fits, enqueue)
        (accept_if-Offered writing s w (make_room (s.queued_records + 1) s w.group (size w)) a
          (make_room-Roomed writing (s.queued_records + 1) s w.group (size w)) (ground arith)
          (ground arith))
]
