-- ===== src/Journal/FairQueue/Accounts.antt =====
-- The counters of the queue, and what becomes of the records that are offered.
use winunitd.Common.{ℕ, ◌+◌, true, false, Option, none, some, List, [], ◌∷◌, ◌≡◌, refl, arith}
use winunitd.Journal.FairQueue.{
  CaptureWrite, CapturePending, CaptureQueue, size, drop_capture, release_capture, take_turn,
  next_capture, finish_write,
}
use winunitd.Journal.FairQueue.Totals.{total, sum_of-append, Turns, take_turn-Turns}
use winunitd.Journal.FairQueue.Room.{one, of_group, IsAccounted}
use winunitd.Journal.FairQueue.Acts.{
  offer, turn, close, finish, Capturing, Act, taken, act, acts, IsFaithful, drop-IsAccounted,
  enqueue-Offered,
}

-- The writer has taken a record.
turn-IsAccounted :
    (s : CaptureQueue) (w : CaptureWrite) (rest : List CapturePending)
    → ((f : CaptureWrite → ℕ) → total f rest + f w ≡ total f s.order)
    → IsAccounted s none
    → IsAccounted (record s { order = rest }) (some w)
turn-IsAccounted s w rest h a = record {
  bytes = omega (arith, a.bytes, h size);
  records = omega (arith, a.records, h one);
  bytes_of = λ g. omega (arith, a.bytes_of g, h (of_group g size));
  records_of = λ g. omega (arith, a.records_of g, h (of_group g one));
  bytes_bound = a.bytes_bound;
  records_bound = a.records_bound;
  bytes_of_bound = a.bytes_of_bound;
  records_of_bound = a.records_of_bound;
}

turn-IsFaithful :
    (q : CaptureQueue) (offered written : List CaptureWrite)
    → IsFaithful (record { queue = q; writing = none; offered = offered; written = written })
    → IsFaithful (
        taken
          (record { queue = q; writing = none; offered = offered; written = written })
          (next_capture q))
unfolding next_capture
turn-IsFaithful q offered written h = go (take_turn q.order) (λ f. take_turn-Turns f q.order)
  where
    go :
        (o : Option (CaptureWrite × List CapturePending))
        → ((f : CaptureWrite → ℕ) → Turns f q.order o)
        → IsFaithful (
            taken
              (record { queue = q; writing = none; offered = offered; written = written })
              (elim o [ none ↦ none | some (w, rest) ↦ some (w, record q { order = rest }) ]))
    go none t = h
    go (some (w, rest)) t = record {
      accounted = turn-IsAccounted q w rest t h.accounted;
      conserved = λ f. omega (arith, h.conserved f, t f);
    }

finish-IsAccounted :
    (s : CaptureQueue) (w : CaptureWrite)
    → IsAccounted s (some w)
    → IsAccounted (release_capture s w) none
finish-IsAccounted s w a = record {
  bytes = omega (arith, a.bytes);
  records = omega (arith, a.records);
  bytes_of = λ g. ground (arith, a.bytes_of g);
  records_of = λ g. ground (arith, a.records_of g);
  bytes_bound = omega (arith, a.bytes_bound);
  records_bound = omega (arith, a.records_bound);
  bytes_of_bound = λ g. ground (arith, a.bytes_of_bound g);
  records_of_bound = λ g. ground (arith, a.records_of_bound g);
}

close-IsAccounted :
    (s : CaptureQueue) (writing : Option CaptureWrite)
    → IsAccounted s writing
    → IsAccounted (record s { queue_closed = true }) writing
close-IsAccounted s writing a = record {
  bytes = a.bytes;
  records = a.records;
  bytes_of = a.bytes_of;
  records_of = a.records_of;
  bytes_bound = a.bytes_bound;
  records_bound = a.records_bound;
  bytes_of_bound = a.bytes_of_bound;
  records_of_bound = a.records_of_bound;
}

act-IsFaithful :
    (q : CaptureQueue) (writing : Option CaptureWrite) (offered written : List CaptureWrite)
    (a : Act)
    → IsFaithful (record { queue = q; writing = writing; offered = offered; written = written })
    → IsFaithful (
        act
          (record { queue = q; writing = writing; offered = offered; written = written })
          writing
          a)
unfolding act finish_write
act-IsFaithful q writing offered written (offer w) h =
    let o = enqueue-Offered writing q w h.accounted in
    record {
      accounted = o.accounted;
      conserved =
          λ f. omega (arith, h.conserved f, o.conserved f, sum_of-append f offered (w ∷ []));
    }
act-IsFaithful q none offered written turn h = turn-IsFaithful q offered written h
act-IsFaithful q (some w) offered written turn h = h
act-IsFaithful q none offered written close h = record {
  accounted = close-IsAccounted q none h.accounted;
  conserved = h.conserved;
}
act-IsFaithful q (some w) offered written close h = record {
  accounted = close-IsAccounted q (some w) h.accounted;
  conserved = h.conserved;
}
act-IsFaithful q none offered written (finish failed) h = h
act-IsFaithful q (some w) offered written (finish true) h = record {
  accounted = finish-IsAccounted (drop_capture q w) w (drop-IsAccounted (some w) q w h.accounted);
  conserved = λ f. omega (arith, h.conserved f, sum_of-append f q.dropped (w ∷ []));
}
act-IsFaithful q (some w) offered written (finish false) h = record {
  accounted = finish-IsAccounted q w h.accounted;
  conserved = λ f. omega (arith, h.conserved f, sum_of-append f written (w ∷ []));
}

acts_from : (rest : List Act) (c : Capturing) → IsFaithful c → IsFaithful (acts c rest)
unfolding acts
acts_from [] c h = h
acts_from (a ∷ rest) c h =
    acts_from rest (act c c.writing a) (act-IsFaithful c.queue c.writing c.offered c.written a h)

abbrev pub no_captures : Capturing
no_captures = record {
  queue = record {
    order = [];
    group_bytes = λ g. 0;
    group_records = λ g. 0;
    queued_bytes = 0;
    queued_records = 0;
    queue_closed = false;
    dropped = [];
  };
  writing = none;
  offered = [];
  written = [];
}

-- Whatever captures offer and the writer does, from the empty queue on: the byte and record
-- counters, of all and of each group, are those of the records that are queued or being written,
-- and within their limits; and under every measure of records, what was offered is what was
-- written, counted as lost, queued or being written.
pub acts-IsFaithful : (rest : List Act) → IsFaithful (acts no_captures rest)
acts-IsFaithful rest = acts_from rest no_captures (record {
  accounted = record {
    bytes = refl;
    records = refl;
    bytes_of = λ g. refl;
    records_of = λ g. refl;
    bytes_bound = omega arith;
    records_bound = omega arith;
    bytes_of_bound = λ g. omega arith;
    records_of_bound = λ g. omega arith;
  };
  conserved = λ f. refl;
})
