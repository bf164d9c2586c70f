-- ===== src/Journal/Buffer/Conservation.antt =====
-- The bytes of the buffer over failed and partial writes.
use winunitd.Common.{
  ℕ, zero, suc, ◌+◌, ◌-◌, Option, none, some, List, [], ◌∷◌, ◌++◌, if◌then◌else◌, length, ltb, ◌≡◌,
  refl, sym, ap, arith, Bool-cases, inl, inr, length-append, ◌∙◌,
}
use mathlib.Core.List.{append-nil, append_assoc}
use winunitd.Common.Int.{ℤ, pos, negsuc}
use winunitd.Common.Text.{Text}
use winunitd.Journal.Buffer.{
  BufferedRecord, RecordBuffer, Written, WriteError, take, drop, drop_records, written_bytes,
  settle_write, flush, store, store_after, overflows, append, empty_buffer,
}

-- An operation on the buffer, with what the writer answers if it is asked.
pub data Op : Type 0 where
  op_append : Text → ℕ → Op
  op_flush : Op

-- A buffer, all bytes that the writer took, and all bytes of the records that were accepted.
pub record History : Type 0 where
  pub buffer : RecordBuffer
  pub written : Text
  pub accepted : Text

-- The bytes that a flush of `b` hands over, if it is not empty.
abbrev pub handed : Written → RecordBuffer → Text
handed w b = if ltb 0 (length b.contents) then written_bytes w.n b.contents else []

abbrev pub kept : Option WriteError → Text → Text
kept none raw = raw
kept (some e) raw = []

unfoldable pub run_op : Written → History → Op → History
run_op w h op_flush = record {
  buffer = (flush w h.buffer).1;
  written = h.written ++ handed w h.buffer;
  accepted = h.accepted;
}
run_op w h (op_append raw message_bytes) =
    let after = append w h.buffer raw message_bytes in
    record {
      buffer = after.1;
      written = h.written ++ (if overflows h.buffer raw then handed w h.buffer else []);
      accepted = h.accepted ++ kept after.0 raw;
    }

unfoldable pub run_ops : History → List (Written × Op) → History
run_ops h [] = h
run_ops h ((w, op) ∷ ops) = run_ops (run_op w h op) ops

-- The bytes of the records that are still to be written.
abbrev pub remaining_total : List BufferedRecord → ℕ
remaining_total [] = 0
remaining_total (r ∷ rs) = r.remaining + remaining_total rs

pub record IsWhole (h : History) : Type 0 where
  pub conserved : h.written ++ h.buffer.contents ≡ h.accepted
  pub accounted : remaining_total h.buffer.records ≡ length h.buffer.contents

take-drop : (n : ℕ) (xs : Text) → take n xs ++ drop n xs ≡ xs
unfolding take drop
take-drop zero xs = refl
take-drop (suc n) [] = refl
take-drop (suc n) (x ∷ xs) = ap (λ ys. x ∷ ys) (take-drop n xs)

length-drop : (n : ℕ) (xs : Text) → length (drop n xs) ≡ length xs - n
unfolding drop
length-drop zero xs = omega arith
length-drop (suc n) [] = omega arith
length-drop (suc n) (x ∷ xs) = omega (arith, length-drop n xs)

remaining_total-drop_records :
    (left : ℕ) (rs : List BufferedRecord)
    → remaining_total (drop_records left rs) ≡ remaining_total rs - left
unfolding drop_records
remaining_total-drop_records left [] = omega arith
remaining_total-drop_records left (r ∷ rs) =
    ground (arith, remaining_total-drop_records (left - r.remaining) rs)

remaining_total-append :
    (rs : List BufferedRecord) (r : BufferedRecord)
    → remaining_total (rs ++ r ∷ []) ≡ remaining_total rs + r.remaining
remaining_total-append [] r = omega arith
remaining_total-append (x ∷ rs) r = omega (arith, remaining_total-append rs r)

handed-settle_write :
    (n : ℤ) (failure : Option ℕ) (b : RecordBuffer)
    → written_bytes n b.contents ++ (settle_write n failure b).1.contents ≡ b.contents
unfolding written_bytes settle_write
handed-settle_write (negsuc n) failure b = refl
handed-settle_write (pos n) failure b = elim (Bool-cases (ltb (length b.contents) n)) [
  | inl h ↦ rw h refl
  | inr h ↦ rw h (take-drop n b.contents)
]

-- A flush splits the contents in what the writer took and what is left.
handed-flush : (w : Written) (b : RecordBuffer) → handed w b ++ (flush w b).1.contents ≡ b.contents
unfolding flush
handed-flush w b = elim (Bool-cases (ltb 0 (length b.contents))) [
  | inr h ↦ rw h refl
  | inl h ↦ rw h (handed-settle_write w.n w.failure b)
]

-- The records agree with the contents on how much there is.
abbrev Agrees : RecordBuffer → Type 0
Agrees b = remaining_total b.records ≡ length b.contents

settle_write-Agrees :
    (n : ℤ) (failure : Option ℕ) (b : RecordBuffer) → Agrees b → Agrees (settle_write n failure b).1
unfolding settle_write
settle_write-Agrees (negsuc n) failure b h = h
settle_write-Agrees (pos n) failure b h = elim (Bool-cases (ltb (length b.contents) n)) [
  | inl g ↦ rw g h
  | inr g ↦
      rw g (omega (arith, h, remaining_total-drop_records n b.records, length-drop n b.contents))
]

flush-Agrees : (w : Written) (b : RecordBuffer) → Agrees b → Agrees (flush w b).1
unfolding flush
flush-Agrees w b h = elim (Bool-cases (ltb 0 (length b.contents))) [
  | inr g ↦ rw g h
  | inl g ↦ rw g (settle_write-Agrees w.n w.failure b h)
]

store-Agrees :
    (b : RecordBuffer) (raw : Text) (message_bytes : ℕ)
    → Agrees b
    → Agrees (store b raw message_bytes)
store-Agrees b raw message_bytes h = omega (
  arith,
  h,
  length-append b.contents raw,
  remaining_total-append b.records
      (record { remaining = length raw; message_bytes = message_bytes }),
)

store_after-Agrees :
    (r : Option WriteError × RecordBuffer) (raw : Text) (message_bytes : ℕ)
    → Agrees r.1
    → Agrees (store_after r raw message_bytes).1
unfolding store_after
store_after-Agrees (some e, b) raw message_bytes h = h
store_after-Agrees (none, b) raw message_bytes h = store-Agrees b raw message_bytes h

store_after-contents :
    (r : Option WriteError × RecordBuffer) (raw : Text) (message_bytes : ℕ)
    → (store_after r raw message_bytes).1.contents
      ≡ r.1.contents ++ kept (store_after r raw message_bytes).0 raw
unfolding store_after
store_after-contents (some e, b) raw message_bytes = sym (append-nil b.contents)
store_after-contents (none, b) raw message_bytes = refl

-- A record stored behind what a flush leaves.
conserved_after :
    (out taken left contents accepted raw : Text)
    → taken ++ left ≡ contents
    → out ++ contents ≡ accepted
    → (out ++ taken) ++ (left ++ raw) ≡ accepted ++ raw
conserved_after out taken left contents accepted raw a b =
    sym (append_assoc (out ++ taken) left raw)
    ∙ ap (λ bs. bs ++ raw) (append_assoc out taken left ∙ (ap (λ bs. out ++ bs) a ∙ b))

run_op-IsWhole : (w : Written) (h : History) (op : Op) → IsWhole h → IsWhole (run_op w h op)
unfolding run_op append
run_op-IsWhole w h op_flush s = record {
  conserved =
      append_assoc h.written (handed w h.buffer) (flush w h.buffer).1.contents
      ∙ ap (λ bs. h.written ++ bs) (handed-flush w h.buffer)
      ∙ s.conserved;
  accounted = flush-Agrees w h.buffer s.accounted;
}
run_op-IsWhole w h (op_append raw message_bytes) s = elim (Bool-cases (overflows h.buffer raw)) [
  | inr o ↦ rw o (record {
    conserved =
        conserved_after h.written [] h.buffer.contents h.buffer.contents h.accepted raw refl
          s.conserved;
    accounted = store-Agrees h.buffer raw message_bytes s.accounted;
  })
  | inl o ↦ rw o (record {
    conserved =
        ap (λ bs. (h.written ++ handed w h.buffer) ++ bs)
          (store_after-contents (flush w h.buffer) raw message_bytes)
        ∙ conserved_after h.written (handed w h.buffer) (flush w h.buffer).1.contents
            h.buffer.contents h.accepted
            (kept (store_after (flush w h.buffer) raw message_bytes).0 raw)
            (handed-flush w h.buffer) s.conserved;
    accounted =
        store_after-Agrees (flush w h.buffer) raw message_bytes
          (flush-Agrees w h.buffer s.accounted);
  })
]

run_ops_from : (ops : List (Written × Op)) (h : History) → IsWhole h → IsWhole (run_ops h ops)
unfolding run_ops
run_ops_from [] h s = s
run_ops_from ((w, op) ∷ ops) h s = run_ops_from ops (run_op w h op) (run_op-IsWhole w h op s)

abbrev pub no_history : History
no_history = record { buffer = empty_buffer; written = []; accepted = [] }

-- Over any appends and flushes of an empty buffer, and whatever the writer answers, short counts
-- and errors included, the bytes the writer took followed by those in the buffer are the bytes of
-- the accepted records in their order, and the records count exactly the bytes in the buffer.
pub run_ops-IsWhole : (ops : List (Written × Op)) → IsWhole (run_ops no_history ops)
run_ops-IsWhole ops = run_ops_from ops no_history (record { conserved = refl; accounted = refl })
