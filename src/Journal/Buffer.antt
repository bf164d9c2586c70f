-- ===== src/Journal/Buffer.antt =====
-- internal/journal/buffer.go: `recordBuffer`. What the writer answers to a Write is an argument of
-- each operation; the capacity of the data is not modelled.
pub mod Conservation
use winunitd.Common.{
  ℕ, zero, suc, ◌+◌, ◌-◌, Bool, true, false, ◌&&◌, Option, none, some, List, [], ◌∷◌, ◌++◌,
  if◌then◌else◌, length, ltb,
}
use winunitd.Common.Int.{ℤ, pos, negsuc}
use winunitd.Common.Text.{Text}

abbrev pub journal_buffer_size : ℕ
journal_buffer_size = 4096

pub record BufferedRecord : Type 0 where
  pub remaining : ℕ
  pub message_bytes : ℕ

pub record RecordBuffer : Type 0 where
  pub contents : Text
  pub records : List BufferedRecord

abbrev pub empty_buffer : RecordBuffer
empty_buffer = record { contents = []; records = [] }

-- What `Write` returns: the number of bytes it took, and perhaps an error.
pub record Written : Type 0 where
  pub n : ℤ
  pub failure : Option ℕ

pub data WriteError : Type 0 where
  short_write : WriteError
  write_failed : ℕ → WriteError

unfoldable pub take : ℕ → Text → Text
take zero xs = []
take (suc n) [] = []
take (suc n) (x ∷ xs) = x ∷ take n xs

unfoldable pub drop : ℕ → Text → Text
drop zero xs = xs
drop (suc n) [] = []
drop (suc n) (x ∷ xs) = drop n xs

-- The loop over the records that `left` written bytes reach into.
unfoldable pub drop_records : ℕ → List BufferedRecord → List BufferedRecord
drop_records left [] = []
drop_records left (r ∷ rs) =
    let rest = drop_records (left - r.remaining) rs in
    if ltb 0 left
    then (if ltb left r.remaining then record r { remaining = r.remaining - left } ∷ rs else rest)
    else r ∷ rs

-- The error of `Flush` after `n` of `size` bytes were taken.
unfoldable pub flush_error : ℕ → ℕ → Option ℕ → Option WriteError
flush_error n size (some e) = some (write_failed e)
flush_error n size none = if ltb n size then some short_write else none

-- The bytes that `Flush` takes for written.
unfoldable pub written_bytes : ℤ → Text → Text
written_bytes (negsuc n) contents = []
written_bytes (pos n) bs = if ltb (length bs) n then [] else take n bs

-- `Flush` of data that is not empty.
unfoldable pub settle_write : ℤ → Option ℕ → RecordBuffer → Option WriteError × RecordBuffer
settle_write (negsuc n) failure b = (some short_write, b)
settle_write (pos n) failure b =
    let left : RecordBuffer = record {
      contents = drop n b.contents;
      records = drop_records n b.records;
    } in
    if ltb (length b.contents) n
    then (some short_write, b)
    else (flush_error n (length b.contents) failure, left)

unfoldable pub flush : Written → RecordBuffer → Option WriteError × RecordBuffer
flush w b = if ltb 0 (length b.contents) then settle_write w.n w.failure b else (none, b)

abbrev pub store : RecordBuffer → Text → ℕ → RecordBuffer
store b raw message_bytes = record {
  contents = b.contents ++ raw;
  records = b.records ++ record { remaining = length raw; message_bytes = message_bytes } ∷ [];
}

-- Whether `append` must flush first.
unfoldable pub overflows : RecordBuffer → Text → Bool
overflows b raw =
    ltb 0 (length b.contents) && ltb journal_buffer_size (length b.contents + length raw)

-- The record is stored unless a flush before it failed.
unfoldable pub store_after :
    Option WriteError × RecordBuffer → Text → ℕ → Option WriteError × RecordBuffer
store_after (some e, b) raw message_bytes = (some e, b)
store_after (none, b) raw message_bytes = (none, store b raw message_bytes)

unfoldable pub append : Written → RecordBuffer → Text → ℕ → Option WriteError × RecordBuffer
append w b raw message_bytes =
    if overflows b raw
    then store_after (flush w b) raw message_bytes
    else (none, store b raw message_bytes)

-- `pendingLoss`: the records, and the bytes of their messages.
unfoldable pub pending_loss : List BufferedRecord → ℕ × ℕ
pending_loss [] = (0, 0)
pending_loss (r ∷ rs) =
    let (records, message_bytes) = pending_loss rs in (records + 1, message_bytes + r.message_bytes)
