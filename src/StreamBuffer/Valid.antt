-- ===== src/StreamBuffer/Valid.antt =====
-- What holds of a stream buffer between calls, and the bytes that it holds.
use octcommu.Shared.{ℕ, ◌-◌, ◌≤◌, ◌≡◌, List, length, slice, length-slice, arith}
use octcommu.StreamBuffer.{StreamBuffer}

pub record IsValid (b : StreamBuffer) : Type 0 where
  pub sized : length b.data_buffer ≡ b.total_buffer_len
  pub ordered : b.start_pos ≤ b.end_pos
  pub within : b.end_pos ≤ b.total_buffer_len
  pub headed : b.head_valid_len ≤ length b.head

-- The bytes that have been appended and that no frame has taken.
abbrev pub contents : StreamBuffer → List ℕ
contents b = slice b.data_buffer b.start_pos (b.end_pos - b.start_pos)

pub length-contents : {b : StreamBuffer} → IsValid b → length (contents b) ≡ b.end_pos - b.start_pos
length-contents {b} v =
    length-slice b.data_buffer b.start_pos (b.end_pos - b.start_pos) (omega arith)
