-- ===== src/StreamBuffer.antt =====
-- src/Util/StreamBuffer.h and StreamBuffer.cpp: a byte buffer that cuts a stream into frames of one
-- fixed length, each found by its header. Positions are `int`s that stay within the buffer; the
-- differences that the code computes before a test are moved to the other side of the test, so that
-- no subtraction is cut off at 0.
pub mod Valid
pub mod Append
pub mod Framing
pub mod Refine
pub mod Frames
pub mod Stream
pub mod Header
pub mod Configured
mod Tests
use octcommu.Shared.{
  ℕ, zero, suc, ◌+◌, ◌-◌, ◌*◌, Bool, true, false, Option, none, some, List, [], ◌∷◌, ltb, leb, ◌==◌,
  if◌then◌else◌, ◌>>=◌, length, take, replicate, slice, overwrite, memcpy, same_bytes, ℤ, pos,
  negsuc,
}

abbrev pub frame_head_len : ℕ
frame_head_len = 64

abbrev pub max_buffer_len : ℕ
max_buffer_len = 1024 * 80

pub record StreamBuffer : Type 0 where
  pub head : List ℕ
  pub head_valid_len : ℕ
  pub frame_len : ℕ
  pub data_buffer : List ℕ
  pub start_pos : ℕ
  pub end_pos : ℕ
  pub total_buffer_len : ℕ

-- The initial values of the members.
pub fresh : StreamBuffer
fresh = record {
  head = replicate frame_head_len 0;
  head_valid_len = 0;
  frame_len = 0;
  data_buffer = replicate max_buffer_len 0;
  start_pos = 0;
  end_pos = 0;
  total_buffer_len = max_buffer_len;
}

-- `std::regex` splits the header text at the blanks, and `strtol(.., 16)` reads a part; a part's
-- value is stored into an `unsigned char`. Both are the standard library's.
module _ (Text : Type 0) (str_split : Text → List Text) (hex_byte : Text → ℕ) where
  -- The loop over the parts: the array, and the index behind the last part.
  pub fill_head : List ℕ → ℕ → List Text → List ℕ × ℕ
  fill_head head index [] = (head, index)
  fill_head head index (item ∷ items) =
      fill_head (overwrite head index (hex_byte item ∷ [])) (index + 1) items

  -- A header that is too long takes `return 1`, which is `true`.
  pub init_head : StreamBuffer → List Text → ℕ → Bool × StreamBuffer
  unfolding fill_head
  init_head b parts frame_len =
      if ltb frame_head_len (length parts)
      then (true, b)
      else (let (head, index) = fill_head b.head 0 parts in
          (
            true,
            record b {
              head = head;
              head_valid_len = index;
              frame_len = frame_len;
              start_pos = 0;
              end_pos = 0;
            },
          ))

  pub init : StreamBuffer → Text → ℤ → Bool × StreamBuffer
  unfolding init_head
  init b sp_head (pos zero) = (false, b)
  init b sp_head (pos (suc n)) = init_head b (str_split sp_head) (suc n)
  init b sp_head (negsuc n) = (false, b)

-- `memcpy(m_dataBuffer + m_endPos, pdata, data_len); m_endPos += data_len;`
pub write_end : StreamBuffer → List ℕ → Option StreamBuffer
write_end b bytes = do
  filled ← memcpy b.data_buffer b.end_pos bytes
  some (record b { data_buffer = filled; end_pos = b.end_pos + length bytes })

-- The bytes that no frame has taken yet move to the front.
pub compact : StreamBuffer → Option StreamBuffer
compact b =
    if ltb b.start_pos b.end_pos
    then (do
      moved ← memcpy b.data_buffer 0 (slice b.data_buffer b.start_pos (b.end_pos - b.start_pos))
      some (record b { data_buffer = moved; start_pos = 0; end_pos = b.end_pos - b.start_pos }))
    else some (record b { start_pos = 0; end_pos = 0 })

-- `none` is a write past the end of `m_dataBuffer`.
pub append : StreamBuffer → List ℕ → Option StreamBuffer
unfolding write_end compact
append b bytes =
    if leb b.total_buffer_len (length bytes)
    then some b
    else if leb (b.end_pos + length bytes) b.total_buffer_len
    then write_end b bytes
    else (do moved ← compact b; write_end moved bytes)

-- The loop of `findStartFrameHeaderPos` with `m_endPos - m_headValidLen - m_startPos + 1` rounds
-- left: whether the header was found, and the position that the loop leaves.
pub scan : List ℕ → List ℕ → ℕ → ℕ → Bool × ℕ
scan buffer header zero at = (false, at)
scan buffer header (suc rounds) at = elim (same_bytes (slice buffer at (length header)) header) [
  | true ↦ (true, at)
  | false ↦ scan buffer header rounds (at + 1)
]

pub find_start_frame_header_pos : StreamBuffer → Bool × StreamBuffer
find_start_frame_header_pos b =
    if b.head_valid_len == 0
    then (true, b)
    else (let (found, at) =
          scan b.data_buffer (take b.head_valid_len b.head)
            (b.end_pos + 1 - (b.start_pos + b.head_valid_len)) b.start_pos in
        (found, record b { start_pos = at }))

-- What follows once a header is found.
pub take_frame : StreamBuffer → Option (List ℕ) × StreamBuffer
take_frame b = if ltb b.end_pos (b.start_pos + b.frame_len) then (none, b) else (
  some (slice b.data_buffer b.start_pos b.frame_len),
  record b { start_pos = b.start_pos + b.frame_len },
)

-- What the call does with the result of the search.
abbrev pub after_find : Bool × StreamBuffer → Option (List ℕ) × StreamBuffer
after_find (true, b) = take_frame b
after_find (false, b) = (none, b)

-- The frame is the bytes that the returned pointer shows until the next call of `append`.
pub get_next_frame : StreamBuffer → Option (List ℕ) × StreamBuffer
get_next_frame b =
    if ltb b.end_pos (b.start_pos + b.frame_len)
    then (none, b)
    else after_find (find_start_frame_header_pos b)

pub release : StreamBuffer → StreamBuffer
release b = record b {
  head = replicate frame_head_len 0;
  head_valid_len = 0;
  frame_len = 0;
  start_pos = 0;
  end_pos = 0;
}

pub clear_buffer : StreamBuffer → StreamBuffer
clear_buffer b = record b { data_buffer = replicate max_buffer_len 0; start_pos = 0; end_pos = 0 }
