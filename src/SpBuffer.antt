-- ===== src/SpBuffer.antt =====
-- `SPBuffer<SIZE>` of src/SerialPort/SPUnix.h: received bytes on their way to the application, in
-- `data_[begin_ .. end_)`. The member `begin` is `start` here and `end` is `stop`.
pub mod Laws
pub mod Safety
mod Tests
use octcommu.Shared.{
  ℕ, ◌+◌, ◌-◌, Bool, true, false, Option, none, some, List, [], ltb, ◌==◌, if◌then◌else◌, ◌>>=◌,
  length, replicate, slice, memcpy,
}

pub record SpBuffer : Type 0 where
  pub bytes : List ℕ
  pub start : ℕ
  pub stop : ℕ

unfoldable pub valid_len : SpBuffer → ℕ
valid_len b = b.stop - b.start

-- The bytes that `current()` points to, `validLen()` of them.
abbrev pub contents : SpBuffer → List ℕ
contents b = slice b.bytes b.start (b.stop - b.start)

unfoldable pub add_begin : SpBuffer → ℕ → Bool × SpBuffer
add_begin b offset =
    if ltb b.stop (b.start + offset)
    then (false, b)
    else (true, record b { start = b.start + offset })

module _ (size : ℕ) where
  unfoldable pub reset : SpBuffer
  reset = record { bytes = replicate size 0; start = 0; stop = 0 }

  avail : SpBuffer → ℕ
  avail b = size - b.stop

  -- `memcpy(data_ + begin_, pdata, len); end_ += len;`
  store : SpBuffer → List ℕ → Option (ℕ × SpBuffer)
  store b data_in = do
    filled ← memcpy b.bytes b.start data_in
    some (0, record b { bytes = filled; stop = b.stop + length data_in })

  -- The bytes held move to the front.
  shift : SpBuffer → Option SpBuffer
  shift b = do
    moved ← memcpy b.bytes 0 (slice b.bytes b.start (b.stop - b.start))
    some (record b { bytes = moved; start = 0; stop = b.stop - b.start })

  -- The return code and the buffer; `none` is a write outside the array.
  pub append : SpBuffer → List ℕ → Option (ℕ × SpBuffer)
  unfolding avail store shift
  append b data_in =
      if ltb size (length data_in)
      then some (1, b)
      else if ltb (avail b) (length data_in)
      then (if b.start == 0 then some (3, b) else (do
        moved ← shift b
        if ltb (avail moved) (length data_in) then some (2, moved) else store moved data_in))
      else store b data_in

  -- `b.data(ins)` for another buffer: the return code, `b` and `ins`. The code of the inner
  -- `append` is not looked at.
  pub data_to : SpBuffer → Option (ℕ × SpBuffer × SpBuffer)
  data_to b = do (code, ins) ← append reset (contents b); some (0, record b { start = b.stop }, ins)
