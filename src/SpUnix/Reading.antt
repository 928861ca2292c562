-- ===== src/SpUnix/Reading.antt =====
-- `readEvent`, `onReadData` and `pushData2Client` of src/SerialPort/SPUnix.cpp: bytes on their way
-- from the port to the application. `readEvent` calls `onReadData` with more arguments than it has;
-- the call is taken with the first two.
pub mod Parts
pub mod Events
pub mod Overflow
pub mod Chunks
use octcommu.Shared.{
  ℕ, zero, suc, ◌+◌, ◌-◌, Bool, true, false, List, [], ◌∷◌, Option, none, some, ◌==◌, ltb,
  if◌then◌else◌, ◌>>=◌, length, take, slice, ℤ, pos, negsuc,
}
use octcommu.FixedBuffer
use octcommu.FixedBuffer.{FixedBuffer}
use octcommu.SpBuffer
use octcommu.SpBuffer.{SpBuffer}
use octcommu.SpUnix.{SpUnix, max_buffer_len}

-- What `read` returns: bytes, none of them at the end of the file, -1 with EAGAIN, or -1 with
-- another error.
pub data ReadResult : Type 0 where
  got : List ℕ → ReadResult
  again failed : ReadResult

-- The loop over `read`, which returns at most the number of bytes asked for. After a part the count
-- is that of the part. `none` is a write outside the buffer, or a loop that has not ended when the
-- results are used up.
unfoldable pub read_loop : ℕ → ℕ → List ReadResult → FixedBuffer → Option FixedBuffer
read_loop available current_count [] b = if available == current_count then some b else none
read_loop available current_count (got [] ∷ rs) b = some b
read_loop available current_count (got (x ∷ bs) ∷ rs) b =
    if available == current_count then some b else (do
      filled ← FixedBuffer.write_cur max_buffer_len b (x ∷ bs)
      let c = record b { bytes = filled }
      let rest =
          read_loop available (length (x ∷ bs)) rs
            (FixedBuffer.move_to max_buffer_len c (length (x ∷ bs)))
      if length (x ∷ bs) == available - current_count
          then some (FixedBuffer.set_valid_len max_buffer_len c available)
          else rest)
read_loop available current_count (again ∷ rs) b =
    let rest = read_loop available current_count rs b in
    if available == current_count then some b else rest
read_loop available current_count (failed ∷ rs) b = some b

-- `append` to the 10240 bytes that wait, whose code is not looked at, and a task for the pool.
unfoldable pub on_read_data : SpUnix → List ℕ → Option SpUnix
on_read_data u pdata = do
  (code, waiting) ← SpBuffer.append max_buffer_len u.sp_buf pdata
  some (record u {
    recv_bytes = u.recv_bytes + length pdata;
    sp_buf = waiting;
    pending = suc u.pending;
  })

unfoldable pub read_available : List ReadResult → ℕ → SpUnix → Option SpUnix
read_available results available u = do
  filled ← read_loop available 0 results (FixedBuffer.reset max_buffer_len u.recv_buffer)
  let v = record u { recv_buffer = filled }
  if filled.current_len == 0 then some v else on_read_data v (take filled.current_len filled.bytes)

-- `readable` is whether `select` has marked the descriptor, and `ready` what `FIONREAD` gives, with
-- -1 for a failure of `ioctl`.
unfoldable pub read_event : List ReadResult → Bool → ℤ → SpUnix → Option SpUnix
read_event results false ready u = some u
read_event results true (negsuc n) u = some u
read_event results true (pos zero) u = some u
read_event results true (pos (suc n)) u =
    if ltb max_buffer_len (suc n) then some u else read_available results (suc n) u

-- The loop of `pushData2Client` with the length asked for, which no call of `setNextReadLen`
-- changes meanwhile: the calls of the application's function, if it is set. `none` is a loop that
-- the fuel is too short for.
pub push_loop : ℕ → ℕ → Bool → SpBuffer → Option (List (List ℕ) × SpBuffer)
push_loop zero next_read_len has_func b = none
push_loop (suc fuel) next_read_len has_func b =
    let rest = push_loop fuel next_read_len has_func (SpBuffer.add_begin b next_read_len).1 in
    if ltb (SpBuffer.valid_len b) next_read_len then some ([], b) else (do
      (more, x) ← rest
      some (if has_func then slice b.bytes b.start next_read_len ∷ more else more, x))

-- The bytes that wait go to a local buffer; what the loop leaves in it is gone.
unfoldable pub push_data_2_client : ℕ → SpUnix → Option (List (List ℕ) × SpUnix)
push_data_2_client fuel u = do
  (code, waiting, sp_buf_tmp) ← SpBuffer.data_to max_buffer_len u.sp_buf
  let v = record u { sp_buf = waiting }
  if code == 0
      then (do
        (delivered, left) ← push_loop fuel u.next_read_len u.recv_func sp_buf_tmp
        some (delivered, v))
      else some ([], v)
