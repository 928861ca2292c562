-- ===== src/SpUnix/Sending.antt =====
-- `writeEvent` and `flushAllData` of src/SerialPort/SPUnix.cpp.
pub mod Loop
pub mod Flush
pub mod Delivery
use octcommu.Shared.{
  ℕ, zero, suc, ◌+◌, ◌-◌, Bool, true, false, List, [], ◌∷◌, ◌++◌, Option, none, some, ◌==◌,
  if◌then◌else◌, ◌>>=◌, length, take, slice,
}
use octcommu.FixedBuffer
use octcommu.SpUnix.{SpUnix, max_buffer_len}

-- What `write` returns: a count, -1 with EAGAIN, or -1 with another error.
pub data WriteResult : Type 0 where
  wrote : ℕ → WriteResult
  again failed : WriteResult

-- The loop over `write`, which returns at most the number of bytes asked for: `sent_count` and the
-- bytes that went out. `none` is a loop that has not ended when the results are used up.
pub write_loop : List ℕ → ℕ → List WriteResult → Option (ℕ × List ℕ)
write_loop payload sent_count [] =
    if length payload == sent_count then some (sent_count, []) else none
write_loop payload sent_count (wrote zero ∷ rs) = some (sent_count, [])
write_loop payload sent_count (wrote (suc k) ∷ rs) =
    let rest = write_loop payload (sent_count + suc k) rs in
    if length payload == sent_count
    then some (sent_count, [])
    else if suc k == length payload - sent_count
    then some (sent_count, slice payload sent_count (suc k))
    else (do (count, out) ← rest; some (count, slice payload sent_count (suc k) ++ out))
write_loop payload sent_count (again ∷ rs) =
    let rest = write_loop payload sent_count rs in
    if length payload == sent_count then some (sent_count, []) else rest
write_loop payload sent_count (failed ∷ rs) = some (sent_count, [])

-- The first half of `flushAllData`: what is to be sent comes into the swap cache, first from the
-- second cache, and if that is empty from the first one.
unfoldable pub load_l2 : SpUnix → SpUnix
load_l2 u =
    let emptied = FixedBuffer.reset max_buffer_len u.send_swap_cache in
    if FixedBuffer.length_of max_buffer_len u.send_l2_cache == 0
    then record u { send_swap_cache = emptied }
    else (let (loaded, l2) = FixedBuffer.swap max_buffer_len emptied u.send_l2_cache in
        record u { send_swap_cache = loaded; send_l2_cache = l2 })

unfoldable pub load_l1 : SpUnix → SpUnix
load_l1 u =
    if u.send_swap_cache.current_len == 0
    then (if FixedBuffer.length_of max_buffer_len u.send_l1_cache == 0
        then record u { listen_to_write = false }
        else (let (loaded, l1) =
              FixedBuffer.swap max_buffer_len u.send_swap_cache u.send_l1_cache in
            record u { send_swap_cache = loaded; send_l1_cache = l1 }))
    else u

-- `data()` and `currentLen()` of the swap cache.
abbrev pub payload : SpUnix → List ℕ
payload u = take u.send_swap_cache.current_len u.send_swap_cache.bytes

-- The bytes that go out, and the object. The call of itself is on fuel; `none` is a call that has
-- not returned when the fuel or the results of `write` are used up.
unfoldable pub flush_all_data : ℕ → List WriteResult → SpUnix → Option (List ℕ × SpUnix)
flush_all_data zero results u = none
flush_all_data (suc fuel) results u = do
  let v = load_l1 (load_l2 u)
  (sent_count, out) ← write_loop (payload v) 0 results
  let w = record v { sent_bytes = v.sent_bytes + sent_count }
  let once_more = flush_all_data fuel results w
  if FixedBuffer.length_of max_buffer_len w.send_swap_cache == sent_count
      then (do (more, x) ← once_more; some (out ++ more, x))
      else some (out, record w { listen_to_write = false })

-- `writable` is whether `select` has marked the descriptor.
unfoldable pub write_event : ℕ → List WriteResult → Bool → SpUnix → Option (List ℕ × SpUnix)
write_event fuel results writable u =
    if u.listen_to_write
    then (if writable then flush_all_data fuel results u else some ([], u))
    else some ([], u)
