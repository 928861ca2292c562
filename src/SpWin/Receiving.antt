-- ===== src/SpWin/Receiving.antt =====
-- `recvTheadFunc` of src/SerialPort/SPWin.cpp, by the rounds of its loop up to the test that finds
-- the flag off.
pub mod Rounds
use octcommu.Shared.{
  ℕ, zero, suc, ◌+◌, ◌*◌, ◌%◌, ◌^◌, Bool, true, false, List, [], ◌∷◌, ◌++◌, Option, none, some,
  ◌==◌, leb, if◌then◌else◌, ◌>>=◌, length, take,
}
use octcommu.FixedBuffer
use octcommu.FixedBuffer.{FixedBuffer}
use octcommu.SpWin.{SpWin, is_async}

-- sp_recv_max_len
abbrev pub sp_recv_max_len : ℕ
sp_recv_max_len = 1024 * 60

-- A round: no bytes wait, or what ReadFile does: the bytes at once, bytes that come after
-- ERROR_IO_PENDING, by when GetOverlappedResult has waited for them, or another error.
pub data Round : Type 0 where
  nothing failed : Round
  got pended : List ℕ → Round

-- What the thread has done: the bytes given to the application, a call each, the events that are
-- made and not closed, the bytes counted, and the local buffer.
pub record Received : Type 0 where
  pub pieces : List (List ℕ)
  pub events : ℕ
  pub counted : ℕ
  pub buffer : FixedBuffer

abbrev pub add_event : Received → Received
add_event r = record r { events = suc r.events }

abbrev pub add_pieces : List (List ℕ) → ℕ → Received → Received
add_pieces ps n r = record r { pieces = ps ++ r.pieces; counted = n + r.counted }

-- The first `n` bytes of the local buffer; `none` is a read past its end.
abbrev pub first_bytes : FixedBuffer → ℕ → Option (List ℕ)
first_bytes b n = if leb n (length b.bytes) then some (take n b.bytes) else none

-- ReadFile's bytes in the local buffer.
pub read_file : FixedBuffer → List ℕ → Option FixedBuffer
read_file b xs = do
  filled ← FixedBuffer.write_cur sp_recv_max_len b xs
  some (record b { bytes = filled })

-- `n` is `next_read_len_`, and `has_func` whether the application's function is set. `none` is an
-- access outside the local buffer.
module _ (n : ℕ) (has_func : Bool) where
  -- The call of the application's function with the bytes read.
  pub hand_over : FixedBuffer → Option (List (List ℕ) × FixedBuffer)
  hand_over b =
      if has_func
      then (do piece ← first_bytes b n; some (piece ∷ [], FixedBuffer.reset sp_recv_max_len b))
      else some ([], b)

  pub async_rounds : List Round → FixedBuffer → Option Received
  async_rounds [] b = some (record { pieces = []; events = 0; counted = 0; buffer = b })
  async_rounds (nothing ∷ rs) b = async_rounds rs b
  async_rounds (failed ∷ rs) b = async_rounds rs b
  async_rounds (pended xs ∷ rs) b = do
    filled ← read_file b xs
    more ← async_rounds rs filled
    some (add_event more)
  async_rounds (got xs ∷ rs) b = do
    filled ← read_file b xs
    (ps, c) ← hand_over filled
    more ← async_rounds rs c
    some (add_event (add_pieces ps n more))

  -- A synchronous read has no event, and counts the bytes that were read.
  pub sync_rounds : List Round → FixedBuffer → Option Received
  sync_rounds [] b = some (record { pieces = []; events = 0; counted = 0; buffer = b })
  sync_rounds (nothing ∷ rs) b = sync_rounds rs b
  sync_rounds (failed ∷ rs) b = sync_rounds rs b
  sync_rounds (pended xs ∷ rs) b = sync_rounds rs b
  sync_rounds (got xs ∷ rs) b = do
    filled ← read_file b xs
    (ps, c) ← hand_over filled
    more ← sync_rounds rs c
    some (add_pieces ps (length xs) more)

-- `stack` is the address of the local buffer.
pub recv_thead_func : SpWin → ℕ → List Round → Option (List (List ℕ) × ℕ × SpWin)
recv_thead_func u stack rounds = do
  r ←
      (if is_async u.operate_mode
        then async_rounds u.next_read_len u.recv_func rounds
            (FixedBuffer.create sp_recv_max_len stack)
        else sync_rounds u.next_read_len u.recv_func rounds
            (FixedBuffer.create sp_recv_max_len stack))
  some (
    r.pieces,
    r.events,
    record u { recv_bytes_count = (u.recv_bytes_count + r.counted) % 2 ^ 32 },
  )
