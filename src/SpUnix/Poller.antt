-- ===== src/SpUnix/Poller.antt =====
-- `pollerThreadFunc` of src/SerialPort/SPUnix.cpp: the loop over `select`.
pub mod Errors
pub mod Sends
use octcommu.Shared.{
  ℕ, suc, Bool, true, false, not, List, [], ◌∷◌, ◌++◌, Option, some, ◌==◌, if◌then◌else◌, ◌>>=◌, ℤ,
}
use octcommu.SpUnix.{SpUnix, set_error_msg}
use octcommu.SpUnix.Sending.{WriteResult, write_event}
use octcommu.SpUnix.Reading.{ReadResult, read_event}

-- What `select` returns: -1, 0, or more with the descriptor's marks in the read set and in the
-- write set. A write set that is not passed to `select` keeps its mark.
pub data SelectResult : Type 0 where
  failed timed_out : SelectResult
  ready : (readable writable : Bool) → SelectResult

-- A round of the loop, with the answers of `FIONREAD`, `read` and `write` in it.
pub record Round : Type 0 where
  pub select : SelectResult
  pub available : ℤ
  pub reads : List ReadResult
  pub writes : List WriteResult

-- The bytes that go out, the count of errors and the object; `none` is a write outside a buffer or
-- an event that has not ended.
unfoldable pub poll_once : ℕ → SelectResult → Round → ℕ → SpUnix → Option (List ℕ × ℕ × SpUnix)
poll_once fuel failed r select_err_count u =
    if select_err_count == 10
    then some (
      [],
      10,
      set_error_msg u "failed to call select, restart to call 10 times, they were all failure",
    )
    else some ([], suc select_err_count, u)
poll_once fuel timed_out r select_err_count u = some ([], select_err_count, u)
poll_once fuel (ready readable writable) r select_err_count u =
    if u.sp_suspend then some ([], select_err_count, u) else (do
      v ← read_event r.reads readable r.available u
      (out, w) ← write_event fuel r.writes writable v
      some (out, select_err_count, w))

-- The loop over a list of rounds, or until the thread is stopped.
pub poll : ℕ → List Round → ℕ → SpUnix → Option (List ℕ × ℕ × SpUnix)
poll fuel [] select_err_count u = some ([], select_err_count, u)
poll fuel (r ∷ rs) select_err_count u =
    if not u.recv_thread_is_running then some ([], select_err_count, u) else (do
      (out, count, v) ← poll_once fuel r.select r select_err_count u
      (more, last_count, w) ← poll fuel rs count v
      some (out ++ more, last_count, w))
