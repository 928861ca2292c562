-- ===== src/Threads/Steps.antt =====
-- The calls of a ThreadPlus and what its thread does, in any order that the mutex and the operating
-- system allow.
use octcommu.Shared.{ℕ, ◌+◌, ◌≡◌, Bool, true}
use octcommu.Threads.{
  Thread, Caller, ThreadPlus, make, start, threads_made, shutdown, destroy, test_latch,
  run_in_thread,
}

-- The number is that of the threads that the step makes. `woke` is a wake-up without a reason.
pub data Step (s : ThreadPlus) : ℕ → ThreadPlus → Type 0 where
  started : (made : Bool) → s.caller ≡ Caller.idle → Step s (threads_made made s) (start made s)
  shut : s.caller ≡ Caller.idle → Step s 0 (shutdown s)
  destroyed : s.caller ≡ Caller.idle → Step s 0 (destroy s)
  tested : s.caller ≡ Caller.testing → Step s 0 (test_latch s)
  woke : s.caller ≡ Caller.sleeping → Step s 0 (record s { caller = Caller.testing })
  entered : s.thread ≡ Thread.ready → Step s 0 (run_in_thread s)
  returned : s.thread ≡ Thread.past_latch → Step s 0 (record s { thread = Thread.ended })
  joined :
      s.caller ≡ Caller.joining
      → s.thread ≡ Thread.ended
      → Step s 0 (record s { thread = Thread.joined_up; joined = true; caller = Caller.idle })

-- The states of an object that has made so many threads.
pub data Reach (func : Bool) : ℕ → ThreadPlus → Type 0 where
  new : Reach func 0 (make func)
  next : {n k m : ℕ} {s t : ThreadPlus} → Reach func n s → Step s k t → m ≡ n + k → Reach func m t
