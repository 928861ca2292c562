-- ===== src/SpUnix/Lifecycle/Steps.antt =====
-- The calls of an application that opens a port only while it is closed, the destructor, the thread
-- and all other work of the port, in any order.
use octcommu.Shared.{ℕ, ◌≡◌, true, false, String, ℤ}
use octcommu.SpParams.{SpInit}
use octcommu.Termios.{System, Answers, Device}
use octcommu.Threads
use octcommu.Threads.{ThreadPlus, Thread, Caller, is_joinable}
use octcommu.SpUnix.{SpUnix, has_fd}
use octcommu.SpUnix.Safety.Steps.{Step}
use octcommu.SpUnix.Lifecycle.{
  Port, new_port, init_port, shutdown_port, joined_port, end_port, destroy_port,
}
use octcommu.SpUnix.Lifecycle.Ordinary.{is_ordinary}

abbrev pub caller_of : Port → Caller
caller_of p = p.thread_poller.caller

abbrev pub thread_of : Port → Thread
thread_of p = p.thread_poller.thread

abbrev pub with_thread : Port → ThreadPlus → Port
with_thread p th = record p { thread_poller = th }

-- The thread goes round while `recv_thread_is_running_` is true, and its function returns only at
-- the test of that flag, so in no round. A round whose events do not end has no `round_ended`.
-- `woke` is a wake-up without a reason.
pub data Move (p : Port) : Port → Type 0 where
  inited :
      (s : System) (a : Answers) (old : String) (opened : ℤ) (sp : SpInit)
      → caller_of p ≡ Caller.idle
      → p.ending ≡ false
      → has_fd p.sp.sp_fd ≡ false
      → Move p (init_port s a old opened true p sp).1
  shut : caller_of p ≡ Caller.idle → p.ending ≡ false → Move p (shutdown_port p).1
  ended : caller_of p ≡ Caller.idle → p.ending ≡ false → Move p (end_port p)
  destroyed : caller_of p ≡ Caller.idle → p.ending ≡ true → Move p (destroy_port p)
  worked :
      {s : System} {v : SpUnix} (k : Step s p.sp v)
      → is_ordinary k ≡ true
      → Move p (record p { sp = v })
  tested :
      caller_of p ≡ Caller.testing → Move p (with_thread p (Threads.test_latch p.thread_poller))
  woke :
      caller_of p ≡ Caller.sleeping
      → Move p (with_thread p (record p.thread_poller { caller = Caller.testing }))
  entered :
      thread_of p ≡ Thread.ready → Move p (with_thread p (Threads.run_in_thread p.thread_poller))
  round_begun :
      thread_of p ≡ Thread.past_latch
      → p.in_round ≡ false
      → p.sp.recv_thread_is_running ≡ true
      → Move p (record p { in_round = true })
  round_ended :
      thread_of p ≡ Thread.past_latch → p.in_round ≡ true → Move p (record p { in_round = false })
  returned :
      thread_of p ≡ Thread.past_latch
      → p.in_round ≡ false
      → p.sp.recv_thread_is_running ≡ false
      → Move p (with_thread p (record p.thread_poller { thread = Thread.ended }))
  joined : caller_of p ≡ Caller.joining → thread_of p ≡ Thread.ended → Move p (joined_port p)

pub data Reached : Port → Type 0 where
  new : (recv l2 l1 swap : ℕ) (device : Device) → Reached (new_port recv l2 l1 swap device)
  next : {p q : Port} → Reached p → Move p q → Reached q
