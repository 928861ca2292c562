-- ===== src/Threads.antt =====
-- src/Util/ThreadPlus.cpp, CountDownLatch.cpp and ElapsedTimer.h: a thread, and a `start` that waits for it, the latch that its starter waits on, and the clock of the links' speeds. A call of
-- ThreadPlus is taken up to the point where it may block; `Steps` has what comes after.
pub mod Latch
pub mod Timer
pub mod Steps
pub mod Invariant
pub mod Starting
mod Tests
use octcommu.Shared.{ℕ, Bool, true, false, not, ◌&&◌, if◌then◌else◌}
use octcommu.Threads.Latch.{CountDownLatch, create, must_wait, count_down, notifies}

-- The `std::thread` of `thread_` and the function `startThread` in it: none yet, made and not yet
-- running, behind `countDown`, ended and not joined, joined, or detached.
pub data Thread : Type 0 where
  absent ready past_latch ended joined_up detached : Thread

abbrev pub is_joinable : Thread → Bool
is_joinable ready = true
is_joinable past_latch = true
is_joinable ended = true
is_joinable absent = false
is_joinable joined_up = false
is_joinable detached = false

-- Where the thread is that calls the object: at the test of `wait`, asleep in it, in `join`, or in
-- no call. `terminated` is `std::terminate`, `crashed` a call through a null `thread_`, and `gone`
-- the end of the object.
pub data Caller : Type 0 where
  idle testing sleeping joining terminated crashed gone : Caller

-- `has_func` is whether `func_` is given; `latch` is `latch_`.
pub record ThreadPlus : Type 0 where
  pub has_func : Bool
  pub started : Bool
  pub joined : Bool
  pub latch : CountDownLatch
  pub thread : Thread
  pub caller : Caller

unfoldable pub make : Bool → ThreadPlus
make func = record {
  has_func = func;
  started = false;
  joined = false;
  latch = create;
  thread = Thread.absent;
  caller = Caller.idle;
}

-- `made` is whether the memory for the new `std::thread` is there. The old one is destroyed, which
-- ends the program if it is joinable.
unfoldable pub start : Bool → ThreadPlus → ThreadPlus
start made s =
    if not s.has_func
    then s
    else if is_joinable s.thread
    then record s { started = true; caller = Caller.terminated }
    else if made
    then record s { started = true; thread = Thread.ready; caller = Caller.testing }
    else record s { started = false; thread = Thread.absent }

-- How many threads the call of `start` makes.
abbrev pub threads_made : Bool → ThreadPlus → ℕ
threads_made made s = if s.has_func && not (is_joinable s.thread) && made then 1 else 0

unfoldable pub shutdown_thread : Thread → ThreadPlus → ThreadPlus
shutdown_thread Thread.absent s = record s { caller = Caller.crashed }
shutdown_thread Thread.ready s = record s { caller = Caller.joining }
shutdown_thread Thread.past_latch s = record s { caller = Caller.joining }
shutdown_thread Thread.ended s = record s { caller = Caller.joining }
shutdown_thread Thread.joined_up s = record s { joined = true }
shutdown_thread Thread.detached s = record s { joined = true }

unfoldable pub shutdown : ThreadPlus → ThreadPlus
unfolding shutdown_thread
shutdown s = shutdown_thread s.thread s

pub is_started : ThreadPlus → Bool
is_started s = s.started

-- `~ThreadPlus`, and the end of `thread_` after it.
unfoldable pub destroy : ThreadPlus → ThreadPlus
destroy s =
    if s.started && not s.joined
    then (if is_joinable s.thread
        then record s { thread = Thread.detached; caller = Caller.gone }
        else record s { caller = Caller.crashed })
    else if is_joinable s.thread
    then record s { caller = Caller.terminated }
    else record s { caller = Caller.gone }

-- One test of the loop of `wait`, under the mutex.
unfoldable pub test_latch : ThreadPlus → ThreadPlus
test_latch s = record s { caller = if must_wait s.latch then Caller.sleeping else Caller.idle }

abbrev woken : Caller → Caller
woken sleeping = Caller.testing
woken c = c

-- The first step of `runInThread`, its `countDown`, with the wake-up of a caller that sleeps. The
-- call of the function of the object comes later, at any time up to the end of the thread.
unfoldable pub run_in_thread : ThreadPlus → ThreadPlus
run_in_thread s =
    let counted = count_down s.latch in
    record s {
      latch = counted;
      thread = Thread.past_latch;
      caller = if notifies counted then woken s.caller else s.caller;
    }
