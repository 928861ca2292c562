-- ===== src/Threads/Starting.antt =====
-- `start` waits for its thread, and what a second start does.
use octcommu.Shared.{ℕ, ◌≡◌, ◌≢◌, Bool, true, arith}
use octcommu.Threads.Latch.{must_wait, count_down, notifies}
use octcommu.Threads.{Thread, Caller, ThreadPlus, start, destroy, test_latch, run_in_thread}
use octcommu.Threads.Steps.{Reach}
use octcommu.Threads.Invariant.{waits, Reach-Inv}

-- What the thread that waits to run does next, if there is one.
abbrev pub run_thread_at : Thread → ThreadPlus → ThreadPlus
run_thread_at Thread.absent s = s
run_thread_at Thread.ready s = run_in_thread s
run_thread_at Thread.past_latch s = s
run_thread_at Thread.ended s = s
run_thread_at Thread.joined_up s = s
run_thread_at Thread.detached s = s

abbrev pub run_thread : ThreadPlus → ThreadPlus
run_thread s = run_thread_at s.thread s

-- In every reachable state of an object that has made one thread, while its caller is in no call of
-- it, that thread has counted the latch down: the first `start` returns only then, though the
-- thread may yet have to call its function.
pub start-run_in_thread :
    {func : Bool} {s : ThreadPlus}
    → Reach func 1 s
    → s.caller ≡ Caller.idle
    → s.thread ≢ Thread.ready
start-run_in_thread r e f = let v = Reach-Inv r in ground (arith, v.balance, v.held, e, f)

-- In every reachable state in which `start` waits, as many threads as there may have been, the wait
-- ends: once the thread has taken its first step, if it has not yet, one test of the loop returns,
-- and a caller that slept is awake for it.
pub test_latch-run_in_thread :
    {func : Bool} {n : ℕ} {s : ThreadPlus}
    → Reach func n s
    → waits s.caller ≡ true
    → ((run_thread s).caller ≡ Caller.testing) × ((test_latch (run_thread s)).caller ≡ Caller.idle)
unfolding test_latch run_in_thread must_wait count_down notifies
test_latch-run_in_thread r w =
    let v = Reach-Inv r in
    (
      ground (arith, v.count, v.balance, v.asleep, v.begun, v.ran),
      ground (arith, v.count, v.balance, v.asleep, v.begun, v.ran),
    )

-- In every reachable state with a function, a joined thread and no call, a further `start` that
-- makes its thread returns at the first test of the latch, before the thread has run. If the object
-- is then destroyed without `shutdown`, the program is terminated instead of the thread detached.
pub destroy-start :
    {func : Bool} {n : ℕ} {s : ThreadPlus}
    → Reach func n s
    → s.has_func ≡ true
    → s.caller ≡ Caller.idle
    → s.thread ≡ Thread.joined_up
    → ((test_latch (start true s)).caller ≡ Caller.idle)
      × ((test_latch (start true s)).thread ≡ Thread.ready)
      × ((destroy (test_latch (start true s))).caller ≡ Caller.terminated)
unfolding test_latch start destroy must_wait
destroy-start r f e j =
    let v = Reach-Inv r in
    (
      ground (arith, v.count, v.ran),
      ground (arith, v.count, v.ran),
      ground (arith, v.count, v.ran, v.ended),
    )
