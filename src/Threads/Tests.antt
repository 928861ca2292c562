-- ===== src/Threads/Tests.antt =====
-- The theorems on an object that is started, shut down, and started again.
use octcommu.Shared.{◌≡◌, ◌≢◌, refl, true}
use octcommu.Threads.Latch.{create, must_wait, count_down, notifies}
use octcommu.Threads.{
  Thread, Caller, ThreadPlus, make, start, shutdown, shutdown_thread, destroy, test_latch,
  run_in_thread,
}
use octcommu.Threads.Steps.{Step, Reach}
use octcommu.Threads.Invariant.{waits}
use octcommu.Threads.Starting.{
  run_thread, start-run_in_thread, test_latch-run_in_thread, destroy-start,
}

abbrev waiting : ThreadPlus
waiting = start true (make true)

abbrev asleep : ThreadPlus
asleep = test_latch waiting

abbrev running : ThreadPlus
running = test_latch (run_in_thread asleep)

abbrev finished : ThreadPlus
finished = record (shutdown (record running { thread = Thread.ended })) {
  thread = Thread.joined_up;
  joined = true;
  caller = Caller.idle;
}

asleep-Reach : Reach true 1 asleep
unfolding make start
asleep-Reach =
    Reach.next (Reach.next Reach.new (Step.started true refl) refl) (Step.tested refl) refl

running-Reach : Reach true 1 running
unfolding make start test_latch run_in_thread must_wait create count_down notifies
running-Reach =
    Reach.next (Reach.next asleep-Reach (Step.entered refl) refl) (Step.tested refl) refl

finished-Reach : Reach true 1 finished
unfolding make start test_latch run_in_thread must_wait create count_down notifies shutdown
    shutdown_thread
finished-Reach =
    Reach.next
      (Reach.next (Reach.next running-Reach (Step.returned refl) refl) (Step.shut refl) refl)
      (Step.joined refl refl) refl

running_idle : running.caller ≡ Caller.idle
unfolding make start test_latch run_in_thread must_wait create count_down notifies
running_idle = refl

asleep_waits : waits asleep.caller ≡ true
unfolding make start test_latch must_wait create
asleep_waits = refl

finished_func : finished.has_func ≡ true
unfolding make start test_latch run_in_thread shutdown shutdown_thread
finished_func = refl

start-run_in_thread_example : running.thread ≢ Thread.ready
start-run_in_thread_example = start-run_in_thread running-Reach running_idle

test_latch-run_in_thread_example :
    ((run_thread asleep).caller ≡ Caller.testing)
    × ((test_latch (run_thread asleep)).caller ≡ Caller.idle)
test_latch-run_in_thread_example = test_latch-run_in_thread asleep-Reach asleep_waits

destroy-start_example :
    ((test_latch (start true finished)).caller ≡ Caller.idle)
    × ((test_latch (start true finished)).thread ≡ Thread.ready)
    × ((destroy (test_latch (start true finished))).caller ≡ Caller.terminated)
destroy-start_example = destroy-start finished-Reach finished_func refl refl
