-- ===== src/SpUnix/Lifecycle.antt =====
-- src/SerialPort/SPUnix.cpp and the poller thread of each port, `thread_poller_`, a ThreadPlus: the
-- construction, `init`, `shutdown` and the destructor, with the points where they wait for the
-- thread.
pub mod Ordinary
pub mod Closing
pub mod Steps
pub mod Invariant
pub mod Stopping
pub mod Reached
pub mod Joining
pub mod Again
mod Tests
use octcommu.Shared.{ℕ, Bool, true, false, not, String, ◌==◌, ◌&&◌, if◌then◌else◌, ℤ}
use octcommu.SpParams.{SpInit}
use octcommu.Termios.{System, Answers, Device}
use octcommu.Threads
use octcommu.Threads.{ThreadPlus, Caller}
use octcommu.SpUnix
use octcommu.SpUnix.{SpUnix, is_open, close_sp}

-- `closing` is whether `shutdown` waits in `join`, `ending` whether the destructor has begun, and
-- `in_round` whether the thread is in a round of its loop: behind the test of the flag, with events
-- that need not end.
pub record Port : Type 0 where
  pub sp : SpUnix
  pub device : Device
  pub thread_poller : ThreadPlus
  pub closing : Bool
  pub ending : Bool
  pub in_round : Bool

pub new_port : (recv l2 l1 swap : ℕ) → Device → Port
new_port recv l2 l1 swap device = record {
  sp = SpUnix.create recv l2 l1 swap;
  device = device;
  thread_poller = Threads.make true;
  closing = false;
  ending = false;
  in_round = false;
}

-- `init` starts the thread where it returns 0 and the settings ask for bytes. `made` is whether
-- there is memory for the thread.
pub init_port : System → Answers → String → ℤ → Bool → Port → SpInit → ℕ × Port
init_port s a old opened made p sp_init =
    let (code, u, device) = SpUnix.init s a old opened p.sp p.device sp_init in
    (
      code,
      record p {
        sp = u;
        device = device;
        thread_poller =
            if code == 0 && sp_init.is_to_recv
            then Threads.start made p.thread_poller
            else p.thread_poller;
      },
    )

-- What `shutdown` does before the descriptor is closed, and the rest of it.
pub begin_shutdown : Port → Port
begin_shutdown p =
    if p.sp.sp_init.is_to_recv
    then record p {
      sp = record p.sp { listen_to_write = false; recv_thread_is_running = false };
      thread_poller = Threads.shutdown p.thread_poller;
      closing = true;
    }
    else record p { sp = record p.sp { listen_to_write = false }; closing = true }

pub finish_shutdown : Port → Port
finish_shutdown p = record p { sp = record p.sp { sp_fd = close_sp p.sp.sp_fd }; closing = false }

-- Whether the caller of the thread is in no call.
abbrev pub is_idle : Caller → Bool
is_idle Caller.idle = true
is_idle Caller.testing = false
is_idle Caller.sleeping = false
is_idle Caller.joining = false
is_idle Caller.terminated = false
is_idle Caller.crashed = false
is_idle Caller.gone = false

pub shutdown_port : Port → ℕ × Port
shutdown_port p =
    let (open_now, u) = is_open p.sp in
    if not open_now
    then (1, record p { sp = u })
    else (let q = begin_shutdown p in
        (0, if is_idle q.thread_poller.caller then finish_shutdown q else q))

-- The end of `join`.
pub joined_port : Port → Port
joined_port p = finish_shutdown (record p {
  thread_poller = record p.thread_poller {
    thread = Threads.Thread.joined_up;
    joined = true;
    caller = Caller.idle;
  };
})

-- `~SPUnix`, and the end of the members after it.
pub end_port : Port → Port
end_port p = (shutdown_port (record p { ending = true })).1

pub destroy_port : Port → Port
destroy_port p = record p { thread_poller = Threads.destroy p.thread_poller }
