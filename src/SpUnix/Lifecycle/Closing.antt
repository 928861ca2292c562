-- ===== src/SpUnix/Lifecycle/Closing.antt =====
-- What `shutdown` of a port comes to in each state in which the application can call it.
use octcommu.Shared.{◌≡◌, refl, true, false, negsuc}
use octcommu.Threads
use octcommu.Threads.{ThreadPlus, Thread, Caller, is_joinable}
use octcommu.SpUnix.{has_fd, is_open, set_error_msg, close_sp}
use octcommu.SpUnix.Lifecycle.{Port, begin_shutdown, finish_shutdown, shutdown_port}

-- While `shutdown` waits for the thread.
abbrev pub closing_port : Port → Port
closing_port p = record p {
  sp = record p.sp { listen_to_write = false; recv_thread_is_running = false };
  thread_poller = record p.thread_poller { caller = Caller.joining };
  closing = true;
}

abbrev pub closed_port : Port → Port
closed_port p = record p {
  sp = record p.sp { listen_to_write = false; sp_fd = negsuc 0 };
  closing = false;
}

shutdown_thread-joins :
    (th : Thread) (s : ThreadPlus)
    → is_joinable th ≡ true
    → Threads.shutdown_thread th s ≡ record s { caller = Caller.joining }
unfolding Threads.shutdown_thread
shutdown_thread-joins Thread.absent s e = absurd cc
shutdown_thread-joins Thread.ready s e = refl
shutdown_thread-joins Thread.past_latch s e = refl
shutdown_thread-joins Thread.ended s e = refl
shutdown_thread-joins Thread.joined_up s e = absurd cc
shutdown_thread-joins Thread.detached s e = absurd cc

module _ (p : Port) where
  pub shutdown_port-closed :
      has_fd p.sp.sp_fd ≡ false
      → shutdown_port p ≡ (1, record p { sp = set_error_msg p.sp "sp doesnt open" })
  unfolding shutdown_port is_open
  shutdown_port-closed e = simp e refl

  pub shutdown_port-at_once :
      has_fd p.sp.sp_fd ≡ true
      → p.sp.sp_init.is_to_recv ≡ false
      → p.thread_poller.caller ≡ Caller.idle
      → shutdown_port p ≡ (0, closed_port p)
  unfolding shutdown_port is_open begin_shutdown finish_shutdown close_sp
  shutdown_port-at_once e f g = simp (e, f, g) refl

  pub shutdown_port-joins :
      has_fd p.sp.sp_fd ≡ true
      → p.sp.sp_init.is_to_recv ≡ true
      → is_joinable p.thread_poller.thread ≡ true
      → shutdown_port p ≡ (0, closing_port p)
  unfolding shutdown_port is_open begin_shutdown Threads.shutdown
  shutdown_port-joins e f g =
      simp (e, f, shutdown_thread-joins p.thread_poller.thread p.thread_poller g) refl
