-- ===== src/SpUnix/Lifecycle/Tests.antt =====
-- The theorems on a port that has been opened and whose thread runs.
use octcommu.Shared.{
  ◌≡◌, ◌≢◌, refl, ap, ◌⊎◌, ◌↔◌, ◌&&◌, if◌then◌else◌, inl, inr, arith, Bool, true, false, [], ◌∷◌,
  pos, ◌==◌,
}
use octcommu.SpParams.{SpInit}
use octcommu.Termios.Linux.{system, all_succeed, terminal}
use octcommu.Threads
use octcommu.Threads.Latch.{create, count_down, notifies, must_wait}
use octcommu.Threads.{Thread, Caller}
use octcommu.Termios.{rate2_constant}
use octcommu.Termios.Property.{has_rate}
use octcommu.SpUnix.Opening.{Opens, Opened, init_iff, init-Opens, init-Outcome}
use octcommu.SpUnix
use octcommu.SpUnix.{has_fd}
use octcommu.SpUnix.Lifecycle.{Port, new_port, init_port, shutdown_port, end_port, destroy_port}
use octcommu.SpUnix.Lifecycle.Steps.{Move, Reached, caller_of, thread_of, with_thread}
use octcommu.SpUnix.Lifecycle.Reached.{Reached-alive}
use octcommu.SpUnix.Lifecycle.Joining.{finish_join, after_round, finish_join-shutdown_port}
use octcommu.SpUnix.Lifecycle.Again.{outlived, init_port-terminated, destroy_port-init_port}

abbrev settings : Bool → SpInit
settings receive = record {
  name = 65 ∷ [];
  baud = 9600;
  parity = 0;
  data_bits = 8;
  stop_bits = 0;
  flow_ctrl = 0;
  recv_interval_timeout = 10;
  is_to_recv = receive;
}

abbrev fresh : Port
fresh = new_port 100000 200000 300000 400000 terminal

abbrev opened : Port
opened = (init_port system all_succeed "" (pos 3) true fresh (settings true)).1

abbrev entered : Port
entered = with_thread opened (Threads.run_in_thread opened.thread_poller)

abbrev running : Port
running = with_thread entered (Threads.test_latch entered.thread_poller)

rate_ok : has_rate all_succeed 9600 ≡ true
unfolding rate2_constant
rate_ok = refl

fresh-closed : has_fd fresh.sp.sp_fd ≡ false
unfolding new_port SpUnix.create
fresh-closed = refl

settings_open : (receive : Bool) → Opens system all_succeed (settings receive) (pos 3)
settings_open receive = (
  omega arith,
  refl,
  refl,
  rate_ok,
  (omega arith, omega arith, omega arith, inl refl, omega arith),
  refl,
)

open_code :
    (receive : Bool) (p : Port)
    → (SpUnix.init system all_succeed "" (pos 3) p.sp p.device (settings receive)).0 ≡ 0
open_code receive p =
    (init_iff system all_succeed (settings receive) "" (pos 3) p.sp p.device).1
      (settings_open receive)

opened-Opened : Opened fresh.sp (settings true) 0 opened.sp
unfolding init_port
opened-Opened =
    elim (init-Outcome system all_succeed (settings true) "" (pos 3) fresh.sp fresh.device) [
      | inl o ↦ record {
        success = refl;
        open_now = o.open_now;
        settings = o.settings;
        running = o.running;
        as_before = o.as_before;
      }
      | inr r ↦ absurd (ground (arith, r.failure, open_code true fresh))
    ]

thread_started :
    opened.thread_poller
    ≡ record (Threads.make true) { started = true; thread = Thread.ready; caller = Caller.testing }
unfolding init_port new_port Threads.start Threads.make
thread_started = simp (open_code true fresh) refl

running_now :
    (entered.thread_poller.caller ≡ Caller.testing) × (running.thread_poller.caller ≡ Caller.idle)
unfolding Threads.run_in_thread Threads.test_latch Threads.make create count_down notifies must_wait
running_now = rw thread_started (refl, refl)

running-going : running.ending ≡ false
unfolding init_port new_port
running-going = refl

running-asked : running.sp.sp_init.is_to_recv ≡ true
running-asked = ap (λ (sp : SpInit). sp.is_to_recv) opened-Opened.settings

running-Reached : Reached running
unfolding new_port Threads.make
running-Reached =
    Reached.next
      (Reached.next
        (Reached.next (Reached.new 100000 200000 300000 400000 terminal)
          (Move.inited system all_succeed "" (pos 3) (settings true) refl refl fresh-closed))
        (Move.entered (ap (λ (th : Threads.ThreadPlus). th.thread) thread_started)))
      (Move.tested running_now.0)

Reached-alive_example :
    (caller_of running ≢ Caller.terminated)
    × (caller_of running ≢ Caller.crashed)
    × ((caller_of running ≢ Caller.gone)
        ⊎ ((thread_of running ≡ Thread.absent) ⊎ (thread_of running ≡ Thread.joined_up)))
Reached-alive_example = Reached-alive running-Reached

-- In the middle of a round, with `shutdown` waiting.
abbrev busy : Port
busy = record running { in_round = true }

busy-Reached : Reached busy
unfolding Threads.run_in_thread Threads.test_latch init_port new_port
busy-Reached =
    Reached.next running-Reached (Move.round_begun refl refl (opened-Opened.running refl))

finish_join-shutdown_port_example :
    let (code, q) = shutdown_port busy in
    let z = finish_join (after_round q) in
    (code ≡ 0)
    × (caller_of q ≡ Caller.joining)
    × (q.sp.recv_thread_is_running ≡ false)
    × Reached z
    × (caller_of z ≡ Caller.idle)
    × (has_fd z.sp.sp_fd ≡ false)
    × (thread_of z ≡ Thread.joined_up)
finish_join-shutdown_port_example =
    finish_join-shutdown_port busy-Reached running_now.1 running-going opened-Opened.open_now
      running-asked

again_code :
    (receive : Bool)
    → (init_port system all_succeed "" (pos 3) true running (settings receive)).0 ≡ 0
unfolding init_port
again_code receive = open_code receive running

init_port-terminated_example :
    caller_of (init_port system all_succeed "" (pos 3) true running (settings true)).1
    ≡ Caller.terminated
init_port-terminated_example =
    init_port-terminated running-Reached running_now.1 opened-Opened.open_now running-asked system
      all_succeed "" (pos 3) true (settings true) (again_code true) refl

destroy_port-init_port_example :
    let z =
      destroy_port
        (end_port (init_port system all_succeed "" (pos 3) true running (settings false)).1) in
    (z.thread_poller ≡ outlived running.thread_poller) × (z.sp.recv_thread_is_running ≡ true)
destroy_port-init_port_example =
    destroy_port-init_port running-Reached running_now.1 opened-Opened.open_now running-asked system
      all_succeed "" (pos 3) true (settings false) (again_code false) refl

init-Opens_example :
    let (code, v, _) =
      SpUnix.init system all_succeed "" (pos 3) fresh.sp fresh.device (settings true) in
    ((code ≡ 0) ↔ Opens system all_succeed (settings true) (pos 3))
    × (has_fd v.sp_fd ≡ (code == 0))
    × (v.recv_thread_is_running
        ≡ (if code == 0 && true then true else fresh.sp.recv_thread_is_running))
init-Opens_example =
    init-Opens system all_succeed (settings true) "" (pos 3) fresh.sp fresh.device fresh-closed
