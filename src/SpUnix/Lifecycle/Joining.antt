-- ===== src/SpUnix/Lifecycle/Joining.antt =====
-- `shutdown` of a port that receives, up to the end of its wait for the thread.
use octcommu.Shared.{Bool, Bool-cases, inl, inr, ◌≡◌, refl, ◌∙◌, ap, true, false, arith, subst}
use octcommu.Threads
use octcommu.Threads.{ThreadPlus, Thread, Caller, is_joinable}
use octcommu.SpUnix.{has_fd, close_sp}
use octcommu.SpUnix.Lifecycle.{Port, finish_shutdown, shutdown_port, joined_port}
use octcommu.SpUnix.Lifecycle.Closing.{closing_port, shutdown_port-joins}
use octcommu.SpUnix.Lifecycle.Steps.{Move, Reached, caller_of, thread_of, with_thread}
use octcommu.SpUnix.Lifecycle.Stopping.{receiving_if}
use octcommu.SpUnix.Lifecycle.Reached.{Reached-Good}

-- What the thread and the caller that joins it do next.
abbrev returned_port : Port → Port
returned_port p = with_thread p (record p.thread_poller { thread = Thread.ended })

abbrev finish_at : Thread → Port → Port
finish_at Thread.absent p = p
finish_at Thread.ready p =
    joined_port (returned_port (with_thread p (Threads.run_in_thread p.thread_poller)))
finish_at Thread.past_latch p = joined_port (returned_port p)
finish_at Thread.ended p = joined_port p
finish_at Thread.joined_up p = p
finish_at Thread.detached p = p

abbrev pub finish_join : Port → Port
finish_join p = finish_at (thread_of p) p

-- A port that is closed, whose thread has been joined.
record Done (p : Port) : Type 0 where
  reached : Reached p
  quiet : caller_of p ≡ Caller.idle
  closed : has_fd p.sp.sp_fd ≡ false
  joined_up : thread_of p ≡ Thread.joined_up

module _ (p : Port) (r : Reached p) (waits : caller_of p ≡ Caller.joining)
    (stopped : p.sp.recv_thread_is_running ≡ false) where
  joined-Done : thread_of p ≡ Thread.ended → Done (joined_port p)
  unfolding joined_port finish_shutdown close_sp
  joined-Done e = record {
    reached = Reached.next r (Move.joined waits e);
    quiet = refl;
    closed = refl;
    joined_up = refl;
  }

returned-Done :
    (p : Port)
    → Reached p
    → caller_of p ≡ Caller.joining
    → p.sp.recv_thread_is_running ≡ false
    → p.in_round ≡ false
    → thread_of p ≡ Thread.past_latch
    → Done (joined_port (returned_port p))
returned-Done p r waits stopped between e =
    joined-Done (returned_port p) (Reached.next r (Move.returned e between stopped)) waits stopped
      refl

run_in_thread-joining :
    (s : ThreadPlus)
    → s.caller ≡ Caller.joining
    → ((Threads.run_in_thread s).caller ≡ Caller.joining)
      × ((Threads.run_in_thread s).thread ≡ Thread.past_latch)
unfolding Threads.run_in_thread
run_in_thread-joining s e = (ground arith, refl)

join_at :
    (th : Thread) (p : Port)
    → Reached p
    → caller_of p ≡ Caller.joining
    → p.sp.recv_thread_is_running ≡ false
    → p.in_round ≡ false
    → thread_of p ≡ th
    → is_joinable th ≡ true
    → Done (finish_at th p)
join_at Thread.absent p r waits stopped between e j = absurd cc
join_at Thread.ready p r waits stopped between e j =
    let (still, now_in) = run_in_thread-joining p.thread_poller waits in
    returned-Done (with_thread p (Threads.run_in_thread p.thread_poller))
      (Reached.next r (Move.entered e)) still stopped between now_in
join_at Thread.past_latch p r waits stopped between e j = returned-Done p r waits stopped between e
join_at Thread.ended p r waits stopped between e j = joined-Done p r waits stopped e
join_at Thread.joined_up p r waits stopped between e j = absurd cc
join_at Thread.detached p r waits stopped between e j = absurd cc

-- The port once the thread's round, if it is in one, has ended.
abbrev pub after_round : Port → Port
after_round p = record p { in_round = false }

after_round-Reached : {p : Port} → Reached p → Reached (after_round p)
after_round-Reached {p} r = elim (Bool-cases p.in_round) [
  | inl busy ↦ Reached.next r (Move.round_ended ((Reached-Good r).round busy) busy)
  | inr between ↦ subst (λ (b : Bool). Reached (record p { in_round = b })) between r
]

module _ {p : Port} (r : Reached p) (quiet : caller_of p ≡ Caller.idle) (going : p.ending ≡ false)
    (open_now : has_fd p.sp.sp_fd ≡ true) (asked : p.sp.sp_init.is_to_recv ≡ true) where
  joinable : is_joinable (thread_of p) ≡ true
  joinable = (Reached-Good r).held ∙ receiving_if p (Reached-Good r) open_now asked

  -- In every state that is reached while each `init` is on a port that is not open, with memory for
  -- each thread, if no call runs and the destructor has not begun, `shutdown` of an open port that
  -- receives returns 0 in the end and has cleared the flag of its thread when it waits. If the
  -- round that the thread may be in ends, then by the steps that the thread has still to take the
  -- wait ends: the thread has been joined, the port is closed and no call runs.
  pub finish_join-shutdown_port :
      let (code, q) = shutdown_port p in
      let z = finish_join (after_round q) in
      (code ≡ 0)
      × (caller_of q ≡ Caller.joining)
      × (q.sp.recv_thread_is_running ≡ false)
      × Reached z
      × (caller_of z ≡ Caller.idle)
      × (has_fd z.sp.sp_fd ≡ false)
      × (thread_of z ≡ Thread.joined_up)
  finish_join-shutdown_port =
      let e = shutdown_port-joins p open_now asked joinable in
      let q = closing_port p in
      let r' = subst Reached (ap (λ x. x.1) e) (Reached.next r (Move.shut quiet going)) in
      let d =
        join_at (thread_of p) (after_round q) (after_round-Reached r') refl refl refl refl
          joinable in
      rw e (refl, refl, refl, d.reached, d.quiet, d.closed, d.joined_up)
