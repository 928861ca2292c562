-- ===== src/SpUnix/Lifecycle/Stopping.antt =====
-- The invariant under `shutdown`, the destructor and the end of the object.
use octcommu.Shared.{◌≡◌, refl, ◌∙◌, inl, inr, Bool, true, false, not, Bool-cases, ◌&&◌, arith}
use octcommu.Threads
use octcommu.Threads.{ThreadPlus, Thread, Caller, is_joinable}
use octcommu.SpUnix.{has_fd, set_error_msg}
use octcommu.SpUnix.Lifecycle.{Port, shutdown_port, destroy_port}
use octcommu.SpUnix.Lifecycle.Closing.{
  shutdown_port-closed, shutdown_port-at_once, shutdown_port-joins,
}
use octcommu.SpUnix.Lifecycle.Steps.{caller_of, thread_of, with_thread}
use octcommu.SpUnix.Lifecycle.Invariant.{Good, receiving, is_over}

module _ {settled : Bool} (p : Port) (g : Good settled p) where
  pub receiving_if :
      has_fd p.sp.sp_fd ≡ true → p.sp.sp_init.is_to_recv ≡ true → receiving p.sp ≡ true
  receiving_if e f = rw (e, f) refl

  pub shutdown-Good : caller_of p ≡ Caller.idle → Good true (shutdown_port p).1
  unfolding set_error_msg
  shutdown-Good e = elim (Bool-cases (has_fd p.sp.sp_fd)) [
    | inr f ↦ rw (shutdown_port-closed p f) (record {
      func = g.func;
      sane = g.sane;
      held = g.held;
      over = g.over;
      waits = g.waits;
      closes = g.closes;
      stops = g.stops;
      runs = g.runs;
      last = λ t k l. f;
      gone = g.gone;
      round = g.round;
    })
    | inl f ↦ elim (Bool-cases p.sp.sp_init.is_to_recv) [
      | inr h ↦ rw (shutdown_port-at_once p f h e) (record {
        func = g.func;
        sane = g.sane;
        held = g.held ∙ rw (f, h) refl;
        over = g.over;
        waits = λ k. cc;
        closes = λ k. cc;
        stops = λ k. cc;
        runs = λ k l. cc;
        last = λ t k l. refl;
        gone = g.gone;
        round = g.round;
      })
      | inl h ↦ rw (shutdown_port-joins p f h (g.held ∙ receiving_if f h)) (record {
        func = g.func;
        sane = refl;
        held = g.held;
        over = g.over;
        waits = λ k. refl;
        closes = λ k. refl;
        stops = λ k. refl;
        runs = λ k l. cc;
        last = λ t k l. cc;
        gone = λ k. cc;
        round = g.round;
      })
    ]
  ]

  pub not_closing : caller_of p ≡ Caller.idle → p.closing ≡ false
  not_closing e = ground (arith, g.waits)

  -- On a port that is not open nothing is left of the thread.
  pub no_thread : has_fd p.sp.sp_fd ≡ false → is_joinable (thread_of p) ≡ false
  no_thread e = g.held ∙ rw e refl

  over-quiet :
      (th : Thread) (begun done : Bool) → is_over th begun done ≡ true → begun && not done ≡ false
  over-quiet Thread.absent begun done e = ground arith
  over-quiet Thread.joined_up begun done e = ground arith
  over-quiet Thread.ready begun done e = absurd cc
  over-quiet Thread.past_latch begun done e = absurd cc
  over-quiet Thread.ended begun done e = absurd cc
  over-quiet Thread.detached begun done e = absurd cc

  destroy-gone :
      has_fd p.sp.sp_fd ≡ false
      → destroy_port p ≡ with_thread p (record p.thread_poller { caller = Caller.gone })
  unfolding destroy_port Threads.destroy
  destroy-gone e = simp (over-quiet (thread_of p) _ _ (g.over (no_thread e)), no_thread e) refl

  pub destroy-Good :
      settled ≡ true → caller_of p ≡ Caller.idle → p.ending ≡ true → Good true (destroy_port p)
  destroy-Good t e f = rw (destroy-gone (g.last t f (not_closing e))) (record {
    func = g.func;
    sane = refl;
    held = g.held;
    over = g.over;
    waits = λ k. absurd (ground (arith, not_closing e));
    closes = λ k. cc;
    stops = λ k. cc;
    runs = g.runs;
    last = λ k. g.last t;
    gone = λ k. f;
    round = g.round;
  })

  pub ending-Good : Good false (record p { ending = true })
  ending-Good = record {
    func = g.func;
    sane = g.sane;
    held = g.held;
    over = g.over;
    waits = g.waits;
    closes = g.closes;
    stops = g.stops;
    runs = g.runs;
    last = λ k. cc;
    gone = λ k. refl;
    round = g.round;
  }
