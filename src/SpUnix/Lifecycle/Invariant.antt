-- ===== src/SpUnix/Lifecycle/Invariant.antt =====
-- What every call and step of a port and its thread keeps.
use octcommu.Shared.{◌≡◌, refl, sym, ◌∙◌, ap, ap₂, Bool, true, false, not, ◌&&◌, ℤ, arith}
use octcommu.SpParams.{SpInit}
use octcommu.Threads
use octcommu.Threads.{ThreadPlus, Thread, Caller, is_joinable}
use octcommu.SpUnix.{SpUnix, has_fd, close_sp}
use octcommu.SpUnix.Lifecycle.{Port, finish_shutdown, joined_port}
use octcommu.SpUnix.Lifecycle.Ordinary.{Same}
use octcommu.SpUnix.Lifecycle.Steps.{caller_of, thread_of, with_thread}

abbrev pub is_sane : Caller → Bool
is_sane Caller.idle = true
is_sane Caller.testing = true
is_sane Caller.sleeping = true
is_sane Caller.joining = true
is_sane Caller.terminated = false
is_sane Caller.crashed = false
is_sane Caller.gone = true

-- No thread, or one that has been joined.
abbrev pub is_over : Thread → Bool → Bool → Bool
is_over Thread.absent begun done = not begun
is_over Thread.joined_up begun done = done
is_over Thread.ready begun done = false
is_over Thread.past_latch begun done = false
is_over Thread.ended begun done = false
is_over Thread.detached begun done = false

-- Whether the port is open and has been asked for bytes, by its fields.
abbrev receives : ℤ → SpInit → Bool
receives fd sp = has_fd fd && sp.is_to_recv

abbrev pub receiving : SpUnix → Bool
receiving u = receives u.sp_fd u.sp_init

-- `settled` is false while the destructor has not yet called `shutdown`.
pub record Good (settled : Bool) (p : Port) : Type 0 where
  pub func : p.thread_poller.has_func ≡ true
  pub sane : is_sane (caller_of p) ≡ true
  pub held : is_joinable (thread_of p) ≡ receiving p.sp
  pub over :
      is_joinable (thread_of p) ≡ false
      → is_over (thread_of p) p.thread_poller.started p.thread_poller.joined ≡ true
  pub waits : p.closing ≡ true → caller_of p ≡ Caller.joining
  pub closes : caller_of p ≡ Caller.joining → p.closing ≡ true
  pub stops : caller_of p ≡ Caller.joining → p.sp.recv_thread_is_running ≡ false
  pub runs : p.closing ≡ false → receiving p.sp ≡ true → p.sp.recv_thread_is_running ≡ true
  pub last : settled ≡ true → p.ending ≡ true → p.closing ≡ false → has_fd p.sp.sp_fd ≡ false
  pub gone : caller_of p ≡ Caller.gone → p.ending ≡ true
  pub round : p.in_round ≡ true → thread_of p ≡ Thread.past_latch

module _ {settled : Bool} (p : Port) (g : Good settled p) where
  pub same-Good : {v : SpUnix} → Same p.sp v → Good settled (record p { sp = v })
  same-Good (fd, settings, running) = record {
    func = g.func;
    sane = g.sane;
    held = g.held ∙ sym (ap₂ receives fd settings);
    over = g.over;
    waits = g.waits;
    closes = g.closes;
    stops = λ e. running ∙ g.stops e;
    runs = λ e f. running ∙ g.runs e (sym (ap₂ receives fd settings) ∙ f);
    last = λ t e f. ap has_fd fd ∙ g.last t e f;
    gone = g.gone;
    round = g.round;
  }

  pub test-Good :
      caller_of p ≡ Caller.testing
      → Good settled (with_thread p (Threads.test_latch p.thread_poller))
  unfolding Threads.test_latch
  test-Good e = record {
    func = g.func;
    sane = ground arith;
    held = g.held;
    over = g.over;
    waits = ground (arith, g.waits);
    closes = ground (arith, g.closes);
    stops = ground (arith, g.stops);
    runs = g.runs;
    last = g.last;
    gone = ground (arith, g.gone);
    round = g.round;
  }

  pub entered-Good :
      thread_of p ≡ Thread.ready
      → Good settled (with_thread p (Threads.run_in_thread p.thread_poller))
  unfolding Threads.run_in_thread
  entered-Good e = record {
    func = g.func;
    sane = ground (arith, g.sane);
    held = ground (arith, g.held);
    over = ground (arith, g.over);
    waits = ground (arith, g.waits);
    closes = ground (arith, g.closes);
    stops = ground (arith, g.stops);
    runs = g.runs;
    last = g.last;
    gone = ground (arith, g.gone);
    round = ground (arith, g.round);
  }

  pub returned-Good :
      thread_of p ≡ Thread.past_latch
      → p.in_round ≡ false
      → Good settled (with_thread p (record p.thread_poller { thread = Thread.ended }))
  returned-Good e between = record {
    func = g.func;
    sane = g.sane;
    held = ground (arith, g.held);
    over = λ f. cc;
    waits = g.waits;
    closes = g.closes;
    stops = g.stops;
    runs = g.runs;
    last = g.last;
    gone = g.gone;
    round = λ h. absurd (ground (arith, g.round, h));
  }

  pub woke-Good :
      caller_of p ≡ Caller.sleeping
      → Good settled (with_thread p (record p.thread_poller { caller = Caller.testing }))
  woke-Good e = record {
    func = g.func;
    sane = refl;
    held = g.held;
    over = g.over;
    waits = ground (arith, g.waits);
    closes = λ f. cc;
    stops = λ f. cc;
    runs = g.runs;
    last = g.last;
    gone = λ f. cc;
    round = g.round;
  }

  pub joined-Good :
      caller_of p ≡ Caller.joining → thread_of p ≡ Thread.ended → Good true (joined_port p)
  unfolding joined_port finish_shutdown close_sp
  joined-Good e f = record {
    func = g.func;
    sane = refl;
    held = refl;
    over = λ h. refl;
    waits = λ h. cc;
    closes = λ h. cc;
    stops = λ h. cc;
    runs = λ h k. cc;
    last = λ t h k. refl;
    gone = λ h. cc;
    round = λ h. absurd (ground (arith, g.round, h));
  }

  pub round-Good :
      (b : Bool) → thread_of p ≡ Thread.past_latch → Good settled (record p { in_round = b })
  round-Good b e = record {
    func = g.func;
    sane = g.sane;
    held = g.held;
    over = g.over;
    waits = g.waits;
    closes = g.closes;
    stops = g.stops;
    runs = g.runs;
    last = g.last;
    gone = g.gone;
    round = λ h. e;
  }
