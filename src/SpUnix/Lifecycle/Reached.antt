-- ===== src/SpUnix/Lifecycle/Reached.antt =====
-- The states that an application reaches which opens a port only while it is closed.
use octcommu.Shared.{
  ℕ, ◌≡◌, ◌≢◌, refl, sym, ◌∙◌, inl, inr, Bool, true, false, Bool-cases, String, ◌==◌, ◌&&◌,
  if◌then◌else◌, ℤ, arith, ◌⊎◌,
}
use octcommu.SpParams.{SpInit}
use octcommu.Termios.{System, Answers, Device}
use octcommu.Threads
use octcommu.Threads.{ThreadPlus, Thread, Caller, is_joinable}
use octcommu.SpUnix
use octcommu.SpUnix.{SpUnix, has_fd}
use octcommu.SpUnix.Lifecycle.{Port, new_port, init_port, end_port}
use octcommu.SpUnix.Opening.{Opened, Refused, init-Outcome}
use octcommu.SpUnix.Lifecycle.Ordinary.{Step-Same}
use octcommu.SpUnix.Lifecycle.Steps.{Move, Reached, caller_of, thread_of}
use octcommu.SpUnix.Lifecycle.Invariant.{
  Good, receiving, is_over, same-Good, test-Good, woke-Good, entered-Good, returned-Good,
  round-Good, joined-Good,
}
use octcommu.SpUnix.Lifecycle.Stopping.{
  shutdown-Good, destroy-Good, ending-Good, not_closing, no_thread,
}

pub start-ready :
    (s : ThreadPlus)
    → s.has_func ≡ true
    → is_joinable s.thread ≡ false
    → Threads.start true s
      ≡ record s { started = true; thread = Thread.ready; caller = Caller.testing }
unfolding Threads.start
start-ready s e f = simp (e, f) refl

new-Good : (recv l2 l1 swap : ℕ) (device : Device) → Good true (new_port recv l2 l1 swap device)
unfolding new_port Threads.make SpUnix.create
new-Good recv l2 l1 swap device = record {
  func = refl;
  sane = refl;
  held = refl;
  over = λ e. refl;
  waits = λ e. cc;
  closes = λ e. cc;
  stops = λ e. cc;
  runs = λ e f. cc;
  last = λ t e f. refl;
  gone = λ e. cc;
  round = λ e. cc;
}

module _ (p : Port) (g : Good true p) (quiet : caller_of p ≡ Caller.idle) (going : p.ending ≡ false)
    (closed : has_fd p.sp.sp_fd ≡ false) where
  -- With the thread as it was.
  kept-Good :
      (u : SpUnix) (device : Device)
      → receiving u ≡ false
      → Good true (record p { sp = u; device = device })
  kept-Good u device e = record {
    func = g.func;
    sane = g.sane;
    held = no_thread p g closed ∙ sym e;
    over = g.over;
    waits = g.waits;
    closes = g.closes;
    stops = λ k. absurd cc;
    runs = λ k l. absurd cc;
    last = λ t k l. absurd cc;
    gone = g.gone;
    round = g.round;
  }

  started-Good :
      (u : SpUnix) (device : Device)
      → receiving u ≡ true
      → u.recv_thread_is_running ≡ true
      → Good true
          (record p { sp = u; device = device; thread_poller = Threads.start true p.thread_poller })
  started-Good u device e f =
      rw (start-ready p.thread_poller g.func (no_thread p g closed)) (record {
        func = g.func;
        sane = refl;
        held = sym e;
        over = λ k. cc;
        waits = λ k. absurd (ground (arith, not_closing p g quiet));
        closes = λ k. cc;
        stops = λ k. cc;
        runs = λ k l. f;
        last = λ t k l. absurd cc;
        gone = λ k. cc;
        round = λ k. absurd (ground (arith, g.round k, no_thread p g closed));
      })

  placed-Good :
      (sp : SpInit) (code : ℕ) (u : SpUnix) (device : Device)
      → Opened p.sp sp code u ⊎ Refused p.sp code u
      → Good true (record p {
        sp = u;
        device = device;
        thread_poller =
            if code == 0 && sp.is_to_recv
            then Threads.start true p.thread_poller
            else p.thread_poller;
      })
  placed-Good sp code u device (inr r) =
      rw r.failure (kept-Good u device (rw (r.closed closed) refl))
  placed-Good sp code u device (inl o) = elim (Bool-cases sp.is_to_recv) [
    | inl e ↦
        rw (o.success, e)
          (started-Good u device (rw (o.open_now, o.settings, e) refl) (o.running e))
    | inr e ↦ rw (o.success, e) (kept-Good u device (rw (o.open_now, o.settings, e) refl))
  ]

  init-Good :
      (s : System) (a : Answers) (old : String) (opened : ℤ) (sp : SpInit)
      → Good true (init_port s a old opened true p sp).1
  unfolding init_port
  init-Good s a old opened sp =
      let r = SpUnix.init s a old opened p.sp p.device sp in
      placed-Good sp r.0 r.1 r.2 (init-Outcome s a sp old opened p.sp p.device)

Move-Good : {p q : Port} → Good true p → Move p q → Good true q
unfolding end_port
Move-Good {p} g (Move.inited s a old opened sp e f h) = init-Good p g e f h s a old opened sp
Move-Good {p} g (Move.shut e f) = shutdown-Good p g e
Move-Good {p} g (Move.ended e f) = shutdown-Good (record p { ending = true }) (ending-Good p g) e
Move-Good {p} g (Move.destroyed e f) = destroy-Good p g refl e f
Move-Good {p} g (Move.worked k e) = same-Good p g (Step-Same k e)
Move-Good {p} g (Move.tested e) = test-Good p g e
Move-Good {p} g (Move.woke e) = woke-Good p g e
Move-Good {p} g (Move.entered e) = entered-Good p g e
Move-Good {p} g (Move.round_begun e f h) = round-Good p g true e
Move-Good {p} g (Move.round_ended e f) = round-Good p g false e
Move-Good {p} g (Move.returned e h f) = returned-Good p g e h
Move-Good {p} g (Move.joined e f) = joined-Good p g e f

pub Reached-Good : {p : Port} → Reached p → Good true p
Reached-Good (Reached.new recv l2 l1 swap device) = new-Good recv l2 l1 swap device
Reached-Good (Reached.next r m) = Move-Good (Reached-Good r) m

gone_or_not : (c : Caller) → (c ≢ Caller.gone) ⊎ (c ≡ Caller.gone)
gone_or_not Caller.idle = inl λ e. cc
gone_or_not Caller.testing = inl λ e. cc
gone_or_not Caller.sleeping = inl λ e. cc
gone_or_not Caller.joining = inl λ e. cc
gone_or_not Caller.terminated = inl λ e. cc
gone_or_not Caller.crashed = inl λ e. cc
gone_or_not Caller.gone = inr refl

IsOver-cases :
    (th : Thread) (begun over : Bool)
    → is_over th begun over ≡ true
    → (th ≡ Thread.absent) ⊎ (th ≡ Thread.joined_up)
IsOver-cases Thread.absent begun over e = inl refl
IsOver-cases Thread.joined_up begun over e = inr refl
IsOver-cases Thread.ready begun over e = absurd cc
IsOver-cases Thread.past_latch begun over e = absurd cc
IsOver-cases Thread.ended begun over e = absurd cc
IsOver-cases Thread.detached begun over e = absurd cc

-- In every state that a port reaches by calls of the application, each `init` on a port that is not
-- open, by the destructor, the thread's steps and all other work, in any order and with memory for
-- each thread: neither `std::terminate` nor a call through a null `thread_` has ended the program,
-- and once the object is gone its thread has been joined, or there has been none.
pub Reached-alive :
    {p : Port}
    → Reached p
    → (caller_of p ≢ Caller.terminated)
      × (caller_of p ≢ Caller.crashed)
      × ((caller_of p ≢ Caller.gone)
          ⊎ ((thread_of p ≡ Thread.absent) ⊎ (thread_of p ≡ Thread.joined_up)))
Reached-alive {p} r =
    let g = Reached-Good r in
    (
      (λ e. ground (arith, g.sane)),
      (λ e. ground (arith, g.sane)),
      elim (gone_or_not (caller_of p)) [
        | inl other ↦ inl other
        | inr gone ↦
            let open_no_more = g.last refl (g.gone gone) (ground (arith, g.waits)) in
            inr (IsOver-cases (thread_of p) _ _ (g.over (no_thread p g open_no_more)))
      ],
    )
