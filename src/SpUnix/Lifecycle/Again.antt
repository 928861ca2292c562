-- ===== src/SpUnix/Lifecycle/Again.antt =====
-- A second `init` on a port that is open and receives.
use octcommu.Shared.{
  ℕ, ◌≡◌, refl, sym, ◌∙◌, ap, inl, inr, Bool, true, false, not, Bool-cases, String, ◌==◌, ◌&&◌,
  if◌then◌else◌, ℤ, arith, subst,
}
use octcommu.SpParams.{SpInit}
use octcommu.Termios.{System, Answers}
use octcommu.Threads
use octcommu.Threads.{ThreadPlus, Thread, Caller, is_joinable}
use octcommu.SpUnix.{has_fd}
use octcommu.SpUnix.Lifecycle.{Port, init_port, end_port, destroy_port}
use octcommu.SpUnix.Lifecycle.Closing.{shutdown_port-at_once}
use octcommu.SpUnix.Opening.{Opened, init-Outcome}
use octcommu.SpUnix.Lifecycle.Steps.{Reached, caller_of, thread_of}
use octcommu.SpUnix.Lifecycle.Stopping.{receiving_if, not_closing}
use octcommu.SpUnix.Lifecycle.Reached.{Reached-Good}

-- A thread that can be joined when the members are destroyed.
abbrev pub outlived : ThreadPlus → ThreadPlus
outlived s =
    if s.started && not s.joined
    then record s { thread = Thread.detached; caller = Caller.gone }
    else record s { caller = Caller.terminated }

destroy-outlived : (s : ThreadPlus) → is_joinable s.thread ≡ true → Threads.destroy s ≡ outlived s
unfolding Threads.destroy
destroy-outlived s e = rw e refl

module _ {p : Port} (r : Reached p) (quiet : caller_of p ≡ Caller.idle)
    (open_now : has_fd p.sp.sp_fd ≡ true) (asked : p.sp.sp_init.is_to_recv ≡ true) (s : System)
    (a : Answers) (old : String) (opened : ℤ) (made : Bool) (sp : SpInit) where
  abbrev again : ℕ × Port
  again = init_port s a old opened made p sp

  joinable : is_joinable (thread_of p) ≡ true
  joinable = (Reached-Good r).held ∙ receiving_if p (Reached-Good r) open_now asked

  running : p.sp.recv_thread_is_running ≡ true
  running =
      let g = Reached-Good r in g.runs (not_closing p g quiet) (receiving_if p g open_now asked)

  -- The outcome of a second `init` that succeeds.
  succeeded : again.0 ≡ 0 → Opened p.sp sp again.0 again.1.sp
  unfolding init_port
  succeeded e = elim (init-Outcome s a sp old opened p.sp p.device) [
    | inl o ↦ o
    | inr f ↦ absurd (ground (arith, f.failure))
  ]

  -- In every state that is reached while each `init` is on a port that is not open, with memory for
  -- each thread, if no call runs and the port is open and receives: one more `init` that opens the
  -- port again, and is to receive, ends the program by `std::terminate`.
  pub init_port-terminated :
      again.0 ≡ 0 → sp.is_to_recv ≡ true → caller_of again.1 ≡ Caller.terminated
  unfolding init_port Threads.start
  init_port-terminated e f = simp (e, f, (Reached-Good r).func, joinable) refl

  same_thread : sp.is_to_recv ≡ false → again.1.thread_poller ≡ p.thread_poller
  unfolding init_port
  same_thread f = elim (Bool-cases (again.0 == 0)) [
    | inl e ↦ simp (e, f) refl
    | inr e ↦ simp (e, f) refl
  ]

  -- In every state that is reached while each `init` is on a port that is not open, with memory for
  -- each thread, if no call runs and the port is open and receives: after one more `init` that opens
  -- the port again, and is not to receive, the destructor does not stop the thread. It is detached
  -- when the object goes, with the flag still set by which it runs, or, where an earlier thread had
  -- been joined, the program ends by `std::terminate`.
  pub destroy_port-init_port :
      again.0 ≡ 0
      → sp.is_to_recv ≡ false
      → let z = destroy_port (end_port again.1) in
        (z.thread_poller ≡ outlived p.thread_poller) × (z.sp.recv_thread_is_running ≡ true)
  unfolding end_port destroy_port
  destroy_port-init_port e f =
      let o = succeeded e in
      let same = same_thread f in
      let q = record again.1 { ending = true } in
      let calm = ap (λ (th : ThreadPlus). th.caller) same ∙ quiet in
      let silent = ap (λ (x : SpInit). x.is_to_recv) o.settings ∙ f in
      subst
        (λ (x : ℕ × Port).
          (Threads.destroy x.1.thread_poller ≡ outlived p.thread_poller)
          × (x.1.sp.recv_thread_is_running ≡ true))
        (sym (shutdown_port-at_once q o.open_now silent calm))
        (
          ap Threads.destroy same ∙ destroy-outlived p.thread_poller joinable,
          o.as_before f ∙ running,
        )
