-- ===== src/Threads/Invariant.antt =====
-- What every step of a ThreadPlus keeps.
use mathlib.Core.Path.{subst}
use octcommu.Shared.{
  ℕ, zero, suc, ◌+◌, ◌≤◌, ◌≡◌, refl, sym, Bool, true, false, ℤ, pos, negsuc, arith,
}
use octcommu.Threads.Latch.{create, must_wait, count_down, notifies}
use octcommu.Threads.{
  Thread, Caller, ThreadPlus, make, start, threads_made, shutdown, shutdown_thread, destroy,
  test_latch, run_in_thread,
}
use octcommu.Threads.Steps.{Step, Reach}

-- 1 - k
abbrev pub one_less : ℕ → ℤ
one_less zero = pos 1
one_less (suc zero) = pos 0
one_less (suc (suc k)) = negsuc k

-- Threads that have not run yet.
abbrev pub fresh : Thread → ℕ
fresh Thread.absent = 0
fresh Thread.ready = 1
fresh Thread.past_latch = 0
fresh Thread.ended = 0
fresh Thread.joined_up = 0
fresh Thread.detached = 0

abbrev pub has_run : Thread → Bool
has_run Thread.absent = false
has_run Thread.ready = false
has_run Thread.past_latch = true
has_run Thread.ended = true
has_run Thread.joined_up = true
has_run Thread.detached = false

abbrev pub waits : Caller → Bool
waits Caller.idle = false
waits Caller.testing = true
waits Caller.sleeping = true
waits Caller.joining = false
waits Caller.terminated = false
waits Caller.crashed = false
waits Caller.gone = false

-- The latch has been counted down `k` times, once by each thread that runs.
pub record Inv (n : ℕ) (s : ThreadPlus) : Type 0 where
  pub k : ℕ
  pub count : s.latch.count ≡ one_less k
  pub balance : k + fresh s.thread ≤ n
  pub asleep : s.caller ≡ Caller.sleeping → k ≡ 0
  pub begun : waits s.caller ≡ true → has_run s.thread ≡ false → s.thread ≡ Thread.ready
  pub ran : has_run s.thread ≡ true → 1 ≤ k
  pub held : s.thread ≡ Thread.ready → k ≡ 0 → waits s.caller ≡ true
  pub ended : s.thread ≡ Thread.joined_up → s.joined ≡ true

make-Inv : (func : Bool) → Inv 0 (make func)
unfolding make create
make-Inv func = record {
  k = 0;
  count = refl;
  balance = omega arith;
  asleep = λ e. refl;
  begun = λ e. cc;
  ran = λ e. cc;
  held = λ e f. cc;
  ended = λ e. cc;
}

module _ {n : ℕ} (s : ThreadPlus) (v : Inv n s) where
  test-Inv : s.caller ≡ Caller.testing → Inv n (test_latch s)
  unfolding test_latch must_wait
  test-Inv e = record {
    k = v.k;
    count = v.count;
    balance = v.balance;
    asleep = ground (arith, v.count);
    begun = λ f. v.begun (ground arith);
    ran = v.ran;
    held = ground (arith, v.count, v.held);
    ended = v.ended;
  }

  woke-Inv : s.caller ≡ Caller.sleeping → Inv n (record s { caller = Caller.testing })
  woke-Inv e = record {
    k = v.k;
    count = v.count;
    balance = v.balance;
    asleep = λ f. cc;
    begun = λ f. v.begun (ground arith);
    ran = v.ran;
    held = λ f g. refl;
    ended = v.ended;
  }

  start-Inv : (made : Bool) → s.caller ≡ Caller.idle → Inv (n + threads_made made s) (start made s)
  unfolding start
  start-Inv made e = record {
    k = v.k;
    count = ground (arith, v.count);
    balance = ground (arith, v.balance);
    asleep = ground (arith, v.asleep);
    begun = ground (arith, v.begun);
    ran = ground (arith, v.ran);
    held = ground (arith, v.held);
    ended = ground (arith, v.ended);
  }

  shutdown-Inv : s.caller ≡ Caller.idle → Inv n (shutdown s)
  unfolding shutdown shutdown_thread
  shutdown-Inv e = record {
    k = v.k;
    count = ground (arith, v.count);
    balance = ground (arith, v.balance);
    asleep = ground (arith, v.asleep);
    begun = ground (arith, v.begun);
    ran = ground (arith, v.ran);
    held = ground (arith, v.held);
    ended = ground (arith, v.ended);
  }

  destroy-Inv : s.caller ≡ Caller.idle → Inv n (destroy s)
  unfolding destroy
  destroy-Inv e = record {
    k = v.k;
    count = ground (arith, v.count);
    balance = ground (arith, v.balance);
    asleep = ground (arith, v.asleep);
    begun = ground (arith, v.begun);
    ran = ground (arith, v.ran);
    held = ground (arith, v.held);
    ended = ground (arith, v.ended);
  }

  enter-Inv : s.thread ≡ Thread.ready → Inv n (run_in_thread s)
  unfolding run_in_thread count_down notifies
  enter-Inv e = record {
    k = suc v.k;
    count = ground (arith, v.count);
    balance = ground (arith, v.balance);
    asleep = ground (arith, v.asleep, v.count);
    begun = λ f g. cc;
    ran = λ f. omega arith;
    held = ground (arith, v.held);
    ended = ground (arith, v.ended);
  }

  returned-Inv : s.thread ≡ Thread.past_latch → Inv n (record s { thread = Thread.ended })
  returned-Inv e = record {
    k = v.k;
    count = v.count;
    balance = ground (arith, v.balance);
    asleep = v.asleep;
    begun = λ f g. cc;
    ran = λ f. v.ran (ground arith);
    held = λ f. cc;
    ended = λ f. cc;
  }

  joined-Inv :
      s.caller ≡ Caller.joining
      → s.thread ≡ Thread.ended
      → Inv n (record s { thread = Thread.joined_up; joined = true; caller = Caller.idle })
  joined-Inv e f = record {
    k = v.k;
    count = v.count;
    balance = ground (arith, v.balance);
    asleep = λ g. cc;
    begun = λ g. cc;
    ran = λ g. v.ran (ground arith);
    held = λ g. cc;
    ended = λ g. refl;
  }

  no_more : {t : ThreadPlus} → Inv n t → Inv (n + 0) t
  no_more {t} w = subst (λ j. Inv j t) (omega arith) w

  Step-Inv : {j : ℕ} {t : ThreadPlus} → Step s j t → Inv (n + j) t
  Step-Inv (Step.started made e) = start-Inv made e
  Step-Inv (Step.shut e) = no_more (shutdown-Inv e)
  Step-Inv (Step.destroyed e) = no_more (destroy-Inv e)
  Step-Inv (Step.tested e) = no_more (test-Inv e)
  Step-Inv (Step.woke e) = no_more (woke-Inv e)
  Step-Inv (Step.entered e) = no_more (enter-Inv e)
  Step-Inv (Step.returned e) = no_more (returned-Inv e)
  Step-Inv (Step.joined e f) = no_more (joined-Inv e f)

pub Reach-Inv : {func : Bool} {n : ℕ} {s : ThreadPlus} → Reach func n s → Inv n s
Reach-Inv {func} Reach.new = make-Inv func
Reach-Inv (Reach.next {n = m} {k} {s} {t} r step e) =
    subst (λ j. Inv j t) (sym e) (Step-Inv s (Reach-Inv r) step)
