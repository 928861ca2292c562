-- ===== src/Threads/Timer.antt =====
-- src/Util/ElapsedTimer.h, with the clock in nanoseconds as an argument. `duration_cast` cuts off
-- towards 0.
use octcommu.Shared.{ℕ, ◌-◌, ◌*◌, ◌/◌, leb, if◌then◌else◌, ℤ, pos, negsuc, ◌==◌}

pub record ElapsedTimer : Type 0 where
  pub begin : ℕ

pub start_timer : ℕ → ElapsedTimer
start_timer now = record { begin = now }

pub reset : ElapsedTimer → ℕ → ElapsedTimer
reset t now = record { begin = now }

abbrev negate : ℕ → ℤ
negate n = if n == 0 then pos 0 else negsuc (n - 1)

abbrev elapsed : ℕ → ElapsedTimer → ℕ → ℤ
elapsed unit t now =
    if leb t.begin now then pos ((now - t.begin) / unit) else negate ((t.begin - now) / unit)

pub elapsed_ns : ElapsedTimer → ℕ → ℤ
elapsed_ns = elapsed 1

pub elapsed_us : ElapsedTimer → ℕ → ℤ
elapsed_us = elapsed 1000

pub elapsed_ms : ElapsedTimer → ℕ → ℤ
elapsed_ms = elapsed 1000000

pub elapsed_s : ElapsedTimer → ℕ → ℤ
elapsed_s = elapsed 1000000000

pub elapsed_min : ElapsedTimer → ℕ → ℤ
elapsed_min = elapsed (60 * 1000000000)

pub elapsed_hours : ElapsedTimer → ℕ → ℤ
elapsed_hours = elapsed (3600 * 1000000000)
