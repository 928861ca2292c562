-- ===== src/Threads/Latch.antt =====
-- src/Util/CountDownLatch.cpp: the count, the test of `wait` and `countDown`, each a step under the
-- mutex.
use octcommu.Shared.{zero, suc, Bool, true, false, not, ℤ, pos, negsuc}

pub record CountDownLatch : Type 0 where
  pub count : ℤ

unfoldable pub create : CountDownLatch
create = record { count = pos 1 }

pub set_count : CountDownLatch → ℤ → CountDownLatch
set_count l count = record { count = count }

-- `count_ > 0`
abbrev pub is_above : ℤ → Bool
is_above (pos zero) = false
is_above (pos (suc n)) = true
is_above (negsuc n) = false

-- Whether the loop of `wait` goes to sleep.
unfoldable pub must_wait : CountDownLatch → Bool
must_wait l = is_above l.count

abbrev pred : ℤ → ℤ
pred (pos zero) = negsuc 0
pred (pos (suc n)) = pos n
pred (negsuc n) = negsuc (suc n)

unfoldable pub count_down : CountDownLatch → CountDownLatch
count_down l = record { count = pred l.count }

-- Whether `countDown` wakes those who wait, by the count that it leaves.
unfoldable pub notifies : CountDownLatch → Bool
notifies l = not (is_above l.count)

pub get_count : CountDownLatch → ℤ
get_count l = l.count
