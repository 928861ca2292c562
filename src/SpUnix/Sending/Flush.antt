-- ===== src/SpUnix/Sending/Flush.antt =====
-- `flushAllData` by its two cases: bytes in the first cache, or none.
use octcommu.Shared.{
  ℕ, zero, suc, ◌+◌, ◌≡◌, ◌≢◌, refl, List, [], ◌∷◌, none, some, arith, true, false, ◌==◌, ==-true,
  ==-false,
}
use octcommu.FixedBuffer
use octcommu.FixedBuffer.Valid.{IsValid, length_of-valid}
use octcommu.SpUnix.{SpUnix, max_buffer_len}
use octcommu.SpUnix.Sending.{
  WriteResult, wrote, again, failed, write_loop, load_l1, load_l2, payload, flush_all_data,
}

-- The caches are valid and stand at different places, and the second one is empty: nothing in the
-- class ever writes to it.
pub record HasCaches (u : SpUnix) : Type 0 where
  pub swap_cache : IsValid max_buffer_len u.send_swap_cache
  pub l1 : IsValid max_buffer_len u.send_l1_cache
  pub l2 : IsValid max_buffer_len u.send_l2_cache
  pub apart : u.send_swap_cache.addr ≢ u.send_l1_cache.addr
  pub l2_empty : u.send_l2_cache.current_len ≡ 0

write_loop-nil : (rs : List WriteResult) → write_loop [] 0 rs ≡ some (0, [])
unfolding write_loop
write_loop-nil [] = refl
write_loop-nil (wrote zero ∷ rs) = refl
write_loop-nil (wrote (suc k) ∷ rs) = refl
write_loop-nil (again ∷ rs) = refl
write_loop-nil (failed ∷ rs) = refl

abbrev pub emptied : SpUnix → SpUnix
emptied u = record u { send_swap_cache = FixedBuffer.reset max_buffer_len u.send_swap_cache }

pub load_l2-emptied : (u : SpUnix) → HasCaches u → load_l2 u ≡ emptied u
unfolding load_l2
load_l2-emptied u c = rw none_there
  where
    none_there : FixedBuffer.length_of max_buffer_len u.send_l2_cache == 0 ≡ true
    none_there = rw (length_of-valid max_buffer_len c.l2, c.l2_empty)

-- The object after the caches are loaded, if the first one holds nothing.
abbrev pub idle : SpUnix → SpUnix
idle u = record (emptied u) { listen_to_write = false }

pub load_idle :
    (u : SpUnix) → HasCaches u → u.send_l1_cache.current_len ≡ 0 → load_l1 (load_l2 u) ≡ idle u
unfolding load_l1 FixedBuffer.reset
load_idle u c e = rw (load_l2-emptied u c, load_l1, none_there)
  where
    none_there : FixedBuffer.length_of max_buffer_len u.send_l1_cache == 0 ≡ true
    none_there = rw (length_of-valid max_buffer_len c.l1, e)

abbrev pub counted : SpUnix → ℕ → SpUnix
counted v n = record v { sent_bytes = v.sent_bytes + n }

-- The call returns after the loop if the bytes counted are not as many as were loaded.
pub flush_done :
    (fuel n : ℕ) (rs : List WriteResult) (u v : SpUnix) (out : List ℕ)
    → load_l1 (load_l2 u) ≡ v
    → write_loop (payload v) 0 rs ≡ some (n, out)
    → FixedBuffer.length_of max_buffer_len v.send_swap_cache ≢ n
    → flush_all_data (suc fuel) rs u ≡ some (out, record (counted v n) { listen_to_write = false })
unfolding flush_all_data
flush_done fuel n rs u v out e w ne =
    rw (e, w, ==-false (FixedBuffer.length_of max_buffer_len v.send_swap_cache) n ne)

-- Otherwise it calls itself, and returns only if that call does.
flush_again :
    (fuel n : ℕ) (rs : List WriteResult) (u v : SpUnix) (out : List ℕ)
    → load_l1 (load_l2 u) ≡ v
    → write_loop (payload v) 0 rs ≡ some (n, out)
    → FixedBuffer.length_of max_buffer_len v.send_swap_cache ≡ n
    → flush_all_data fuel rs (counted v n) ≡ none
    → flush_all_data (suc fuel) rs u ≡ none
unfolding flush_all_data
flush_again fuel n rs u v out e w eq stuck =
    rw (e, w, ==-true (FixedBuffer.length_of max_buffer_len v.send_swap_cache) n eq, stuck)

pub idle-HasCaches : {u : SpUnix} → HasCaches u → HasCaches (counted (idle u) 0)
unfolding FixedBuffer.reset
idle-HasCaches c = record {
  swap_cache = record {
    sized = c.swap_cache.sized;
    pointer = omega arith;
    counted = omega arith;
    small = c.swap_cache.small;
    low = c.swap_cache.low;
  };
  l1 = c.l1;
  l2 = c.l2;
  apart = c.apart;
  l2_empty = c.l2_empty;
}

length-idle :
    {u : SpUnix} → HasCaches u → FixedBuffer.length_of max_buffer_len (idle u).send_swap_cache ≡ 0
unfolding FixedBuffer.reset
length-idle {u} c = length_of-valid max_buffer_len (idle-HasCaches c).swap_cache

-- With nothing to send, `flushAllData` calls itself for ever: it has not returned, however often it
-- has called itself and whatever `write` returns.
pub flush_all_data-none :
    (fuel : ℕ) (rs : List WriteResult) (u : SpUnix)
    → HasCaches u
    → u.send_l1_cache.current_len ≡ 0
    → flush_all_data fuel rs u ≡ none
unfolding flush_all_data
flush_all_data-none zero rs u c e = refl
flush_all_data-none (suc fuel) rs u c e =
    flush_again fuel 0 rs u (idle u) [] (load_idle u c e) (loop_idle) (length-idle c)
      (flush_all_data-none fuel rs (counted (idle u) 0) (idle-HasCaches c) e)
  where
    loop_idle : write_loop (payload (idle u)) 0 rs ≡ some (0, [])
    loop_idle = unfold FixedBuffer.reset in write_loop-nil rs
