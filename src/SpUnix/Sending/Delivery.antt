-- ===== src/SpUnix/Sending/Delivery.antt =====
-- A flush with bytes in the first cache.
use octcommu.Shared.{ℕ, suc, ◌+◌, ◌<◌, ◌≡◌, refl, List, some, arith, false, ◌==◌, ==-false}
use octcommu.FixedBuffer
use octcommu.FixedBuffer.Valid.{contents, length_of-valid, length-contents}
use octcommu.SpUnix.{SpUnix, max_buffer_len}
use octcommu.SpUnix.Sending.{WriteResult, load_l1, load_l2, flush_all_data}
use octcommu.SpUnix.Sending.Loop.{Delivers, write_loop-Delivers}
use octcommu.SpUnix.Sending.Flush.{HasCaches, emptied, load_l2-emptied, counted, flush_done}

-- The object after the caches are loaded, if the first one holds bytes.
abbrev pub loaded : SpUnix → SpUnix
loaded u = record (emptied u) {
  send_swap_cache = record (u.send_swap_cache) {
    bytes = u.send_l1_cache.bytes;
    current_len = u.send_l1_cache.current_len;
    cur = u.send_swap_cache.addr + u.send_l1_cache.current_len;
  };
  send_l1_cache = FixedBuffer.reset max_buffer_len u.send_l1_cache;
}

pub load_loaded :
    (u : SpUnix) → HasCaches u → 0 < u.send_l1_cache.current_len → load_l1 (load_l2 u) ≡ loaded u
unfolding load_l1 FixedBuffer.reset FixedBuffer.swap
load_loaded u c pos = rw (load_l2-emptied u c, load_l1, some_there, apart)
  where
    some_there : FixedBuffer.length_of max_buffer_len u.send_l1_cache == 0 ≡ false
    some_there = rw (length_of-valid max_buffer_len c.l1) (==-false _ 0 (omega arith))

    apart : u.send_swap_cache.addr == u.send_l1_cache.addr ≡ false
    apart = ==-false _ _ c.apart

module _ {u : SpUnix} (c : HasCaches u) (n : ℕ) where
  pub loaded-HasCaches : HasCaches (counted (loaded u) n)
  unfolding FixedBuffer.reset
  loaded-HasCaches = record {
    swap_cache = record {
      sized = c.l1.sized;
      pointer = refl;
      counted = c.l1.counted;
      small = c.swap_cache.small;
      low = c.swap_cache.low;
    };
    l1 = record {
      sized = c.l1.sized;
      pointer = omega arith;
      counted = omega arith;
      small = c.l1.small;
      low = c.l1.low;
    };
    l2 = c.l2;
    apart = c.apart;
    l2_empty = c.l2_empty;
  }

  length-loaded :
      FixedBuffer.length_of max_buffer_len (loaded u).send_swap_cache ≡ u.send_l1_cache.current_len
  length-loaded = length_of-valid max_buffer_len loaded-HasCaches.swap_cache

  l1-loaded : (loaded u).send_l1_cache.current_len ≡ 0
  unfolding FixedBuffer.reset
  l1-loaded = refl

-- Whatever parts `write` takes them in, the bytes of the first cache go out in order, the cache is
-- empty afterwards, write events are no longer listened to, and the count of bytes sent has grown
-- by less than their number: the part that completes them is not counted.
-- What neither `send` nor a flush changes.
pub record Still (u v : SpUnix) : Type 0 where
  pub fd : v.sp_fd ≡ u.sp_fd
  pub suspended : v.sp_suspend ≡ u.sp_suspend
  pub running : v.recv_thread_is_running ≡ u.recv_thread_is_running

pub flush_all_data-Delivers :
    (fuel : ℕ) (rs : List WriteResult) (u : SpUnix)
    → HasCaches u
    → 0 < u.send_l1_cache.current_len
    → Delivers u.send_l1_cache.current_len rs
    → (v : SpUnix) × (flush_all_data (suc fuel) rs u ≡ some (contents u.send_l1_cache, v))
      × HasCaches v
      × (v.send_l1_cache.current_len ≡ 0)
      × (v.listen_to_write ≡ false)
      × (v.sent_bytes < u.sent_bytes + u.send_l1_cache.current_len)
      × Still u v
flush_all_data-Delivers fuel rs u c pos d =
    let size = length-contents max_buffer_len c.l1 in
    let (count, eq, less) =
      write_loop-Delivers (contents u.send_l1_cache) 0 u.send_l1_cache.current_len rs
        (omega (arith, size)) pos d in
    let k = loaded-HasCaches c count in
    (
      record (counted (loaded u) count) { listen_to_write = false },
      flush_done fuel count rs u (loaded u) (contents u.send_l1_cache) (load_loaded u c pos) eq
          (rw (length-loaded c count) (omega (arith, less, size))),
      record {
        swap_cache = k.swap_cache;
        l1 = k.l1;
        l2 = k.l2;
        apart = k.apart;
        l2_empty = k.l2_empty;
      },
      l1-loaded c count,
      refl,
      omega (arith, less, size),
      record { fd = refl; suspended = refl; running = refl },
    )
