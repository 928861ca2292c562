-- ===== src/Udp/Receiving/Worker.antt =====
-- `recvWorkerThread` on a queue that begins with a given datagram.
use octcommu.Shared.{
  ℕ, ◌+◌, ◌-◌, ◌%◌, ◌^◌, ◌≤◌, ◌<◌, ◌≡◌, ◌≢◌, refl, true, false, List, [], ◌∷◌, length, arith, ◌==◌,
  ==-true, ==-false, take,
}
use octcommu.FixedBuffer
use octcommu.FixedBuffer.{FixedBuffer, SockAddrInfo}
use octcommu.FixedBuffer.Packed.{Holds, bytes-Holds}
use octcommu.BlockingQueue
use octcommu.Udp.{Udp}
use octcommu.Udp.Receiving.{recv_buf_len, Delivery, Task, recv_worker_thread}

abbrev pub delivery : SockAddrInfo → List ℕ → Delivery
delivery from p = record { data_in = p; len = length p; from = from }

-- A buffer in the queue that was filled at `stack` with the bytes `p` from the sender `from`.
pub record Waits (from : SockAddrInfo) (stack : ℕ) (p : List ℕ) (c : FixedBuffer) : Type 0 where
  pub held : take (length p) c.bytes ≡ p
  pub count : c.current_len ≡ length p
  pub sender : c.info ≡ from
  pub pointer : c.cur ≡ stack + length p
  pub fits : length p ≤ recv_buf_len

-- The copy in the queue of a buffer that holds `p`.
pub copy-Waits :
    {stack : ℕ} {p : List ℕ} {c : FixedBuffer} (from : SockAddrInfo) (heap : ℕ)
    → Holds recv_buf_len stack p c
    → Waits from stack p (FixedBuffer.copy recv_buf_len (record c { info = from }) heap)
unfolding FixedBuffer.copy
copy-Waits from heap h = record {
  held = bytes-Holds h;
  count = h.count;
  sender = refl;
  pointer = omega (arith, h.valid.pointer, h.place, h.count);
  fits = omega (arith, h.valid.counted, h.count);
}

module _ (u : Udp) {from : SockAddrInfo} {stack : ℕ} {p : List ℕ} {c : FixedBuffer}
    (q : List FixedBuffer) (waits : Waits from stack p c) (first : u.queue ≡ c ∷ q)
    (room : stack + recv_buf_len < 2 ^ 64) (task : Task) (low : task.local < 2 ^ 64) where
  abbrev length_there : ℕ
  length_there = (2 ^ 64 + c.cur - task.local) % 2 ^ 32

  -- `length` of the worker's copy is 0 or not by the places of the two buffers.
  pub worker-delivers :
      u.recv_data_func ≡ true
      → (stack + length p) % 2 ^ 32 ≢ task.local % 2 ^ 32
      → recv_worker_thread u task ≡ (delivery from p ∷ [], record u { queue = q })
  unfolding recv_worker_thread FixedBuffer.copy FixedBuffer.length_of BlockingQueue.take
  worker-delivers listens ne =
      simp (first, some_length, listens, waits.count, waits.held, waits.sender)
    where
      some_length : length_there == 0 ≡ false
      some_length =
          ==-false length_there 0 λ e. ne (omega (arith, e, waits.pointer, waits.fits, room, low))

  pub worker-drops :
      (stack + length p) % 2 ^ 32 ≡ task.local % 2 ^ 32
      → recv_worker_thread u task ≡ ([], record u { queue = q })
  unfolding recv_worker_thread FixedBuffer.copy FixedBuffer.length_of BlockingQueue.take
  worker-drops same = simp (first, no_length)
    where
      no_length : length_there == 0 ≡ true
      no_length = ==-true length_there 0 (omega (arith, same, waits.pointer, waits.fits, room, low))
