-- ===== src/Udp/Receiving/Delivered.antt =====
-- What the application gets of a datagram: at once, or by way of the queue and the thread pool.
use octcommu.Shared.{
  ℕ, ◌+◌, ◌%◌, ◌^◌, ◌≤◌, ◌<◌, ◌≡◌, ◌≢◌, refl, ap, ◌⊎◌, inl, inr, true, false, List, [], ◌∷◌, dec_lt,
  some, length, arith,
}
use octcommu.FixedBuffer
use octcommu.FixedBuffer.{FixedBuffer, SockAddrInfo}
use octcommu.FixedBuffer.Packed.{
  Holds, Packs, Packs-all, Packs-nothing, bytes-Holds, length_of-Holds,
}
use octcommu.BlockingQueue
use octcommu.Udp.{Toolkit, Udp, Call, call}
use octcommu.Udp.Receiving.Worker.{delivery, copy-Waits, worker-delivers, worker-drops}
use octcommu.Udp.Receiving.{recv_buf_len, queue_max, Task, on_read_data_func, recv_worker_thread}

module _ (stack : ℕ) (room : stack + recv_buf_len < 2 ^ 64) where
  module _ (t : Toolkit) (u : Udp) (listens : u.recv_data_func ≡ true) (heap : ℕ)
      (addr : List ℕ) where
    abbrev from : SockAddrInfo
    from = t.get_ip_port_from_addr addr u.is_ipv6

    abbrev named : FixedBuffer → FixedBuffer
    named c = record c { info = from }

    length_of-named :
        {p : List ℕ} {c : FixedBuffer}
        → Holds recv_buf_len stack p c
        → FixedBuffer.length_of recv_buf_len (named c) ≡ length p
    unfolding FixedBuffer.length_of
    length_of-named h = length_of-Holds h

    at_once :
        (buf p : List ℕ)
        → u.udp_int_param.is_detach_recv ≡ false
        → Packs recv_buf_len stack buf p
        → on_read_data_func t u stack heap buf addr ≡ some (delivery from p ∷ [], u)
    unfolding on_read_data_func
    at_once buf p direct k =
        simp (listens, k.appends, k.ends, direct, length_of-named k.holds, bytes-Holds k.holds)

    all_of : (buf : List ℕ) → length buf < recv_buf_len → Packs recv_buf_len stack buf buf
    all_of buf less = Packs-all recv_buf_len stack (omega arith) (omega arith) room buf less

    -- With the application's function set, a link that does not detach gives it, in one call, the
    -- bytes of a datagram of fewer than 262144 bytes and the sender's address; of a longer one no
    -- bytes.
    pub on_read_data_func-direct :
        (buf : List ℕ)
        → u.udp_int_param.is_detach_recv ≡ false
        → ((length buf < recv_buf_len)
            × (on_read_data_func t u stack heap buf addr ≡ some (delivery from buf ∷ [], u)))
          ⊎ ((recv_buf_len ≤ length buf)
              × (on_read_data_func t u stack heap buf addr ≡ some (delivery from [] ∷ [], u)))
    on_read_data_func-direct buf direct = elim (dec_lt (length buf) recv_buf_len) [
      | yes less ↦ inl (less, at_once buf buf direct (all_of buf less))
      | no more ↦ inr (
        (omega arith),
        at_once buf [] direct
            (Packs-nothing recv_buf_len stack (omega arith) (omega arith) room buf (omega arith)),
      )
    ]

    -- What the link is like with one more datagram in its queue.
    abbrev pub queued : FixedBuffer → Udp
    queued c = call Call.pool_async (record u {
      queue = BlockingQueue.put queue_max u.queue (FixedBuffer.copy recv_buf_len (named c) heap);
    })

    pub detached :
        {buf p : List ℕ}
        → u.udp_int_param.is_detach_recv ≡ true
        → (k : Packs recv_buf_len stack buf p)
        → on_read_data_func t u stack heap buf addr ≡ some ([], queued k.ended)
    unfolding on_read_data_func
    detached thread k = simp (listens, k.appends, k.ends, thread)

    -- With the function set, a link that detaches, with no datagram waiting, keeps one of fewer
    -- than 262144 bytes for the thread pool. The worker then gives the application its bytes and
    -- the sender's address, unless the place behind the bytes in the buffer of `OnReadDataFunc` and
    -- the worker's own buffer have the same address modulo 2 ^ 32: then the datagram is lost.
    pub recv_worker_thread-on_read_data_func :
        (buf : List ℕ) (task : Task)
        → u.udp_int_param.is_detach_recv ≡ true
        → u.queue ≡ []
        → length buf < recv_buf_len
        → task.local < 2 ^ 64
        → (v : Udp) × (on_read_data_func t u stack heap buf addr ≡ some ([], v))
          × (((stack + length buf) % 2 ^ 32 ≢ task.local % 2 ^ 32)
              → (recv_worker_thread v task).0 ≡ delivery from buf ∷ [])
          × (((stack + length buf) % 2 ^ 32 ≡ task.local % 2 ^ 32)
              → (recv_worker_thread v task).0 ≡ [])
    unfolding BlockingQueue.put BlockingQueue.trim
    recv_worker_thread-on_read_data_func buf task thread free less low =
        let k = all_of buf less in
        let waits = copy-Waits from heap k.holds in
        let v = queued k.ended in
        (
          v,
          detached thread k,
          (λ ne.
              ap (λ r. r.0) (worker-delivers v [] waits (rw free refl) room task low listens ne)),
          λ same. ap (λ r. r.0) (worker-drops v [] waits (rw free refl) room task low same),
        )
