-- ===== src/Tcp/Server/Delivered.antt =====
-- What the application gets of the bytes that a TCP server receives, at once or by way of the
-- queue.
use octcommu.Shared.{
  ℕ, ◌+◌, ◌≤◌, ◌<◌, ◌^◌, ◌≡◌, refl, ◌⊎◌, inl, inr, true, false, List, [], ◌∷◌, some, length, arith,
  dec_lt, ◌==◌, if◌then◌else◌, Bool-cases,
}
use octcommu.FixedBuffer
use octcommu.FixedBuffer.{FixedBuffer, SockAddrInfo}
use octcommu.FixedBuffer.Packed.{
  Holds, Packs, Packs-all, Packs-nothing, bytes-Holds, length_of-Holds,
}
use octcommu.BlockingQueue
use octcommu.Tcp.{
  TcpToolkit, TcpCommon, AppCall, received, max_recv_buf_len, pack, enqueue, recv_data_worker,
}
use octcommu.Tcp.Server.{my_on_recv}

abbrev sender : TcpToolkit → TcpCommon → List ℕ → SockAddrInfo
sender t u addr = t.get_ip_port_from_addr addr u.is_ipv4

-- The call with the bytes `p` and the sender's address.
abbrev pub given : TcpToolkit → TcpCommon → List ℕ → List ℕ → AppCall
given t u addr p = received (record { data_in = p; len = length p; from = sender t u addr })

module _ (t : TcpToolkit) (u : TcpCommon) (listens : u.on_recv_data_func ≡ true) (stack heap : ℕ)
    (room : stack + max_recv_buf_len < 2 ^ 64) (addr : List ℕ) where
  abbrev from : SockAddrInfo
  from = sender t u addr

  abbrev named : FixedBuffer → FixedBuffer
  named c = record c { info = from }

  pack-Packs :
      {buf p : List ℕ} (k : Packs max_recv_buf_len stack buf p)
      → pack t u stack buf addr ≡ some (named k.ended)
  unfolding pack
  pack-Packs k = rw (k.appends, k.ends)

  length_of-named :
      {p : List ℕ} {c : FixedBuffer}
      → Holds max_recv_buf_len stack p c
      → FixedBuffer.length_of max_recv_buf_len (named c) ≡ length p
  unfolding FixedBuffer.length_of
  length_of-named h = length_of-Holds h

  at_once :
      (buf p : List ℕ)
      → u.tcp_init.is_detach_recv ≡ false
      → Packs max_recv_buf_len stack buf p
      → my_on_recv t u stack heap buf addr ≡ some (given t u addr p ∷ [], u)
  unfolding my_on_recv
  at_once buf p direct k =
      simp (listens, pack-Packs k, direct, length_of-named k.holds, bytes-Holds k.holds)

  worker :
      {p : List ℕ} {c : FixedBuffer} (local : ℕ)
      → u.recv_blocking_queue ≡ []
      → Holds max_recv_buf_len stack p c
      → (recv_data_worker (enqueue u heap (named c)) local).0
        ≡ (if length p == 0 then [] else given t u addr p ∷ [])
  unfolding recv_data_worker enqueue BlockingQueue.put BlockingQueue.trim BlockingQueue.take
      FixedBuffer.copy
  worker {p} local free h = elim (Bool-cases (length p == 0)) [
    | inl e ↦ simp (free, listens, h.count, e)
    | inr e ↦ simp (free, listens, h.count, e, bytes-Holds h)
  ]

  pub Packs-short :
      (buf : List ℕ) → length buf < max_recv_buf_len → Packs max_recv_buf_len stack buf buf
  Packs-short = Packs-all max_recv_buf_len stack (omega arith) (omega arith) room

  Packs-none : (buf : List ℕ) → max_recv_buf_len ≤ length buf → Packs max_recv_buf_len stack buf []
  Packs-none = Packs-nothing max_recv_buf_len stack (omega arith) (omega arith) room

  pub queued :
      {buf p : List ℕ}
      → u.tcp_init.is_detach_recv ≡ true
      → (k : Packs max_recv_buf_len stack buf p)
      → my_on_recv t u stack heap buf addr ≡ some ([], enqueue u heap (named k.ended))
  unfolding my_on_recv
  queued thread k = simp (listens, pack-Packs k, thread)

  -- With the application's function set, a server gives it received bytes with the sender's
  -- address: fewer than 262144 of them whole, and of more none. If it does not detach it calls the
  -- function at once. If it does, with nothing in the queue, the next task of the pool calls it, at
  -- whatever addresses the buffers stand, but not for no bytes.
  pub recv_data_worker-my_on_recv :
      (buf : List ℕ) (local : ℕ)
      → u.recv_blocking_queue ≡ []
      → (p : List ℕ) × (((length buf < max_recv_buf_len) × (p ≡ buf))
          ⊎ ((max_recv_buf_len ≤ length buf) × (p ≡ [])))
        × (u.tcp_init.is_detach_recv ≡ false
            → my_on_recv t u stack heap buf addr ≡ some (given t u addr p ∷ [], u))
        × (u.tcp_init.is_detach_recv ≡ true
            → (v : TcpCommon) × (my_on_recv t u stack heap buf addr ≡ some ([], v))
              × ((recv_data_worker v local).0
                  ≡ (if length p == 0 then [] else given t u addr p ∷ [])))
  recv_data_worker-my_on_recv buf local free = elim (dec_lt (length buf) max_recv_buf_len) [
    | yes less ↦
        let k = Packs-short buf less in
        (
          buf,
          inl (less, refl),
          (λ d. at_once buf buf d k),
          λ d. (_, queued d k, worker local free k.holds),
        )
    | no more ↦
        let k = Packs-none buf (omega arith) in
        (
          [],
          inr (omega arith, refl),
          (λ d. at_once buf [] d k),
          λ d. (_, queued d k, worker local free k.holds),
        )
  ]
