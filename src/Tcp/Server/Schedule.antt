-- ===== src/Tcp/Server/Schedule.antt =====
-- Received bytes and tasks of the pool in any order, on a TCP server that detaches.
use octcommu.Shared.{
  ℕ, ◌+◌, ◌^◌, ◌<◌, ◌≡◌, refl, sym, ◌∙◌, ap, Bool, true, not, Bool-cases, inl, inr, List, [], ◌∷◌,
  some, length, map, Pairs, length-Pairs, Sublistᴰ, ◌==◌, subst, take, if◌then◌else◌,
}
use octcommu.FixedBuffer.{FixedBuffer, SockAddrInfo}
use octcommu.FixedBuffer
use octcommu.FixedBuffer.Packed.{Holds, bytes-Holds}
use octcommu.BlockingQueue
use octcommu.BlockingQueue.Traffic.{
  Event, keep, serve, fifo, arrivals, tasks, Calm, given-Sublist, map-Sublist, fifo-tasks,
  deals-fifo,
}
use octcommu.BlockingQueue.Contract.{Link, run, Contract, AllFine, run-deals, Pairs-put}
use octcommu.Tcp.{
  TcpToolkit, TcpCommon, AppCall, received, max_recv_buf_len, queue_max, enqueue, recv_data_worker,
}
use octcommu.Tcp.Server.{my_on_recv}
use octcommu.Tcp.Server.Delivered.{Packs-short, queued}

-- Received bytes from the address `addr`, with the addresses of their two buffers.
pub record Segment : Type 0 where
  pub stack : ℕ
  pub heap : ℕ
  pub buf : List ℕ
  pub addr : List ℕ

-- Bytes below the buffer's size, with a buffer below 2 ^ 64.
pub record Fits (d : Segment) : Type 0 where
  pub small : length d.buf < max_recv_buf_len
  pub low : d.stack + max_recv_buf_len < 2 ^ 64

-- A task passes on what is not empty, wherever its buffer stands.
abbrev pub gives : Segment → ℕ → Bool
gives d local = not (length d.buf == 0)

abbrev pub IsAddress : ℕ → Type 0
IsAddress local = local < 2 ^ 64

abbrev pub IsFine : List (Event Segment ℕ) → Type 0
IsFine = AllFine Fits IsAddress

-- A buffer in the queue with the bytes `p` from the sender `from`.
record Waits (from : SockAddrInfo) (p : List ℕ) (c : FixedBuffer) : Type 0 where
  held : take (length p) c.bytes ≡ p
  count : c.current_len ≡ length p
  sender : c.info ≡ from

copy-Waits :
    {stack : ℕ} {p : List ℕ} {c : FixedBuffer} (from : SockAddrInfo) (heap : ℕ)
    → Holds max_recv_buf_len stack p c
    → Waits from p (FixedBuffer.copy max_recv_buf_len (record c { info = from }) heap)
unfolding FixedBuffer.copy
copy-Waits from heap h = record { held = bytes-Holds h; count = h.count; sender = refl }

module _ (t : TcpToolkit) where
  abbrev pub tcp_link : Link TcpCommon Segment ℕ AppCall
  tcp_link = record {
    receive = λ u d. my_on_recv t u d.stack d.heap d.buf d.addr;
    work = recv_data_worker;
  }

  module _ (v4 : Bool) where
    abbrev from : Segment → SockAddrInfo
    from d = t.get_ip_port_from_addr d.addr v4

    -- The call with the bytes of `d`.
    abbrev pub call_of : Segment → AppCall
    call_of d = received (record { data_in = d.buf; len = length d.buf; from = from d })

    abbrev Entry : Segment → FixedBuffer → Type 0
    Entry d c = Waits (from d) d.buf c

    -- A server that detaches, with these bytes in its queue.
    record Holding (u : TcpCommon) (ds : List Segment) : Type 0 where
      listens : u.on_recv_data_func ≡ true
      thread : u.tcp_init.is_detach_recv ≡ true
      family : u.is_ipv4 ≡ v4
      entries : Pairs Entry ds u.recv_blocking_queue

    named :
        (d : Segment) {c : FixedBuffer} {w4 : Bool}
        → w4 ≡ v4
        → Waits (t.get_ip_port_from_addr d.addr w4) d.buf c
        → Entry d c
    named d {c} e = subst (λ (b : Bool). Waits (t.get_ip_port_from_addr d.addr b) d.buf c) e

    receive-Holding :
        {u : TcpCommon} {q : List Segment} {d : Segment}
        → Holding u q
        → Fits d
        → (v : TcpCommon) × (tcp_link.receive u d ≡ some ([], v)) × Holding v (keep queue_max q d)
    unfolding enqueue
    receive-Holding {u} {q} {d} w f =
        let k = Packs-short t u w.listens d.stack d.heap f.low d.addr d.buf f.small in
        (
          _,
          queued t u w.listens d.stack d.heap f.low d.addr w.thread k,
          record {
            listens = w.listens;
            thread = w.thread;
            family = w.family;
            entries =
                Pairs-put queue_max w.entries (named d w.family (copy-Waits _ d.heap k.holds));
          },
        )

    -- What a task gives, and what waits after it.
    abbrev shown : List Segment → ℕ → List AppCall × List Segment
    shown q l = (map call_of (serve gives q l).0, (serve gives q l).1)

    -- A task on a server in whose queue the buffers `cs` hold the bytes `q`.
    module _ (u : TcpCommon) (local : ℕ) (listens : u.on_recv_data_func ≡ true)
        (thread : u.tcp_init.is_detach_recv ≡ true) (family : u.is_ipv4 ≡ v4) where
      abbrev Serves : List Segment → Type 0
      Serves q =
          ((recv_data_worker u local).0 ≡ map call_of (serve gives q local).0)
          × Holding (recv_data_worker u local).1 (serve gives q local).1

      remain :
          {q : List Segment} {cs : List FixedBuffer}
          → Pairs Entry q cs
          → Holding (record u { recv_blocking_queue = cs }) q
      remain ps = record { listens = listens; thread = thread; family = family; entries = ps }

      worker-none :
          u.recv_blocking_queue ≡ []
          → recv_data_worker u local ≡ ([], record u { recv_blocking_queue = [] })
      unfolding recv_data_worker FixedBuffer.copy FixedBuffer.create BlockingQueue.take
      worker-none e = simp (e, listens)

      worker-next :
          (d : Segment) {c : FixedBuffer} {cs : List FixedBuffer}
          → u.recv_blocking_queue ≡ c ∷ cs
          → Entry d c
          → recv_data_worker u local
            ≡ (if gives d local then call_of d ∷ [] else [], record u { recv_blocking_queue = cs })
      unfolding recv_data_worker FixedBuffer.copy BlockingQueue.take
      worker-next d e w = elim (Bool-cases (length d.buf == 0)) [
        | inl none_there ↦ simp (e, listens, w.count, none_there)
        | inr some_there ↦ simp (e, listens, w.count, some_there, w.held, w.sender)
      ]

      serve_entries :
          {q : List Segment} {cs : List FixedBuffer}
          → u.recv_blocking_queue ≡ cs
          → Pairs Entry q cs
          → Serves q
      unfolding serve
      serve_entries e Pairs.nil = rw (worker-none e) (refl, remain Pairs.nil)
      serve_entries e (Pairs.cons {x = d} {y = c} {xs = q} {ys = cs} w ps) =
          rw (worker-next d e w) (elim (Bool-cases (length d.buf == 0)) [
            | inl none_there ↦ rw none_there (refl, remain ps)
            | inr some_there ↦ rw some_there (refl, remain ps)
          ])

    tcp_link-Contract : Contract tcp_link queue_max shown Holding Fits IsAddress
    tcp_link-Contract = record {
      receives = receive-Holding;
      serves =
          λ {s = u} {q} {l} w low. serve_entries u l w.listens w.thread w.family refl w.entries;
    }

  module _ (u : TcpCommon) (es : List (Event Segment ℕ)) (listens : u.on_recv_data_func ≡ true)
      (thread : u.tcp_init.is_detach_recv ≡ true) (free : u.recv_blocking_queue ≡ [])
      (fine : IsFine es) where
    ran :
        (v : TcpCommon) × (run tcp_link u es
          ≡ some (map (call_of u.is_ipv4) (fifo gives queue_max [] es).0, v))
        × Holding u.is_ipv4 v (fifo gives queue_max [] es).1
    ran =
        let same =
          deals-fifo (shown u.is_ipv4) queue_max gives (call_of u.is_ipv4) (λ q l. refl) [] es in
        let (v, e, w) =
          run-deals (tcp_link-Contract u.is_ipv4)
            (record {
              listens = listens;
              thread = thread;
              family = refl;
              entries = rw free Pairs.nil;
            })
            fine in
        (
          v,
          e ∙ ap (λ r. some (r.0, v)) same,
          subst (Holding u.is_ipv4 v) (ap (λ (r : List AppCall × List Segment). r.1) same) w,
        )

    -- On a server that detaches, with the application's function set and nothing in the queue, any
    -- pieces of fewer than 262144 received bytes and any tasks of the pool, one after the other in
    -- any order, give the application exactly what the tasks take in turn from a queue that keeps
    -- the last 129 pieces, less the empty ones. So each piece reaches the application whole, with
    -- its sender, at most once, and in the order of arrival.
    pub run-tcp_link :
        (out : List AppCall) × (v : TcpCommon) × (run tcp_link u es ≡ some (out, v))
        × (out ≡ map (call_of u.is_ipv4) (fifo gives queue_max [] es).0)
        × Sublistᴰ out (map (call_of u.is_ipv4) (arrivals es))
        × (length v.recv_blocking_queue ≡ length (fifo gives queue_max [] es).1)
    run-tcp_link =
        let (v, e, w) = ran in
        (
          _,
          v,
          e,
          refl,
          map-Sublist _ (given-Sublist gives queue_max es),
          sym (length-Pairs w.entries),
        )

    -- If, on such a server, no piece finds more than 128 others waiting, each task finds one that
    -- is not empty, and there are as many tasks as pieces, then the application gets every piece,
    -- in order, and none waits.
    pub run-tcp_arrivals :
        Calm gives queue_max [] es
        → length (tasks es) ≡ length (arrivals es)
        → (v : TcpCommon) × (run tcp_link u es ≡ some (map (call_of u.is_ipv4) (arrivals es), v))
          × (length v.recv_blocking_queue ≡ 0)
    run-tcp_arrivals calm same =
        let (v, e, w) = ran in
        let all = fifo-tasks gives queue_max calm same in
        (
          v,
          e ∙ ap (λ r. some (map (call_of u.is_ipv4) r.0, v)) all,
          sym (length-Pairs w.entries) ∙ ap (λ r. length r.1) all,
        )
