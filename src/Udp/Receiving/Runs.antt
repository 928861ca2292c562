-- ===== src/Udp/Receiving/Runs.antt =====
-- Many datagrams through the queue of a link that detaches, and then the tasks of the pool.
use octcommu.Shared.{
  ℕ, ◌+◌, ◌-◌, ◌%◌, ◌^◌, ◌<◌, ◌≡◌, ◌≢◌, refl, ◌∙◌, ap, Bool, true, List, [], ◌∷◌, ◌++◌, Option,
  some, length, arith, drop, map, Pairs, length-Pairs, Pairs-drop, ◌>>=◌,
}
use octcommu.FixedBuffer.{FixedBuffer, SockAddrInfo}
use octcommu.FixedBuffer.Packed.{Packs-all}
use mathlib.Core.Path.{subst}
use octcommu.BlockingQueue.Window.{lasts, puts, puts-lasts}
use octcommu.Udp.{Toolkit, Udp}
use octcommu.Udp.Receiving.{
  recv_buf_len, queue_max, Delivery, Task, on_read_data_func, recv_worker_thread,
}
use octcommu.Udp.Receiving.Worker.{delivery, Waits, copy-Waits, worker-delivers}
use octcommu.Udp.Receiving.Delivered.{queued, detached}

-- A datagram from `addr`, with the addresses of its two buffers.
pub record Arrival : Type 0 where
  pub stack : ℕ
  pub heap : ℕ
  pub buf : List ℕ
  pub addr : List ℕ

pub receive_all : Toolkit → Udp → List Arrival → Option (List Delivery × Udp)
receive_all t u [] = some ([], u)
receive_all t u (d ∷ ds) = do
  (out, v) ← on_read_data_func t u d.stack d.heap d.buf d.addr
  (more, w) ← receive_all t v ds
  some (out ++ more, w)

-- Tasks of the pool, one after the other.
pub work_all : Udp → List Task → List Delivery
work_all u [] = []
work_all u (task ∷ more) = let (out, v) = recv_worker_thread u task in out ++ work_all v more

Pairs-lasts :
    {A B : Type 0} {P : A → B → Type 0} {xs : List A} {ys : List B} (n : ℕ)
    → Pairs P xs ys
    → Pairs P (lasts n xs) (lasts n ys)
Pairs-lasts {P = P} {xs} {ys} n ps =
    subst (λ k. Pairs P (lasts n xs) (drop (k - n) ys)) (length-Pairs ps)
      (Pairs-drop (length xs - n) ps)

-- A datagram below the buffer's size, with a buffer below 2 ^ 64.
pub record Fits (d : Arrival) : Type 0 where
  pub small : length d.buf < recv_buf_len
  pub low : d.stack + recv_buf_len < 2 ^ 64

pub data AllFit : List Arrival → Type 0 where
  nil : AllFit []
  cons : {d : Arrival} {ds : List Arrival} → Fits d → AllFit ds → AllFit (d ∷ ds)

-- A task whose buffer stands at `local` sees a length that is not 0.
pub record Apart (d : Arrival) (task : Task) : Type 0 where
  pub below : task.local < 2 ^ 64
  pub differ : (d.stack + length d.buf) % 2 ^ 32 ≢ task.local % 2 ^ 32
  pub room : d.stack + recv_buf_len < 2 ^ 64

module _ (t : Toolkit) where
  abbrev from : Bool → Arrival → SockAddrInfo
  from v6 d = t.get_ip_port_from_addr d.addr v6

  abbrev pub delivery_of : Bool → Arrival → Delivery
  delivery_of v6 d = delivery (from v6 d) d.buf

  abbrev Entry : Bool → Arrival → FixedBuffer → Type 0
  Entry v6 d c = Waits (from v6 d) d.stack d.buf c

  record Received (u : Udp) (ds : List Arrival) : Type 0 where
    last : Udp
    entries : List FixedBuffer
    runs : receive_all t u ds ≡ some ([], last)
    kept : last.queue ≡ puts queue_max u.queue entries
    paired : Pairs (Entry u.is_ipv6) ds entries
    listens : last.recv_data_func ≡ true

  received :
      (ds : List Arrival) (u : Udp)
      → AllFit ds
      → u.recv_data_func ≡ true
      → u.udp_int_param.is_detach_recv ≡ true
      → Received u ds
  unfolding receive_all puts
  received [] u fit listens thread = record {
    last = u;
    entries = [];
    runs = refl;
    kept = refl;
    paired = Pairs.nil;
    listens = listens;
  }
  received (d ∷ ds) u (AllFit.cons f fit) listens thread =
      let k = Packs-all recv_buf_len d.stack (omega arith) (omega arith) f.low d.buf f.small in
      let v = queued d.stack f.low t u listens d.heap d.addr k.ended in
      let r = received ds v fit listens thread in
      record {
        last = r.last;
        entries = _;
        runs = rw (detached d.stack f.low t u listens d.heap d.addr thread k, r.runs);
        kept = r.kept;
        paired = Pairs.cons (copy-Waits (from u.is_ipv6 d) d.heap k.holds) r.paired;
        listens = r.listens;
      }

  worked :
      (v6 : Bool) {ds : List Arrival} {cs : List FixedBuffer} {locals : List Task} (u : Udp)
      → u.recv_data_func ≡ true
      → u.queue ≡ cs
      → Pairs (Entry v6) ds cs
      → Pairs Apart ds locals
      → work_all u locals ≡ map (delivery_of v6) ds
  unfolding work_all
  worked v6 u listens e Pairs.nil Pairs.nil = refl
  worked v6 u listens e (Pairs.cons {x = d} {y = c} {xs = ds} {ys = cs} w ws)
        (Pairs.cons {y = local} {ys = locals} a aps) =
      let step = worker-delivers u cs w e a.room local a.below listens a.differ in
      ap (λ r. r.0 ++ work_all r.1 locals) step
      ∙ ap (◌∷◌ (delivery_of v6 d)) (worked v6 (record u { queue = cs }) listens refl ws aps)

  -- On a link that detaches, with the application's function set and no datagram waiting, any
  -- number of datagrams of fewer than 262144 bytes, and then a task of the pool for each of the
  -- last 129 of them, give the application those 129, or all if they are fewer, in order and with
  -- their senders. The workers' buffers do not stand where the bytes end, modulo 2 ^ 32.
  pub work_all-receive_all :
      (u : Udp) (ds : List Arrival) (locals : List Task)
      → u.recv_data_func ≡ true
      → u.udp_int_param.is_detach_recv ≡ true
      → u.queue ≡ []
      → AllFit ds
      → Pairs Apart (lasts 129 ds) locals
      → (v : Udp) × (receive_all t u ds ≡ some ([], v))
        × (work_all v locals ≡ map (delivery_of u.is_ipv6) (lasts 129 ds))
  work_all-receive_all u ds locals listens thread free fit apart =
      let r = received ds u fit listens thread in
      (
        r.last,
        r.runs,
        worked u.is_ipv6 r.last r.listens
            (r.kept
              ∙ ap (λ q. puts queue_max q r.entries) free
              ∙ puts-lasts queue_max [] r.entries (omega arith))
            (Pairs-lasts 129 r.paired) apart,
      )
