-- ===== src/Udp/Receiving/Schedule.antt =====
-- Datagrams and tasks of the pool in any order, on a link that detaches.
use octcommu.Shared.{
  ◌+◌, ◌-◌, ◌%◌, ◌^◌, ◌<◌, ◌≡◌, refl, sym, ◌∙◌, ap, Bool, true, false, not, List, [], some, length,
  arith, map, ◌∷◌, Bool-cases, inl, inr, if◌then◌else◌, ◌≢◌, Pairs, length-Pairs, Sublistᴰ, ◌==◌,
  ==-true, ==-false, subst, ℕ_discrete,
}
use octcommu.FixedBuffer.{FixedBuffer}
use mathlib.Core.List.Sublistᴰ
use octcommu.FixedBuffer
use octcommu.BlockingQueue
use octcommu.BlockingQueue.Traffic.{
  Event, keep, serve, fifo, arrivals, tasks, Calm, given-Sublist, fifo-tasks, deals, deals-Calm,
  fifo-deals-Sublist,
}
use octcommu.BlockingQueue.Contract.{Link, run, Contract, AllFine, run-deals, Pairs-put}
use octcommu.FixedBuffer.Packed.{Packs-all}
use octcommu.Udp.{Toolkit, Udp}
use octcommu.Udp.Receiving.{
  recv_buf_len, queue_max, Delivery, Task, on_read_data_func, recv_worker_thread,
}
use octcommu.Udp.Receiving.Worker.{Waits, copy-Waits, worker-delivers, worker-drops}
use octcommu.Udp.Receiving.Delivered.{queued, detached}
use octcommu.Udp.Receiving.Runs.{Arrival, Fits, delivery_of}

-- Whether a task with this datagram sees a length that is not 0.
abbrev pub gives : Arrival → Task → Bool
gives d task = not ((d.stack + length d.buf) % 2 ^ 32 == task.local % 2 ^ 32)

-- The call by a task that finds no datagram, with no bytes and no sender.
abbrev pub blank : Delivery
blank = record {
  data_in = [];
  len = 0;
  from = record { target_port = 0; family = 0; target_ip = [] };
}

-- What such a task gives: nothing where its buffer is the one that `take` has made.
abbrev pub idle : Task → List Delivery
idle task = if task.made % 2 ^ 32 == task.local % 2 ^ 32 then [] else blank ∷ []

abbrev pub IsAddress : Task → Type 0
IsAddress task = (task.made < 2 ^ 64) × (task.local < 2 ^ 64)

abbrev pub IsFine : List (Event Arrival Task) → Type 0
IsFine = AllFine Fits IsAddress

module _ (t : Toolkit) where
  abbrev pub udp_link : Link Udp Arrival Task Delivery
  udp_link = record {
    receive = λ u d. on_read_data_func t u d.stack d.heap d.buf d.addr;
    work = recv_worker_thread;
  }

  module _ (v6 : Bool) where
    -- What a task gives, and what waits after it.
    abbrev pub deal : List Arrival → Task → List Delivery × List Arrival
    deal [] task = (idle task, [])
    deal (d ∷ q) task = (if gives d task then delivery_of t v6 d ∷ [] else [], q)

    deal-shows :
        (q : List Arrival) (d : Arrival) (task : Task)
        → deal (d ∷ q) task
          ≡ (map (delivery_of t v6) (serve gives (d ∷ q) task).0, (serve gives (d ∷ q) task).1)
    unfolding serve
    deal-shows q d task = elim (Bool-cases (gives d task)) [ inl e ↦ rw e refl | inr e ↦ rw e refl ]

    deal-serve :
        (q : List Arrival) (task : Task)
        → ((deal q task).1 ≡ (serve gives q task).1)
          × Sublistᴰ (map (delivery_of t v6) (serve gives q task).0) (deal q task).0
    unfolding serve
    deal-serve [] task = (refl, Sublistᴰ.nil-sublist (idle task))
    deal-serve (d ∷ q) task = (
      refl,
      elim (Bool-cases (gives d task)) [
        | inl e ↦ rw e (Sublistᴰ.refl (delivery_of t v6 d ∷ []))
        | inr e ↦ rw e Sublistᴰ.slnil
      ],
    )

    abbrev Entry : Arrival → FixedBuffer → Type 0
    Entry d c = Fits d × Waits (t.get_ip_port_from_addr d.addr v6) d.stack d.buf c

    -- A link that detaches, with these datagrams in its queue.
    record Holding (u : Udp) (ds : List Arrival) : Type 0 where
      listens : u.recv_data_func ≡ true
      thread : u.udp_int_param.is_detach_recv ≡ true
      family : u.is_ipv6 ≡ v6
      entries : Pairs Entry ds u.queue

    named :
        (d : Arrival) {c : FixedBuffer} {w6 : Bool}
        → w6 ≡ v6
        → Waits (t.get_ip_port_from_addr d.addr w6) d.stack d.buf c
        → Waits (t.get_ip_port_from_addr d.addr v6) d.stack d.buf c
    named d {c} e = subst (λ (b : Bool). Waits (t.get_ip_port_from_addr d.addr b) d.stack d.buf c) e

    receive-Holding :
        {u : Udp} {q : List Arrival} {d : Arrival}
        → Holding u q
        → Fits d
        → (v : Udp) × (udp_link.receive u d ≡ some ([], v)) × Holding v (keep queue_max q d)
    receive-Holding {u} {q} {d} w f =
        let k = Packs-all recv_buf_len d.stack (omega arith) (omega arith) f.low d.buf f.small in
        (
          queued d.stack f.low t u w.listens d.heap d.addr k.ended,
          detached d.stack f.low t u w.listens d.heap d.addr w.thread k,
          record {
            listens = w.listens;
            thread = w.thread;
            family = w.family;
            entries =
                Pairs-put queue_max w.entries (f, named d w.family (copy-Waits _ d.heap k.holds));
          },
        )

    work_none :
        (u : Udp) (task : Task)
        → u.queue ≡ []
        → u.recv_data_func ≡ true
        → IsAddress task
        → recv_worker_thread u task ≡ (idle task, record u { queue = [] })
    unfolding recv_worker_thread FixedBuffer.copy FixedBuffer.create FixedBuffer.length_of
        BlockingQueue.take
    work_none u task e listens (low, below) =
        elim (ℕ_discrete (task.made % 2 ^ 32) (task.local % 2 ^ 32)) [
          | yes same ↦ simp (e, nothing same, ==-true _ _ same)
          | no differ ↦ simp (e, something differ, ==-false _ _ differ, listens)
        ]
      where
        nothing :
            task.made % 2 ^ 32 ≡ task.local % 2 ^ 32
            → (2 ^ 64 + task.made - task.local) % 2 ^ 32 == 0 ≡ true
        nothing same = ==-true _ 0 (omega (arith, same, low, below))

        something :
            task.made % 2 ^ 32 ≢ task.local % 2 ^ 32
            → (2 ^ 64 + task.made - task.local) % 2 ^ 32 == 0 ≡ false
        something differ = ==-false _ 0 λ f. differ (omega (arith, f, low, below))

    -- A task on a link in whose queue the buffers `cs` hold the datagrams `q`.
    module _ (u : Udp) (task : Task) (listens : u.recv_data_func ≡ true)
        (thread : u.udp_int_param.is_detach_recv ≡ true) (family : u.is_ipv6 ≡ v6)
        (low : IsAddress task) where
      abbrev Serves : List Arrival → Type 0
      Serves q =
          ((recv_worker_thread u task).0 ≡ (deal q task).0)
          × Holding (recv_worker_thread u task).1 (deal q task).1

      remain :
          {q : List Arrival} {cs : List FixedBuffer}
          → Pairs Entry q cs
          → Holding (record u { queue = cs }) q
      remain ps = record { listens = listens; thread = thread; family = family; entries = ps }

      serve_entries :
          {q : List Arrival} {cs : List FixedBuffer} → u.queue ≡ cs → Pairs Entry q cs → Serves q
      serve_entries e Pairs.nil = rw (work_none u task e listens low) (refl, remain Pairs.nil)
      serve_entries e (Pairs.cons {x = d} {y = c} {xs = q} {ys = cs} (f, w) ps) =
          elim (ℕ_discrete ((d.stack + length d.buf) % 2 ^ 32) (task.local % 2 ^ 32)) [
            | yes same ↦
                rw (worker-drops u cs w e f.low task low.1 same, ==-true _ _ same) (refl, remain ps)
            | no differ ↦
                rw (worker-delivers u cs w e f.low task low.1 listens differ, ==-false _ _ differ)
                  (refl, remain ps)
          ]

    udp_link-Contract : Contract udp_link queue_max deal Holding Fits IsAddress
    udp_link-Contract = record {
      receives = receive-Holding;
      serves =
          λ {s = u} {q} {l} w low. serve_entries u l w.listens w.thread w.family low refl w.entries;
    }

  module _ (u : Udp) (es : List (Event Arrival Task)) (listens : u.recv_data_func ≡ true)
      (thread : u.udp_int_param.is_detach_recv ≡ true) (free : u.queue ≡ [])
      (fine : IsFine es) where
    ran :
        (v : Udp) × (run udp_link u es ≡ some ((deals (deal u.is_ipv6) queue_max [] es).0, v))
        × Holding u.is_ipv6 v (deals (deal u.is_ipv6) queue_max [] es).1
    ran =
        run-deals (udp_link-Contract u.is_ipv6)
          (record {
            listens = listens;
            thread = thread;
            family = refl;
            entries = rw free Pairs.nil;
          })
          fine

    -- On a link that detaches, with the application's function set and no datagram waiting, any
    -- datagrams of fewer than 262144 bytes and any tasks of the pool, one after the other in any
    -- order, give the application exactly what the tasks deal out of a queue that keeps the last
    -- 129 datagrams: each task the next one, unless its buffer stands where the bytes end modulo
    -- 2 ^ 32, and a task that finds none a call with no bytes, unless its buffer stands, modulo
    -- 2 ^ 32, where `take` has made one. So the datagrams that tasks pass on reach the application
    -- whole, with their senders, each at most once, and in the order of arrival.
    pub run-udp_link :
        (out : List Delivery) × (v : Udp) × (run udp_link u es ≡ some (out, v))
        × (out ≡ (deals (deal u.is_ipv6) queue_max [] es).0)
        × Sublistᴰ (map (delivery_of t u.is_ipv6) (fifo gives queue_max [] es).0) out
        × Sublistᴰ (fifo gives queue_max [] es).0 (arrivals es)
        × (length v.queue ≡ length (fifo gives queue_max [] es).1)
    run-udp_link =
        let (v, e, w) = ran in
        let (same, among) =
          fifo-deals-Sublist (deal u.is_ipv6) queue_max gives (delivery_of t u.is_ipv6)
            (deal-serve u.is_ipv6) [] es in
        (
          _,
          v,
          e,
          refl,
          among,
          given-Sublist gives queue_max es,
          sym (length-Pairs w.entries) ∙ ap length same,
        )

    -- If, on such a link, no datagram finds more than 128 others waiting, each task finds one and
    -- its buffer does not stand where the bytes end modulo 2 ^ 32, and there are as many tasks as
    -- datagrams, then the application gets every datagram, in order, and none waits.
    pub run-udp_arrivals :
        Calm gives queue_max [] es
        → length (tasks es) ≡ length (arrivals es)
        → (v : Udp) × (run udp_link u es ≡ some (map (delivery_of t u.is_ipv6) (arrivals es), v))
          × (length v.queue ≡ 0)
    run-udp_arrivals calm same =
        let (v, e, w) = ran in
        let all =
          deals-Calm (deal u.is_ipv6) queue_max gives (delivery_of t u.is_ipv6)
            (deal-shows u.is_ipv6) calm
          ∙ ap (λ r. (map (delivery_of t u.is_ipv6) r.0, r.1))
              (fifo-tasks gives queue_max calm same) in
        (
          v,
          e ∙ ap (λ (r : List Delivery × List Arrival). some (r.0, v)) all,
          sym (length-Pairs w.entries) ∙ ap (λ (r : List Delivery × List Arrival). length r.1) all,
        )
