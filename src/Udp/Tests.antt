-- ===== src/Udp/Tests.antt =====
-- The theorems on UDP links with a toolkit whose calls all succeed.
use octcommu.Shared.{
  ℕ, map, Sublistᴰ, ◌+◌, ◌%◌, ◌^◌, ◌≤◌, ◌<◌, ◌≡◌, ◌≢◌, refl, ◌⊎◌, ◌↔◌, true, false, List, [], ◌∷◌,
  some, none, arith, length, pos, negsuc, if◌then◌else◌,
}
use octcommu.BlockingQueue.Traffic.{Event, arrives, works, arrivals, tasks, fifo, deals, Calm}
use octcommu.BlockingQueue.Contract.{run, AllFine}
use octcommu.Udp.{
  Toolkit, UdpInit, Udp, Call, call, create, ct_multi, init, send, sent_as, is_zero, int_of,
}
use octcommu.Udp.Reached.{Reached, Step, Reached-send}
use octcommu.Udp.Setup.{Accepts, CastOk}
use octcommu.Udp.Ready.{init-has_inited, send-init}
use octcommu.Udp.Receiving.{
  Delivery, Task, recv_buf_len, queue_max, on_read_data_func, recv_worker_thread,
}
use octcommu.Udp.Receiving.Runs.{Arrival, Fits, delivery_of}
use octcommu.Udp.Receiving.Schedule.{gives, deal, IsFine, udp_link, run-udp_link, run-udp_arrivals}
use octcommu.Udp.Receiving.Delivered.{
  on_read_data_func-direct, recv_worker_thread-on_read_data_func,
}

abbrev willing : Toolkit
willing = record {
  has_colon = λ ip. false;
  to_sockaddr_in = λ ip port. 2 ∷ port ∷ [];
  to_sockaddr_in6 = λ ip port. (pos 0, 10 ∷ port ∷ []);
  new_udp_sock_with_binding = λ port ip reuse. true;
  set_broadcast = λ on. pos 0;
  set_multi_properties = λ ip loop ttl v6. pos 0;
  join_multi_addr = λ v6 target ip. pos 0;
  set_attach = pos 0;
  send_to = λ pdata to size. pos (length pdata);
  get_recv_speed = pos 0;
  get_send_speed = pos 0;
  get_ip_port_from_addr =
      λ addr v6. record { target_port = 10086; family = 2; target_ip = 49 ∷ [] };
}

abbrev multicast : UdpInit
multicast = record {
  cast_type = ct_multi;
  local_ip = "192.168.1.2";
  target_ip = "224.0.0.9";
  target_port = 10086;
  is_to_recv = true;
  is_detach_recv = false;
}

abbrev link : Udp
link = record {
  udp_int_param = multicast;
  has_inited = false;
  has_socket = true;
  send_addr = none;
  sock_addr_len = 0;
  error_msg = "";
  recv_data_func = true;
  queue = [];
  is_ipv6 = false;
  calls = [];
}

abbrev detaching : Udp
detaching = record link { udp_int_param = record multicast { is_detach_recv = true } }

abbrev datagram : List ℕ
datagram = 1 ∷ 2 ∷ 3 ∷ []

willing-Accepts : Accepts willing multicast
willing-Accepts = record { bound = refl; cast = CastOk.multi refl refl; attached = refl }

init-has_inited_example :
    ((init willing link multicast).0 ≡ pos 0 ↔ Accepts willing multicast)
    × ((init willing link multicast).1.has_inited ≡ is_zero (init willing link multicast).0)
init-has_inited_example = init-has_inited willing multicast link refl

set_up : (init willing link multicast).0 ≡ pos 0
set_up = (init-has_inited willing multicast link refl).0.1 willing-Accepts

send-init_example :
    (send willing (init willing link multicast).1 (some datagram)).0 ≡ int_of (pos 3)
send-init_example = send-init willing multicast link refl 2 datagram set_up refl (omega arith) refl

abbrev arrived : List ℕ → Delivery
arrived p = record {
  data_in = p;
  len = length p;
  from = record { target_port = 10086; family = 2; target_ip = 49 ∷ [] };
}

on_read_data_func-direct_example :
    ((length datagram < recv_buf_len)
      × (on_read_data_func willing link 1000 900000 datagram []
          ≡ some (arrived datagram ∷ [], link)))
    ⊎ ((recv_buf_len ≤ length datagram)
        × (on_read_data_func willing link 1000 900000 datagram [] ≡ some (arrived [] ∷ [], link)))
on_read_data_func-direct_example =
    on_read_data_func-direct 1000 (omega arith) willing link refl 900000 [] datagram refl

abbrev at_2000 : Task
at_2000 = record { made = 3000; local = 2000 }

recv_worker_thread-on_read_data_func_example :
    (v : Udp) × (on_read_data_func willing detaching 1000 900000 datagram [] ≡ some ([], v))
    × (((1000 + length datagram) % 2 ^ 32 ≢ at_2000.local % 2 ^ 32)
        → (recv_worker_thread v at_2000).0 ≡ arrived datagram ∷ [])
    × (((1000 + length datagram) % 2 ^ 32 ≡ at_2000.local % 2 ^ 32)
        → (recv_worker_thread v at_2000).0 ≡ [])
recv_worker_thread-on_read_data_func_example =
    recv_worker_thread-on_read_data_func 1000 (omega arith) willing detaching refl 900000 []
      datagram at_2000 refl refl (omega arith) (omega arith)

abbrev at_1000 : List ℕ → Arrival
at_1000 p = record { stack = 1000; heap = 900000; buf = p; addr = [] }

-- The second datagram arrives before the first is worked off.
abbrev mixed : List (Event Arrival Task)
mixed =
    arrives (at_1000 datagram)
    ∷ arrives (at_1000 (7 ∷ []))
    ∷ works at_2000
    ∷ arrives (at_1000 datagram)
    ∷ works at_2000
    ∷ works at_2000
    ∷ []

small-Fits : (p : List ℕ) → length p < recv_buf_len → Fits (at_1000 p)
small-Fits p less = record { small = less; low = omega arith }

mixed-IsFine : IsFine mixed
mixed-IsFine = AllFine.arrived (small-Fits datagram (omega arith)) (
    AllFine.arrived (small-Fits (7 ∷ []) (omega arith)) (
      AllFine.worked (omega arith, omega arith)
        (AllFine.arrived (small-Fits datagram (omega arith)) (
          AllFine.worked (omega arith, omega arith)
            (AllFine.worked (omega arith, omega arith) AllFine.done)))))

mixed-Calm : Calm gives queue_max [] mixed
mixed-Calm = Calm.arrived (omega arith) (
    Calm.arrived (omega arith) (
      Calm.worked refl
        (Calm.arrived (omega arith) (Calm.worked refl (Calm.worked refl Calm.done)))))

-- With a task more than datagrams.
abbrev empty_at_last : List (Event Arrival Task)
empty_at_last = arrives (at_1000 datagram) ∷ works at_2000 ∷ works at_2000 ∷ []

run-udp_link_example :
    (out : List Delivery) × (v : Udp) × (run (udp_link willing) detaching empty_at_last
      ≡ some (out, v))
    × (out ≡ (deals (deal willing false) queue_max [] empty_at_last).0)
    × Sublistᴰ (map (delivery_of willing false) (fifo gives queue_max [] empty_at_last).0) out
    × Sublistᴰ (fifo gives queue_max [] empty_at_last).0 (arrivals empty_at_last)
    × (length v.queue ≡ length (fifo gives queue_max [] empty_at_last).1)
run-udp_link_example = run-udp_link willing detaching empty_at_last refl refl refl (
    AllFine.arrived (small-Fits datagram (omega arith)) (
      AllFine.worked (omega arith, omega arith)
        (AllFine.worked (omega arith, omega arith) AllFine.done)))

run-udp_arrivals_example :
    (v : Udp) × (run (udp_link willing) detaching mixed
      ≡ some (map (delivery_of willing false) (arrivals mixed), v))
    × (length v.queue ≡ 0)
unfolding arrivals tasks
run-udp_arrivals_example =
    run-udp_arrivals willing detaching mixed refl refl refl mixed-IsFine mixed-Calm refl

abbrev set_up_link : Udp
set_up_link = (init willing (create true) multicast).1

Reached-send_example :
    ((set_up_link.has_inited ≡ false) × ((send willing set_up_link (some datagram)).0 ≡ negsuc 0))
    ⊎ ((set_up_link.has_socket ≡ true)
        × (address : List ℕ) × (send willing set_up_link (some datagram)
            ≡ sent_as willing
                (call Call.sent set_up_link)
                (willing.send_to datagram (some address) (if set_up_link.is_ipv6 then 28 else 16))))
Reached-send_example =
    Reached-send willing datagram (Reached.next Reached.new (Step.inited willing multicast))
      (omega arith)
