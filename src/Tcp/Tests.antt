-- ===== src/Tcp/Tests.antt =====
-- The theorems on TCP links at a client that has just been made.
use octcommu.Shared.{
  ℕ, map, Sublistᴰ, List, ◌∷◌, ◌≤◌, ◌<◌, ◌⊎◌, ◌==◌, if◌then◌else◌, ◌≡◌, refl, true, false, [], some,
  length, pos, arith,
}
use octcommu.Tcp.{TcpInit, TcpToolkit, TcpCommon, default_init}
use octcommu.Tcp.{AppCall, queue_max, max_recv_buf_len, recv_data_worker}
use octcommu.Tcp.Server.{my_on_recv}
use octcommu.Tcp.Server.Delivered.{given, recv_data_worker-my_on_recv}
use octcommu.Tcp.Server.Schedule.{
  Segment, gives, IsFine, tcp_link, call_of, run-tcp_link, run-tcp_arrivals,
}
use octcommu.BlockingQueue.Traffic.{Event, arrives, works, arrivals, tasks, fifo, Calm}
use octcommu.BlockingQueue.Contract.{run, AllFine}
use octcommu.Tcp.Client
use octcommu.Tcp.Client.Detached.{Step, Reachable, Reachable-Undetached}
use octcommu.Tcp.Dispatch
use octcommu.Tcp.Dispatch.{TcpImp}

abbrev toolkit : TcpToolkit
toolkit = record {
  has_colon = λ ip. false;
  alive = true;
  send_to = λ pdata. pos (length pdata);
  client_recv_speed = pos 0;
  client_send_speed = pos 0;
  server_recv_speed = pos 0;
  server_send_speed = pos 0;
  get_ip_port_from_addr = λ addr v4. record { target_port = 10086; family = 2; target_ip = [] };
}

abbrev detaching : TcpInit
detaching = record default_init { is_to_recv = true; is_detach_recv = true }

abbrev made : TcpImp
made = Dispatch.create

abbrev after_init : TcpCommon
after_init = (Client.init toolkit Client.create detaching).1

Reachable-Undetached_example :
    ((Client.client_shutdown after_init).tcp_init ≡ default_init)
    × ((Client.client_shutdown after_init).recv_blocking_queue ≡ [])
Reachable-Undetached_example =
    Reachable-Undetached
      (Reachable.next (Reachable.next Reachable.start (Step.inited toolkit detaching)) Step.shut)

abbrev listening : TcpCommon
listening = record Client.create {
  on_recv_data_func = true;
  recv_blocking_queue = [];
  tcp_init = record detaching { tcp_type = 1 };
}

abbrev segment : List ℕ
segment = 1 ∷ 2 ∷ 3 ∷ []

recv_data_worker-my_on_recv_example :
    (p : List ℕ) × (((length segment < max_recv_buf_len) × (p ≡ segment))
      ⊎ ((max_recv_buf_len ≤ length segment) × (p ≡ [])))
    × (true ≡ false
        → my_on_recv toolkit listening 1000 900000 segment []
          ≡ some (given toolkit listening [] p ∷ [], listening))
    × (true ≡ true
        → (v : TcpCommon) × (my_on_recv toolkit listening 1000 900000 segment [] ≡ some ([], v))
          × ((recv_data_worker v 5000).0
              ≡ (if length p == 0 then [] else given toolkit listening [] p ∷ [])))
recv_data_worker-my_on_recv_example =
    recv_data_worker-my_on_recv toolkit listening refl 1000 900000 (omega arith) [] segment 5000
      refl

abbrev piece : List ℕ → Segment
piece p = record { stack = 1000; heap = 900000; buf = p; addr = [] }

-- The second piece arrives before the first is worked off.
abbrev mixed : List (Event Segment ℕ)
mixed =
    arrives (piece (1 ∷ 2 ∷ []))
    ∷ arrives (piece (3 ∷ []))
    ∷ works 2000
    ∷ arrives (piece (4 ∷ []))
    ∷ works 2000
    ∷ works 2000
    ∷ []

mixed-IsFine : IsFine mixed
mixed-IsFine =
    AllFine.arrived (record { small = omega arith; low = omega arith })
      (AllFine.arrived (record { small = omega arith; low = omega arith })
        (AllFine.worked (omega arith) (
          AllFine.arrived (record { small = omega arith; low = omega arith })
            (AllFine.worked (omega arith) (AllFine.worked (omega arith) AllFine.done)))))

mixed-Calm : Calm gives queue_max [] mixed
mixed-Calm = Calm.arrived (omega arith) (
    Calm.arrived (omega arith) (
      Calm.worked refl
        (Calm.arrived (omega arith) (Calm.worked refl (Calm.worked refl Calm.done)))))

run-tcp_link_example :
    (out : List AppCall) × (v : TcpCommon) × (run (tcp_link toolkit) listening mixed
      ≡ some (out, v))
    × (out ≡ map (call_of toolkit true) (fifo gives queue_max [] mixed).0)
    × Sublistᴰ out (map (call_of toolkit true) (arrivals mixed))
    × (length v.recv_blocking_queue ≡ length (fifo gives queue_max [] mixed).1)
run-tcp_link_example = run-tcp_link toolkit listening mixed refl refl refl mixed-IsFine

run-tcp_arrivals_example :
    (v : TcpCommon) × (run (tcp_link toolkit) listening mixed
      ≡ some (map (call_of toolkit true) (arrivals mixed), v))
    × (length v.recv_blocking_queue ≡ 0)
unfolding arrivals tasks
run-tcp_arrivals_example =
    run-tcp_arrivals toolkit listening mixed refl refl refl mixed-IsFine mixed-Calm refl
