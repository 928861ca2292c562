-- ===== src/Tcp.antt =====
-- src/Communcation/TCPCommon.h and TCPCommon.cpp: what the TCP client and the TCP server share,
-- their callbacks and the queue of received data. The client is in `Client`, the server in
-- `Server`, and TCPImp, which passes each call to one of them, in `Dispatch`.
pub mod Client
pub mod Server
pub mod Dispatch
mod Tests
use octcommu.Shared.{
  ℕ, Bool, true, false, String, List, [], ◌∷◌, Option, none, some, ◌==◌, if◌then◌else◌, ◌>>=◌, ◌*◌,
  ℤ, pos,
}
use octcommu.FixedBuffer
use octcommu.FixedBuffer.{FixedBuffer, SockAddrInfo}
use octcommu.BlockingQueue
use octcommu.Udp.Receiving.{Delivery, deliver}

-- TCP_TYPE is an enumeration over `int`: 1 is a server and 2 a client.
pub record TcpInit : Type 0 where
  pub tcp_type : ℕ
  pub target_ip : String
  pub target_port : ℕ
  pub local_ip : String
  pub is_to_recv : Bool
  pub is_detach_recv : Bool

abbrev pub tt_server : ℕ
tt_server = 1

abbrev pub tt_client : ℕ
tt_client = 2

-- The initial values of `TCPInit`.
abbrev pub default_init : TcpInit
default_init = record {
  tcp_type = tt_client;
  target_ip = "127.0.0.1";
  target_port = 10086;
  local_ip = "127.0.0.1";
  is_to_recv = false;
  is_detach_recv = false;
}

-- What the toolkit and `std::string::find` answer.
pub record TcpToolkit : Type 0 where
  pub has_colon : String → Bool
  pub alive : Bool
  -- an `ssize_t`
  pub send_to : List ℕ → ℤ
  pub client_recv_speed : ℤ
  pub client_send_speed : ℤ
  pub server_recv_speed : ℤ
  pub server_send_speed : ℤ
  pub get_ip_port_from_addr : List ℕ → Bool → SockAddrInfo

-- Calls of the toolkit that change it.
pub data Call : Type 0 where
  set_net_adapter : String → Call
  start_connect : String → ℕ → Call
  start_server : ℕ → String → Call
  sent : List ℕ → Call
  set_recv_func set_error_func restart_connect_timer shut : Call
  pool_start pool_async : Call

-- Calls of the application's functions.
pub data AppCall : Type 0 where
  received : Delivery → AppCall
  connected errored : String → AppCall
  flushed : AppCall

abbrev pub max_recv_buf_len : ℕ
max_recv_buf_len = 1024 * 256

abbrev pub queue_max : ℕ
queue_max = 128

pub record TcpCommon : Type 0 where
  pub on_recv_data_func : Bool
  pub on_connect_func : Bool
  pub on_tcp_flush_func : Bool
  pub on_tcp_error_func : Bool
  pub recv_blocking_queue : List FixedBuffer
  pub is_to_recv : Bool
  pub is_ipv4 : Bool
  pub tcp_init : TcpInit
  -- the error text and the calls of the toolkit, the newest first
  pub error_msg : String
  pub calls : List Call

abbrev pub call : Call → TcpCommon → TcpCommon
call c u = record u { calls = c ∷ u.calls }

abbrev pub set_error_str : TcpCommon → String → TcpCommon
set_error_str u str = record u { error_msg = str }

pub get_last_error_msg : TcpCommon → String
get_last_error_msg u = u.error_msg

-- `cb` is whether the function given is not empty.
pub set_on_read_func : TcpCommon → Bool → ℤ × TcpCommon
set_on_read_func u cb = (pos 0, record u { on_recv_data_func = cb })

pub set_on_connect_func : TcpCommon → Bool → ℤ × TcpCommon
set_on_connect_func u cb = (pos 0, record u { on_connect_func = cb })

pub set_on_flush_func : TcpCommon → Bool → ℤ × TcpCommon
set_on_flush_func u cb = (pos 0, record u { on_tcp_flush_func = cb })

pub set_on_error_func : TcpCommon → Bool → ℤ × TcpCommon
set_on_error_func u cb = (pos 0, record u { on_tcp_error_func = cb })

-- A task of the thread pool; `local` is the address of the buffer that `take` returns.
pub recv_data_worker : TcpCommon → ℕ → List AppCall × TcpCommon
recv_data_worker u local =
    let (front, rest) =
      BlockingQueue.take (FixedBuffer.create max_recv_buf_len local) u.recv_blocking_queue in
    let rb = FixedBuffer.copy max_recv_buf_len front local in
    let v = record u { recv_blocking_queue = rest } in
    if u.on_recv_data_func
    then (if rb.current_len == 0 then ([], v) else (received (deliver rb rb.current_len) ∷ [], v))
    else ([], u)

-- The buffer that received bytes are put into, at the address `stack`; `none` is a write outside
-- it.
pub pack : TcpToolkit → TcpCommon → ℕ → List ℕ → List ℕ → Option FixedBuffer
pack t u stack buf addr = do
  filled ← FixedBuffer.append max_recv_buf_len (FixedBuffer.create max_recv_buf_len stack) buf
  ended ← FixedBuffer.set_end_char max_recv_buf_len filled
  some (record ended { info = t.get_ip_port_from_addr addr u.is_ipv4 })

-- What becomes of a packed buffer on a detached link: its copy at `heap` waits for the pool.
pub enqueue : TcpCommon → ℕ → FixedBuffer → TcpCommon
enqueue u heap fb = call pool_async (record u {
  recv_blocking_queue =
      BlockingQueue.put queue_max u.recv_blocking_queue (FixedBuffer.copy max_recv_buf_len fb heap);
})
