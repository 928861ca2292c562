-- ===== src/Tcp/Client.antt =====
-- src/Communcation/TCPClientImp.cpp: the TCP client. The events of the toolkit are functions too.
pub mod Detached
use octcommu.Shared.{
  ℕ, Bool, true, false, not, String, List, [], ◌∷◌, Option, none, some, if◌then◌else◌, ◌>>=◌, ◌&&◌,
  ℤ, pos, negsuc, ◌≡◌, refl, Bool-cases, inl, inr,
}
use octcommu.FixedBuffer
use octcommu.FixedBuffer.{FixedBuffer}
use octcommu.Udp.Receiving.{deliver}
use octcommu.Udp.{int_of}
use octcommu.Tcp.{
  TcpInit, TcpToolkit, Call, AppCall, received, connected, errored, flushed, TcpCommon, call,
  set_error_str, pack, enqueue, max_recv_buf_len, default_init,
}

-- A new client.
pub create : TcpCommon
create = record {
  on_recv_data_func = false;
  on_connect_func = false;
  on_tcp_flush_func = false;
  on_tcp_error_func = false;
  recv_blocking_queue = [];
  is_to_recv = false;
  is_ipv4 = true;
  tcp_init = default_init;
  error_msg = "";
  calls = [];
}

-- A call of the application's function at once, or a task for the pool.
abbrev pub run_or_post : TcpCommon → AppCall → List AppCall × TcpCommon
run_or_post u app =
    if u.tcp_init.is_detach_recv then ([], call Call.pool_async u) else (app ∷ [], u)

-- `ex.what()` is the text.
pub on_connect : TcpCommon → String → List AppCall × TcpCommon
on_connect u what =
    if u.on_connect_func then run_or_post (set_error_str u what) (connected what) else ([], u)

pub on_flush : TcpCommon → List AppCall × TcpCommon
on_flush u = if u.on_tcp_flush_func then run_or_post u flushed else ([], u)

pub on_err : TcpCommon → String → List AppCall × TcpCommon
on_err u what =
    let (app, v) =
      (if u.on_tcp_error_func
        then run_or_post (set_error_str u what) (errored what)
        else ([], u)) in
    (app, call Call.restart_connect_timer v)

-- `send` and `shutdown`, which the client inherits from the toolkit.
pub client_send : TcpCommon → List ℕ → TcpCommon
client_send u pdata = call (Call.sent pdata) u

pub client_shutdown : TcpCommon → TcpCommon
client_shutdown u = call Call.shut u

module _ (t : TcpToolkit) where
  -- The parameters are not kept: `tcp_init_` stays as it was.
  pub init : TcpCommon → TcpInit → ℤ × TcpCommon
  init u p =
      let v =
        call (Call.start_connect p.target_ip p.target_port)
          (call (Call.set_net_adapter p.local_ip) (record u { is_to_recv = p.is_to_recv })) in
      let w = if v.is_to_recv && v.tcp_init.is_detach_recv then call Call.pool_start v else v in
      (pos 0, record w { is_ipv4 = not (t.has_colon p.target_ip) })

  pub init-code : (u : TcpCommon) (p : TcpInit) → (init u p).0 ≡ pos 0
  unfolding init
  init-code u p = refl

  pub init-on_recv_data_func :
      (u : TcpCommon) (p : TcpInit) → (init u p).1.on_recv_data_func ≡ u.on_recv_data_func
  unfolding init
  init-on_recv_data_func u p = elim (Bool-cases (p.is_to_recv && u.tcp_init.is_detach_recv)) [
    | inl e ↦ rw e refl
    | inr e ↦ rw e refl
  ]

  pub send_data : TcpCommon → List ℕ → ℤ × TcpCommon
  send_data u pdata =
      if t.alive
      then (int_of (t.send_to pdata), call (Call.sent pdata) u)
      else (negsuc 1, set_error_str u "its connecting or the connection is cut off")

  -- `none` is a write outside the buffer, or a call of a function that is not set.
  pub on_recv : TcpCommon → (stack heap : ℕ) → List ℕ → List ℕ → Option (List AppCall × TcpCommon)
  on_recv u stack heap buf addr =
      if u.is_to_recv
      then (do
        fb ← pack t u stack buf addr
        if u.tcp_init.is_detach_recv
            then some ([], enqueue u heap fb)
            else if u.on_recv_data_func
            then some (received (deliver fb (FixedBuffer.length_of max_recv_buf_len fb)) ∷ [], u)
            else none)
      else some ([], u)
