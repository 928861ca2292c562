-- ===== src/Tcp/Server.antt =====
-- src/Communcation/TCPServerImp.cpp: the TCP server.
pub mod Delivered
pub mod Schedule
use octcommu.Shared.{
  ℕ, Bool, true, not, String, List, [], ◌∷◌, Option, some, if◌then◌else◌, ◌>>=◌, ◌&&◌, ℤ, pos,
  negsuc, ◌≡◌, refl, Bool-cases, inl, inr,
}
use octcommu.FixedBuffer
use octcommu.Tcp.Client
use octcommu.Udp.Receiving.{deliver}
use octcommu.Udp.{int_of}
use octcommu.Tcp.{
  TcpInit, TcpToolkit, Call, AppCall, received, errored, TcpCommon, call, set_error_str, pack,
  enqueue, max_recv_buf_len,
}

-- `has_server` is whether `tcp_server_` is there.
pub record TcpServer : Type 0 where
  pub common : TcpCommon
  pub has_server : Bool

abbrev on_common : TcpServer → TcpCommon → TcpServer
on_common s u = record s { common = u }

-- A new server, which `tcp_server_` is made for.
pub create : TcpServer
create = record { common = Client.create; has_server = true }

-- `setErrorStr` and `getLastErrorMsg` of the server.
abbrev set_server_error_str : TcpServer → String → TcpServer
set_server_error_str s str = on_common s (set_error_str s.common str)

abbrev pub get_server_error_msg : TcpServer → String
get_server_error_msg s = s.common.error_msg

no_server : TcpServer → ℤ × TcpServer
no_server s = (negsuc 1, set_server_error_str s "failed to crerate tcp server")

module _ (t : TcpToolkit) where
  pub init : TcpServer → TcpInit → ℤ × TcpServer
  unfolding no_server
  init s p =
      let u = record s.common { tcp_init = p; is_to_recv = p.is_to_recv } in
      let v = call Call.set_error_func (call Call.set_recv_func u) in
      let w = if p.is_to_recv && p.is_detach_recv then call Call.pool_start v else v in
      if s.has_server
      then (
        pos 0,
        on_common s (
            call (Call.start_server p.target_port p.local_ip)
              (record w { is_ipv4 = not (t.has_colon p.target_ip) })),
      )
      else no_server (on_common s u)

  pub init-code :
      (s : TcpServer) (p : TcpInit) → (init s p).0 ≡ (if s.has_server then pos 0 else negsuc 1)
  unfolding init no_server
  init-code s p = elim (Bool-cases s.has_server) [ inl e ↦ rw e refl | inr e ↦ rw e refl ]

  pub send_data : TcpServer → List ℕ → ℤ × TcpServer
  unfolding no_server
  send_data s pdata =
      if s.has_server
      then (int_of (t.send_to pdata), on_common s (call (Call.sent pdata) s.common))
      else no_server s

  pub recv_speed : TcpServer → ℤ
  recv_speed s = if s.has_server then t.server_recv_speed else pos 0

  pub send_speed : TcpServer → ℤ
  send_speed s = if s.has_server then t.server_send_speed else pos 0

  -- `none` is a write outside the buffer.
  pub my_on_recv :
      TcpCommon → (stack heap : ℕ) → List ℕ → List ℕ → Option (List AppCall × TcpCommon)
  my_on_recv u stack heap buf addr =
      if u.on_recv_data_func
      then (do
        fb ← pack t u stack buf addr
        some (
            if u.tcp_init.is_detach_recv
            then ([], enqueue u heap fb)
            else (received (deliver fb (FixedBuffer.length_of max_recv_buf_len fb)) ∷ [], u)))
      else some ([], u)

pub my_on_error : TcpCommon → String → List AppCall × TcpCommon
my_on_error u err =
    let v = set_error_str u err in
    if u.on_tcp_error_func
    then (if u.tcp_init.is_detach_recv then ([], call Call.pool_async v) else (errored err ∷ [], v))
    else ([], u)
