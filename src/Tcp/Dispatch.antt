-- ===== src/Tcp/Dispatch.antt =====
-- src/Communcation/TCPImp.cpp, and `ITCP::init` of src/Communcation/OCTCommu.cpp, which guards it.
pub mod Guard
use octcommu.Shared.{
  ℕ, ◌≡◌, ◌≢◌, refl, ◌⊎◌, inl, inr, ◌↔◌, Bool, true, false, String, List, ◌==◌, ==-true, ==-false,
  Bool-cases, if◌then◌else◌, not, ◌&&◌, ℤ, pos, negsuc, arith, Option, some, none,
}
use octcommu.Udp.{int_of}
use octcommu.Tcp.{
  TcpInit, TcpToolkit, TcpCommon, Call, call, tt_client, tt_server, get_last_error_msg,
  set_on_read_func, set_on_connect_func, set_on_flush_func, set_on_error_func,
}
use octcommu.Tcp.Client
use octcommu.Tcp.Server
use octcommu.Tcp.Server.{TcpServer, get_server_error_msg}

-- `has_client` is whether `tcp_client_imp_` is there; it is made with the object.
pub record TcpImp : Type 0 where
  pub tcp_type : ℕ
  pub has_client : Bool
  pub client : TcpCommon
  pub server : TcpServer

-- A new object, with the client that the constructor makes.
pub create : TcpImp
create = record { tcp_type = 0; has_client = true; client = Client.create; server = Server.create }

abbrev pub is_client : TcpImp → Bool
is_client i = i.tcp_type == tt_client

abbrev with_client : TcpImp → ℤ × TcpCommon → ℤ × TcpImp
with_client i (code, u) = (code, record i { client = u })

abbrev with_server : TcpImp → ℤ × TcpServer → ℤ × TcpImp
with_server i (code, s) = (code, record i { server = s })

-- A call that goes to the part of the client or of the server that both share, and returns 0.
abbrev on_either : (TcpCommon → ℤ × TcpCommon) → TcpImp → ℤ × TcpImp
on_either f i =
    if is_client i
    then (pos 0, record i { client = (f i.client).1 })
    else (pos 0, record i { server = record i.server { common = (f i.server.common).1 } })

pub set_on_read : TcpImp → Bool → ℤ × TcpImp
set_on_read i cb = on_either (λ u. set_on_read_func u cb) i

pub set_on_connect : TcpImp → Bool → ℤ × TcpImp
set_on_connect i cb = on_either (λ u. set_on_connect_func u cb) i

pub set_on_flush : TcpImp → Bool → ℤ × TcpImp
set_on_flush i cb = on_either (λ u. set_on_flush_func u cb) i

pub set_on_error : TcpImp → Bool → ℤ × TcpImp
set_on_error i cb = on_either (λ u. set_on_error_func u cb) i

pub last_error_msg : TcpImp → String
last_error_msg i =
    if is_client i
    then (if i.has_client then get_last_error_msg i.client else "")
    else get_server_error_msg i.server

pub shutdown : TcpImp → ℤ × TcpImp
shutdown i =
    if is_client i
    then (if i.has_client
        then (pos 0, record i { client = Client.client_shutdown i.client })
        else (negsuc 1, i))
    else (pos 0, record i { server = record i.server { common = call Call.shut i.server.common } })

-- What the destructor does before the members end.
pub destroy : TcpImp → TcpImp
destroy i = (shutdown i).1

module _ (t : TcpToolkit) where
  pub init : TcpImp → TcpInit → ℤ × TcpImp
  init i p =
      let j = record i { tcp_type = p.tcp_type } in
      if p.tcp_type == tt_client
      then (if i.has_client then with_client j (Client.init t i.client p) else (negsuc 1, j))
      else with_server j (Server.init t i.server p)

  pub recv_speed : TcpImp → ℤ
  recv_speed i =
      if is_client i
      then (if i.has_client then t.client_recv_speed else pos 0)
      else Server.recv_speed t i.server

  pub send_speed : TcpImp → ℤ
  send_speed i =
      if is_client i
      then (if i.has_client then t.client_send_speed else pos 0)
      else Server.send_speed t i.server

  -- For a client this is the toolkit's `send`, not `sendData`, so `alive` is not asked.
  pub send : TcpImp → List ℕ → ℤ × TcpImp
  send i pdata =
      if is_client i
      then (if i.has_client
          then (int_of (t.send_to pdata), record i { client = Client.client_send i.client pdata })
          else (negsuc 1, i))
      else with_server i (Server.send_data t i.server pdata)

  -- `ITCP::init`; `none` is an object that could not be made.
  pub guarded_init : Option TcpImp → TcpInit → ℤ × Option TcpImp
  guarded_init d p =
      if not (p.tcp_type == tt_client) && not (p.tcp_type == tt_server)
      then (negsuc 1, d)
      else elim d [ none ↦ (negsuc 0, none) | some i ↦ let (code, j) = init i p in (code, some j) ]
