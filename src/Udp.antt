-- ===== src/Udp.antt =====
-- src/Communcation/UDPImp.h and UDPImp.cpp: a UDP link on top of `toolkit::Socket`. The calls of
-- the application are here; what happens to a datagram is in `Receiving`. The toolkit's answers are
-- the parameter `t`, and the calls that change the socket or the thread pool are kept in `calls`.
pub mod Receiving
pub mod Setup
pub mod Ready
pub mod Reached
mod Tests
use octcommu.Shared.{
  ℕ, zero, suc, ◌≡◌, Bool, true, false, not, String, List, [], ◌∷◌, Option, none, some, ◌==◌,
  if◌then◌else◌, length, ltb, ◌-◌, ◌%◌, ◌^◌, ℤ, pos, negsuc,
}
use octcommu.FixedBuffer.{FixedBuffer, SockAddrInfo}

pub data CastType : Type 0 where
  ct_broad ct_multi ct_uni : CastType
  ct_other : ℕ → CastType

pub record UdpInit : Type 0 where
  pub cast_type : CastType
  pub local_ip : String
  pub target_ip : String
  pub target_port : ℕ
  pub is_to_recv : Bool
  pub is_detach_recv : Bool

-- What the functions of `toolkit::Socket`, `SockUtil` and `std::string::find` answer. Socket
-- addresses are their bytes.
pub record Toolkit : Type 0 where
  pub has_colon : String → Bool
  pub to_sockaddr_in : String → ℕ → List ℕ
  pub to_sockaddr_in6 : String → ℕ → ℤ × List ℕ
  pub new_udp_sock_with_binding : ℕ → String → Bool → Bool
  pub set_broadcast : Bool → ℤ
  pub set_multi_properties : String → Bool → ℕ → Bool → ℤ
  pub join_multi_addr : Bool → String → String → ℤ
  pub set_attach : ℤ
  pub send_to : List ℕ → Option (List ℕ) → ℕ → ℤ
  pub get_recv_speed : ℤ
  pub get_send_speed : ℤ
  pub get_ip_port_from_addr : List ℕ → Bool → SockAddrInfo

pub data Call : Type 0 where
  enable_recv : Bool → Call
  close_sock set_on_read_func sent : Call
  pool_start pool_stop pool_async : Call

pub record Udp : Type 0 where
  pub udp_int_param : UdpInit
  pub has_inited : Bool
  -- whether `createSocket` gave a socket
  pub has_socket : Bool
  pub send_addr : Option (List ℕ)
  pub sock_addr_len : ℕ
  pub error_msg : String
  pub recv_data_func : Bool
  pub queue : List FixedBuffer
  pub is_ipv6 : Bool
  -- the newest call first
  pub calls : List Call

abbrev pub set_error_msg : Udp → String → Udp
set_error_msg u str = record u { error_msg = str }

abbrev pub call : Call → Udp → Udp
call c u = record u { calls = c ∷ u.calls }

abbrev pub is_zero : ℤ → Bool
is_zero (pos zero) = true
is_zero (pos (suc n)) = false
is_zero (negsuc n) = false

-- A wide number as an `int`, by its lowest 32 bits.
abbrev pub int_of : ℤ → ℤ
int_of (pos n) =
    let low = n % 2 ^ 32 in if ltb low (2 ^ 31) then pos low else negsuc (2 ^ 32 - 1 - low)
int_of (negsuc n) =
    let low = n % 2 ^ 32 in if ltb low (2 ^ 31) then negsuc low else pos (2 ^ 32 - 1 - low)

-- The initial values of `UDPInit`.
abbrev default_init : UdpInit
default_init = record {
  cast_type = ct_uni;
  local_ip = "127.0.0.1";
  target_ip = "127.0.0.1";
  target_port = 10086;
  is_to_recv = false;
  is_detach_recv = false;
}

-- A new link; `socket` is whether `createSocket` gives one.
pub create : Bool → Udp
create socket = record {
  udp_int_param = default_init;
  has_inited = false;
  has_socket = socket;
  send_addr = none;
  sock_addr_len = 0;
  error_msg = "";
  recv_data_func = false;
  queue = [];
  is_ipv6 = false;
  calls = [];
}

pub get_last_error_msg : Udp → String × Udp
get_last_error_msg u = (u.error_msg, record u { error_msg = "" })

-- `cb` is whether the function is given.
pub set_on_read : Udp → Bool → ℤ × Udp
set_on_read u cb =
    if cb
    then (pos 0, record u { recv_data_func = true })
    else (pos 1, set_error_msg u "cb param is nullptr")

pub shutdown : Udp → ℤ × Udp
shutdown u = (
  pos 0,
  record u {
    has_inited = false;
    calls =
        pool_stop ∷ (if u.has_socket then close_sock ∷ enable_recv false ∷ u.calls else u.calls);
  },
)

-- What the destructor does before the members end.
pub destroy : Udp → Udp
destroy u = (shutdown u).1

-- sizeof(struct sockaddr_in), sizeof(struct sockaddr_in6)
abbrev sockaddr_in_len : ℕ
sockaddr_in_len = 16

abbrev sockaddr_in6_len : ℕ
sockaddr_in6_len = 28

pub set_on_read_data_func : Udp → ℤ × Udp
set_on_read_data_func u = (pos 0, call (enable_recv true) (call set_on_read_func u))

module _ (t : Toolkit) where
  pub recv_speed : Udp → ℤ
  recv_speed u = if u.has_socket then t.get_recv_speed else pos 0

  pub send_speed : Udp → ℤ
  send_speed u = if u.has_socket then t.get_send_speed else pos 0

  pub to_sock_address : Udp → ℤ × Udp
  to_sock_address u =
      let p = u.udp_int_param in
      if not (t.has_colon p.target_ip)
      then (
        pos 0,
        record u {
          is_ipv6 = false;
          sock_addr_len = sockaddr_in_len;
          send_addr = some (t.to_sockaddr_in p.target_ip p.target_port);
        },
      )
      else (let (ret, address) = t.to_sockaddr_in6 p.target_ip p.target_port in
          (
            ret,
            record u {
              is_ipv6 = true;
              sock_addr_len = sockaddr_in6_len;
              send_addr = some address;
              error_msg = if is_zero ret then u.error_msg else "the target_ip_ is false";
            },
          ))

  pub bind_sock : Udp → ℤ × Udp
  bind_sock u =
      let p = u.udp_int_param in
      if t.new_udp_sock_with_binding p.target_port p.local_ip true
      then (pos 0, u)
      else (pos 2, set_error_msg u "Failed to bind udp, please check the local Ip and targetPort")

  join_multi : UdpInit → Udp → ℤ × Udp
  join_multi p u =
      let joined = t.join_multi_addr u.is_ipv6 p.target_ip p.local_ip in
      (
        joined,
        if is_zero joined
            then u
            else set_error_msg u "faild to joinMultiAddr, please check the local ip and target ip",
      )

  pub cast_as : CastType → UdpInit → Udp → ℤ × Udp
  unfolding join_multi
  cast_as ct_broad p u = (t.set_broadcast true, u)
  cast_as ct_multi p u =
      let properties = t.set_multi_properties p.local_ip true 128 u.is_ipv6 in
      if is_zero properties then join_multi p u else (
        properties,
        set_error_msg u "faild to setMultiProperties, please check the local ip and target ip",
      )
  cast_as ct_uni p u = (pos 0, u)
  cast_as (ct_other n) p u =
      (negsuc 100, set_error_msg u "Error, [UDPInitParams.m_castType] is false, please check")

  pub init_cast : Udp → ℤ × Udp
  unfolding cast_as
  init_cast u = cast_as u.udp_int_param.cast_type u.udp_int_param u

  -- The end of `initSocket`, once the socket is attached.
  pub start_receiving : Udp → Udp
  unfolding set_on_read_data_func
  start_receiving u =
      if u.udp_int_param.is_to_recv
      then (let v = (set_on_read_data_func u).1 in
          if v.udp_int_param.is_detach_recv then call pool_start v else v)
      else u

  -- `bindSock` calls a method of the socket without a test for null, which `init` has made.
  pub init_socket : Udp → ℤ × Udp
  unfolding shutdown to_sock_address bind_sock init_cast start_receiving
  init_socket u =
      let (bound, v) = bind_sock (to_sock_address (shutdown u).1).1 in
      let (cast, w) = init_cast v in
      if not (is_zero bound)
      then (pos 1, v)
      else if not (is_zero cast)
      then (pos 3, w)
      else if if w.has_socket then not (is_zero t.set_attach) else false
      then (pos 5, w)
      else (pos 0, record (start_receiving w) { has_inited = true })

  pub init : Udp → UdpInit → ℤ × Udp
  unfolding init_socket
  init u param =
      if u.has_socket
      then init_socket (record u { udp_int_param = param })
      else (negsuc 0, set_error_msg u "Failed to initialze, it cannot create socket(system error)")

  -- The result of `Socket::send`, an `int64_t`, as an `int`, and the refusals.
  pub sent_as : Udp → ℤ → ℤ × Udp
  sent_as u (pos zero) = (negsuc 4, set_error_msg u "Failed to send, the length of data is zero")
  sent_as u (pos (suc n)) = (int_of (pos (suc n)), u)
  sent_as u (negsuc zero) = (negsuc 2, set_error_msg u "Failed to send, socket is invalid")
  sent_as u (negsuc (suc n)) = (int_of (negsuc (suc n)), u)

  -- `pdata` is `none` for a null pointer.
  pub send : Udp → Option (List ℕ) → ℤ × Udp
  unfolding sent_as
  send u none =
      if not u.has_inited
      then (negsuc 0, set_error_msg u "Failed to send, please call [ init ] interface at first")
      else (negsuc 1, set_error_msg u "Failed to send, the param len is zero or pdata is nullptr")
  send u (some pdata) =
      if not u.has_inited
      then (negsuc 0, set_error_msg u "Failed to send, please call [ init ] interface at first")
      else if length pdata == 0
      then (negsuc 1, set_error_msg u "Failed to send, the param len is zero or pdata is nullptr")
      else sent_as (call sent u) (t.send_to pdata u.send_addr u.sock_addr_len)
