-- ===== src/Facade/Iudp.antt =====
-- IUDP of src/Communcation/OCTCommu.cpp.
use octcommu.Shared.{ℕ, Option, none, List, Bool, String, ℤ, pos, negsuc}
use octcommu.Udp
use octcommu.Udp.{Toolkit, UdpInit, Udp}
use octcommu.Facade.{make, pass, look}

-- `memory` is whether the object can be made, `socket` whether it gets a socket.
pub create : Bool → Bool → Option Udp
create memory socket = make memory (Udp.create socket)

module _ (t : Toolkit) where
  unfoldable pub init : Option Udp → UdpInit → ℤ × Option Udp
  init d param = pass (negsuc 0) (λ u. Udp.init t u param) d

  unfoldable pub recv_speed : Option Udp → ℤ
  recv_speed = look (pos 0) (Udp.recv_speed t)

  unfoldable pub send_speed : Option Udp → ℤ
  send_speed = look (pos 0) (Udp.send_speed t)

  unfoldable pub send : Option Udp → Option (List ℕ) → ℤ × Option Udp
  send d pdata = pass (negsuc 0) (λ u. Udp.send t u pdata) d

unfoldable pub shutdown : Option Udp → ℤ × Option Udp
shutdown = pass (negsuc 0) Udp.shutdown

pub last_error_msg : Option Udp → String × Option Udp
last_error_msg = pass "" Udp.get_last_error_msg

unfoldable pub set_on_read_func : Option Udp → Bool → ℤ × Option Udp
set_on_read_func d cb = pass (negsuc 0) (λ u. Udp.set_on_read u cb) d

-- What the destructor of UDPImp does to the object is gone with it.
pub uninit : Option Udp → Option Udp
uninit d = none

pub destroy : Option Udp → Option Udp
unfolding uninit
destroy d = uninit d
