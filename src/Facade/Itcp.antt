-- ===== src/Facade/Itcp.antt =====
-- ITCP of src/Communcation/OCTCommu.cpp, but for `init`, which `Tcp.Dispatch` has.
use octcommu.Shared.{ℕ, Option, none, List, Bool, String, ℤ, pos, negsuc}
use octcommu.Tcp.{TcpToolkit}
use octcommu.Tcp.Dispatch
use octcommu.Tcp.Dispatch.{TcpImp}
use octcommu.Facade.{make, pass, look}

-- `memory` is whether the object can be made.
pub create : Bool → Option TcpImp
create memory = make memory Dispatch.create

module _ (t : TcpToolkit) where
  unfoldable pub recv_speed : Option TcpImp → ℤ
  recv_speed = look (pos 0) (Dispatch.recv_speed t)

  unfoldable pub send_speed : Option TcpImp → ℤ
  send_speed = look (pos 0) (Dispatch.send_speed t)

  unfoldable pub send : Option TcpImp → List ℕ → ℤ × Option TcpImp
  send d pdata = pass (negsuc 0) (λ i. Dispatch.send t i pdata) d

unfoldable pub shutdown : Option TcpImp → ℤ × Option TcpImp
shutdown = pass (negsuc 0) Dispatch.shutdown

pub last_error_msg : Option TcpImp → String
last_error_msg = look "failed to create d_ptr_" Dispatch.last_error_msg

unfoldable pub set_on_read_func : Option TcpImp → Bool → ℤ × Option TcpImp
set_on_read_func d cb = pass (negsuc 0) (λ i. Dispatch.set_on_read i cb) d

unfoldable pub set_on_error_func : Option TcpImp → Bool → ℤ × Option TcpImp
set_on_error_func d cb = pass (negsuc 0) (λ i. Dispatch.set_on_error i cb) d

unfoldable pub set_on_connect_func : Option TcpImp → Bool → ℤ × Option TcpImp
set_on_connect_func d cb = pass (negsuc 0) (λ i. Dispatch.set_on_connect i cb) d

unfoldable pub set_on_flush_func : Option TcpImp → Bool → ℤ × Option TcpImp
set_on_flush_func d cb = pass (negsuc 0) (λ i. Dispatch.set_on_flush i cb) d

-- What the destructor of TCPImp does to the object is gone with it.
pub uninit : Option TcpImp → Option TcpImp
uninit d = none

pub destroy : Option TcpImp → Option TcpImp
unfolding uninit
destroy d = uninit d
