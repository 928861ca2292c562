-- ===== src/Facade/Isp/Tests.antt =====
-- The theorem on ISP with an SPUnix that opens, and one that the system refuses.
use octcommu.Shared.{◌≡◌, ◌↔◌, refl, arith, false, true, [], ◌∷◌, some, pos}
use octcommu.SpParams.{SpInit}
use octcommu.SpUnix
use octcommu.SpUnix.Opening.{Opens}
use octcommu.SpUnix.Answered.{answer}
use octcommu.Termios.Linux.{system, all_succeed, terminal}
use octcommu.Udp.{is_zero}
use octcommu.Facade.Isp
use octcommu.Facade.Isp.{SpPort}
use octcommu.Facade.Isp.Unix.{UnixPort, unix, create, answer-init}

abbrev settings : SpInit
settings = record {
  name = 65 ∷ [];
  baud = 9600;
  parity = 0;
  data_bits = 8;
  stop_bits = 0;
  flow_ctrl = 0;
  recv_interval_timeout = 0;
  is_to_recv = true;
}

abbrev new_port : UnixPort
new_port =
    create system all_succeed 50000 100000 150000 200000 (omega arith) (omega arith) (omega arith)
      (omega arith) terminal

closed : SpUnix.has_fd new_port.sp.sp_fd ≡ false
unfolding create SpUnix.create
closed = refl

awake : new_port.sp.sp_suspend ≡ false
unfolding create SpUnix.create
awake = refl

answer-init_example :
    let (code, d) =
      Isp.init (unix system all_succeed "" (pos 7) (pos 1)) (some new_port) settings in
    let (sent, _) = Isp.send (unix system all_succeed "" (pos 7) (pos 1)) d (1 ∷ 2 ∷ []) in
    ((code ≡ pos 0) ↔ Opens system all_succeed settings (pos 7))
    × (sent ≡ answer (is_zero code) (1 ∷ 2 ∷ []))
answer-init_example =
    answer-init system all_succeed "" (pos 7) (pos 1) new_port settings (1 ∷ 2 ∷ []) closed awake
