-- ===== src/SpUnix/Safety/Tests.antt =====
-- The theorem on a port that has been opened and asked for pieces of four bytes.
use octcommu.Shared.{ℕ, ◌≡◌, true, List, [], ◌∷◌, some, ℤ, pos, arith}
use octcommu.SpParams.{SpInit}
use octcommu.SpBuffer
use octcommu.SpBuffer.{SpBuffer}
use octcommu.Termios.Linux.{system, all_succeed, terminal}
use octcommu.SpUnix.{SpUnix, max_buffer_len, create, init, send, set_next_read_len}
use octcommu.SpUnix.Reading.{on_read_data}
use octcommu.SpUnix.Safety.Steps.{Step, Reach, Reach-send}

abbrev settings : SpInit
settings = record {
  name = 65 ∷ [];
  baud = 9600;
  parity = 0;
  data_bits = 8;
  stop_bits = 0;
  flow_ctrl = 0;
  recv_interval_timeout = 10;
  is_to_recv = true;
}

abbrev opened : SpUnix
opened =
    (init system all_succeed "" (pos 3) (create 100000 200000 300000 400000) terminal settings).1

abbrev asking : SpUnix
asking = (set_next_read_len opened 4).1

asking-Reach : Reach system 100000 200000 300000 400000 asking
asking-Reach =
    Reach.next (Reach.next Reach.new (Step.inited all_succeed "" (pos 3) terminal settings))
      (Step.next_len 4)

Reach-send_example :
    ((p : List ℕ) → (r : ℤ × SpUnix) × (send asking p ≡ some r))
    × ((p : List ℕ) → (v : SpUnix) × (on_read_data asking p ≡ some v))
    × ((r : ℕ × SpBuffer × SpBuffer) × (SpBuffer.data_to max_buffer_len asking.sp_buf ≡ some r))
Reach-send_example =
    Reach-send system 100000 200000 300000 400000 (omega arith) (omega arith) (omega arith)
      (omega arith) asking-Reach
