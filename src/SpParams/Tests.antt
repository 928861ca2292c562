-- ===== src/SpParams/Tests.antt =====
-- The check of the settings at 9600 baud, even parity, 8 data bits and one stop bit.
use octcommu.Shared.{true, [], ◌∷◌}
use octcommu.SpParams.{SpInit}

abbrev port_a : SpInit
port_a = record {
  name = 65 ∷ [];
  baud = 9600;
  parity = 2;
  data_bits = 8;
  stop_bits = 0;
  flow_ctrl = 0;
  recv_interval_timeout = 10;
  is_to_recv = true;
}
