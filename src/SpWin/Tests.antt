-- ===== src/SpWin/Tests.antt =====
-- The theorems on Windows ports with an API that opens a port, and one that does not.
use octcommu.Shared.{
  ℕ, ◌+◌, ◌*◌, ◌%◌, ◌^◌, ◌≡◌, refl, ◌⊎◌, arith, true, false, List, [], ◌∷◌, ◌++◌, some, none,
  if◌then◌else◌, length, Pairs,
}
use octcommu.SpParams.{SpInit, param_is_ok}
use octcommu.SpParams.Laws.{param_is_ok_iff}
use octcommu.SpWin.Win32.{Win32, Dcb, CommConfig, CommTimeouts, OpenError, Opened, Call}
use octcommu.SpWin.{SpWin, OperateMode, shutdown}
use octcommu.SpWin.Opening.{device_prefix, error_name, init}
use octcommu.SpWin.Opening.Configured.{OpenedWith, init-create_file}
use octcommu.SpWin.Opening.Again.{shutdown-init}
use octcommu.SpWin.Receiving.{Round, nothing, failed, got, pended, recv_thead_func}
use octcommu.SpWin.Receiving.Rounds.{AtMost, Begins, at_once, reads, recv_thead_func-at_once}

abbrev fresh_dcb : Dcb
fresh_dcb = record {
  baud_rate = 1200;
  byte_size = 7;
  parity = 2;
  stop_bits = 0;
  f_binary = true;
  f_in_x = true;
  f_out_x = true;
  f_abort_on_error = true;
  f_null = true;
  f_outx_cts_flow = true;
  f_rts_control = 1;
  others = [];
}

abbrev fresh_config : CommConfig
fresh_config = record { dw_size = 0; dcb = fresh_dcb; provider = [] }

abbrev no_timeouts : CommTimeouts
no_timeouts = record {
  read_interval_timeout = 0;
  read_total_timeout_multiplier = 0;
  read_total_timeout_constant = 0;
  write_total_timeout_multiplier = 0;
  write_total_timeout_constant = 0;
}

abbrev api : Win32
api = record {
  create_file = λ name overlapped. Opened.handle 4;
  comm_config_size = 52;
  rts_control_disable = 0;
  rts_control_handshake = 2;
  takes_config = λ h c. false;
  get_comm_config = λ h c. c;
  get_comm_state = λ h. fresh_dcb;
  get_comm_timeouts = λ h. no_timeouts;
  set_comm_break = λ h. true;
  clear_comm_break = λ h. true;
}

abbrev settings : SpInit
settings = record {
  name = 67 ∷ 79 ∷ 77 ∷ 51 ∷ [];
  baud = 115200;
  parity = 0;
  data_bits = 8;
  stop_bits = 0;
  flow_ctrl = 2;
  recv_interval_timeout = 0;
  is_to_recv = true;
}

abbrev new_port : SpWin
new_port = record {
  recv_func = true;
  error_str = "";
  sp_init = settings;
  recv_thread_is_running = false;
  next_read_len = 4;
  operate_mode = OperateMode.om_async;
  sp_handle = none;
  sp_config = fresh_config;
  sp_timeouts = no_timeouts;
  recv_bytes_count = 0;
  send_bytes_count = 0;
  calls = [];
}

abbrev open_port : SpWin
open_port = record new_port { sp_handle = some 4; recv_thread_is_running = true }

abbrev silent : SpInit
silent = record settings { is_to_recv = false }

settings_ok : (param_is_ok "" settings).0 ≡ 0
settings_ok = (param_is_ok_iff "" settings).1 (omega arith)

silent_ok : (param_is_ok "" silent).0 ≡ 0
silent_ok = (param_is_ok_iff "" silent).1 (omega arith)

init-create_file_example :
    ((h : ℕ) × (api.create_file (device_prefix ++ settings.name) true ≡ Opened.handle h)
      × (v : SpWin) × (init api "" new_port settings ≡ (0, v))
      × OpenedWith api new_port settings h v)
    ⊎ ((e : OpenError) × (api.create_file (device_prefix ++ settings.name) true ≡ Opened.refused e)
        × (init api "" new_port settings ≡ (
          1,
          record new_port { sp_init = settings; error_str = error_name e; sp_handle = none },
        )))
init-create_file_example = init-create_file api "" new_port settings refl refl settings_ok

shutdown-init_example :
    (v : SpWin) × (w : SpWin) × (init api "" open_port silent ≡ (1, v))
    × (shutdown v ≡ (0, w))
    × (v.calls ≡ open_port.calls)
    × (w.recv_thread_is_running
        ≡ (if silent.is_to_recv then false else open_port.recv_thread_is_running))
    × (w.calls
        ≡ Call.close_handle 4
          ∷ Call.purge_comm 4
          ∷ Call.set_comm_mask 4
          ∷ (if silent.is_to_recv then Call.thread_shutdown ∷ open_port.calls else open_port.calls))
shutdown-init_example = shutdown-init api "" open_port silent 4 refl silent_ok

abbrev rounds : List Round
rounds = nothing ∷ got (1 ∷ 2 ∷ 3 ∷ 4 ∷ []) ∷ failed ∷ pended (5 ∷ 6 ∷ []) ∷ got (7 ∷ 8 ∷ []) ∷ []

rounds-AtMost : AtMost 4 rounds
rounds-AtMost = AtMost.idle (
    AtMost.now (omega arith)
      (AtMost.error (AtMost.later (omega arith) (AtMost.now (omega arith) AtMost.done))))

recv_thead_func-at_once_example :
    (pieces : List (List ℕ)) × (v : SpWin) × (recv_thead_func open_port 70000 rounds
      ≡ some (pieces, reads rounds, v))
    × Pairs (Begins 4) (at_once rounds) pieces
    × (v.recv_bytes_count ≡ (0 + 4 * length (at_once rounds)) % 2 ^ 32)
recv_thead_func-at_once_example =
    recv_thead_func-at_once open_port 70000 rounds refl refl (omega arith) rounds-AtMost
