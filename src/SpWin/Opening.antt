-- ===== src/SpWin/Opening.antt =====
-- `init`, `open`, `realOpen`, `activeConfig` and `setFlowCtrl` of src/SerialPort/SPWin.cpp.
pub mod Configured
pub mod Again
use octcommu.Shared.{
  ℕ, ◌+◌, ◌-◌, ◌%◌, ◌^◌, Bool, true, false, String, List, ◌∷◌, [], ◌++◌, Option, none, some, ◌==◌,
  if◌then◌else◌,
}
use octcommu.SpParams.{SpInit, param_is_ok, spfc_none, spfc_software, spfc_hardware}
use octcommu.SpWin.Win32.{
  Win32, Dcb, CommConfig, CommTimeouts, OpenError, Opened, Call, set_comm_config, set_comm_timeouts,
  purge_comm, thread_start,
}
use octcommu.SpWin.{SpWin, set_error_msg, call, is_open, is_async}

-- "\\\\.\\", before the name of the port
abbrev pub device_prefix : List ℕ
device_prefix = 92 ∷ 92 ∷ 46 ∷ 92 ∷ []

abbrev pub error_name : OpenError → String
error_name OpenError.file_not_found = "ERROR_FILE_NOT_FOUND"
error_name OpenError.access_denied = "ERROR_ACCESS_DENIED"
error_name OpenError.other_error = "ERROR_UNKNOW"

abbrev pub opened_as : SpWin → Opened → ℕ × SpWin
opened_as u (Opened.handle h) = (0, record u { sp_handle = some h })
opened_as u (Opened.refused e) = (2, set_error_msg (record u { sp_handle = none }) (error_name e))

abbrev pub with_dcb : CommConfig → Dcb → CommConfig
with_dcb c d = record c { dcb = d }

-- A DCB with flow control by RTS and CTS, and by XON and XOFF, or not.
abbrev pub flow : Bool → ℕ → Bool → Dcb → Dcb
flow cts rts xon d = record d {
  f_outx_cts_flow = cts;
  f_rts_control = rts;
  f_in_x = xon;
  f_out_x = xon;
}

-- MAXDWORD
abbrev max_dword : ℕ
max_dword = 2 ^ 32 - 1

abbrev pub timeouts_with : ℕ → ℕ → CommTimeouts
timeouts_with multiplier constant = record {
  read_interval_timeout = max_dword;
  read_total_timeout_multiplier = 0;
  read_total_timeout_constant = 0;
  write_total_timeout_multiplier = multiplier;
  write_total_timeout_constant = constant;
}

module _ (t : Win32) where
  pub real_open : SpWin → ℕ × SpWin
  real_open u =
      is_open u (λ h. (1, u))
        λ v. opened_as v (t.create_file (device_prefix ++ v.sp_init.name) (is_async v.operate_mode))

  -- The fields of `sp_config_` that do not depend on the flow control. Parity, size and stop bits
  -- are kept in bytes, the rate in 32 bits.
  abbrev pub configured : SpInit → ℕ → CommConfig → CommConfig
  configured p h c =
      let filled = t.get_comm_config h (record c { dw_size = t.comm_config_size }) in
      with_dcb filled (record (t.get_comm_state h) {
        baud_rate = p.baud % 2 ^ 32;
        byte_size = p.data_bits % 2 ^ 8;
        parity = p.parity % 2 ^ 8;
        stop_bits = p.stop_bits % 2 ^ 8;
        f_binary = true;
        f_in_x = false;
        f_out_x = false;
        f_abort_on_error = false;
        f_null = false;
      })

  abbrev pub set_flow : SpWin → ℕ → Bool → ℕ → Bool → ℕ × SpWin
  set_flow u h cts rts xon =
      let c = with_dcb u.sp_config (flow cts rts xon u.sp_config.dcb) in
      (0, call (set_comm_config h c (t.takes_config h c)) (record u { sp_config = c }))

  unfoldable pub set_flow_ctrl : SpWin → ℕ → ℕ × SpWin
  set_flow_ctrl u h =
      if u.sp_init.flow_ctrl == spfc_none
      then set_flow u h false t.rts_control_disable false
      else if u.sp_init.flow_ctrl == spfc_software
      then set_flow u h false t.rts_control_disable true
      else if u.sp_init.flow_ctrl == spfc_hardware
      then set_flow u h true t.rts_control_handshake false
      else (1, u)

  abbrev pub start_thread : SpWin → SpWin
  start_thread u =
      if u.sp_init.is_to_recv
      then call thread_start (record u { recv_thread_is_running = true })
      else u

  abbrev pub with_timeouts : ℕ → CommTimeouts → SpWin → SpWin
  with_timeouts h ct u =
      call (purge_comm h) (call (set_comm_timeouts h ct) (record u { sp_timeouts = ct }))

  pub active_config : SpWin → ℕ × SpWin
  active_config u =
      is_open u
        (λ h.
          let v =
            (set_flow_ctrl (record u { sp_config = configured u.sp_init h u.sp_config }) h).1 in
          let w = call (set_comm_config h v.sp_config (t.takes_config h v.sp_config)) v in
          if is_async w.operate_mode
          then (0, start_thread (with_timeouts h (timeouts_with 0 0) w))
          else (0, with_timeouts h (timeouts_with 100 500) w))
        λ v. (1, v)

  pub open_port : SpWin → ℕ × SpWin
  open_port u = let (code, v) = real_open u in if code == 0 then active_config v else (1, v)

  -- `old` is the error text of the shared `SPParamHelper`.
  unfoldable pub init : String → SpWin → SpInit → ℕ × SpWin
  init old u sp =
      let (code, text) = param_is_ok old sp in
      if code == 0 then open_port (record u { sp_init = sp }) else (1, set_error_msg u text)
