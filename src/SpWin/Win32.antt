-- ===== src/SpWin/Win32.antt =====
-- What src/SerialPort/SPWin.cpp uses of the Windows API: the settings of a port, the answers of the
-- calls, and the calls that change the port or its events.
use octcommu.Shared.{ℕ, Bool, List, ◌≡◌, refl, ◌⊎◌, inl, inr}

-- The parts of a DCB that are set, and the others.
pub record Dcb : Type 0 where
  pub baud_rate : ℕ
  pub byte_size : ℕ
  pub parity : ℕ
  pub stop_bits : ℕ
  pub f_binary : Bool
  pub f_in_x : Bool
  pub f_out_x : Bool
  pub f_abort_on_error : Bool
  pub f_null : Bool
  pub f_outx_cts_flow : Bool
  pub f_rts_control : ℕ
  pub others : List ℕ

pub record CommConfig : Type 0 where
  pub dw_size : ℕ
  pub dcb : Dcb
  pub provider : List ℕ

pub record CommTimeouts : Type 0 where
  pub read_interval_timeout : ℕ
  pub read_total_timeout_multiplier : ℕ
  pub read_total_timeout_constant : ℕ
  pub write_total_timeout_multiplier : ℕ
  pub write_total_timeout_constant : ℕ

-- What GetLastError gives after CreateFileA has failed.
pub data OpenError : Type 0 where
  file_not_found access_denied other_error : OpenError

pub data Opened : Type 0 where
  handle : ℕ → Opened
  refused : OpenError → Opened

-- What WriteFile does with a message: bytes written, with the number, at once or once
-- GetOverlappedResult has waited for them, or another error.
pub data Written : Type 0 where
  wrote : ℕ → Written
  pended : ℕ → Written
  failed : Written

-- What the calls answer. `get_comm_config` fills the structure that it is given.
pub record Win32 : Type 0 where
  pub create_file : List ℕ → Bool → Opened
  pub comm_config_size : ℕ
  pub rts_control_disable : ℕ
  pub rts_control_handshake : ℕ
  -- whether SetCommConfig succeeds
  pub takes_config : ℕ → CommConfig → Bool
  pub get_comm_config : ℕ → CommConfig → CommConfig
  pub get_comm_state : ℕ → Dcb
  pub get_comm_timeouts : ℕ → CommTimeouts
  pub set_comm_break : ℕ → Bool
  pub clear_comm_break : ℕ → Bool

-- The calls that change the port `h`, and those of `recv_thread_`. SetCommConfig has its answer, at
-- which nothing looks.
pub data Call : Type 0 where
  set_comm_config : (h : ℕ) → CommConfig → Bool → Call
  set_comm_timeouts : (h : ℕ) → CommTimeouts → Call
  purge_comm close_handle set_comm_mask : (h : ℕ) → Call
  broke : (h : ℕ) → Bool → Call
  thread_start thread_shutdown : Call

pub Opened-cases :
    (o : Opened) → ((h : ℕ) × (o ≡ Opened.handle h)) ⊎ ((e : OpenError) × (o ≡ Opened.refused e))
Opened-cases (Opened.handle h) = inl (h, refl)
Opened-cases (Opened.refused e) = inr (e, refl)
