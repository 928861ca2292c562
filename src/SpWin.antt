-- ===== src/SpWin.antt =====
-- src/SerialPort/SPWin.h and SPWin.cpp: a serial port on Windows. The calls of the application are
-- here, the settings that `init` gives the port in `Opening`, and what the receive thread does in
-- `Receiving`.
pub mod Win32
pub mod Opening
pub mod Receiving
mod Tests
use octcommu.Shared.{
  ℕ, zero, suc, length, take, ◌+◌, ◌-◌, ◌%◌, ◌^◌, Bool, true, false, String, List, [], ◌∷◌, Option,
  none, some, if◌then◌else◌, ℤ, pos, negsuc,
}
use octcommu.SpParams.{SpInit, default_init}
use octcommu.SpUnix.{speed}
use octcommu.SpWin.Win32.{
  Dcb, CommConfig, CommTimeouts, Written, wrote, pended, failed, Call, purge_comm, close_handle,
  set_comm_mask, broke, set_comm_timeouts, thread_shutdown,
}

pub data OperateMode : Type 0 where
  om_async om_sync : OperateMode

abbrev pub is_async : OperateMode → Bool
is_async om_async = true
is_async om_sync = false

-- `recv_func` is whether `recv_func_` is set, `sp_handle` is `none` for INVALID_HANDLE_VALUE, and
-- `calls` has the newest first.
pub record SpWin : Type 0 where
  pub recv_func : Bool
  pub error_str : String
  pub sp_init : SpInit
  pub recv_thread_is_running : Bool
  pub next_read_len : ℕ
  pub operate_mode : OperateMode
  pub sp_handle : Option ℕ
  pub sp_config : CommConfig
  pub sp_timeouts : CommTimeouts
  pub recv_bytes_count : ℕ
  pub send_bytes_count : ℕ
  pub calls : List Call

abbrev no_settings : Dcb
no_settings = record {
  baud_rate = 0;
  byte_size = 0;
  parity = 0;
  stop_bits = 0;
  f_binary = false;
  f_in_x = false;
  f_out_x = false;
  f_abort_on_error = false;
  f_null = false;
  f_outx_cts_flow = false;
  f_rts_control = 0;
  others = [];
}

-- The zeros that `sp_config_()` and `sp_timeouts_()` stand for.
abbrev no_config : CommConfig
no_config = record { dw_size = 0; dcb = no_settings; provider = [] }

abbrev no_timeouts : CommTimeouts
no_timeouts = record {
  read_interval_timeout = 0;
  read_total_timeout_multiplier = 0;
  read_total_timeout_constant = 0;
  write_total_timeout_multiplier = 0;
  write_total_timeout_constant = 0;
}

-- A new port.
pub create : SpWin
create = record {
  recv_func = false;
  error_str = "";
  sp_init = default_init;
  recv_thread_is_running = false;
  next_read_len = 1;
  operate_mode = om_async;
  sp_handle = none;
  sp_config = no_config;
  sp_timeouts = no_timeouts;
  recv_bytes_count = 0;
  send_bytes_count = 0;
  calls = [];
}

abbrev pub set_error_msg : SpWin → String → SpWin
set_error_msg u str = record u { error_str = str }

abbrev pub call : Call → SpWin → SpWin
call c u = record u { calls = c ∷ u.calls }

-- `isOpen`: with the handle, or with the error text that it leaves.
abbrev pub closed : SpWin → SpWin
closed u = set_error_msg u "sp doesnt open"

abbrev pub open_as {ℓ} : {A : Type ℓ} → Option ℕ → (ℕ → A) → A → A
open_as (some h) yes_open not_open = yes_open h
open_as none yes_open not_open = not_open

abbrev pub is_open {ℓ} : {A : Type ℓ} → SpWin → (ℕ → A) → (SpWin → A) → A
is_open u yes_open not_open = open_as u.sp_handle yes_open (not_open (closed u))

-- `std::atomic_uint`
abbrev count_sent : SpWin → ℕ → SpWin
count_sent u n = record u { send_bytes_count = (u.send_bytes_count + n) % 2 ^ 32 }

abbrev pub sent_as : Bool → Written → SpWin → ℕ × SpWin
sent_as asynchronous (wrote n) u = (n % 2 ^ 32, count_sent u n)
sent_as true (pended n) u = (n % 2 ^ 32, count_sent u n)
sent_as false (pended n) u = (0, set_error_msg u "failed to send data, sync_mode")
sent_as true failed u = (0, set_error_msg u "failed to send data, async_mode")
sent_as false failed u = (0, set_error_msg u "failed to send data, sync_mode")

-- `answer` is what WriteFile does with the bytes, whose number it gets in 32 bits. The event of the
-- asynchronous write is made and closed on every way. The result is an `int`'s bit pattern.
pub send : SpWin → (List ℕ → Written) → List ℕ → ℕ × SpWin
send u answer pdata =
    is_open u
      (λ h. sent_as (is_async u.operate_mode) (answer (take (length pdata % 2 ^ 32) pdata)) u)
      λ v. (2 ^ 32 - 1, v)

pub recv_speed : SpWin → ℤ → ℕ × SpWin
recv_speed u elapsed_s = (speed u.recv_bytes_count elapsed_s, record u { recv_bytes_count = 0 })

pub send_speed : SpWin → ℤ → ℕ × SpWin
send_speed u elapsed_s = (speed u.send_bytes_count elapsed_s, record u { send_bytes_count = 0 })

-- The end of the receive thread, on a port that receives.
abbrev stop_thread : SpWin → SpWin
stop_thread u =
    if u.sp_init.is_to_recv
    then call thread_shutdown (record u { recv_thread_is_running = false })
    else u

unfoldable pub shutdown : SpWin → ℕ × SpWin
shutdown u =
    is_open u
      (λ h. (
        0,
        record (call (close_handle h)
            (call (purge_comm h) (call (set_comm_mask h) (stop_thread u)))) { sp_handle = none },
      ))
      λ v. (1, v)

-- What the destructor does before the members end.
pub destroy : SpWin → SpWin
destroy u = (shutdown u).1

pub last_error_msg : SpWin → String
last_error_msg u = u.error_str

pub set_on_read_func : SpWin → Bool → ℕ × SpWin
set_on_read_func u cb = (0, record u { recv_func = cb })

pub set_next_read_len : SpWin → ℕ → ℕ × SpWin
set_next_read_len u len = (0, record u { next_read_len = len })

-- `answer` is what SetCommBreak or ClearCommBreak returns.
pub suspend : SpWin → (ℕ → Bool → Bool) → Bool → ℕ × SpWin
suspend u answer flag =
    is_open u (λ h. (if answer h flag then 0 else 1, call (broke h flag) u)) λ v. (1, v)

-- `SPTimeouts` has the fields of COMMTIMEOUTS, each given to that of its name.
pub set_timeouts : SpWin → CommTimeouts → ℕ × SpWin
set_timeouts u st = is_open u (λ h. (0, call (set_comm_timeouts h st) u)) λ v. (1, v)

-- `answer` is what GetCommTimeouts gives; `st` is left as it was when the port is not open.
pub timeouts : SpWin → (ℕ → CommTimeouts) → CommTimeouts → ℕ × CommTimeouts × SpWin
timeouts u answer st = is_open u (λ h. (0, answer h, u)) λ v. (1, st, v)
