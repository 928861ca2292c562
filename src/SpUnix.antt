-- ===== src/SpUnix.antt =====
-- src/SerialPort/SPUnix.h and SPUnix.cpp: a serial port with a thread that polls it. The calls of
-- the application are here; what the poller does on a write event is in `Sending`, and on a read
-- event, with the delivery to the application, in `Reading`. Each call and each event is one step.
pub mod Sending
pub mod Reading
pub mod Poller
pub mod Api
pub mod Safety
pub mod Opening
pub mod Answered
pub mod Lifecycle
mod Tests
use octcommu.Shared.{
  ℕ, zero, suc, ◌+◌, ◌*◌, ◌/◌, ◌%◌, ◌^◌, Bool, true, false, not, String, List, [], Option, none,
  some, ltb, ◌==◌, if◌then◌else◌, ◌>>=◌, length, ℤ, pos, negsuc,
}
use octcommu.FixedBuffer
use octcommu.FixedBuffer.{FixedBuffer}
use octcommu.SpBuffer
use octcommu.SpBuffer.{SpBuffer}
use octcommu.SpParams.{SpInit, param_is_ok, default_init}
use octcommu.Termios.{System, Answers, Device, init_sp_property}

-- MAX_RECV_BUFFER_LEN and MAX_SEND_BUFFER_LEN
abbrev pub max_buffer_len : ℕ
max_buffer_len = 10 * 1024

-- `recv_func` is whether `recv_func_` is set.
pub record SpUnix : Type 0 where
  pub recv_func : Bool
  pub sp_init : SpInit
  pub sp_fd : ℤ
  pub next_read_len : ℕ
  pub recv_thread_is_running : Bool
  pub listen_to_write : Bool
  pub sp_suspend : Bool
  pub recv_buffer : FixedBuffer
  pub send_l2_cache : FixedBuffer
  pub send_l1_cache : FixedBuffer
  pub send_swap_cache : FixedBuffer
  pub sp_buf : SpBuffer
  pub sent_bytes : ℕ
  pub recv_bytes : ℕ
  pub error_str : String
  -- the calls of `pushData2Client` that wait in the thread pool
  pub pending : ℕ

pub set_error_msg : SpUnix → String → SpUnix
set_error_msg u str = record u { error_str = str }

-- A new object, with the addresses of its buffers.
unfoldable pub create : (recv l2 l1 swap : ℕ) → SpUnix
create recv l2 l1 swap = record {
  recv_func = false;
  sp_init = default_init;
  sp_fd = negsuc 0;
  next_read_len = 1;
  recv_thread_is_running = false;
  listen_to_write = false;
  sp_suspend = false;
  recv_buffer = FixedBuffer.create max_buffer_len recv;
  send_l2_cache = FixedBuffer.create max_buffer_len l2;
  send_l1_cache = FixedBuffer.create max_buffer_len l1;
  send_swap_cache = FixedBuffer.create max_buffer_len swap;
  sp_buf = SpBuffer.reset max_buffer_len;
  sent_bytes = 0;
  recv_bytes = 0;
  error_str = "";
  pending = 0;
}

-- Only -1 stands for a port that is not open.
abbrev pub has_fd : ℤ → Bool
has_fd (pos n) = true
has_fd (negsuc zero) = false
has_fd (negsuc (suc n)) = true

pub is_open : SpUnix → Bool × SpUnix
unfolding set_error_msg
is_open u = if has_fd u.sp_fd then (true, u) else (false, set_error_msg u "sp doesnt open")

-- The `int` that is returned, and the object; `none` is a write outside a buffer.
pub send : SpUnix → List ℕ → Option (ℤ × SpUnix)
unfolding is_open set_error_msg
send u pdata =
    let (open_now, v) = is_open u in
    if not open_now
    then some (negsuc 0, v)
    else if v.sp_suspend
    then some (pos 0, set_error_msg v "the serial has suspended")
    else if ltb max_buffer_len (length pdata)
    then some (negsuc 1, set_error_msg v "failed to send, MAX_SEND_BUFFER_LEN(1024 * 10) < len")
    else (do
      cached ←
          FixedBuffer.append max_buffer_len (FixedBuffer.reset max_buffer_len v.send_l1_cache) pdata
      some (pos (length pdata), record v { send_l1_cache = cached; listen_to_write = true }))

-- `SPUtil::closeSP` gives -1 for every descriptor.
pub close_sp : ℤ → ℤ
close_sp fd = negsuc 0

pub shutdown : SpUnix → ℕ × SpUnix
unfolding is_open set_error_msg close_sp
shutdown u =
    let (open_now, v) = is_open u in
    if not open_now then (1, v) else (
      0,
      record v {
        listen_to_write = false;
        recv_thread_is_running = if v.sp_init.is_to_recv then false else v.recv_thread_is_running;
        sp_fd = close_sp v.sp_fd;
      },
    )

pub last_error_msg : SpUnix → String
last_error_msg u = u.error_str

pub set_on_read_func : SpUnix → Bool → ℕ × SpUnix
set_on_read_func u cb = (0, record u { recv_func = cb })

-- On Linux `SPTimeouts` has no fields.
pub set_timeouts : SpUnix → ℕ × SpUnix
set_timeouts u = (0, u)

pub timeouts : SpUnix → ℕ × SpUnix
timeouts u = (0, u)

pub set_next_read_len : SpUnix → ℕ → ℕ × SpUnix
set_next_read_len u len = (0, record u { next_read_len = len })

pub suspend : SpUnix → Bool → ℕ × SpUnix
unfolding is_open set_error_msg
suspend u flag =
    let (open_now, v) = is_open u in
    if not open_now then (1, v) else (0, record v { sp_suspend = flag })

-- Bytes for each second; an elapsed time below one second counts as one. The result is the `int`'s
-- bit pattern.
abbrev pub speed : ℕ → ℤ → ℕ
speed count (pos zero) = count % 2 ^ 32
speed count (pos (suc n)) = count / suc n % 2 ^ 32
speed count (negsuc n) = count % 2 ^ 32

pub recv_speed : SpUnix → ℤ → ℕ × SpUnix
recv_speed u elapsed_s = (speed u.recv_bytes elapsed_s, record u { recv_bytes = 0 })

pub send_speed : SpUnix → ℤ → ℕ × SpUnix
send_speed u elapsed_s = (speed u.sent_bytes elapsed_s, record u { sent_bytes = 0 })

-- Whether `open` failed: `0 >= sp_fd_`.
abbrev pub open_failed : ℤ → Bool
open_failed (pos zero) = true
open_failed (pos (suc n)) = false
open_failed (negsuc n) = true

module _ (s : System) (a : Answers) where
  abbrev keep_error : Option String → SpUnix → SpUnix
  keep_error none u = u
  keep_error (some text) u = record u { error_str = text }

  abbrev after_property : SpUnix → ℤ × Option String × Device → ℕ × SpUnix × Device
  after_property u (pos zero, text, port) =
      (0, if u.sp_init.is_to_recv then record u { recv_thread_is_running = true } else u, port)
  after_property u (pos (suc n), text, port) =
      (1, keep_error text (record u { sp_fd = close_sp u.sp_fd }), port)
  after_property u (negsuc n, text, port) =
      (1, keep_error text (record u { sp_fd = close_sp u.sp_fd }), port)

  -- `opened` is what `open` returns.
  pub init_sp : ℤ → SpUnix → Device → ℕ × SpUnix × Device
  unfolding set_error_msg close_sp
  init_sp opened u port =
      if open_failed opened
      then (
        2,
        set_error_msg (record u { sp_fd = close_sp opened }) "failed to open serial port",
        port,
      )
      else after_property (record u { sp_fd = opened }) (init_sp_property s a u.sp_init port)

  -- `old` is the error text of the shared `SPParamHelper`.
  pub init : String → ℤ → SpUnix → Device → SpInit → ℕ × SpUnix × Device
  unfolding init_sp set_error_msg
  init old opened u port sp =
      let (code, text) = param_is_ok old sp in
      if code == 0
      then init_sp opened (record u { sp_init = sp }) port
      else (1, set_error_msg u text, port)
