-- ===== src/Facade/Isp.antt =====
-- ISP of src/Communcation/OCTCommu.cpp. Its object is SPWin on Windows and SPUnix elsewhere, which
-- offer the same calls.
pub mod Unix
mod Tests
use octcommu.Shared.{
  ℕ, ◌-◌, ◌^◌, Option, none, some, List, Bool, String, ℤ, pos, negsuc, ltb, if◌then◌else◌,
}
use octcommu.SpParams.{SpInit}
use octcommu.SpWin
use octcommu.SpWin.{SpWin}
use octcommu.SpWin.Win32.{CommTimeouts, Win32, Written}
use octcommu.SpWin.Opening
use octcommu.Facade.{make, pass}

-- The calls of a serial port whose object is an `S`, with timeouts of type `T`.
pub record SpPort (S T : Type 0) : Type 0 where
  pub init : S → SpInit → ℤ × S
  pub recv_speed : S → ℤ × S
  pub send_speed : S → ℤ × S
  pub send : S → List ℕ → ℤ × S
  pub shutdown : S → ℤ × S
  pub last_error_msg : S → String × S
  pub set_on_read_func : S → Bool → ℤ × S
  pub set_next_read_len : S → ℕ → ℤ × S
  pub suspend : S → Bool → ℤ × S
  pub set_timeouts : S → T → ℤ × S
  pub timeouts : S → T → (ℤ × T) × S

-- An `int` by its bit pattern.
abbrev int_of : ℕ × SpWin → ℤ × SpWin
int_of (n, u) = (if ltb n (2 ^ 31) then pos n else negsuc (2 ^ 32 - 1 - n), u)

abbrev with_timeouts : ℕ × CommTimeouts × SpWin → (ℤ × CommTimeouts) × SpWin
with_timeouts (n, st, u) = ((pos n, st), u)

-- SPWin, with what Windows answers: the seconds that have passed, and what becomes of the bytes of
-- a write. `old` is the error text of the shared `SPParamHelper`.
abbrev pub windows : Win32 → String → ℤ → (List ℕ → Written) → SpPort SpWin CommTimeouts
windows t old seconds written = record {
  init = λ u sp. int_of (SpWin.Opening.init t old u sp);
  recv_speed = λ u. int_of (SpWin.recv_speed u seconds);
  send_speed = λ u. int_of (SpWin.send_speed u seconds);
  send = λ u pdata. int_of (SpWin.send u written pdata);
  shutdown = λ u. int_of (SpWin.shutdown u);
  last_error_msg = λ u. (SpWin.last_error_msg u, u);
  set_on_read_func = λ u cb. int_of (SpWin.set_on_read_func u cb);
  set_next_read_len = λ u len. int_of (SpWin.set_next_read_len u len);
  suspend = λ u flag.
      int_of
        (SpWin.suspend u (λ h on. if on then t.set_comm_break h else t.clear_comm_break h) flag);
  set_timeouts = λ u st. int_of (SpWin.set_timeouts u st);
  timeouts = λ u st. with_timeouts (SpWin.timeouts u t.get_comm_timeouts st);
}

-- `s` is a new port of the platform, and `memory` whether it can be made.
pub create : {S : Type 0} → Bool → S → Option S
create memory s = make memory s

module _ {S T : Type 0} (port : SpPort S T) where
  unfoldable pub init : Option S → SpInit → ℤ × Option S
  init d sp = pass (negsuc 0) (λ s. port.init s sp) d

  unfoldable pub recv_speed : Option S → ℤ × Option S
  recv_speed = pass (pos 0) port.recv_speed

  unfoldable pub send_speed : Option S → ℤ × Option S
  send_speed = pass (pos 0) port.send_speed

  unfoldable pub send : Option S → List ℕ → ℤ × Option S
  send d pdata = pass (negsuc 0) (λ s. port.send s pdata) d

  unfoldable pub shutdown : Option S → ℤ × Option S
  shutdown = pass (negsuc 0) port.shutdown

  pub last_error_msg : Option S → String × Option S
  last_error_msg = pass "" port.last_error_msg

  unfoldable pub set_on_read_func : Option S → Bool → ℤ × Option S
  set_on_read_func d cb = pass (negsuc 0) (λ s. port.set_on_read_func s cb) d

  unfoldable pub set_next_read_len : Option S → ℕ → ℤ × Option S
  set_next_read_len d len = pass (negsuc 0) (λ s. port.set_next_read_len s len) d

  unfoldable pub suspend : Option S → Bool → ℤ × Option S
  suspend d flag = pass (negsuc 0) (λ s. port.suspend s flag) d

  -- These two, and the destructor, do not look whether there is an object: `none` is a call through
  -- a null pointer.
  pub set_timeouts : Option S → T → Option (ℤ × S)
  set_timeouts none st = none
  set_timeouts (some s) st = some (port.set_timeouts s st)

  pub timeouts : Option S → T → Option ((ℤ × T) × S)
  timeouts none st = none
  timeouts (some s) st = some (port.timeouts s st)

  -- What the destructor shuts down before it deletes the object.
  unfoldable pub destroy : Option S → Option (ℤ × S)
  destroy none = none
  destroy (some s) = some (port.shutdown s)
