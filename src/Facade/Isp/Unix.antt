-- ===== src/Facade/Isp/Unix.antt =====
-- ISP of src/Communcation/OCTCommu.cpp with an SPUnix as its object.
use octcommu.Shared.{
  ℕ, zero, suc, ◌≡◌, ◌≢◌, refl, sym, ◌∙◌, ap, ◌<◌, ◌+◌, ◌-◌, ◌^◌, true, false, List, some, String,
  ℤ, pos, negsuc, ◌==◌, ltb, if◌then◌else◌, ◌↔◌, arith, if_both, result_of,
}
use octcommu.SpParams.{SpInit}
use octcommu.Termios.{System, Answers, Device}
use octcommu.SpUnix
use octcommu.SpUnix.{SpUnix, max_buffer_len, has_fd, send}
use octcommu.SpUnix.Safety.{IsSound, send-IsSound}
use octcommu.SpUnix.Safety.Steps.{
  init-IsSound, shutdown-IsSound, suspend-IsSound, speed-IsSound, set-IsSound, new-IsSound,
}
use octcommu.SpUnix.Answered.{answer, send-answer}
use octcommu.SpUnix.Opening.{Opens, init-Opens, init-suspend}
use octcommu.Udp.{is_zero}
use octcommu.Facade.Isp
use octcommu.Facade.Isp.{SpPort}

-- A port with its device. Its buffers are sound, so that `send` has a result.
pub record UnixPort : Type 0 where
  pub sp : SpUnix
  pub device : Device
  pub sound : IsSound sp

-- An `int` by its bit pattern.
abbrev int_of : ℕ → ℤ
int_of n = if ltb n (2 ^ 31) then pos n else negsuc (2 ^ 32 - 1 - n)

int_of-zero : (n : ℕ) → (int_of n ≡ pos 0) ↔ (n ≡ 0)
int_of-zero zero = ((λ h. refl), λ h. refl)
int_of-zero (suc n) = (
  if_both (λ z. z ≡ pos 0 → suc n ≡ 0) (ltb (suc n) (2 ^ 31)) (λ h. absurd cc) (λ h. absurd cc),
  λ h. absurd (omega (arith, h)),
)

is_zero-int_of : (n : ℕ) → is_zero (int_of n) ≡ (n == 0)
is_zero-int_of zero = refl
is_zero-int_of (suc n) =
    if_both (λ z. is_zero z ≡ false) (ltb (suc n) (2 ^ 31)) refl refl ∙ sym not_zero
  where
    not_zero : suc n == 0 ≡ false
    not_zero = ground arith

module _ (s : System) (a : Answers) where
  -- SPUnix, with what the system answers: the result of `open` and the seconds that have passed.
  -- `old` is the error text of the shared `SPParamHelper`. The timeouts of Linux have no fields.
  abbrev pub unix : String → ℤ → ℤ → SpPort UnixPort (Unit {0})
  unix old opened seconds = record {
    init = λ u sp.
        let (code, v, device) = SpUnix.init s a old opened u.sp u.device sp in
        (
          int_of code,
          record {
            sp = v;
            device = device;
            sound = init-IsSound s a old opened u.sp u.device sp u.sound;
          },
        );
    recv_speed = λ u.
        let (n, v) = SpUnix.recv_speed u.sp seconds in
        (
          int_of n,
          record { sp = v; device = u.device; sound = (speed-IsSound u.sp u.sound seconds).0 },
        );
    send_speed = λ u.
        let (n, v) = SpUnix.send_speed u.sp seconds in
        (
          int_of n,
          record { sp = v; device = u.device; sound = (speed-IsSound u.sp u.sound seconds).1 },
        );
    send = λ u pdata.
        let (r, _, sound) = send-IsSound u.sp u.sound pdata in
        (r.0, record { sp = r.1; device = u.device; sound = sound });
    shutdown = λ u.
        let (n, v) = SpUnix.shutdown u.sp in
        (int_of n, record { sp = v; device = u.device; sound = shutdown-IsSound u.sp u.sound });
    last_error_msg = λ u. (SpUnix.last_error_msg u.sp, u);
    set_on_read_func = λ u cb.
        let (n, v) = SpUnix.set_on_read_func u.sp cb in
        (int_of n, record { sp = v; device = u.device; sound = (set-IsSound u.sp u.sound 0 cb).1 });
    set_next_read_len = λ u len.
        let (n, v) = SpUnix.set_next_read_len u.sp len in
        (
          int_of n,
          record { sp = v; device = u.device; sound = (set-IsSound u.sp u.sound len true).0 },
        );
    suspend = λ u flag.
        let (n, v) = SpUnix.suspend u.sp flag in
        (int_of n, record { sp = v; device = u.device; sound = suspend-IsSound u.sp u.sound flag });
    set_timeouts = λ u st. (int_of (SpUnix.set_timeouts u.sp).0, u);
    timeouts = λ u st. ((int_of (SpUnix.timeouts u.sp).0, st), u);
  }

  unfoldable pub create :
      (recv l2 l1 swap : ℕ)
      → l2 + max_buffer_len < 2 ^ 64
      → l1 + max_buffer_len < 2 ^ 64
      → swap + max_buffer_len < 2 ^ 64
      → swap ≢ l1
      → Device
      → UnixPort
  create recv l2 l1 swap low2 low1 low_swap apart device = record {
    sp = SpUnix.create recv l2 l1 swap;
    device = device;
    sound = new-IsSound s recv l2 l1 swap low2 low1 low_swap apart;
  }

  module _ (old : String) (opened seconds : ℤ) where
    -- An ISP on Unix whose port is neither open nor suspended: `init` returns 0 exactly if the name
    -- is not empty, `open` and the calls of the terminal succeed and the settings are supported.
    -- After it `send` returns the number of the bytes given, or -2 for more than 10240; after an
    -- `init` with another result it returns -1.
    pub answer-init :
        (u : UnixPort) (sp : SpInit) (pdata : List ℕ)
        → has_fd u.sp.sp_fd ≡ false
        → u.sp.sp_suspend ≡ false
        → let (code, d) = Isp.init (unix old opened seconds) (some u) sp in
          let (sent, _) = Isp.send (unix old opened seconds) d pdata in
          ((code ≡ pos 0) ↔ Opens s a sp opened) × (sent ≡ answer (is_zero code) pdata)
    unfolding Isp.init Isp.send
    answer-init u sp pdata closed awake =
        let (code, v, _) = SpUnix.init s a old opened u.sp u.device sp in
        let (opens, open_now, _) = init-Opens s a sp old opened u.sp u.device closed in
        let sound = init-IsSound s a old opened u.sp u.device sp u.sound in
        let (r, e, _) = send-IsSound v sound pdata in
        let (to, from) = int_of-zero code in
        (
          ((λ h. opens.0 (to h)), λ h. from (opens.1 h)),
          result_of (send-answer v pdata (init-suspend s a sp old opened u.sp u.device ∙ awake)) e
              ∙ ap (λ b. answer b pdata) (open_now ∙ sym (is_zero-int_of code)),
        )
