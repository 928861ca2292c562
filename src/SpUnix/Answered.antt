-- ===== src/SpUnix/Answered.antt =====
-- src/SerialPort/SPUnix.cpp: the result of `send`.
use octcommu.Shared.{
  ℕ, ◌≡◌, refl, Bool, false, Bool-cases, inl, inr, List, ltb, length, if◌then◌else◌, ℤ, pos, negsuc,
  Ensures, Ensures-bind, Ensures-any,
}
use octcommu.FixedBuffer
use octcommu.SpUnix.{SpUnix, max_buffer_len, has_fd, is_open, set_error_msg, send}

-- What `send` gives back on a port that is not suspended, by whether it is open.
abbrev pub answer : Bool → List ℕ → ℤ
answer open_now pdata =
    if open_now
    then (if ltb max_buffer_len (length pdata) then negsuc 1 else pos (length pdata))
    else negsuc 0

pub send-answer :
    (u : SpUnix) (pdata : List ℕ)
    → u.sp_suspend ≡ false
    → Ensures (λ r. r.0 ≡ answer (has_fd u.sp_fd) pdata) (send u pdata)
unfolding send is_open set_error_msg
send-answer u pdata awake = elim (Bool-cases (has_fd u.sp_fd)) [
  | inr e ↦ simp e (Ensures.result refl)
  | inl e ↦ elim (Bool-cases (ltb max_buffer_len (length pdata))) [
    | inl f ↦ simp (e, awake, f) (Ensures.result refl)
    | inr f ↦
        simp (e, awake, f)
          (Ensures-bind
            (Ensures-any (
              FixedBuffer.append max_buffer_len (FixedBuffer.reset max_buffer_len u.send_l1_cache)
                pdata))
            (λ b _. Ensures.result refl))
  ]
]
