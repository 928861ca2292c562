-- ===== src/SpUnix/Lifecycle/Ordinary.antt =====
-- What the calls, events and tasks other than `init` and `shutdown` leave as it is: the descriptor,
-- the settings and the flag by which the thread runs.
use octcommu.Shared.{
  ℕ, zero, suc, ◌+◌, ◌≡◌, refl, ◌∙◌, Bool, true, false, Bool-cases, inl, inr, List, Option, ltb,
  ◌==◌, length, ℤ, pos, negsuc, Ensures, Ensures-bind, Ensures-if, Ensures-any, result_of,
}
use octcommu.FixedBuffer
use octcommu.SpBuffer
use octcommu.Termios.{System}
use octcommu.SpUnix.{
  SpUnix, max_buffer_len, has_fd, is_open, set_error_msg, send, suspend, set_next_read_len,
  set_on_read_func, recv_speed, send_speed,
}
use octcommu.SpUnix.Sending.{
  WriteResult, write_loop, load_l1, load_l2, payload, flush_all_data, write_event,
}
use octcommu.SpUnix.Reading.{
  ReadResult, read_event, read_available, read_loop, on_read_data, push_loop, push_data_2_client,
}
use octcommu.SpUnix.Poller.{Round, SelectResult, poll_once}
use octcommu.SpUnix.Safety.Steps.{Step}

abbrev pub Same : SpUnix → SpUnix → Type 0
Same u v =
    (v.sp_fd ≡ u.sp_fd)
    × (v.sp_init ≡ u.sp_init)
    × (v.recv_thread_is_running ≡ u.recv_thread_is_running)

pub is_ordinary : {s : System} {u v : SpUnix} → Step s u v → Bool
is_ordinary (Step.inited a old opened port sp) = false
is_ordinary Step.shut = false
is_ordinary (Step.sent p code e) = true
is_ordinary (Step.suspended flag) = true
is_ordinary (Step.next_len len) = true
is_ordinary (Step.read_func cb) = true
is_ordinary (Step.received_speed t) = true
is_ordinary (Step.sent_speed t) = true
is_ordinary (Step.wrote fuel rs writable out e) = true
is_ordinary (Step.read rs readable ready e) = true
is_ordinary (Step.pushed fuel cs e) = true
is_ordinary (Step.unselected fuel r count n out e) = true

module _ (u : SpUnix) where
  abbrev Keeps : {A : Type 0} → Option (A × SpUnix) → Type 0
  Keeps = Ensures λ r. Same u r.1

  send-Same : (p : List ℕ) → Keeps (send u p)
  unfolding send is_open set_error_msg
  send-Same p = elim (Bool-cases (has_fd u.sp_fd)) [
    | inr e ↦ simp e (Ensures.result (refl, refl, refl))
    | inl e ↦ simp e (
        Ensures-if u.sp_suspend (Ensures.result (refl, refl, refl)) (
          Ensures-if (ltb max_buffer_len (length p)) (Ensures.result (refl, refl, refl)) (
            Ensures-bind
              (Ensures-any (
                FixedBuffer.append max_buffer_len (FixedBuffer.reset max_buffer_len u.send_l1_cache)
                  p))
              λ b f. Ensures.result (refl, refl, refl))))
  ]

  suspend-Same : (flag : Bool) → Same u (suspend u flag).1
  unfolding suspend is_open set_error_msg
  suspend-Same flag = elim (Bool-cases (has_fd u.sp_fd)) [
    | inl e ↦ simp e (refl, refl, refl)
    | inr e ↦ simp e (refl, refl, refl)
  ]

  len-Same : (len : ℕ) → Same u (set_next_read_len u len).1
  unfolding set_next_read_len
  len-Same len = (refl, refl, refl)

  func-Same : (cb : Bool) → Same u (set_on_read_func u cb).1
  unfolding set_on_read_func
  func-Same cb = (refl, refl, refl)

  speed-Same : (t : ℤ) → Same u (recv_speed u t).1 × Same u (send_speed u t).1
  unfolding recv_speed send_speed
  speed-Same t = ((refl, refl, refl), (refl, refl, refl))

  load_l2-Same : Same u (load_l2 u)
  unfolding load_l2
  load_l2-Same = elim (Bool-cases (FixedBuffer.length_of max_buffer_len u.send_l2_cache == 0)) [
    | inl e ↦ rw e (refl, refl, refl)
    | inr e ↦ rw e (refl, refl, refl)
  ]

  load_l1-Same : Same u (load_l1 u)
  unfolding load_l1
  load_l1-Same = elim (Bool-cases (u.send_swap_cache.current_len == 0)) [
    | inl e ↦ elim (Bool-cases (FixedBuffer.length_of max_buffer_len u.send_l1_cache == 0)) [
      | inl f ↦ rw (e, f) (refl, refl, refl)
      | inr f ↦ rw (e, f) (refl, refl, refl)
    ]
    | inr e ↦ rw e (refl, refl, refl)
  ]

  push_data_2_client-Same : (fuel : ℕ) → Keeps (push_data_2_client fuel u)
  unfolding push_data_2_client
  push_data_2_client-Same fuel =
      Ensures-bind (Ensures-any (SpBuffer.data_to max_buffer_len u.sp_buf)) λ r e.
        Ensures-if (r.0 == 0)
          (Ensures-bind (Ensures-any (push_loop fuel u.next_read_len u.recv_func r.2))
            λ q f. Ensures.result (refl, refl, refl))
          (Ensures.result (refl, refl, refl))

  on_read_data-Same : (p : List ℕ) → Ensures (Same u) (on_read_data u p)
  unfolding on_read_data
  on_read_data-Same p =
      Ensures-bind (Ensures-any (SpBuffer.append max_buffer_len u.sp_buf p))
        λ r e. Ensures.result (refl, refl, refl)

read_available-Same :
    (u : SpUnix) (rs : List ReadResult) (available : ℕ)
    → Ensures (Same u) (read_available rs available u)
unfolding read_available
read_available-Same u rs available =
    Ensures-bind
      (Ensures-any (read_loop available 0 rs (FixedBuffer.reset max_buffer_len u.recv_buffer)))
      λ filled e.
        Ensures-if (filled.current_len == 0) (Ensures.result (refl, refl, refl))
          (on_read_data-Same (record u { recv_buffer = filled }) _)

read_event-Same :
    (u : SpUnix) (rs : List ReadResult) (readable : Bool) (ready : ℤ)
    → Ensures (Same u) (read_event rs readable ready u)
unfolding read_event
read_event-Same u rs false ready = Ensures.result (refl, refl, refl)
read_event-Same u rs true (negsuc n) = Ensures.result (refl, refl, refl)
read_event-Same u rs true (pos zero) = Ensures.result (refl, refl, refl)
read_event-Same u rs true (pos (suc n)) =
    Ensures-if (ltb max_buffer_len (suc n)) (Ensures.result (refl, refl, refl))
      (read_available-Same u rs (suc n))

loaded : (u : SpUnix) → Same u (load_l1 (load_l2 u))
loaded u =
    let a = load_l2-Same u in let b = load_l1-Same (load_l2 u) in (b.0 ∙ a.0, b.1 ∙ a.1, b.2 ∙ a.2)

flush_all_data-Same :
    (fuel : ℕ) (rs : List WriteResult) (u : SpUnix) → Keeps u (flush_all_data fuel rs u)
unfolding flush_all_data
flush_all_data-Same zero rs u = Ensures.nothing
flush_all_data-Same (suc fuel) rs u =
    let v = load_l1 (load_l2 u) in
    let k = loaded u in
    Ensures-bind (Ensures-any (write_loop (payload v) 0 rs)) λ r e.
      Ensures-if (FixedBuffer.length_of max_buffer_len v.send_swap_cache == r.0)
        (Ensures-bind (flush_all_data-Same fuel rs (record v { sent_bytes = v.sent_bytes + r.0 }))
          λ q w. Ensures.result (w.0 ∙ k.0, w.1 ∙ k.1, w.2 ∙ k.2))
        (Ensures.result k)

write_event-Same :
    (fuel : ℕ) (rs : List WriteResult) (writable : Bool) (u : SpUnix)
    → Keeps u (write_event fuel rs writable u)
unfolding write_event
write_event-Same fuel rs writable u =
    Ensures-if u.listen_to_write
      (Ensures-if writable (flush_all_data-Same fuel rs u) (Ensures.result (refl, refl, refl)))
      (Ensures.result (refl, refl, refl))

unselected-Same :
    (u : SpUnix) (fuel : ℕ) (r : Round) (count : ℕ)
    → Ensures (λ q. Same u q.2) (poll_once fuel SelectResult.failed r count u)
unfolding poll_once set_error_msg
unselected-Same u fuel r count =
    Ensures-if (count == 10) (Ensures.result (refl, refl, refl)) (Ensures.result (refl, refl, refl))

pub Step-Same : {s : System} {u v : SpUnix} (k : Step s u v) → is_ordinary k ≡ true → Same u v
unfolding is_ordinary
Step-Same {u} (Step.inited a old opened port sp) e = absurd cc
Step-Same {u} Step.shut e = absurd cc
Step-Same {u} (Step.sent p code e) f = result_of (send-Same u p) e
Step-Same {u} (Step.suspended flag) f = suspend-Same u flag
Step-Same {u} (Step.next_len len) f = len-Same u len
Step-Same {u} (Step.read_func cb) f = func-Same u cb
Step-Same {u} (Step.received_speed t) f = (speed-Same u t).0
Step-Same {u} (Step.sent_speed t) f = (speed-Same u t).1
Step-Same {u} (Step.wrote fuel rs writable out e) f =
    result_of (write_event-Same fuel rs writable u) e
Step-Same {u} (Step.read rs readable ready e) f = result_of (read_event-Same u rs readable ready) e
Step-Same {u} (Step.pushed fuel cs e) f = result_of (push_data_2_client-Same u fuel) e
Step-Same {u} (Step.unselected fuel r count n out e) f =
    result_of (unselected-Same u fuel r count) e
