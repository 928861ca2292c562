-- ===== src/SpUnix/Safety/Steps.antt =====
-- The states that a port can reach by the calls of the application, the events of its thread and
-- the tasks of the pool, in any order.
use octcommu.Shared.{
  ℕ, zero, suc, ◌≡◌, ◌≢◌, refl, Bool, true, Bool-cases, inl, inr, String, List, Option, none, some,
  ◌==◌, ℤ, pos, negsuc, Ensures-at, ◌+◌, ◌<◌, ◌^◌, result_of, Ensures, Ensures-if, arith,
  length-replicate,
}
use octcommu.FixedBuffer
use octcommu.FixedBuffer.Valid.{create-IsValid}
use octcommu.SpBuffer
use octcommu.SpBuffer.{SpBuffer}
use octcommu.SpBuffer.Laws
use octcommu.SpBuffer.Safety.{data_to-IsValid}
use octcommu.SpParams.{SpInit, param_is_ok}
use octcommu.Termios.{System, Answers, Device, init_sp_property}
use octcommu.SpUnix.{
  SpUnix, create, max_buffer_len, has_fd, is_open, set_error_msg, close_sp, open_failed,
  after_property, init, init_sp, send, shutdown, suspend, set_next_read_len, set_on_read_func,
  recv_speed, send_speed,
}
use octcommu.SpUnix.Sending.{WriteResult, write_event}
use octcommu.SpUnix.Poller.{Round, failed, poll_once}
use octcommu.SpUnix.Reading.{ReadResult, read_event, on_read_data, push_data_2_client}
use octcommu.SpUnix.Safety.{
  IsSound, send-IsSound, on_read_data-IsSound, write_event-Keeps, read_event-IsSound,
  push_data_2_client-Keeps,
}

-- The answers of the system are those of each call.
pub data Step (s : System) (u : SpUnix) : SpUnix → Type 0 where
  inited :
      (a : Answers) (old : String) (opened : ℤ) (port : Device) (sp : SpInit)
      → Step s u (init s a old opened u port sp).1
  sent : (p : List ℕ) (code : ℤ) {v : SpUnix} → send u p ≡ some (code, v) → Step s u v
  shut : Step s u (shutdown u).1
  suspended : (flag : Bool) → Step s u (suspend u flag).1
  next_len : (len : ℕ) → Step s u (set_next_read_len u len).1
  read_func : (cb : Bool) → Step s u (set_on_read_func u cb).1
  received_speed : (elapsed_s : ℤ) → Step s u (recv_speed u elapsed_s).1
  sent_speed : (elapsed_s : ℤ) → Step s u (send_speed u elapsed_s).1
  wrote :
      (fuel : ℕ) (rs : List WriteResult) (writable : Bool) (out : List ℕ) {v : SpUnix}
      → write_event fuel rs writable u ≡ some (out, v)
      → Step s u v
  read :
      (rs : List ReadResult) (readable : Bool) (ready : ℤ) {v : SpUnix}
      → read_event rs readable ready u ≡ some v
      → Step s u v
  pushed :
      (fuel : ℕ) (cs : List (List ℕ)) {v : SpUnix}
      → push_data_2_client fuel u ≡ some (cs, v)
      → Step s u v
  unselected :
      (fuel : ℕ) (r : Round) (select_err_count n : ℕ) (out : List ℕ) {v : SpUnix}
      → poll_once fuel failed r select_err_count u ≡ some (out, n, v)
      → Step s u v

-- `recv`, `l2`, `l1` and `swap` are the addresses of the buffers.
pub data Reach (s : System) (recv l2 l1 swap : ℕ) : SpUnix → Type 0 where
  new : Reach s recv l2 l1 swap (create recv l2 l1 swap)
  next : {u v : SpUnix} → Reach s recv l2 l1 swap u → Step s u v → Reach s recv l2 l1 swap v

module _ (u : SpUnix) (k : IsSound u) where
  pub shutdown-IsSound : IsSound (shutdown u).1
  unfolding shutdown is_open set_error_msg
  shutdown-IsSound = elim (Bool-cases (has_fd u.sp_fd)) [ inl e ↦ simp e k | inr e ↦ simp e k ]

  pub suspend-IsSound : (flag : Bool) → IsSound (suspend u flag).1
  unfolding suspend is_open set_error_msg
  suspend-IsSound flag = elim (Bool-cases (has_fd u.sp_fd)) [ inl e ↦ simp e k | inr e ↦ simp e k ]

  after-IsSound :
      (s : System) (a : Answers) (r : ℤ × Option String × Device)
      → IsSound (after_property s a u r).1
  unfolding close_sp
  after-IsSound s a (pos zero, text, port) = elim (Bool-cases u.sp_init.is_to_recv) [
    | inl e ↦ simp e k
    | inr e ↦ simp e k
  ]
  after-IsSound s a (pos (suc n), none, port) = k
  after-IsSound s a (pos (suc n), some text, port) = k
  after-IsSound s a (negsuc n, none, port) = k
  after-IsSound s a (negsuc n, some text, port) = k

  pub speed-IsSound :
      (elapsed_s : ℤ) → IsSound (recv_speed u elapsed_s).1 × IsSound (send_speed u elapsed_s).1
  unfolding recv_speed send_speed
  speed-IsSound elapsed_s = (k, k)

  pub set-IsSound :
      (len : ℕ) (cb : Bool)
      → IsSound (set_next_read_len u len).1 × IsSound (set_on_read_func u cb).1
  unfolding set_next_read_len set_on_read_func
  set-IsSound len cb = (k, k)

  unselected-IsSound :
      (fuel : ℕ) (r : Round) (count : ℕ)
      → Ensures (λ q. IsSound q.2) (poll_once fuel failed r count u)
  unfolding poll_once set_error_msg
  unselected-IsSound fuel r count = Ensures-if (count == 10) (Ensures.result k) (Ensures.result k)

module _ (s : System) where
  init_sp-IsSound :
      (a : Answers) (opened : ℤ) (u : SpUnix) (port : Device)
      → IsSound u
      → IsSound (init_sp s a opened u port).1
  unfolding init_sp set_error_msg close_sp
  init_sp-IsSound a opened u port k = elim (Bool-cases (open_failed opened)) [
    | inl e ↦ simp e k
    | inr e ↦
        simp e
          (after-IsSound (record u { sp_fd = opened }) k s a (init_sp_property s a u.sp_init port))
  ]

  pub init-IsSound :
      (a : Answers) (old : String) (opened : ℤ) (u : SpUnix) (port : Device) (sp : SpInit)
      → IsSound u
      → IsSound (init s a old opened u port sp).1
  unfolding init set_error_msg
  init-IsSound a old opened u port sp k = elim (Bool-cases ((param_is_ok old sp).0 == 0)) [
    | inl e ↦ simp e (init_sp-IsSound a opened (record u { sp_init = sp }) port k)
    | inr e ↦ simp e k
  ]

  Step-IsSound : {u v : SpUnix} → IsSound u → Step s u v → IsSound v
  Step-IsSound {u} k (Step.inited a old opened port sp) = init-IsSound a old opened u port sp k
  Step-IsSound {u} k (Step.sent p code e) =
      let (r, f, l) = send-IsSound u k p in result_of (Ensures-at {P = λ r. IsSound r.1} f l) e
  Step-IsSound {u} k (Step.unselected fuel r count n out e) =
      result_of (unselected-IsSound u k fuel r count) e
  Step-IsSound {u} k Step.shut = shutdown-IsSound u k
  Step-IsSound {u} k (Step.suspended flag) = suspend-IsSound u k flag
  Step-IsSound {u} k (Step.next_len len) = (set-IsSound u k len true).0
  Step-IsSound {u} k (Step.read_func cb) = (set-IsSound u k 0 cb).1
  Step-IsSound {u} k (Step.received_speed t) = (speed-IsSound u k t).0
  Step-IsSound {u} k (Step.sent_speed t) = (speed-IsSound u k t).1
  Step-IsSound {u} k (Step.wrote fuel rs writable out e) =
      result_of (write_event-Keeps fuel rs writable u k) e
  Step-IsSound {u} k (Step.read rs readable ready e) =
      result_of (read_event-IsSound u k rs readable ready) e
  Step-IsSound {u} k (Step.pushed fuel cs e) = result_of (push_data_2_client-Keeps u k fuel) e

  module _ (recv l2 l1 swap : ℕ) (low2 : l2 + max_buffer_len < 2 ^ 64)
      (low1 : l1 + max_buffer_len < 2 ^ 64) (low_swap : swap + max_buffer_len < 2 ^ 64)
      (apart : swap ≢ l1) where
    pub new-IsSound : IsSound (create recv l2 l1 swap)
    unfolding create FixedBuffer.create
    new-IsSound = record {
      swap_cache = create-IsValid max_buffer_len swap (omega arith) low_swap;
      first = create-IsValid max_buffer_len l1 (omega arith) low1;
      second = create-IsValid max_buffer_len l2 (omega arith) low2;
      apart = apart;
      second_empty = refl;
      receives = length-replicate {A = ℕ} max_buffer_len 0;
      waits = SpBuffer.Laws.reset-IsValid max_buffer_len;
    }

    Reach-IsSound : {u : SpUnix} → Reach s recv l2 l1 swap u → IsSound u
    Reach-IsSound Reach.new = new-IsSound
    Reach-IsSound (Reach.next r step) = Step-IsSound (Reach-IsSound r) step

    -- In every state that a port reaches from its constructor, by any calls, events that end and
    -- tasks, with any bytes and, in each call and event, any answers of the system: `send`, the `append` of received bytes and
    -- the `data` of `pushData2Client` write only inside their arrays, whatever bytes they get. The
    -- send buffers lie below 2 ^ 64, the first cache and the swap cache at different places.
    pub Reach-send :
        {u : SpUnix}
        → Reach s recv l2 l1 swap u
        → ((p : List ℕ) → (r : ℤ × SpUnix) × (send u p ≡ some r))
          × ((p : List ℕ) → (v : SpUnix) × (on_read_data u p ≡ some v))
          × ((r : ℕ × SpBuffer × SpBuffer) × (SpBuffer.data_to max_buffer_len u.sp_buf ≡ some r))
    Reach-send {u} r =
        let k = Reach-IsSound r in
        let (d, e, _, _) = data_to-IsValid max_buffer_len k.waits in
        (
          (λ p. let (c, f, _) = send-IsSound u k p in (c, f)),
          (λ p. let (v, f, _) = on_read_data-IsSound u k p in (v, f)),
          (d, e),
        )
