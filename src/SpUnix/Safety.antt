-- ===== src/SpUnix/Safety.antt =====
-- What every call and event of a serial port keeps: buffers of their size.
pub mod Steps
mod Tests
use octcommu.Shared.{
  Ensures, Ensures-bind, Ensures-if, Ensures-any, Ensures-at, ◌-◌, leb, take, ℕ, zero, suc, ◌+◌,
  ◌≤◌, ◌<◌, ◌≡◌, ◌≢◌, refl, sym, ◌∙◌, ap, Bool, true, false, not, inl, inr, Bool-cases,
  Option-cases, some≢none, List, [], ◌∷◌, Option, none, some, arith, length, ltb, ltb→le, ◌==◌,
  if◌then◌else◌, ◌>>=◌, ℤ, pos, negsuc, length-overwrite, overwrite, memcpy, ℕ_discrete,
}
use mathlib.Core.Path.{subst}
use octcommu.FixedBuffer
use octcommu.FixedBuffer.{FixedBuffer}
use octcommu.FixedBuffer.Valid.{IsValid, append_lem, length_of-valid}
use octcommu.SpBuffer
use octcommu.SpBuffer.{SpBuffer}
use octcommu.SpBuffer.Laws
use octcommu.SpBuffer.Safety.{append-IsValid, data_to-IsValid}
use octcommu.SpUnix.{SpUnix, max_buffer_len, has_fd, is_open, set_error_msg, send}
use octcommu.SpUnix.Sending.{
  WriteResult, load_l1, load_l2, write_loop, payload, flush_all_data, write_event,
}
use octcommu.SpUnix.Sending.Flush.{HasCaches, load_idle, idle, idle-HasCaches, counted}
use octcommu.SpUnix.Sending.Delivery.{load_loaded, loaded, loaded-HasCaches}
use octcommu.SpUnix.Api.{reset-IsValid, append-cleared, cached, Cached}
use octcommu.SpUnix.Reading.{
  ReadResult, got, again, failed, read_loop, read_available, read_event, on_read_data, push_loop,
  push_data_2_client,
}

-- The buffers of a port: those that bytes are sent from, at different places, with nothing in the
-- second cache; the one that bytes are read into; and the bytes that wait.
pub record Sound (swap l1 l2 recv : FixedBuffer) (waiting : SpBuffer) : Type 0 where
  pub swap_cache : IsValid max_buffer_len swap
  pub first : IsValid max_buffer_len l1
  pub second : IsValid max_buffer_len l2
  pub apart : swap.addr ≢ l1.addr
  pub second_empty : l2.current_len ≡ 0
  pub receives : length recv.bytes ≡ max_buffer_len
  pub waits : SpBuffer.Laws.IsValid max_buffer_len waiting

abbrev pub IsSound : SpUnix → Type 0
IsSound u = Sound u.send_swap_cache u.send_l1_cache u.send_l2_cache u.recv_buffer u.sp_buf

caches : (u : SpUnix) → IsSound u → HasCaches u
caches u s = record {
  swap_cache = s.swap_cache;
  l1 = s.first;
  l2 = s.second;
  apart = s.apart;
  l2_empty = s.second_empty;
}

with_caches :
    {u : SpUnix} {recv : FixedBuffer} {waiting : SpBuffer}
    → HasCaches u
    → length recv.bytes ≡ max_buffer_len
    → SpBuffer.Laws.IsValid max_buffer_len waiting
    → Sound u.send_swap_cache u.send_l1_cache u.send_l2_cache recv waiting
with_caches c r w = record {
  swap_cache = c.swap_cache;
  first = c.l1;
  second = c.l2;
  apart = c.apart;
  second_empty = c.l2_empty;
  receives = r;
  waits = w;
}

module _ (u : SpUnix) (s : IsSound u) where
  -- `send` on a port with sound buffers writes only inside them and leaves them sound, whatever is
  -- sent.
  pub send-IsSound : (p : List ℕ) → (r : ℤ × SpUnix) × (send u p ≡ some r) × IsSound r.1
  unfolding send is_open set_error_msg
  send-IsSound p = elim (Bool-cases (has_fd u.sp_fd)) [
    | inr e ↦ ((negsuc 0, record u { error_str = "sp doesnt open" }), simp e refl, s)
    | inl e ↦ elim (Bool-cases u.sp_suspend) [
      | inl f ↦ ((pos 0, record u { error_str = "the serial has suspended" }), simp (e, f) refl, s)
      | inr f ↦ elim (Bool-cases (ltb max_buffer_len (length p))) [
        | inl g ↦ (
          (
            negsuc 1,
            record u { error_str = "failed to send, MAX_SEND_BUFFER_LEN(1024 * 10) < len" },
          ),
          simp (e, f, g) refl,
          s,
        )
        | inr g ↦
            let (b, a, k) = append-cleared u p (caches u s) (ltb→le max_buffer_len (length p) g) in
            (
              (pos (length p), cached u p (caches u s) b),
              simp (e, f, g, a) refl,
              with_caches k.caches s.receives s.waits,
            )
      ]
    ]
  ]

  pub on_read_data-IsSound : (p : List ℕ) → (v : SpUnix) × (on_read_data u p ≡ some v) × IsSound v
  unfolding on_read_data
  on_read_data-IsSound p =
      let (r, e, w) = append-IsValid max_buffer_len s.waits p in
      (
        record u { recv_bytes = u.recv_bytes + length p; sp_buf = r.1; pending = suc u.pending },
        rw e refl,
        with_caches (caches u s) s.receives w,
      )

  -- On every call of itself `flushAllData` leaves the buffers sound.
  load-IsSound : IsSound (load_l1 (load_l2 u))
  load-IsSound = elim (ℕ_discrete u.send_l1_cache.current_len 0) [
    | yes e ↦
        subst IsSound (sym (load_idle u (caches u s) e))
          (with_caches (idle-HasCaches (caches u s)) s.receives s.waits)
    | no e ↦
        subst IsSound (sym (load_loaded u (caches u s) (omega arith)))
          (with_caches (loaded-HasCaches (caches u s) 0) s.receives s.waits)
  ]

-- What becomes of the buffers, if a call or an event ends.
abbrev pub Keeps : {A : Type 0} → Option (A × SpUnix) → Type 0
Keeps = Ensures λ r. IsSound r.1

pub flush_all_data-Keeps :
    (fuel : ℕ) (rs : List WriteResult) (u : SpUnix) → IsSound u → Keeps (flush_all_data fuel rs u)
unfolding flush_all_data
flush_all_data-Keeps zero rs u s = Ensures.nothing
flush_all_data-Keeps (suc fuel) rs u s =
    let v = load_l1 (load_l2 u) in
    let k = load-IsSound u s in
    Ensures-bind (Ensures-any (write_loop (payload v) 0 rs)) λ r _.
      Ensures-if (FixedBuffer.length_of max_buffer_len v.send_swap_cache == r.0)
        (Ensures-bind (flush_all_data-Keeps fuel rs (counted v r.0) k) λ q w. Ensures.result w)
        (Ensures.result k)

pub write_event-Keeps :
    (fuel : ℕ) (rs : List WriteResult) (writable : Bool) (u : SpUnix)
    → IsSound u
    → Keeps (write_event fuel rs writable u)
unfolding write_event
write_event-Keeps fuel rs writable u s =
    Ensures-if u.listen_to_write
      (Ensures-if writable (flush_all_data-Keeps fuel rs u s) (Ensures.result s)) (Ensures.result s)

module _ (n : ℕ) where
  write_cur-sized :
      (b : FixedBuffer) (xs : List ℕ)
      → length b.bytes ≡ n
      → Ensures (λ filled. length filled ≡ n) (FixedBuffer.write_cur max_buffer_len b xs)
  unfolding FixedBuffer.write_cur
  write_cur-sized b xs e = Ensures-if (ltb b.cur b.addr) Ensures.nothing (
      Ensures-if (leb (b.cur - b.addr + length xs) (length b.bytes))
        (Ensures.result (length-overwrite b.bytes (b.cur - b.addr) xs ∙ e)) Ensures.nothing)

  read_loop-sized :
      (available count : ℕ) (rs : List ReadResult) (b : FixedBuffer)
      → length b.bytes ≡ n
      → Ensures (λ c. length c.bytes ≡ n) (read_loop available count rs b)
  unfolding read_loop FixedBuffer.move_to FixedBuffer.set_valid_len
  read_loop-sized available count [] b e =
      Ensures-if (available == count) (Ensures.result e) Ensures.nothing
  read_loop-sized available count (got [] ∷ rs) b e = Ensures.result e
  read_loop-sized available count (got (x ∷ bs) ∷ rs) b e =
      Ensures-if (available == count) (Ensures.result e) (
        Ensures-bind (write_cur-sized b (x ∷ bs) e) λ filled f.
          Ensures-if (length (x ∷ bs) == available - count) (Ensures.result f) (
            read_loop-sized available (length (x ∷ bs)) rs
              (FixedBuffer.move_to max_buffer_len (record b { bytes = filled }) (length (x ∷ bs)))
              f))
  read_loop-sized available count (again ∷ rs) b e =
      Ensures-if (available == count) (Ensures.result e) (read_loop-sized available count rs b e)
  read_loop-sized available count (failed ∷ rs) b e = Ensures.result e

module _ (u : SpUnix) (s : IsSound u) where
  read_available-IsSound :
      (rs : List ReadResult) (available : ℕ) → Ensures IsSound (read_available rs available u)
  unfolding read_available FixedBuffer.reset
  read_available-IsSound rs available =
      Ensures-bind
        (read_loop-sized max_buffer_len available 0 rs
          (FixedBuffer.reset max_buffer_len u.recv_buffer) s.receives)
        λ filled e.
          let v = record u { recv_buffer = filled } in
          let k = with_caches (caches u s) e s.waits in
          let (w, f, l) = on_read_data-IsSound v k (take filled.current_len filled.bytes) in
          Ensures-if (filled.current_len == 0) (Ensures.result k) (Ensures-at f l)

  pub read_event-IsSound :
      (rs : List ReadResult) (readable : Bool) (ready : ℤ)
      → Ensures IsSound (read_event rs readable ready u)
  unfolding read_event
  read_event-IsSound rs false ready = Ensures.result s
  read_event-IsSound rs true (negsuc n) = Ensures.result s
  read_event-IsSound rs true (pos zero) = Ensures.result s
  read_event-IsSound rs true (pos (suc n)) =
      Ensures-if (ltb max_buffer_len (suc n)) (Ensures.result s) (read_available-IsSound rs (suc n))

  pub push_data_2_client-Keeps : (fuel : ℕ) → Keeps (push_data_2_client fuel u)
  unfolding push_data_2_client
  push_data_2_client-Keeps fuel =
      let (r, e, w, _) = data_to-IsValid max_buffer_len s.waits in
      Ensures-bind (Ensures-at {P = λ r. SpBuffer.Laws.IsValid max_buffer_len r.1} e w) λ r w.
        let k = with_caches {recv = u.recv_buffer} (caches u s) s.receives w in
        Ensures-if (r.0 == 0)
          (Ensures-bind (Ensures-any (push_loop fuel u.next_read_len u.recv_func r.2))
            λ q _. Ensures.result k)
          (Ensures.result k)
