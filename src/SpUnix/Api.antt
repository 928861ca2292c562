-- ===== src/SpUnix/Api.antt =====
-- `send` and the write event that follows it.
use octcommu.Shared.{
  ℕ, suc, ◌+◌, ◌≤◌, ◌<◌, ◌≡◌, refl, ◌∙◌, ap, List, some, none, arith, length, true, false, ◌⊎◌, inl,
  inr, ltb, pos,
}
use octcommu.FixedBuffer
use octcommu.FixedBuffer.{FixedBuffer}
use octcommu.FixedBuffer.Valid.{IsValid, contents, append_lem}
use octcommu.SpUnix.{SpUnix, max_buffer_len, has_fd, send}
use octcommu.SpUnix.Sending.{WriteResult, flush_all_data, write_event}
use octcommu.SpUnix.Sending.Loop.{Delivers}
use octcommu.SpUnix.Sending.Flush.{HasCaches, flush_all_data-none}
use octcommu.SpUnix.Sending.Delivery.{Still, flush_all_data-Delivers}

pub reset-IsValid :
    {b : FixedBuffer}
    → IsValid max_buffer_len b
    → IsValid max_buffer_len (FixedBuffer.reset max_buffer_len b)
unfolding FixedBuffer.reset
reset-IsValid v = record {
  sized = v.sized;
  pointer = omega arith;
  counted = omega arith;
  small = v.small;
  low = v.low;
}

-- What `send` leaves in the first cache.
pub record Cached (u : SpUnix) (p : List ℕ) (v : SpUnix) : Type 0 where
  pub caches : HasCaches v
  pub listens : v.listen_to_write ≡ true
  pub held :
      ((length p < max_buffer_len)
        × (contents v.send_l1_cache ≡ p)
        × (v.send_l1_cache.current_len ≡ length p))
      ⊎ ((length p ≡ max_buffer_len) × (v.send_l1_cache.current_len ≡ 0))
  pub sent : v.sent_bytes ≡ u.sent_bytes
  pub still : Still u v

write_event-flush :
    (fuel : ℕ) (rs : List WriteResult) (v : SpUnix)
    → v.listen_to_write ≡ true
    → write_event fuel rs true v ≡ flush_all_data fuel rs v
unfolding write_event
write_event-flush fuel rs v e = rw e refl

module _ (u : SpUnix) (p : List ℕ) (c : HasCaches u) where
  abbrev cleared : FixedBuffer
  cleared = FixedBuffer.reset max_buffer_len u.send_l1_cache

  abbrev pub cached : FixedBuffer → SpUnix
  cached b = record u { send_l1_cache = b; listen_to_write = true }

  send-cached :
      (b : FixedBuffer)
      → has_fd u.sp_fd ≡ true
      → u.sp_suspend ≡ false
      → length p ≤ max_buffer_len
      → FixedBuffer.append max_buffer_len cleared p ≡ some b
      → send u p ≡ some (pos (length p), cached b)
  unfolding send
  send-cached b open_now running fits e = rw (open_now, running, not_long, e)
    where
      not_long : ltb max_buffer_len (length p) ≡ false
      not_long = ground (arith, fits)

  pub append-cleared :
      length p ≤ max_buffer_len
      → (b : FixedBuffer) × (FixedBuffer.append max_buffer_len cleared p ≡ some b)
        × Cached u p (cached b)
  unfolding FixedBuffer.reset
  append-cleared fits = elim (append_lem max_buffer_len (reset-IsValid c.l1) p) [
    | inl (room, (b, e, v, holds, count, _, place)) ↦ (
      b,
      e,
      record {
        caches = record {
          swap_cache = c.swap_cache;
          l1 = v;
          l2 = c.l2;
          apart = λ q. c.apart (q ∙ place);
          l2_empty = c.l2_empty;
        };
        listens = refl;
        held = inl (omega (arith, room), holds, omega (arith, count));
        sent = refl;
        still = record { fd = refl; suspended = refl; running = refl };
      },
    )
    | inr (full, e) ↦ (
      cleared,
      e,
      record {
        caches = record {
          swap_cache = c.swap_cache;
          l1 = reset-IsValid c.l1;
          l2 = c.l2;
          apart = c.apart;
          l2_empty = c.l2_empty;
        };
        listens = refl;
        held = inr (omega (arith, full), refl);
        sent = refl;
        still = record { fd = refl; suspended = refl; running = refl };
      },
    )
  ]

  -- With valid caches at different places, the second of them empty, `send` on an open port that is
  -- not suspended takes up to 10240 bytes, answers with their number and asks for write events.
  -- Fewer than 10240 bytes stand in the first cache afterwards, in place of any bytes not yet sent;
  -- exactly 10240 bytes are dropped, with the same answer.
  pub send-Cached :
      has_fd u.sp_fd ≡ true
      → u.sp_suspend ≡ false
      → length p ≤ max_buffer_len
      → (v : SpUnix) × (send u p ≡ some (pos (length p), v)) × Cached u p v
  send-Cached open_now running fits =
      let (b, e, k) = append-cleared fits in (cached b, send-cached b open_now running fits e, k)

  -- With valid caches at different places, the second of them empty, and an open port that is not
  -- suspended, 1 to 10239 bytes given to `send` make it ask for write events, and go out whole and
  -- in order on the next one that marks the port as writable, in whatever positive parts, with
  -- EAGAIN between them, `write` takes them. The event ends and stops asking for write events; the
  -- bytes it counts as sent are fewer than those that it sent.
  pub write_event-send :
      (fuel : ℕ) (rs : List WriteResult)
      → has_fd u.sp_fd ≡ true
      → u.sp_suspend ≡ false
      → 0 < length p
      → length p < max_buffer_len
      → Delivers (length p) rs
      → (v : SpUnix) × (w : SpUnix) × (send u p ≡ some (pos (length p), v))
        × (v.listen_to_write ≡ true)
        × (write_event (suc fuel) rs true v ≡ some (p, w))
        × HasCaches w
        × (w.listen_to_write ≡ false)
        × (w.sent_bytes < u.sent_bytes + length p)
  write_event-send fuel rs open_now running some_bytes room d =
      let (v, e, k) = send-Cached open_now running (omega arith) in
      elim k.held [
        | inl (_, holds, count) ↦
            let (w, f, caches, _, quiet, less, _) =
              flush_all_data-Delivers fuel rs v k.caches (omega (arith, count)) (rw count d) in
            (
              v,
              w,
              e,
              k.listens,
              write_event-flush (suc fuel) rs v k.listens
                  ∙ f
                  ∙ ap (λ (xs : List ℕ). some (xs, w)) holds,
              caches,
              quiet,
              omega (arith, less, count, k.sent),
            )
        | inr (full, _) ↦ absurd (omega arith)
      ]

  -- With valid caches at different places, the second of them empty, and an open port that is not
  -- suspended, after a `send` of no bytes or of 10240, the flush on the next write event never
  -- returns, whatever `write` answers.
  pub flush_all_data-send-none :
      (fuel : ℕ) (rs : List WriteResult)
      → has_fd u.sp_fd ≡ true
      → u.sp_suspend ≡ false
      → (length p ≡ 0) ⊎ (length p ≡ max_buffer_len)
      → (v : SpUnix) × (send u p ≡ some (pos (length p), v))
        × (v.listen_to_write ≡ true)
        × (flush_all_data fuel rs v ≡ none)
  flush_all_data-send-none fuel rs open_now running size =
      let (v, e, k) = send-Cached open_now running (omega (arith, size)) in
      (v, e, k.listens, flush_all_data-none fuel rs v k.caches (nothing v k))
    where
      nothing : (v : SpUnix) → Cached u p v → v.send_l1_cache.current_len ≡ 0
      nothing v k = omega (arith, size, k.held)
