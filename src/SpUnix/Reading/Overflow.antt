-- ===== src/SpUnix/Reading/Overflow.antt =====
-- A read event with more bytes than were announced.
use octcommu.Shared.{
  ℕ, ◌+◌, ◌-◌, ◌≤◌, ◌<◌, ◌≡◌, refl, ◌∙◌, List, [], ◌∷◌, none, true, arith, length, pos, ==-false,
  memcpy-none, memcpy, ltb, false,
}
use octcommu.FixedBuffer
use octcommu.FixedBuffer.{FixedBuffer}
use octcommu.SpUnix.{SpUnix, max_buffer_len}
use octcommu.SpUnix.Reading.{ReadResult, got, read_loop, read_event}
use octcommu.SpUnix.Reading.Parts.{At, read_part, moved-At}
use octcommu.SpUnix.Reading.Events.{emptied-At, read_available-none, read_event-available}

-- A part that does not fit behind the others is written past the end.
read_over :
    (k : ℕ) {b : FixedBuffer} (p : At k b) (a : List ℕ) (available count : ℕ) (rs : List ReadResult)
    → 0 < length a
    → max_buffer_len < k + length a
    → count < available
    → read_loop available count (got a ∷ rs) b ≡ none
unfolding read_loop FixedBuffer.write_cur
read_over k p [] available count rs some_bytes over less = absurd (omega arith)
read_over k {b} p (x ∷ bs) available count rs some_bytes over less =
    rw (==-false available count (omega arith), before, outside) refl
  where
    before : ltb b.cur b.addr ≡ false
    before = ground (arith, p.pointer)

    outside : memcpy b.bytes (b.cur - b.addr) (x ∷ bs) ≡ none
    outside =
        memcpy-none b.bytes (b.cur - b.addr) (x ∷ bs) (omega (arith, p.pointer, p.sized, over))

-- `a` and `b`, not empty, are fewer bytes than the `n` announced, up to 10240. The third `read` may
-- then bring as many as `n` without those of `b` alone, since the count forgets those of `a`: if
-- the three do not fit in 10240 bytes, it writes past the end of the receive buffer.
pub read_event-read_loop :
    (u : SpUnix) (a b c : List ℕ) (n : ℕ) (rs : List ReadResult)
    → length u.recv_buffer.bytes ≡ max_buffer_len
    → 0 < length a
    → 0 < length b
    → length a + length b < n
    → n ≤ max_buffer_len
    → length c ≤ n - length b
    → max_buffer_len < length a + length b + length c
    → read_event (got a ∷ got b ∷ got c ∷ rs) true (pos n) u ≡ none
read_event-read_loop u a b c n rs sized some_a some_b less room asked over =
    let first = emptied-At u sized in
    let second = moved-At 0 first a (length a) (omega arith) in
    let third = moved-At (length a) second b (length a + length b) refl in
    read_event-available u sized n (got a ∷ got b ∷ got c ∷ rs) (omega arith) room
    ∙ read_available-none u sized n (got a ∷ got b ∷ got c ∷ rs) (
        read_part 0 first a n 0 (got b ∷ got c ∷ rs) some_a (omega arith) (omega arith)
        ∙ read_part (length a) second b n (length a) (got c ∷ rs) some_b (omega arith) (omega arith)
        ∙ read_over (length a + length b) third c n (length b) rs (omega arith) over (omega arith))
