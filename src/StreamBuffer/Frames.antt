-- ===== src/StreamBuffer/Frames.antt =====
-- `getNextFrame`, beside `Framing.next` on the bytes that the buffer holds.
use octcommu.Shared.{
  ℕ, ◌+◌, ◌≤◌, ◌<◌, ◌≡◌, sym, ◌∙◌, ap, Bool, true, false, none, arith, length, ltb, take,
  Bool-cases, inl, inr,
}
use octcommu.StreamBuffer.{StreamBuffer, find_start_frame_header_pos, after_find, get_next_frame}
use octcommu.StreamBuffer.Valid.{IsValid, contents, length-contents}
use octcommu.StreamBuffer.Append.{SameConfig-trans}
use octcommu.StreamBuffer.Framing.{cut, next, next_found, next_missed, next_short}
use octcommu.StreamBuffer.Refine.{Finds, find-Finds, Takes, take_frame-Takes, same_config}

get_next_frame_short :
    (b : StreamBuffer) → b.end_pos < b.start_pos + b.frame_len → get_next_frame b ≡ (none, b)
unfolding get_next_frame
get_next_frame_short b h = ground arith

get_next_frame_long :
    (b : StreamBuffer)
    → b.start_pos + b.frame_len ≤ b.end_pos
    → get_next_frame b ≡ after_find (find_start_frame_header_pos b)
unfolding get_next_frame
get_next_frame_long b h = ground arith

after_find-Takes :
    {b : StreamBuffer} {r : Bool × StreamBuffer}
    → b.frame_len ≤ length (contents b)
    → Finds b r
    → Takes (next (take b.head_valid_len b.head) b.frame_len) b (after_find r)
after_find-Takes {b} {r = (true, c)} long f =
    let t = take_frame-Takes f.valid in
    record {
      returns =
          t.returns
          ∙ ap (λ (n : ℕ). cut n (contents c)) f.same.frame_len
          ∙ sym (
              next_found (take b.head_valid_len b.head) b.frame_len (contents b) (contents c) long
                (sym f.found));
      valid = t.valid;
      same = SameConfig-trans f.same t.same;
    }
after_find-Takes {b} {r = (false, c)} long f = record {
  returns = sym (
      next_missed (take b.head_valid_len b.head) b.frame_len (contents b) (contents c) long
        (sym f.found));
  valid = f.valid;
  same = f.same;
}

-- On a valid buffer the call returns the frame that `next` cuts from the bytes held, leaves the
-- bytes that `next` leaves, keeps the buffer valid and changes no setting.
pub get_next_frame-Takes :
    {b : StreamBuffer}
    → IsValid b
    → Takes (next (take b.head_valid_len b.head) b.frame_len) b (get_next_frame b)
get_next_frame-Takes {b} v = elim (Bool-cases (ltb b.end_pos (b.start_pos + b.frame_len))) [
  | inl short ↦ rw (get_next_frame_short b (ground arith)) (record {
    returns = sym (
        next_short (take b.head_valid_len b.head) b.frame_len (contents b)
          (ground (arith, length-contents v)));
    valid = v;
    same = same_config;
  })
  | inr long ↦
      rw (get_next_frame_long b (ground arith))
        (after_find-Takes (ground (arith, length-contents v)) (find-Finds v))
]
