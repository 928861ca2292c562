-- ===== src/StreamBuffer/Append.antt =====
-- `append` on a valid buffer, where the bytes fit and where they do not.
use octcommu.Shared.{
  ℕ, take, drop, false, dec_le, some≢none, ◌+◌, ◌-◌, ◌≤◌, ◌<◌, ◌≡◌, refl, ◌∙◌, ap, ◌↔◌, inl, inr,
  none, some, List, ◌++◌, arith, length, ltb, leb, Bool-cases, overwrite, length-overwrite,
  slice-overwrite, memcpy-some,
}
use octcommu.StreamBuffer.{StreamBuffer, write_end, compact, append}
use octcommu.StreamBuffer.Valid.{IsValid, contents, length-contents}

-- The settings that only `init` and `release` change.
pub record SameConfig (b c : StreamBuffer) : Type 0 where
  pub head : c.head ≡ b.head
  pub head_valid_len : c.head_valid_len ≡ b.head_valid_len
  pub frame_len : c.frame_len ≡ b.frame_len
  pub total_buffer_len : c.total_buffer_len ≡ b.total_buffer_len

-- `c` holds what `b` held and then `bytes`.
pub record Extends (b : StreamBuffer) (bytes : List ℕ) (c : StreamBuffer) : Type 0 where
  pub valid : IsValid c
  pub holds : contents c ≡ contents b ++ bytes
  pub same : SameConfig b c

-- The buffer that `write_end` leaves.
abbrev filled : StreamBuffer → List ℕ → StreamBuffer
filled b bytes = record b {
  data_buffer = overwrite b.data_buffer b.end_pos bytes;
  end_pos = b.end_pos + length bytes;
}

filled-Extends :
    (b : StreamBuffer) (bytes : List ℕ)
    → IsValid b
    → b.end_pos + length bytes ≤ b.total_buffer_len
    → Extends b bytes (filled b bytes)
filled-Extends b bytes v h = record {
  valid = record {
    sized = length-overwrite b.data_buffer b.end_pos bytes ∙ v.sized;
    ordered = omega arith;
    within = h;
    headed = v.headed;
  };
  holds =
      slice-overwrite b.data_buffer b.start_pos (b.end_pos - b.start_pos) b.end_pos
        (b.end_pos + length bytes - b.start_pos) bytes (omega arith) (omega arith) (omega arith);
  same = record { head = refl; head_valid_len = refl; frame_len = refl; total_buffer_len = refl };
}

write_end-filled :
    (b : StreamBuffer) (bytes : List ℕ)
    → b.end_pos + length bytes ≤ length b.data_buffer
    → write_end b bytes ≡ some (filled b bytes)
unfolding write_end
write_end-filled b bytes h = ground arith

write_end-none :
    (b : StreamBuffer) (bytes : List ℕ)
    → length b.data_buffer < b.end_pos + length bytes
    → write_end b bytes ≡ none
unfolding write_end
write_end-none b bytes h = ground arith

-- The buffer that `compact` leaves where there are bytes to move.
abbrev moved : StreamBuffer → StreamBuffer
moved b = record b {
  data_buffer = overwrite b.data_buffer 0 (contents b);
  start_pos = 0;
  end_pos = b.end_pos - b.start_pos;
}

-- The bytes stand at the front, and the rest is as it was.
pub record IsCompacted (b c : StreamBuffer) : Type 0 where
  pub valid : IsValid c
  pub holds : contents c ≡ contents b
  pub same : SameConfig b c
  pub size : c.end_pos ≡ b.end_pos - b.start_pos

moved-IsCompacted : (b : StreamBuffer) → IsValid b → IsCompacted b (moved b)
moved-IsCompacted b v = record {
  valid = record {
    sized = length-overwrite b.data_buffer 0 (contents b) ∙ v.sized;
    ordered = omega arith;
    within = omega arith;
    headed = v.headed;
  };
  holds =
      slice-overwrite b.data_buffer 0 0 0 (b.end_pos - b.start_pos - 0) (contents b) (omega arith)
        (omega (arith, length-contents v)) (omega (arith, length-contents v));
  same = record { head = refl; head_valid_len = refl; frame_len = refl; total_buffer_len = refl };
  size = refl;
}

emptied-IsCompacted :
    (b : StreamBuffer)
    → IsValid b
    → b.end_pos ≤ b.start_pos
    → IsCompacted b (record b { start_pos = 0; end_pos = 0 })
emptied-IsCompacted b v h = record {
  valid = record {
    sized = v.sized;
    ordered = omega arith;
    within = omega arith;
    headed = v.headed;
  };
  holds = ap (λ (n : ℕ). take n (drop b.start_pos b.data_buffer)) none_left;
  same = record { head = refl; head_valid_len = refl; frame_len = refl; total_buffer_len = refl };
  size = none_left;
}
  where
    none_left : 0 ≡ b.end_pos - b.start_pos
    none_left = omega arith

compact_lem :
    (b : StreamBuffer) → IsValid b → (c : StreamBuffer) × (compact b ≡ some c) × IsCompacted b c
unfolding compact
compact_lem b v = elim (Bool-cases (ltb b.start_pos b.end_pos)) [
  | inl some_left ↦ (
    moved b,
    rw some_left (rw (memcpy-some b.data_buffer 0 (contents b) (omega (arith, length-contents v)))),
    moved-IsCompacted b v,
  )
  | inr none_left ↦ (
    record b { start_pos = 0; end_pos = 0 },
    rw none_left,
    emptied-IsCompacted b v (ground arith),
  )
]

pub SameConfig-trans : {b c d : StreamBuffer} → SameConfig b c → SameConfig c d → SameConfig b d
SameConfig-trans p q = record {
  head = q.head ∙ p.head;
  head_valid_len = q.head_valid_len ∙ p.head_valid_len;
  frame_len = q.frame_len ∙ p.frame_len;
  total_buffer_len = q.total_buffer_len ∙ p.total_buffer_len;
}

compact-filled-Extends :
    {b c : StreamBuffer} (bytes : List ℕ)
    → IsCompacted b c
    → b.end_pos - b.start_pos + length bytes ≤ b.total_buffer_len
    → Extends b bytes (filled c bytes)
compact-filled-Extends {b} {c} bytes k h =
    let e = filled-Extends c bytes k.valid (omega (arith, k.size, k.same.total_buffer_len)) in
    record {
      valid = e.valid;
      holds = e.holds ∙ ap (λ (xs : List ℕ). xs ++ bytes) k.holds;
      same = SameConfig-trans k.same e.same;
    }

-- In a valid buffer, bytes that are fewer than its size and fit behind the bytes still held are
-- kept, in order, and nothing else changes.
pub append-Extends :
    (b : StreamBuffer) (bytes : List ℕ)
    → IsValid b
    → length bytes < b.total_buffer_len
    → b.end_pos - b.start_pos + length bytes ≤ b.total_buffer_len
    → (c : StreamBuffer) × (append b bytes ≡ some c) × Extends b bytes c
unfolding append
append-Extends b bytes v small fits =
    elim (Bool-cases (leb (b.end_pos + length bytes) b.total_buffer_len)) [
      | inl room ↦ (
        filled b bytes,
        rw (not_large, room) (write_end-filled b bytes (ground (arith, v.sized))),
        filled-Extends b bytes v (ground arith),
      )
      | inr full ↦
          let (c, e, k) = compact_lem b v in
          (
            filled c bytes,
            rw (not_large, full, e)
                (write_end-filled c bytes
                  (omega (arith, k.size, k.same.total_buffer_len, k.valid.sized))),
            compact-filled-Extends bytes k fits,
          )
    ]
  where
    not_large : leb b.total_buffer_len (length bytes) ≡ false
    not_large = ground arith

-- The bytes still held leave no room for the new ones: the copy runs past the end of the array,
-- since nothing tests for room once the bytes have been moved.
append_overflows :
    (b : StreamBuffer) (bytes : List ℕ)
    → IsValid b
    → length bytes < b.total_buffer_len
    → b.total_buffer_len < b.end_pos - b.start_pos + length bytes
    → append b bytes ≡ none
unfolding append
append_overflows b bytes v small over =
    let (c, e, k) = compact_lem b v in
    rw (not_large, full, e)
      (write_end-none c bytes (omega (arith, k.size, k.same.total_buffer_len, k.valid.sized)))
  where
    not_large : leb b.total_buffer_len (length bytes) ≡ false
    not_large = ground arith

    full : leb (b.end_pos + length bytes) b.total_buffer_len ≡ false
    full = ground arith

append_ignores :
    (b : StreamBuffer) (bytes : List ℕ)
    → b.total_buffer_len ≤ length bytes
    → append b bytes ≡ some b
unfolding append
append_ignores b bytes h = ground arith

-- On a valid buffer `append` writes past the end of the array exactly when the input is below the
-- buffer's size and does not fit behind the bytes that are still held.
pub append-none_iff :
    (b : StreamBuffer) (bytes : List ℕ)
    → IsValid b
    → (append b bytes ≡ none) ↔ (
        (length bytes < b.total_buffer_len)
        × (b.total_buffer_len < b.end_pos - b.start_pos + length bytes))
append-none_iff b bytes v = (there, λ (small, over). append_overflows b bytes v small over)
  where
    there :
        append b bytes ≡ none
        → (length bytes < b.total_buffer_len)
          × (b.total_buffer_len < b.end_pos - b.start_pos + length bytes)
    there e = elim (dec_le b.total_buffer_len (length bytes)) [
      | yes large ↦ absurd (some≢none (append_ignores b bytes large) e)
      | no small ↦ elim (dec_le (b.end_pos - b.start_pos + length bytes) b.total_buffer_len) [
        | yes fits ↦ absurd (some≢none (append-Extends b bytes v (omega arith) fits).1 e)
        | no over ↦ (omega arith, omega arith)
      ]
    ]
