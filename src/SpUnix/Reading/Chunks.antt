-- ===== src/SpUnix/Reading/Chunks.antt =====
-- What `pushData2Client` gives the application.
use octcommu.Shared.{
  ℕ, zero, suc, ◌+◌, ◌-◌, ◌≤◌, ◌<◌, ◌≡◌, refl, sym, ◌∙◌, ap, List, [], ◌∷◌, ◌++◌, none, some, arith,
  length, take, drop, slice, Bool, true, false, ltb, Bool-cases, ltb→lt, ltb→le, inl, inr,
  take_split, drop-drop, length-slice,
}
use octcommu.SpBuffer
use octcommu.SpBuffer.{SpBuffer, add_begin, valid_len}
use octcommu.SpBuffer.Laws.{IsValid, length-contents, data_to-append}
use octcommu.SpUnix.{SpUnix, max_buffer_len}
use octcommu.SpUnix.Reading.{push_loop, on_read_data, push_data_2_client}

-- `Pieces k xs cs`: the pieces `cs`, of `k` bytes each, are `xs` in order up to a rest of fewer
-- than `k` bytes.
pub data Pieces (k : ℕ) : List ℕ → List (List ℕ) → Type 0 where
  rest : {xs : List ℕ} → length xs < k → Pieces k xs []
  piece :
      {c xs : List ℕ} {cs : List (List ℕ)}
      → length c ≡ k
      → Pieces k xs cs
      → Pieces k (c ++ xs) (c ∷ cs)

module _ (size k : ℕ) (some_bytes : 0 < k) where
  moved-IsValid :
      {b : SpBuffer}
      → IsValid size b
      → b.start + k ≤ b.stop
      → IsValid size (record b { start = b.start + k })
  moved-IsValid v h = record { sized = v.sized; ordered = h; within = v.within }

  add_begin-moved :
      (b : SpBuffer) → b.start + k ≤ b.stop → (add_begin b k).1 ≡ record b { start = b.start + k }
  unfolding add_begin
  add_begin-moved b h = ground arith

  contents-split :
      (b : SpBuffer)
      → b.start + k ≤ b.stop
      → slice b.bytes b.start k ++ slice b.bytes (b.start + k) (b.stop - (b.start + k))
        ≡ SpBuffer.contents b
  contents-split b h = sym (
      take_split k (b.stop - (b.start + k)) (b.stop - b.start) (drop b.start b.bytes) (omega arith)
      ∙ ap (λ (ys : List ℕ). slice b.bytes b.start k ++ take (b.stop - (b.start + k)) ys)
          (drop-drop b.start k (b.start + k) b.bytes refl))

  -- A whole loop over the bytes of a buffer.
  push_loop-Pieces :
      (fuel : ℕ) (b : SpBuffer)
      → IsValid size b
      → b.stop - b.start < fuel
      → (cs : List (List ℕ)) × (x : SpBuffer) × (push_loop fuel k true b ≡ some (cs, x))
        × Pieces k (SpBuffer.contents b) cs
  unfolding push_loop valid_len
  push_loop-Pieces zero b v h = absurd (omega arith)
  push_loop-Pieces (suc fuel) b v h = elim (Bool-cases (ltb (b.stop - b.start) k)) [
    | inl few ↦ (
      [],
      b,
      rw few refl,
      Pieces.rest (omega (arith, ltb→lt (b.stop - b.start) k few, length-contents size v)),
    )
    | inr many ↦
        let room : b.start + k ≤ b.stop =
          omega (arith, ltb→le (b.stop - b.start) k many, v.ordered) in
        let (cs, x, e, p) =
          push_loop-Pieces fuel (record b { start = b.start + k }) (moved-IsValid v room)
            (omega arith) in
        (
          slice b.bytes b.start k ∷ cs,
          x,
          rw (many, add_begin-moved b room, e),
          rw (sym (contents-split b room))
              (Pieces.piece (length-slice b.bytes b.start k (omega (arith, v.sized, v.within))) p),
        )
  ]

-- With no length asked for, the loop does not end, whatever the buffer holds.
push_loop_zero : (fuel : ℕ) (has_func : Bool) (b : SpBuffer) → push_loop fuel 0 has_func b ≡ none
unfolding push_loop
push_loop_zero zero f b = refl
push_loop_zero (suc fuel) f b = rw (not_less, push_loop_zero fuel f (add_begin b 0).1)
  where
    not_less : ltb (valid_len b) 0 ≡ false
    not_less = ground arith

module _ (u : SpUnix) (p : List ℕ) (valid : IsValid max_buffer_len u.sp_buf)
    (empty : u.sp_buf.start ≡ u.sp_buf.stop)
    (room : u.sp_buf.stop + length p ≤ max_buffer_len) where
  -- If no bytes wait in a valid buffer and there is room behind its position, bytes read go to the
  -- application's function, if it is set, on the next call of `pushData2Client`: in order, in
  -- pieces of the length asked for, which is not 0; a rest that is shorter is dropped. The loop
  -- ends, with one round for each byte and one more as enough fuel.
  pub push_data_2_client-on_read_data :
      (fuel : ℕ)
      → u.recv_func ≡ true
      → 0 < u.next_read_len
      → length p < fuel
      → (v : SpUnix) × (w : SpUnix) × (cs : List (List ℕ)) × (on_read_data u p ≡ some v)
        × (push_data_2_client fuel v ≡ some (cs, w))
        × Pieces u.next_read_len p cs
        × (w.sp_buf.start ≡ w.sp_buf.stop)
  unfolding on_read_data push_data_2_client
  push_data_2_client-on_read_data fuel listens some_bytes enough =
      let (c, d, ins, e, f, _, none_left, ok, holds) =
        data_to-append max_buffer_len p valid empty room in
      let (cs, x, g, pieces) =
        push_loop-Pieces max_buffer_len u.next_read_len some_bytes fuel ins ok
          (omega (arith, length-contents max_buffer_len ok, ap length holds)) in
      (
        received c,
        record (received c) { sp_buf = d },
        cs,
        rw e refl,
        rw (f, listens, g),
        rw (sym holds) pieces,
        none_left,
      )
    where
      received : SpBuffer → SpUnix
      received c = record u {
        recv_bytes = u.recv_bytes + length p;
        sp_buf = c;
        pending = suc u.pending;
      }

  -- If no bytes wait in a valid buffer and there is room behind its position, then after bytes are
  -- read, with a length of 0 asked for, the next call of `pushData2Client` never returns.
  pub push_data_2_client_zero :
      (fuel : ℕ)
      → u.next_read_len ≡ 0
      → (v : SpUnix) × (on_read_data u p ≡ some v) × (push_data_2_client fuel v ≡ none)
  unfolding on_read_data push_data_2_client
  push_data_2_client_zero fuel zero_len =
      let (c, d, ins, e, f, _, _, _, _) = data_to-append max_buffer_len p valid empty room in
      (
        record u { recv_bytes = u.recv_bytes + length p; sp_buf = c; pending = suc u.pending },
        rw e refl,
        rw (f, zero_len, push_loop_zero fuel u.recv_func ins),
      )
