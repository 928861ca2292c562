-- ===== src/SpUnix/Reading/Events.antt =====
-- A read event and the call of `pushData2Client` after it.
use octcommu.Shared.{
  ℕ, zero, suc, ◌+◌, ◌≤◌, ◌<◌, ◌≡◌, refl, ◌∙◌, ◌⊎◌, inl, inr, List, ◌∷◌, ◌++◌, some, none, true,
  arith, length, ltb, pos, replicate, length-append, ==-false, false,
}
use octcommu.FixedBuffer
use octcommu.FixedBuffer.{FixedBuffer}
use octcommu.SpBuffer.Laws.{IsValid}
use octcommu.SpUnix.{SpUnix, max_buffer_len}
use octcommu.SpUnix.Reading.{
  ReadResult, got, again, read_loop, read_available, read_event, on_read_data, push_data_2_client,
}
use octcommu.SpUnix.Reading.Parts.{
  Whole, Part, At, Filled, Fills, read-Whole, read_two_parts, read_three_parts,
}
use octcommu.SpUnix.Reading.Chunks.{Pieces, push_data_2_client-on_read_data}

module _ (u : SpUnix) (sized : length u.recv_buffer.bytes ≡ max_buffer_len) where
  abbrev pub emptied : FixedBuffer
  emptied = FixedBuffer.reset max_buffer_len u.recv_buffer

  pub emptied-At : At 0 emptied
  unfolding FixedBuffer.reset
  emptied-At = record { sized = sized; pointer = omega arith }

  abbrev after : FixedBuffer → SpUnix
  after b = record u { recv_buffer = b }

  read_available-Filled :
      (xs : List ℕ) (rs : List ReadResult) (b : FixedBuffer)
      → 0 < length xs
      → read_loop (length xs) 0 rs emptied ≡ some b
      → Filled xs b
      → read_available rs (length xs) u ≡ on_read_data (after b) xs
  unfolding read_available
  read_available-Filled xs rs b some_bytes e f =
      rw (e, f.count, ==-false (length xs) 0 (omega arith), f.held)

  pub read_available-none :
      (n : ℕ) (rs : List ReadResult)
      → read_loop n 0 rs emptied ≡ none
      → read_available rs n u ≡ none
  unfolding read_available
  read_available-none n rs e = rw e refl

  pub read_event-available :
      (n : ℕ) (rs : List ReadResult)
      → 0 < n
      → n ≤ max_buffer_len
      → read_event rs true (pos n) u ≡ read_available rs n u
  unfolding read_event
  read_event-available zero rs some_bytes room = absurd (omega arith)
  read_event-available (suc n) rs some_bytes room = rw fits
    where
      fits : ltb max_buffer_len (suc n) ≡ false
      fits = ground (arith, room)

  fills :
      (xs : List ℕ) (rs : List ReadResult)
      → 0 < length xs
      → length xs ≤ max_buffer_len
      → Whole xs rs ⊎ Part Whole xs rs
      → Fills xs (read_loop (length xs) 0 rs emptied)
  fills xs rs some_bytes room (inl w) = read-Whole w emptied-At some_bytes room
  fills xs rs some_bytes room (inr w) = read_two_parts w emptied-At room

  -- Bytes that wait at the port, up to 10240 of them, and that `read` brings in one part or in two,
  -- with EAGAIN before each, go to the application, if its function is set, on the next call of
  -- `pushData2Client`: in order, in pieces of the length asked for, which is not 0, and a rest that
  -- is shorter is dropped. The receive buffer has its size, the buffer behind it is valid, holds no
  -- bytes and has room behind its position. Both loops end, the second with one round for each byte
  -- and one more as enough fuel.
  pub push_data_2_client-read_event :
      (xs : List ℕ) (rs : List ReadResult) (fuel : ℕ)
      → u.recv_func ≡ true
      → IsValid max_buffer_len u.sp_buf
      → u.sp_buf.start ≡ u.sp_buf.stop
      → u.sp_buf.stop + length xs ≤ max_buffer_len
      → 0 < length xs
      → Whole xs rs ⊎ Part Whole xs rs
      → 0 < u.next_read_len
      → length xs < fuel
      → (v : SpUnix) × (w : SpUnix) × (cs : List (List ℕ)) × (read_event rs true (pos (length xs)) u
          ≡ some v)
        × (push_data_2_client fuel v ≡ some (cs, w))
        × Pieces u.next_read_len xs cs
  push_data_2_client-read_event xs rs fuel listens valid empty room some_bytes parts some_len
        enough =
      let (b, e, f) = fills xs rs some_bytes (omega (arith, room)) parts in
      let (v, w, cs, g, h, pieces, _) =
        push_data_2_client-on_read_data (after b) xs valid empty room fuel listens some_len
          enough in
      (
        v,
        w,
        cs,
        read_event-available (length xs) rs some_bytes (omega (arith, room))
            ∙ read_available-Filled xs rs b some_bytes e f
            ∙ g,
        h,
        pieces,
      )

  -- Bytes that `read` brings in three parts, none of them empty, keep the loop going for as long as
  -- nothing else arrives: after the third part it waits for bytes that it has read already.
  pub read_event_three_parts :
      (a b c : List ℕ) (n : ℕ)
      → 0 < length a
      → 0 < length b
      → 0 < length c
      → length (a ++ b ++ c) ≤ max_buffer_len
      → read_event (got a ∷ got b ∷ got c ∷ replicate n again) true (pos (length (a ++ b ++ c))) u
        ≡ none
  read_event_three_parts a b c n some_a some_b some_c room =
      let total : length (a ++ b ++ c) ≡ length a + length b + length c =
        omega (arith, length-append (a ++ b) c, length-append a b) in
      read_event-available (length (a ++ b ++ c)) (got a ∷ got b ∷ got c ∷ replicate n again)
        (omega arith) room
      ∙ read_available-none (length (a ++ b ++ c)) (got a ∷ got b ∷ got c ∷ replicate n again) (
          read_three_parts a b c n (length (a ++ b ++ c)) emptied-At some_a some_b some_c total
            room)
