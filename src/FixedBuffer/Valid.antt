-- ===== src/FixedBuffer/Valid.antt =====
-- What holds of a fixed buffer between calls, and what its operations do then.
use octcommu.Shared.{
  ℕ, ◌+◌, ◌-◌, ◌≤◌, ◌<◌, ◌^◌, ◌≡◌, refl, sym, ◌∙◌, ap, some, List, [], ◌∷◌, ◌++◌, arith, length,
  take, overwrite, length-overwrite, length-replicate, take-overwrite, length-take, inl, inr,
  memcpy-some, true, false, ltb, ◌⊎◌, ◌≢◌, ◌==◌, dec_lt, take-take, take-append_le,
}
use octcommu.FixedBuffer.{
  FixedBuffer, create, length_of, avail, move_to, write_cur, append, set_end_char, swap,
  int_to_size,
}

-- The array lies below 2 ^ 64, and its size fits an `int`.
pub record IsValid (size : ℕ) (b : FixedBuffer) : Type 0 where
  pub sized : length b.bytes ≡ size
  pub pointer : b.cur ≡ b.addr + b.current_len
  pub counted : b.current_len ≤ size
  pub small : size < 2 ^ 31
  pub low : b.addr + size < 2 ^ 64

abbrev pub contents : FixedBuffer → List ℕ
contents b = take b.current_len b.bytes

module _ (size : ℕ) where
  pub create-IsValid :
      (addr : ℕ) → size < 2 ^ 31 → addr + size < 2 ^ 64 → IsValid size (create size addr)
  unfolding create
  create-IsValid addr small low = record {
    sized = length-replicate size 0;
    pointer = omega arith;
    counted = omega arith;
    small = small;
    low = low;
  }

  module _ {b : FixedBuffer} (v : IsValid size b) where
    -- `length` is the number of valid bytes, and `avail` that of the free ones.
    pub length_of-valid : length_of size b ≡ b.current_len
    unfolding length_of
    length_of-valid = omega (arith, v.pointer, v.counted, v.small, v.low)

    pub avail-valid : avail size b ≡ size - b.current_len
    unfolding avail
    avail-valid = omega (arith, v.pointer, v.counted, v.small, v.low)

    avail_size : int_to_size (avail size b) ≡ size - b.current_len
    avail_size = ground (arith, avail-valid, v.small)

    pub length-contents : length (contents b) ≡ b.current_len
    length-contents = omega (arith, length-take b.current_len b.bytes, v.sized, v.counted)

    write_cur-valid :
        (buf : List ℕ)
        → b.current_len + length buf ≤ size
        → write_cur size b buf ≡ some (overwrite b.bytes b.current_len buf)
    unfolding write_cur
    write_cur-valid buf h =
        let off : b.cur - b.addr ≡ b.current_len = omega (arith, v.pointer) in
        ground (arith, off, v.pointer, v.sized, h)

    abbrev appended : List ℕ → FixedBuffer
    appended buf = record b {
      bytes = overwrite b.bytes b.current_len buf;
      cur = b.cur + length buf;
      current_len = b.current_len + length buf;
    }

    append_fits :
        (buf : List ℕ) → b.current_len + length buf < size → append size b buf ≡ some (appended buf)
    unfolding append move_to
    append_fits buf h = rw (room, write_cur-valid buf (omega arith))
      where
        room : ltb (length buf) (int_to_size (avail size b)) ≡ true
        room = ground (arith, avail_size, h)

    append_full : (buf : List ℕ) → size ≤ b.current_len + length buf → append size b buf ≡ some b
    unfolding append
    append_full buf h = ground (arith, avail_size, h)

    appended-IsValid :
        (buf : List ℕ) → b.current_len + length buf < size → IsValid size (appended buf)
    appended-IsValid buf h = record {
      sized = length-overwrite b.bytes b.current_len buf ∙ v.sized;
      pointer = omega (arith, v.pointer);
      counted = omega arith;
      small = v.small;
      low = v.low;
    }

    contents-appended :
        (buf : List ℕ)
        → b.current_len + length buf < size
        → contents (appended buf) ≡ contents b ++ buf
    contents-appended buf h =
        take-overwrite b.bytes b.current_len (b.current_len + length buf) buf refl
          (omega (arith, v.sized))

    -- `append` on a valid buffer writes only inside the array. Bytes that fit with one place to
    -- spare are added behind the others; otherwise the call does nothing at all, and says nothing.
    pub append_lem :
        (buf : List ℕ)
        → ((b.current_len + length buf < size)
            × ((c : FixedBuffer) × (append size b buf ≡ some c)
                × IsValid size c
                × (contents c ≡ contents b ++ buf)
                × (c.current_len ≡ b.current_len + length buf)
                × (c.info ≡ b.info)
                × (c.addr ≡ b.addr)))
          ⊎ ((size ≤ b.current_len + length buf) × (append size b buf ≡ some b))
    append_lem buf = elim (dec_lt (b.current_len + length buf) size) [
      | yes h ↦ inl (
        h,
        (
          appended buf,
          append_fits buf h,
          appended-IsValid buf h,
          contents-appended buf h,
          refl,
          refl,
          refl,
        ),
      )
      | no h ↦ inr (omega arith, append_full buf (omega arith))
    ]

    abbrev ended : FixedBuffer
    ended = record b { bytes = overwrite b.bytes b.current_len (0 ∷ []) }

    ended-contents : b.current_len < size → contents ended ≡ contents b
    ended-contents h =
        let n = b.current_len in
        sym (take-take n (n + 1) (overwrite b.bytes n (0 ∷ [])) (omega arith))
        ∙ ap (take n)
            (take-overwrite b.bytes n (n + 1) (0 ∷ []) (omega arith) (omega (arith, v.sized)))
        ∙ take-append_le n (take n b.bytes) (0 ∷ []) (omega (arith, length-contents))
        ∙ take-take n n b.bytes (omega arith)

    -- Below its size a valid buffer takes the end character behind its bytes, and keeps them.
    pub set_end_char_lem :
        b.current_len < size
        → (c : FixedBuffer) × (set_end_char size b ≡ some c)
          × IsValid size c
          × (contents c ≡ contents b)
          × (c.current_len ≡ b.current_len)
          × (c.info ≡ b.info)
          × (c.addr ≡ b.addr)
    unfolding set_end_char
    set_end_char_lem h = (
      ended,
      rw (memcpy-some b.bytes b.current_len (0 ∷ []) (omega (arith, v.sized))),
      record {
        sized = length-overwrite b.bytes b.current_len (0 ∷ []) ∙ v.sized;
        pointer = v.pointer;
        counted = v.counted;
        small = v.small;
        low = v.low;
      },
      ended-contents h,
      refl,
      refl,
      refl,
    )

  -- Between two buffers at different places `swap` moves the bytes over and empties the other.
  pub swap_lem :
      {b ins : FixedBuffer}
      → IsValid size b
      → IsValid size ins
      → b.addr ≢ ins.addr
      → let r = swap size b ins in
        (contents r.0 ≡ contents ins) × (contents r.1 ≡ []) × IsValid size r.0 × IsValid size r.1
  unfolding swap
  swap_lem {b} {ins} v w h = rw apart (
    refl,
    refl,
    record { sized = w.sized; pointer = refl; counted = w.counted; small = v.small; low = v.low },
    record {
      sized = w.sized;
      pointer = omega arith;
      counted = omega arith;
      small = w.small;
      low = w.low;
    },
  )
    where
      apart : b.addr == ins.addr ≡ false
      apart = ground (arith, h)
