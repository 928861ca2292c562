-- ===== src/SpBuffer/Laws.antt =====
-- What `append` and `data` do to the bytes held.
use octcommu.Shared.{
  ℕ, ◌+◌, ◌-◌, ◌≤◌, ◌≡◌, refl, ◌∙◌, some, List, arith, length, take, overwrite, length-overwrite,
  slice-overwrite, length-slice, take-take, length-replicate, drop,
}
use octcommu.SpBuffer.{SpBuffer, contents, append, data_to, reset}

pub record IsValid (size : ℕ) (b : SpBuffer) : Type 0 where
  pub sized : length b.bytes ≡ size
  pub ordered : b.start ≤ b.stop
  pub within : b.stop ≤ size

pub length-contents :
    (size : ℕ) {b : SpBuffer} → IsValid size b → length (contents b) ≡ b.stop - b.start
length-contents size {b} v =
    length-slice b.bytes b.start (b.stop - b.start) (omega (arith, v.sized, v.ordered, v.within))

pub reset-IsValid : (size : ℕ) → IsValid size (reset size)
unfolding reset
reset-IsValid size = record {
  sized = length-replicate size 0;
  ordered = omega arith;
  within = omega arith;
}

stop-reset : (size : ℕ) → (reset size).stop ≡ 0
unfolding reset
stop-reset size = refl

empty : (size : ℕ) → (reset size).start ≡ (reset size).stop
unfolding reset
empty size = refl

module _ (size : ℕ) {b : SpBuffer} (v : IsValid size b) where
  abbrev pub stored : List ℕ → SpBuffer
  stored p = record b { bytes = overwrite b.bytes b.start p; stop = b.stop + length p }

  pub append_fits : (p : List ℕ) → b.stop + length p ≤ size → append size b p ≡ some (0, stored p)
  unfolding append
  append_fits p h = ground (arith, v.sized, v.ordered, v.within)

  pub stored-IsValid : (p : List ℕ) → b.stop + length p ≤ size → IsValid size (stored p)
  stored-IsValid p h = record {
    sized = length-overwrite b.bytes b.start p ∙ v.sized;
    ordered = omega (arith, v.ordered);
    within = h;
  }

  -- On a valid buffer with room behind the bytes held, the call succeeds, and the bytes held then
  -- begin with the new ones: as many of the oldest bytes are gone, and the count has grown all the
  -- same.
  pub append_over :
      (p : List ℕ)
      → b.stop + length p ≤ size
      → (c : SpBuffer) × (append size b p ≡ some (0, c))
        × IsValid size c
        × (take (length p) (contents c) ≡ p)
        × (length (contents c) ≡ length (contents b) + length p)
        × (c.start ≡ b.start)
  append_over p h = (
    stored p,
    append_fits p h,
    stored-IsValid p h,
    take-take (length p) (b.stop + length p - b.start) (drop b.start (overwrite b.bytes b.start p))
          (omega (arith, v.ordered))
        ∙ slice-overwrite b.bytes b.start 0 b.start (length p) p (omega arith) (omega arith)
            (omega (arith, v.sized, v.ordered)),
    omega (arith, length-contents size (stored-IsValid p h), length-contents size v, v.ordered),
    refl,
  )

  -- If nothing is held, the new bytes are what the buffer holds afterwards.
  pub append_empty :
      (p : List ℕ)
      → b.start ≡ b.stop
      → b.stop + length p ≤ size
      → (c : SpBuffer) × (append size b p ≡ some (0, c)) × IsValid size c × (contents c ≡ p)
  append_empty p e h = (
    stored p,
    append_fits p h,
    stored-IsValid p h,
    slice-overwrite b.bytes b.start 0 b.start (b.stop + length p - b.start) p (omega arith)
        (omega (arith, e)) (omega (arith, v.sized, e)),
  )

-- On a valid buffer that holds no bytes and has room behind its position, a call of `append` and
-- then one of `data` hand the bytes over, and leave the buffer empty.
pub data_to-append :
    (size : ℕ) {b : SpBuffer} (p : List ℕ)
    → IsValid size b
    → b.start ≡ b.stop
    → b.stop + length p ≤ size
    → (c : SpBuffer) × (d : SpBuffer) × (ins : SpBuffer) × (append size b p ≡ some (0, c))
      × (data_to size c ≡ some (0, d, ins))
      × IsValid size d
      × (d.start ≡ d.stop)
      × IsValid size ins
      × (contents ins ≡ p)
unfolding data_to
data_to-append size p v e h =
    let (c, eq, w, holds) = append_empty size v p e h in
    let (ins, eq', w', holds') =
      append_empty size (reset-IsValid size) (contents c) (empty size) (fits c holds) in
    (
      c,
      record c { start = c.stop },
      ins,
      eq,
      rw (eq', data_to),
      record { sized = w.sized; ordered = omega arith; within = w.within },
      refl,
      w',
      holds' ∙ holds,
    )
  where
    fits : (c : SpBuffer) → contents c ≡ p → (reset size).stop + length (contents c) ≤ size
    fits c q = rw q (omega (arith, stop-reset size, h))
