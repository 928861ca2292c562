-- ===== src/SpBuffer/Safety.antt =====
-- No call of SPBuffer on a valid buffer leaves its array.
use octcommu.Shared.{
  ℕ, ◌+◌, ◌-◌, ◌≤◌, ◌≡◌, refl, ◌∙◌, some, false, inl, inr, Bool-cases, List, arith, length, ltb,
  ltb→le, ◌==◌, overwrite, length-overwrite, memcpy-some,
}
use octcommu.SpBuffer.{SpBuffer, contents, append, avail, shift, store, data_to}
use octcommu.SpBuffer.Laws.{IsValid, length-contents, stored, stored-IsValid, reset-IsValid}

module _ (size : ℕ) where
  store-IsValid :
      {b : SpBuffer} (p : List ℕ)
      → IsValid size b
      → b.stop + length p ≤ size
      → (c : SpBuffer) × (store size b p ≡ some (0, c)) × IsValid size c
  unfolding store
  store-IsValid {b} p v h = (
    stored size v p,
    rw (memcpy-some b.bytes b.start p (omega (arith, v.sized, v.ordered))),
    stored-IsValid size v p h,
  )

  module _ {b : SpBuffer} (v : IsValid size b) where
    abbrev shifted : SpBuffer
    shifted = record b {
      bytes = overwrite b.bytes 0 (contents b);
      start = 0;
      stop = b.stop - b.start;
    }

    shifted-IsValid : IsValid size shifted
    shifted-IsValid = record {
      sized = length-overwrite b.bytes 0 (contents b) ∙ v.sized;
      ordered = omega arith;
      within = omega (arith, v.within);
    }

    shift-shifted : shift size b ≡ some shifted
    unfolding shift
    shift-shifted = rw (
        memcpy-some b.bytes 0 (contents b)
          (omega (arith, length-contents size v, v.sized, v.within)))

    -- `append` on a valid buffer writes only inside the array and leaves it valid, whatever is
    -- appended.
    pub append-IsValid :
        (p : List ℕ) → (r : ℕ × SpBuffer) × (append size b p ≡ some r) × IsValid size r.1
    unfolding append avail
    append-IsValid p = elim (Bool-cases (ltb size (length p))) [
      | inl long ↦ ((1, b), simp long refl, v)
      | inr short ↦ elim (Bool-cases (ltb (size - b.stop) (length p))) [
        | inl tight ↦ elim (Bool-cases (b.start == 0)) [
          | inl front ↦ ((3, b), simp (short, tight, front) refl, v)
          | inr behind ↦ elim (Bool-cases (ltb (size - (b.stop - b.start)) (length p))) [
            | inl full ↦ (
              (2, shifted),
              simp (short, tight, behind, shift-shifted, full) refl,
              shifted-IsValid,
            )
            | inr room ↦
                let (c, e, w) =
                  store-IsValid p shifted-IsValid
                    (fits (b.stop - b.start) room (omega (arith, v.within))) in
                ((0, c), simp (short, tight, behind, shift-shifted, room, e) refl, w)
          ]
        ]
        | inr room ↦
            let (c, e, w) = store-IsValid p v (fits b.stop room v.within) in
            ((0, c), simp (short, room, e) refl, w)
      ]
    ]
      where
        fits : (n : ℕ) → ltb (size - n) (length p) ≡ false → n ≤ size → n + length p ≤ size
        fits n r h = omega (arith, ltb→le (size - n) (length p) r)

  -- So does `data`, on the buffer and on the new one.
  pub data_to-IsValid :
      {b : SpBuffer}
      → IsValid size b
      → (r : ℕ × SpBuffer × SpBuffer) × (data_to size b ≡ some r)
        × IsValid size r.1
        × IsValid size r.2
  unfolding data_to
  data_to-IsValid {b} v =
      let (r, e, w) = append-IsValid (reset-IsValid size) (contents b) in
      (
        (0, record b { start = b.stop }, r.1),
        rw e refl,
        record { sized = v.sized; ordered = omega arith; within = v.within },
        w,
      )
