-- ===== src/FixedBuffer/Packed.antt =====
-- A new buffer, `append` and `setEndChar`: how the links put received bytes into a buffer.
use octcommu.Shared.{
  ℕ, ◌+◌, ◌^◌, ◌≤◌, ◌<◌, ◌≡◌, refl, sym, ◌∙◌, ap, inl, inr, List, [], ◌++◌, some, length, arith,
  take,
}
use octcommu.FixedBuffer.{FixedBuffer, create, append, set_end_char, length_of}
use octcommu.FixedBuffer.Valid.{
  IsValid, contents, create-IsValid, append_lem, set_end_char_lem, length_of-valid,
}

-- A valid buffer at `stack` that holds `p`.
pub record Holds (size stack : ℕ) (p : List ℕ) (c : FixedBuffer) : Type 0 where
  pub valid : IsValid size c
  pub held : contents c ≡ p
  pub count : c.current_len ≡ length p
  pub place : c.addr ≡ stack

pub bytes-Holds :
    {size stack : ℕ} {p : List ℕ} {c : FixedBuffer}
    → Holds size stack p c
    → take (length p) c.bytes ≡ p
bytes-Holds {c = c} h = ap (λ k. take k c.bytes) (sym h.count) ∙ h.held

pub length_of-Holds :
    {size stack : ℕ} {p : List ℕ} {c : FixedBuffer}
    → Holds size stack p c
    → length_of size c ≡ length p
length_of-Holds {size} h = length_of-valid size h.valid ∙ h.count

-- The two calls on a new buffer with the bytes `buf`, which leave it with the bytes `p`.
pub record Packs (size stack : ℕ) (buf p : List ℕ) : Type 0 where
  pub filled : FixedBuffer
  pub ended : FixedBuffer
  pub appends : append size (create size stack) buf ≡ some filled
  pub ends : set_end_char size filled ≡ some ended
  pub holds : Holds size stack p ended

module _ (size stack : ℕ) (some_room : 0 < size) (small : size < 2 ^ 31)
    (low : stack + size < 2 ^ 64) where
  new-Holds : Holds size stack [] (create size stack)
  unfolding create
  new-Holds = record {
    valid = create-IsValid size stack small low;
    held = refl;
    count = refl;
    place = refl;
  }

  end_packed :
      (buf p : List ℕ) (b : FixedBuffer)
      → append size (create size stack) buf ≡ some b
      → Holds size stack p b
      → length p < size
      → Packs size stack buf p
  end_packed buf p b e h less =
      let (c, f, v, same, n, _, place) = set_end_char_lem size h.valid (omega (arith, h.count)) in
      record {
        filled = b;
        ended = c;
        appends = e;
        ends = f;
        holds = record {
          valid = v;
          held = same ∙ h.held;
          count = n ∙ h.count;
          place = place ∙ h.place;
        };
      }

  -- Bytes below the size are all there; others are dropped.
  pub Packs-all : (buf : List ℕ) → length buf < size → Packs size stack buf buf
  Packs-all buf less = elim (append_lem size new-Holds.valid buf) [
    | inl (_, (b, e, v, same, n, _, place)) ↦
        end_packed buf buf b e
          (record {
            valid = v;
            held = same ∙ ap (λ xs. xs ++ buf) new-Holds.held;
            count = omega (arith, n, new-Holds.count);
            place = place ∙ new-Holds.place;
          })
          less
    | inr (full, _) ↦ absurd (omega (arith, full, new-Holds.count))
  ]

  pub Packs-nothing : (buf : List ℕ) → size ≤ length buf → Packs size stack buf []
  Packs-nothing buf more = elim (append_lem size new-Holds.valid buf) [
    | inl (less, _) ↦ absurd (omega (arith, less, new-Holds.count))
    | inr (_, e) ↦ end_packed buf [] (create size stack) e new-Holds (omega arith)
  ]
