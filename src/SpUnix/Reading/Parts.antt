-- ===== src/SpUnix/Reading/Parts.antt =====
-- The loop over `read`, by the parts in which the bytes come.
use octcommu.Shared.{
  ℕ, zero, suc, ◌+◌, ◌-◌, ◌≤◌, ◌<◌, ◌≡◌, refl, sym, ◌∙◌, ap, List, [], ◌∷◌, ◌++◌, Option, some,
  none, arith, length, overwrite, length-overwrite, take, take-overwrite, replicate, ==-true,
  ==-false, length-append,
}
use mathlib.Core.Path.{subst}
use octcommu.FixedBuffer
use octcommu.FixedBuffer.{FixedBuffer}
use octcommu.SpUnix.{max_buffer_len}
use octcommu.SpUnix.Reading.{ReadResult, got, again, read_loop}

-- The answers of `read` bring the bytes in one part, after any number of EAGAINs.
pub data Whole (xs : List ℕ) : List ReadResult → Type 0 where
  now : (rs : List ReadResult) → Whole xs (got xs ∷ rs)
  wait : {rs : List ReadResult} → Whole xs rs → Whole xs (again ∷ rs)

-- In a part that is not empty, with answers for the rest of the bytes that `Rest` describes.
pub data Part (Rest : List ℕ → List ReadResult → Type 0) (xs : List ℕ)
    : List ReadResult → Type 0 where
  now :
      (a c : List ℕ) {rs : List ReadResult}
      → 0 < length a
      → 0 < length c
      → xs ≡ a ++ c
      → Rest c rs
      → Part Rest xs (got a ∷ rs)
  wait : {rs : List ReadResult} → Part Rest xs rs → Part Rest xs (again ∷ rs)

-- A buffer whose pointer stands at `k`.
pub record At (k : ℕ) (b : FixedBuffer) : Type 0 where
  pub sized : length b.bytes ≡ max_buffer_len
  pub pointer : b.cur ≡ b.addr + k

module _ (k : ℕ) {b : FixedBuffer} (p : At k b) where
  abbrev pub with_part : List ℕ → FixedBuffer
  with_part a = record b { bytes = overwrite b.bytes k a }

  write_part :
      (a : List ℕ)
      → k + length a ≤ max_buffer_len
      → FixedBuffer.write_cur max_buffer_len b a ≡ some (overwrite b.bytes k a)
  unfolding FixedBuffer.write_cur
  write_part a h = ground (arith, off, p.pointer, p.sized, h)
    where
      off : b.cur - b.addr ≡ k
      off = omega (arith, p.pointer)

  -- A part that brings as many bytes as are left ends the loop.
  read_last :
      (a : List ℕ) (available count : ℕ) (rs : List ReadResult)
      → 0 < length a
      → k + length a ≤ max_buffer_len
      → count + length a ≡ available
      → read_loop available count (got a ∷ rs) b
        ≡ some (record b { bytes = overwrite b.bytes k a; current_len = available })
  unfolding read_loop FixedBuffer.set_valid_len
  read_last [] available count rs some_bytes room e = absurd (omega arith)
  read_last (x ∷ bs) available count rs some_bytes room e = rw (
    ==-false available count (omega arith),
    write_part (x ∷ bs) room,
    ==-true (length (x ∷ bs)) (available - count) (omega arith),
  )

  -- A part with fewer bytes leaves its own count, whatever was read before.
  pub read_part :
      (a : List ℕ) (available count : ℕ) (rs : List ReadResult)
      → 0 < length a
      → k + length a ≤ max_buffer_len
      → count + length a < available
      → read_loop available count (got a ∷ rs) b
        ≡ read_loop available
            (length a)
            rs
            (FixedBuffer.move_to max_buffer_len (with_part a) (length a))
  unfolding read_loop
  read_part [] available count rs some_bytes room e = absurd (omega arith)
  read_part (x ∷ bs) available count rs some_bytes room e = rw (
    ==-false available count (omega arith),
    write_part (x ∷ bs) room,
    ==-false (length (x ∷ bs)) (available - count) (omega arith),
  )

  pub moved-At :
      (a : List ℕ) (m : ℕ)
      → m ≡ k + length a
      → At m (FixedBuffer.move_to max_buffer_len (with_part a) (length a))
  unfolding FixedBuffer.move_to
  moved-At a m e = record {
    sized = length-overwrite b.bytes k a ∙ p.sized;
    pointer = omega (arith, p.pointer, e);
  }

pub read_again :
    (available count : ℕ) (rs : List ReadResult) (b : FixedBuffer)
    → count < available
    → read_loop available count (again ∷ rs) b ≡ read_loop available count rs b
unfolding read_loop
read_again available count rs b h = rw (==-false available count (omega arith))

-- While nothing arrives and bytes are missing, the loop goes on.
pub read_nothing :
    (n available count : ℕ) (b : FixedBuffer)
    → count < available
    → read_loop available count (replicate n again) b ≡ none
unfolding read_loop
read_nothing zero available count b h = rw (==-false available count (omega arith))
read_nothing (suc n) available count b h =
    read_again available count (replicate n again) b h ∙ read_nothing n available count b h

-- What the loop leaves when all bytes have come.
pub record Filled (xs : List ℕ) (b : FixedBuffer) : Type 0 where
  pub count : b.current_len ≡ length xs
  pub held : take (length xs) b.bytes ≡ xs

abbrev pub Fills : List ℕ → Option FixedBuffer → Type 0
Fills xs o = (b : FixedBuffer) × (o ≡ some b) × Filled xs b

-- The rest `c` of the bytes comes in one part, behind `a`, and the count is that of `a`.
read_rest :
    (a c : List ℕ) {rs : List ReadResult} {b : FixedBuffer}
    → Whole c rs
    → At (length a) b
    → take (length a) b.bytes ≡ a
    → 0 < length c
    → length (a ++ c) ≤ max_buffer_len
    → Fills (a ++ c) (read_loop (length (a ++ c)) (length a) rs b)
read_rest a c {b = b} (Whole.now rs) p held some_bytes room = (
  record b { bytes = overwrite b.bytes (length a) c; current_len = length (a ++ c) },
  read_last (length a) p c (length (a ++ c)) (length a) rs some_bytes
      (omega (arith, length-append a c)) (omega (arith, length-append a c)),
  record {
    count = refl;
    held =
        take-overwrite b.bytes (length a) (length (a ++ c)) c (length-append a c)
          (omega (arith, p.sized))
        ∙ ap (λ ys. ys ++ c) held;
  },
)
read_rest a c {b = b} (Whole.wait {rs} w) p held some_bytes room =
    let (d, e, f) = read_rest a c w p held some_bytes room in
    (d, read_again (length (a ++ c)) (length a) rs b (omega (arith, length-append a c)) ∙ e, f)

pub read-Whole :
    {xs : List ℕ} {rs : List ReadResult} {b : FixedBuffer}
    → Whole xs rs
    → At 0 b
    → 0 < length xs
    → length xs ≤ max_buffer_len
    → Fills xs (read_loop (length xs) 0 rs b)
read-Whole {xs} w p some_bytes room = read_rest [] xs w p refl some_bytes room

-- The part `a` comes first, and then the rest in one part.
read_first :
    (a c : List ℕ) {rs : List ReadResult} {b : FixedBuffer}
    → Whole c rs
    → At 0 b
    → 0 < length a
    → 0 < length c
    → length (a ++ c) ≤ max_buffer_len
    → Fills (a ++ c) (read_loop (length (a ++ c)) 0 (got a ∷ rs) b)
unfolding FixedBuffer.move_to
read_first a c {rs} {b} w p some_a some_c room =
    let (d, e, f) = read_rest a c w (moved-At 0 p a (length a) (omega arith)) held some_c room in
    (
      d,
      read_part 0 p a (length (a ++ c)) 0 rs some_a (omega (arith, length-append a c))
            (omega (arith, length-append a c))
          ∙ e,
      f,
    )
  where
    held : take (length a) (overwrite b.bytes 0 a) ≡ a
    held =
        take-overwrite b.bytes 0 (length a) a (omega arith)
          (omega (arith, p.sized, length-append a c))

pub read_two_parts :
    {xs : List ℕ} {rs : List ReadResult} {b : FixedBuffer}
    → Part Whole xs rs
    → At 0 b
    → length xs ≤ max_buffer_len
    → Fills xs (read_loop (length xs) 0 rs b)
read_two_parts {xs} {b = b} (Part.now a c {rs} some_a some_c e w) p room =
    subst (λ ys. Fills ys (read_loop (length ys) 0 (got a ∷ rs) b)) (sym e)
      (read_first a c w p some_a some_c (subst (λ ys. length ys ≤ max_buffer_len) e room))
read_two_parts {xs} {b = b} (Part.wait {rs} w) p room =
    let (d, e, f) = read_two_parts w p room in
    (d, read_again (length xs) 0 rs b (nonempty w) ∙ e, f)
  where
    nonempty : {rs : List ReadResult} → Part Whole xs rs → 0 < length xs
    nonempty (Part.now a c some_a some_c e w) = omega (arith, ap length e, length-append a c)
    nonempty (Part.wait w) = nonempty w

-- With three parts the count that is left is that of the last one: bytes are missing by it, and the
-- loop goes on while nothing arrives.
pub read_three_parts :
    (a c d : List ℕ) (n available : ℕ) {b : FixedBuffer}
    → At 0 b
    → 0 < length a
    → 0 < length c
    → 0 < length d
    → available ≡ length a + length c + length d
    → available ≤ max_buffer_len
    → read_loop available 0 (got a ∷ got c ∷ got d ∷ replicate n again) b ≡ none
read_three_parts a c d n available {b} p some_a some_c some_d e room =
    let q = moved-At 0 p a (length a) (omega arith) in
    let r = moved-At (length a) q c (length a + length c) refl in
    read_part 0 p a available 0 (got c ∷ got d ∷ replicate n again) some_a (omega arith)
      (omega arith)
    ∙ read_part (length a) q c available (length a) (got d ∷ replicate n again) some_c (omega arith)
        (omega arith)
    ∙ read_part (length a + length c) r d available (length c) (replicate n again) some_d
        (omega arith) (omega arith)
    ∙ read_nothing n available (length d)
        (FixedBuffer.move_to max_buffer_len (with_part (length a + length c) r d) (length d))
        (omega arith)
