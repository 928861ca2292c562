-- ===== src/FixedBuffer/Copies.antt =====
-- Copies of a fixed buffer.
use octcommu.Shared.{ℕ, ◌%◌, ◌<◌, ◌^◌, ◌≡◌, refl, ◌↔◌, arith}
use octcommu.FixedBuffer.{FixedBuffer, length_of, copy}
use octcommu.FixedBuffer.Valid.{IsValid, contents}

-- A copy of a valid buffer has the original's bytes and count, but `length` is right only if the
-- two objects stand at addresses that agree modulo 2 ^ 32.
pub length_of-copy_iff :
    (size : ℕ) {b : FixedBuffer} (addr : ℕ)
    → IsValid size b
    → addr < 2 ^ 64
    → (contents (copy size b addr) ≡ contents b)
      × ((copy size b addr).current_len ≡ b.current_len)
      × ((length_of size (copy size b addr) ≡ b.current_len) ↔ (b.addr % 2 ^ 32 ≡ addr % 2 ^ 32))
unfolding copy length_of
length_of-copy_iff size {b} addr v h = (
  refl,
  refl,
  (
    (λ e. omega (arith, v.pointer, v.counted, v.small, v.low)),
    λ e. omega (arith, v.pointer, v.counted, v.small, v.low),
  ),
)
