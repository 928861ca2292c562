-- ===== src/FixedBuffer/Tests.antt =====
-- The theorems on byte arrays at arrays of 8 bytes.
use octcommu.Shared.{ℕ, ◌%◌, ◌^◌, ◌≡◌, ◌≢◌, refl, ◌↔◌, List, [], ◌∷◌, arith}
use octcommu.FixedBuffer.{FixedBuffer, create, copy, length_of}
use octcommu.FixedBuffer.Valid.{IsValid, contents, create-IsValid}
use octcommu.FixedBuffer.Copies.{length_of-copy_iff}

new-IsValid : IsValid 8 (create 8 4096)
new-IsValid = create-IsValid 8 4096 (omega arith) (omega arith)

abbrev held : FixedBuffer
held = record {
  info = record { target_port = 0; family = 0; target_ip = [] };
  addr = 64;
  bytes = 1 ∷ 2 ∷ 3 ∷ 0 ∷ 0 ∷ 0 ∷ 0 ∷ 0 ∷ [];
  cur = 67;
  current_len = 3;
}

held-IsValid : IsValid 8 held
held-IsValid = record {
  sized = refl;
  pointer = refl;
  counted = omega arith;
  small = omega arith;
  low = omega arith;
}

abbrev two : List ℕ
two = 4 ∷ 5 ∷ []

apart : held.addr ≢ (create 8 4096).addr
unfolding create
apart = ground arith

length_of-copy_iff_example :
    (contents (copy 8 held 200) ≡ contents held)
    × ((copy 8 held 200).current_len ≡ held.current_len)
    × ((length_of 8 (copy 8 held 200) ≡ held.current_len) ↔ (held.addr % 2 ^ 32 ≡ 200 % 2 ^ 32))
length_of-copy_iff_example = length_of-copy_iff 8 200 held-IsValid (omega arith)
