-- ===== src/FixedBuffer.antt =====
-- src/Util/FixedBuffer.h: a byte array of `size` bytes with a pointer behind the bytes written, a
-- count of the valid bytes, and the sender's address. Pointers are addresses: `addr` is that of
-- `data_`, and `cur` the value of `cur_`, which the implicit copy constructor copies as it is.
pub mod Valid
pub mod Copies
pub mod Packed
mod Tests
use octcommu.Shared.{
  ℕ, ◌+◌, ◌-◌, ◌%◌, ◌^◌, Bool, Option, none, some, List, [], ◌∷◌, ltb, leb, ◌==◌, if◌then◌else◌,
  ◌>>=◌, length, take, replicate, memcpy,
}

-- `SockAddrInfo`
pub record SockAddrInfo : Type 0 where
  pub target_port : ℕ
  pub family : ℕ
  pub target_ip : List ℕ

pub record FixedBuffer : Type 0 where
  pub info : SockAddrInfo
  pub addr : ℕ
  pub bytes : List ℕ
  pub cur : ℕ
  pub current_len : ℕ

-- An `int` by its bit pattern, and the `size_t` that it converts to.
abbrev pub to_int : ℕ → ℕ
to_int n = n % 2 ^ 32

abbrev pub int_to_size : ℕ → ℕ
int_to_size n = if ltb n (2 ^ 31) then n else n + (2 ^ 64 - 2 ^ 32)

module _ (size : ℕ) where
  -- A new buffer whose `data_` stands at `addr`.
  unfoldable pub create : ℕ → FixedBuffer
  create addr = record {
    info = record { target_port = 0; family = 0; target_ip = [] };
    addr = addr;
    bytes = replicate size 0;
    cur = addr;
    current_len = 0;
  }

  -- `static_cast<int>(cur_ - data_)`
  unfoldable pub length_of : FixedBuffer → ℕ
  length_of b = to_int (2 ^ 64 + b.cur - b.addr)

  -- `static_cast<int>(end() - cur_)`
  unfoldable pub avail : FixedBuffer → ℕ
  avail b = to_int (2 ^ 64 + (b.addr + size) - b.cur)

  unfoldable pub move_to : FixedBuffer → ℕ → FixedBuffer
  move_to b len = record b { cur = b.cur + len; current_len = b.current_len + len }

  -- A copy to `cur_`; `none` is a write outside `data_`.
  unfoldable pub write_cur : FixedBuffer → List ℕ → Option (List ℕ)
  write_cur b buf = if ltb b.cur b.addr then none else memcpy b.bytes (b.cur - b.addr) buf

  -- Bytes that do not fit with one to spare are dropped.
  unfoldable pub append : FixedBuffer → List ℕ → Option FixedBuffer
  unfolding write_cur move_to avail
  append b buf =
      if ltb (length buf) (int_to_size (avail b))
      then (do filled ← write_cur b buf; some (record (move_to b (length buf)) { bytes = filled }))
      else some b

  unfoldable pub set_valid_len : FixedBuffer → ℕ → FixedBuffer
  set_valid_len b len = record b { current_len = len }

  unfoldable pub reset : FixedBuffer → FixedBuffer
  reset b = record b { cur = b.addr; current_len = 0 }

  -- `data_[current_len_] = '\0'`
  pub set_end_char : FixedBuffer → Option FixedBuffer
  set_end_char b = do
    ended ← memcpy b.bytes b.current_len (0 ∷ [])
    some (record b { bytes = ended })

  -- `b.swap(ins)`: the bytes of `ins` come over, and `ins` is emptied.
  unfoldable pub swap : FixedBuffer → FixedBuffer → FixedBuffer × FixedBuffer
  unfolding reset
  swap b ins = if b.addr == ins.addr then (b, ins) else (
    record b { bytes = ins.bytes; current_len = ins.current_len; cur = b.addr + ins.current_len },
    reset ins,
  )

  -- The implicit copy constructor, to an object whose `data_` stands at `addr`.
  unfoldable pub copy : FixedBuffer → ℕ → FixedBuffer
  copy b addr = record b { addr = addr }
