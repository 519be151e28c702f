-- ===== src/RingBuffer.antt =====
-- engine/ring_buffer.hpp: RingBufferV0, a ring of bytes with free-running counts. `size` is sizeT.
pub mod Masks
pub mod Bytes
pub mod Fifo
mod Tests
use akvarium.Prelude.{
  ℕ, ◌+◌, ◌-◌, ◌^◌, ◌%◌, Bool, true, false, not, ltb, ◌||◌, Option, none, some, List, [], ◌∷◌, leb,
  ◌==◌, if◌then◌else◌, get_or, set, bit_and,
}

-- SelectSizeForLength: the bits of index_t.
unfoldable pub index_bits : ℕ → ℕ
index_bits size = if leb size 255 then 8 else (if leb size 65535 then 16 else 32)

pub record RingBuffer : Type 0 where
  pub data_ : List ℕ
  pub read_count : ℕ
  pub write_count : ℕ

-- An index_t.
abbrev pub wrap : ℕ → ℕ → ℕ
wrap size n = n % 2 ^ index_bits size

-- writeCount_ - readCount_, as an index_t.
abbrev pub difference : ℕ → RingBuffer → ℕ
difference size b = wrap size (b.write_count + 2 ^ index_bits size - b.read_count)

-- RingBufferV0::IsEmpty, IsFull and Count. ~mask_ is 2 ^ bits - size.
unfoldable pub is_empty : RingBuffer → Bool
is_empty b = b.write_count == b.read_count

unfoldable pub is_full : ℕ → RingBuffer → Bool
is_full size b = not (bit_and (difference size b) (2 ^ index_bits size - size) == 0)

unfoldable pub count : ℕ → RingBuffer → ℕ
count size b = bit_and (difference size b) (size - 1)

-- RingBufferV0::Write
unfoldable pub write : ℕ → ℕ → RingBuffer → Bool × RingBuffer
unfolding is_full
write size value b = if is_full size b then (false, b) else (
  true,
  record b {
    data_ = set b.data_ (bit_and b.write_count (size - 1)) value;
    write_count = wrap size (b.write_count + 1);
  },
)

-- RingBufferV0::Read; the value is `none` when it returns false.
unfoldable pub read : ℕ → RingBuffer → Option ℕ × RingBuffer
unfolding is_empty
read size b = if is_empty b then (none, b) else (
  some (get_or b.data_ (bit_and b.read_count (size - 1)) 0),
  record b { read_count = wrap size (b.read_count + 1) },
)

-- RingBufferV0::Clear
unfoldable pub clear : RingBuffer → RingBuffer
clear b = record b { read_count = 0; write_count = 0 }

-- RingBufferV0::operator[], First and Last; dataT() and none_ are 0.
unfoldable pub at : ℕ → RingBuffer → ℕ → ℕ
unfolding is_empty count
at size b i =
    if is_empty b || ltb (count size b) i
    then 0
    else get_or b.data_ (bit_and (b.read_count + i) (size - 1)) 0

unfoldable pub first : ℕ → RingBuffer → ℕ
unfolding at
first size b = at size b 0

unfoldable pub last : ℕ → RingBuffer → ℕ
unfolding at count
last size b = at size b (wrap size (count size b + 2 ^ index_bits size - 1))
