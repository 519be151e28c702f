-- ===== src/RingBuffer/Tests.antt =====
-- A ring of four bytes whose write count has wrapped around.
use akvarium.Prelude.{
  ℕ, ◌<◌, ◌≡◌, ◌⊎◌, ◌%◌, ◌++◌, true, false, some, List, [], ◌∷◌, arith, length, get_or, refl,
}
use akvarium.RingBuffer.{RingBuffer, index_bits, write, read, clear, count, at, is_full, is_empty}
use akvarium.RingBuffer.Fifo.{Holds, Reads, ring_refines}

abbrev ring : RingBuffer
ring = record { data_ = 30 ∷ 0 ∷ 10 ∷ 20 ∷ []; read_count = 254; write_count = 1 }

abbrev queue : List ℕ
queue = 10 ∷ 20 ∷ 30 ∷ []

ring-Holds : Holds 4 ring queue
unfolding index_bits
ring-Holds = (
  254,
  record {
    data_size = refl;
    reads = refl;
    writes = refl;
    fits = omega arith;
    bytes = (refl, (refl, (refl, tt)));
  },
)

full_ring :
    (write 4 40 ring).1
    ≡ record { data_ = 30 ∷ 40 ∷ 10 ∷ 20 ∷ []; read_count = 254; write_count = 2 }
unfolding write is_full index_bits
full_ring = refl

first_read : (read 4 ring).0 ≡ some 10
unfolding read is_empty
first_read = refl

ring_refines_example :
    (((length queue < 4)
        × ((write 4 40 ring).0 ≡ true)
        × Holds 4 (write 4 40 ring).1 (queue ++ 40 ∷ []))
      ⊎ ((length queue ≡ 4) × (write 4 40 ring ≡ (false, ring))))
    × Reads 4 ring queue
    × (count 4 ring ≡ length queue % 4)
    × ((i : ℕ) → length queue < 4 → i < length queue → at 4 ring i ≡ get_or queue i 0)
    × Holds 4 (clear ring) []
ring_refines_example = ring_refines 2 40 ring queue (omega arith) ring-Holds
