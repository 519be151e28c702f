-- ===== src/Block.antt =====
-- engine/block.hpp: a block of memory with a position to read at and one to write at.
pub mod Queue
mod Tests
use akvarium.Prelude.{
  ℕ, ◌+◌, ◌-◌, ◌^◌, Bool, true, false, ◌||◌, List, [], ◌∷◌, ◌++◌, ltb, ◌==◌, if◌then◌else◌, length,
  take, drop, bit_or, bit_and,
}

-- block::General; `mem` is the memory from base() to end(), in bytes.
pub record General : Type 0 where
  pub mem : List ℕ
  pub rd_offset : ℕ
  pub wr_offset : ℕ
  pub self_flags : ℕ
  pub flags : ℕ
  pub moment : ℕ

-- General::space, General::length
abbrev pub space : General → ℕ
space b = length b.mem - b.wr_offset

abbrev pub block_length : General → ℕ
block_length b = b.wr_offset - b.rd_offset

-- General::MemMove
unfoldable pub mem_move : General → Bool × General
mem_move b =
    let sz = block_length b in
    if b.rd_offset == 0 then (false, b) else (
      true,
      record b {
        mem = take sz (drop b.rd_offset b.mem) ++ drop sz b.mem;
        rd_offset = 0;
        wr_offset = sz;
      },
    )

-- General::set_offset_rd_ptr, General::set_offset_wr_ptr
unfoldable pub set_offset_rd_ptr : ℕ → General → General
set_offset_rd_ptr n b = record b { rd_offset = b.rd_offset + n }

unfoldable pub set_offset_wr_ptr : ℕ → General → General
set_offset_wr_ptr n b = record b { wr_offset = b.wr_offset + n }

-- General::ReSet
unfoldable pub re_set : General → General
re_set b = record b { rd_offset = 0; wr_offset = 0; self_flags = 0; flags = 0; moment = 0 }

-- General::set_time
pub set_time : ℕ → General → General
set_time moment b = record b { moment = moment }

-- General::Copy, of the bytes of `buffer`
unfoldable pub copy : List ℕ → General → Bool × General
unfolding set_offset_wr_ptr
copy buffer b =
    let n = length buffer in
    if n == 0 || ltb (space b) n then (false, b) else (
      true,
      set_offset_wr_ptr n
          (record b { mem = take b.wr_offset b.mem ++ (buffer ++ drop (b.wr_offset + n) b.mem) }),
    )
