-- ===== src/Block/Tests.antt =====
-- A block of six bytes that holds three.
use akvarium.Prelude.{◌≡◌, true, [], ◌∷◌, arith, refl}
use akvarium.Block.{General, copy, mem_move, set_offset_rd_ptr}
use akvarium.Block.Queue.{Holds, block-Holds}

abbrev block : General
block = record {
  mem = 0 ∷ 1 ∷ 2 ∷ 3 ∷ 0 ∷ 0 ∷ [];
  rd_offset = 1;
  wr_offset = 4;
  self_flags = 0;
  flags = 0;
  moment = 0;
}

moved : (mem_move block).1.mem ≡ 1 ∷ 2 ∷ 3 ∷ 3 ∷ 0 ∷ 0 ∷ []
unfolding mem_move
moved = refl

block-Holds_example :
    Holds (set_offset_rd_ptr 1 block) (2 ∷ 3 ∷ [])
    × Holds (mem_move block).1 (1 ∷ 2 ∷ 3 ∷ [])
    × ((copy (8 ∷ 9 ∷ []) block).0 ≡ true)
    × Holds (copy (8 ∷ 9 ∷ []) block).1 (1 ∷ 2 ∷ 3 ∷ 8 ∷ 9 ∷ [])
block-Holds_example =
    block-Holds block (1 ∷ []) (2 ∷ 3 ∷ []) (8 ∷ 9 ∷ []) (0 ∷ [], 0 ∷ 0 ∷ [], refl, refl, refl)
      (λ e. omega (arith, e)) (omega arith)
