-- ===== src/Layout/Tests.antt =====
-- Messages in frames of four and of eight words.
use akvarium.Prelude.{
  ℕ, zero, suc, ◌+◌, ◌≤◌, ◌≡◌, true, some, none, List, [], ◌∷◌, ◌++◌, arith, refl, ap, replicate,
}
use akvarium.Protocol.{Word, ceil4}
use akvarium.Stack.{Frame, FrameStack, Chain, next, limit}
use akvarium.Layout.{
  zero_word, len_at, set_len, allocate, frame_head, frame_next, scan, make, unpack, unpack_loop,
}
use akvarium.Layout.Large.{get_or-replicate}
use akvarium.Layout.Trip.{make-unpack, make_fresh-unpack}

abbrev addr : ℕ → ℕ
addr i = i + 1

abbrev empty : FrameStack
empty = record { b2 = 0; e2 = 0; f = none }

-- Twenty bytes: three words of the first frame, and two of the next.
make_fresh-unpack_example :
    unpack empty (make 22 addr 1 (allocate 4 1) 20).0
    ≡ some (record { len = 20; parts = (make 22 addr 1 (allocate 4 1) 20).1 } ∷ [])
make_fresh-unpack_example =
    make_fresh-unpack 21 addr 4 1 1 20 empty (omega arith) (omega arith) (omega arith) (omega arith)
      (omega arith)

-- A frame with a message of four bytes, and six free words.
abbrev used : Frame
used = record {
  key = 1;
  pointer = 0;
  words = record { lo = 4; hi = 0 } ∷ record { lo = 9; hi = 0 } ∷ replicate 6 zero_word;
}

abbrev after_first : FrameStack
after_first = record { b2 = 2; e2 = 8; f = none }

scan-used : scan 10 used (frame_head used).0 (frame_head used).1 ≡ some (2, 2)
unfolding scan frame_head frame_next limit ceil4
scan-used = refl

only_zeros : (j : ℕ) → 2 ≤ j → len_at used j ≡ 0
only_zeros zero h = absurd (omega arith)
only_zeros (suc zero) h = absurd (omega arith)
only_zeros (suc (suc j)) h = ap (λ (w : Word). w.lo) (get_or-replicate 6 j)

-- Thirty bytes: five words of this frame, and three of the next.
make-unpack_example :
    (let r = make 32 addr 1 used 30 in
      (ds : List Frame) × (s1 : FrameStack) × (xs : List Chain) × (s2 : FrameStack) × (ys : List
        Chain)
      × (r.0 ≡ set_len used 2 30 ∷ ds)
      × (next after_first (set_len used 2 30) ≡ some (true, s1))
      × (unpack_loop 9 s1 (set_len used 2 30) ≡ some (xs, s2))
      × (unpack s2 ds ≡ some ys)
      × (xs ++ ys ≡ record { len = 30; parts = r.1 } ∷ []))
make-unpack_example =
    make-unpack 31 addr 1 used 2 30 after_first (omega arith) (omega arith) (omega arith)
      (omega arith) (omega arith) only_zeros scan-used refl refl
