-- ===== src/Stack/Tests.antt =====
-- A frame with one whole message and the start of another.
use mathlib.Core.List.{flatten}
use akvarium.Prelude.{ℕ, ◌≡◌, true, none, some, [], ◌∷◌, arith, refl}
use akvarium.Protocol.{Word, ceil4}
use akvarium.Stack.{Frame, FrameStack, head, next, start, limit, complited, total, size, join}
use akvarium.Stack.Bounds.{Stays, stack-Inside}
use akvarium.Stack.{copy_parts}
use akvarium.Stack.Copy.{copy-join}

abbrev word : ℕ → Word
word n = record { lo = n; hi = 0 }

abbrev frame : Frame
frame = record { key = 1; pointer = 0; words = word 4 ∷ word 7 ∷ word 12 ∷ word 8 ∷ word 9 ∷ [] }

abbrev empty : FrameStack
empty = record { b2 = 0; e2 = 0; f = none }

abbrev after_head : FrameStack
after_head = record {
  b2 = 2;
  e2 = 5;
  f = some (record { len = 4; parts = record { key = 1; b = 1; e = 2 } ∷ [] });
}

first_whole : (head empty frame ≡ some (true, after_head)) × (complited after_head.f ≡ true)
unfolding head start limit ceil4 complited total size
first_whole = (refl, refl)

stack-Inside_example : Stays (head empty frame) frame × Stays (next after_head frame) frame
stack-Inside_example =
    stack-Inside empty after_head frame tt (omega arith, refl, (omega arith, omega arith, tt))

-- Five bytes go into parts of four.
copy-join_example :
    join 5 0
      (copy_parts 5 0 (1 ∷ 2 ∷ 3 ∷ 4 ∷ 5 ∷ []) ((0 ∷ 0 ∷ 0 ∷ 0 ∷ []) ∷ (0 ∷ 0 ∷ 0 ∷ 0 ∷ []) ∷ []))
    ≡ 1 ∷ 2 ∷ 3 ∷ 4 ∷ 5 ∷ []
unfolding flatten
copy-join_example =
    copy-join (1 ∷ 2 ∷ 3 ∷ 4 ∷ 5 ∷ []) ((0 ∷ 0 ∷ 0 ∷ 0 ∷ []) ∷ (0 ∷ 0 ∷ 0 ∷ 0 ∷ []) ∷ [])
      (omega arith) (omega arith)
