-- ===== src/Clock/Tests.antt =====
-- A clock in the year 2023.
use akvarium.Prelude.{◌≡◌, [], ◌∷◌, arith, refl, u32}
use akvarium.Clock.{Clock, marks, history_tiker, count_call}
use akvarium.Clock.Marks.{Rise, marks-Rise}

abbrev clock : Clock
clock = record { tmark = 1700000000005; tseq = 0 }

marks_run :
    marks (1700000000005 ∷ 1700000000005 ∷ 1700000000009 ∷ []) clock
    ≡ (3487918085, 1) ∷ (3487918085, 2) ∷ (3487918089, 0) ∷ []
unfolding marks history_tiker count_call
marks_run = refl

marks-Rise_example :
    Rise (u32 1700000000005, 0) (marks (1700000000005 ∷ 1700000000005 ∷ 1700000000009 ∷ []) clock)
marks-Rise_example =
    marks-Rise 1700000000009 (1700000000005 ∷ 1700000000005 ∷ 1700000000009 ∷ []) clock refl
      (omega arith)
      (omega arith, omega arith, (omega arith, omega arith, (omega arith, omega arith, tt)))
      (omega arith)
