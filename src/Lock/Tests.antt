-- ===== src/Lock/Tests.antt =====
-- Thread 0 has the lock, and thread 1 waits for it.
use akvarium.Prelude.{ℕ, ◌≡◌, refl}
use akvarium.Lock.{
  init, cas, try_lock, look, after_try, System, move, outside, waits, holds, enter, test, swap,
  Reach, start, later,
}
use akvarium.Lock.Exclusion.{mutual_exclusion}

abbrev held : System
held = record {
  word = 1;
  place =
      move (move (move (move (move (λ i. outside) 0 waits) 0 (look 0)) 0 holds) 1 waits) 1 (look 1);
}

held-Reach : Reach held
unfolding init try_lock cas look after_try
held-Reach =
    later
      (later (later (later (later (start 7) (enter 0 refl)) (test 0 refl)) (swap 0 refl))
        (enter 1 refl))
      (test 1 refl)

held_0 : held.place 0 ≡ holds
unfolding look
held_0 = refl

mutual_exclusion_example : (◌≡◌ {A = ℕ} 0 0) × (held.word ≡ 1)
mutual_exclusion_example = mutual_exclusion 0 0 held-Reach held_0 held_0
