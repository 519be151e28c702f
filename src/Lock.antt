-- ===== src/Lock.antt =====
-- engine/spin_lock.cpp: MicroSpinLock. Threads are numbers, and take steps of one atomic access each, in
-- any order; what Sleeper does while it waits is left out, and the memory order of the accesses is
-- that of the steps.
pub mod Exclusion
mod Tests
use akvarium.Prelude.{ℕ, ◌<◌, ◌≡◌, ◌==◌, Bool, true, false, if◌then◌else◌}

-- MicroSpinLock::FREE, MicroSpinLock::LOCKED
abbrev pub free : ℕ
free = 0

abbrev pub locked : ℕ
locked = 1

-- MicroSpinLock::init, on lock_
unfoldable pub init : ℕ → ℕ
init word = free

-- MicroSpinLock::cas
unfoldable pub cas : ℕ → ℕ → ℕ → Bool × ℕ
cas compare new_val word = if word == compare then (true, new_val) else (false, word)

-- MicroSpinLock::try_lock
unfoldable pub try_lock : ℕ → Bool × ℕ
unfolding cas
try_lock word = cas free locked word

-- MicroSpinLock::unlock
unfoldable pub unlock : ℕ → ℕ
unlock word = free

-- Where a thread stands: outside; at the load of the while loop of MicroSpinLock::lock; at the
-- try_lock after it; or with the lock.
pub data Place : Type 0 where
  outside : Place
  waits : Place
  tries : Place
  holds : Place

-- The load of the while loop, and what follows it.
unfoldable pub look : ℕ → Place
look word = if word == free then tries else waits

-- After try_lock, in the loop of lock, and by itself.
unfoldable pub after_try : Bool → Place
after_try b = if b then holds else waits

unfoldable pub after_single_try : Bool → Place
after_single_try b = if b then holds else outside

-- lock_ and where the threads stand.
pub record System : Type 0 where
  pub word : ℕ
  pub place : ℕ → Place

abbrev pub move : (ℕ → Place) → ℕ → Place → ℕ → Place
move f i p j = if i == j then p else f j

pub data Step (s : System) : System → Type 0 where
  enter : (i : ℕ) → s.place i ≡ outside → Step s (record s { place = move s.place i waits })
  test : (i : ℕ) → s.place i ≡ waits → Step s (record s { place = move s.place i (look s.word) })
  swap :
      (i : ℕ)
      → s.place i ≡ tries
      → Step s (record {
        word = (try_lock s.word).1;
        place = move s.place i (after_try (try_lock s.word).0);
      })
  swap_once :
      (i : ℕ)
      → s.place i ≡ outside
      → Step s (record {
        word = (try_lock s.word).1;
        place = move s.place i (after_single_try (try_lock s.word).0);
      })
  leave :
      (i : ℕ)
      → s.place i ≡ holds
      → Step s (record { word = unlock s.word; place = move s.place i outside })

-- What init, and then any steps, lead to.
pub data Reach : System → Type 0 where
  start : (word : ℕ) → Reach (record { word = init word; place = λ i. outside })
  later : {s t : System} → Reach s → Step s t → Reach t
