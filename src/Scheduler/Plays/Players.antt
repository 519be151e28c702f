-- ===== src/Scheduler/Plays/Players.antt =====
-- akva/driver.cpp: the workers that have played a task, in their order.
use akvarium.Prelude.{
  ℕ, ◌+◌, ◌<◌, ◌≡◌, ◌==◌, ◌++◌, Bool, true, false, Bool-cases, inl, inr, Option, none, some, List,
  [], ◌∷◌, arith, length, length-set, get_or, if◌then◌else◌, refl,
}
use akvarium.Prelude.Sums.{indicator}
use akvarium.Scheduler.{Driver, no_worker, create, attach, exec, run_sweep, on, on_job}
use akvarium.Scheduler.Plays.{times, Reach, starts, attaches, execs, sweeps, plays}
use akvarium.Scheduler.Plays.Keep.{length-snoc, sweep-length}

-- The workers that are through with task `x`, the first of them first.
abbrev pub players : ℕ → List (ℕ × ℕ) → List ℕ
players x [] = []
players x ((v, y) ∷ l) = let rest = players x l in if x == y then rest ++ v ∷ [] else rest

abbrev pub count : ℕ → List ℕ → ℕ
count w [] = 0
count w (v ∷ vs) = indicator v w + count w vs

count-snoc : (w v : ℕ) (vs : List ℕ) → count w (vs ++ v ∷ []) ≡ indicator v w + count w vs
count-snoc w v [] = refl
count-snoc w v (u ∷ us) = omega (arith, count-snoc w v us)

pub count-players : (w x : ℕ) (l : List (ℕ × ℕ)) → count w (players x l) ≡ times w x l
count-players w x [] = refl
count-players w x ((v, y) ∷ l) = elim (Bool-cases (x == y)) [
  | inl e ↦ rw e (omega (arith, count-snoc w v (players x l), count-players w x l))
  | inr e ↦ rw e (count-players w x l)
]

on_job-length :
    (done : Bool) (d : Driver) (w : ℕ) (job : Option ℕ)
    → length (on_job done d w job).workers ≡ length d.workers
unfolding on_job
on_job-length true d w none = refl
on_job-length false d w none = refl
on_job-length false d w (some m) = length-set d.workers w _
on_job-length true d w (some m) = length-set d.workers w _

-- There is always the worker of the driver itself.
pub Reach-first : {d : Driver} {l : List (ℕ × ℕ)} → Reach d l → 0 < length d.workers
unfolding create attach exec run_sweep on
Reach-first starts = omega arith
Reach-first (attaches {d} {l} r) = omega (arith, length-snoc d.workers)
Reach-first (execs r) = Reach-first r
Reach-first (sweeps {d} {l} r) = omega (arith, Reach-first r, sweep-length d.idle d.workers d.tasks)
Reach-first (plays {d} {l} done w r) =
    omega (arith, Reach-first r, on_job-length done d w (get_or d.workers w no_worker).job)
